-- ===== src/Fork/Pids.antt =====
-- `find_empty_process` of ver05/kernel/fork.c: its loop ends, with a number that is free.
use linux_0_12_study.Base.{
  Bool-cases, Option, Option-cases, ap, arith, false, if◌then◌else◌, inl, inr, neg, none, refl,
  some, subst, suc, sym, zero, ℕ, ℕ_discrete, ◌+◌, ◌-◌, ◌<◌, ◌^◌, ◌∙◌, ◌≡◌, ◌≢◌, ◌≤◌, ◌⊎◌,
}
use mathlib.Core.Option
use linux_0_12_study.Task.{Task, Tasks, nr_tasks}
use linux_0_12_study.Fork.{
  uses, taken_from, find_pid, free_slot, next_pid, find_empty_process, eagain, slot_or,
}
use linux_0_12_study.Fork.Codes.{found}

abbrev or_zero : Option ℕ → ℕ
or_zero none = 0
or_zero (some x) = x

-- What is found is free.
find_pid-free :
    (fuel last pid : ℕ) (task : Tasks)
    → find_pid fuel last task ≡ some pid
    → taken_from nr_tasks pid task ≡ false
unfolding find_pid
find_pid-free zero last pid task h = ground arith
find_pid-free (suc fuel) last pid task h =
    elim (Bool-cases (taken_from nr_tasks (next_pid last) task)) [
      | inl t ↦ find_pid-free fuel (next_pid last) pid task (
          sym (ap (λ b. if b then find_pid fuel (next_pid last) task else some (next_pid last)) t)
          ∙ h)
      | inr t ↦
          let now =
            sym (ap (λ b. if b then find_pid fuel (next_pid last) task else some (next_pid last)) t)
            ∙ h in
          let same : next_pid last ≡ pid = ap (λ o. or_zero o) now in
          subst (λ p. taken_from nr_tasks p task ≡ false) same t
    ]

taken_from-unused :
    (n pid i : ℕ) (t : Task) (task : Tasks)
    → n ≤ nr_tasks
    → taken_from n pid task ≡ false
    → i < nr_tasks
    → nr_tasks ≤ i + n
    → task i ≡ some t
    → (t.pid ≢ pid) × (t.pgrp ≢ pid)
unfolding taken_from
taken_from-unused zero pid i t task l h b c e = absurd (omega arith)
taken_from-unused (suc n) pid i t task l h b c e = elim (ℕ_discrete (nr_tasks - suc n) i) [
  | yes p ↦
      let u : uses pid (task (nr_tasks - suc n)) ≡ false = ground arith in
      let v : uses pid (some t) ≡ false = sym (ap (uses pid) (ap task p ∙ e)) ∙ u in
      ground (arith, v)
  | no p ↦
      let rest : taken_from n pid task ≡ false = ground arith in
      taken_from-unused n pid i t task (omega arith) rest b (omega arith) e
]

-- The first free slot, or none in the last n slots.
abbrev FreeSlot : ℕ → Tasks → ℕ → Type 0
FreeSlot n task slot =
    ((slot ≡ neg eagain) × ((i : ℕ) → i < nr_tasks → nr_tasks ≤ i + n → task i ≢ none))
    ⊎ ((0 < slot) × (slot < nr_tasks) × (task slot ≡ none))

FreeSlot-suc :
    (n slot : ℕ) (t : Task) (task : Tasks)
    → task (nr_tasks - suc n) ≡ some t
    → FreeSlot n task slot
    → FreeSlot (suc n) task slot
FreeSlot-suc n slot t task e (inl (a, f)) = inl (
  a,
  λ i b c z. elim (ℕ_discrete (nr_tasks - suc n) i) [
    | yes p ↦ let w : some t ≡ none = sym e ∙ ap task p ∙ z in ground arith
    | no p ↦ f i b (omega arith) z
  ],
)
FreeSlot-suc n slot t task e (inr h) = inr h

free_slot-FreeSlot : (n : ℕ) (task : Tasks) → n < nr_tasks → FreeSlot n task (free_slot n task)
unfolding free_slot
free_slot-FreeSlot zero task h = inl (refl, λ i a b. absurd (omega arith))
free_slot-FreeSlot (suc n) task h =
    let i = nr_tasks - suc n in
    let rest = free_slot n task in
    elim (Option-cases (task i)) [
      | inl e ↦
          subst (λ r. FreeSlot (suc n) task r) (sym (ap (λ o. slot_or o i rest) e))
            (inr (omega arith, omega arith, e))
      | inr (t, e) ↦
          subst (λ r. FreeSlot (suc n) task r) (sym (ap (λ o. slot_or o i rest) e))
            (FreeSlot-suc n rest t task e (free_slot-FreeSlot n task (omega arith)))
    ]

slot_of :
    (task : Tasks) (slot : ℕ)
    → FreeSlot (nr_tasks - 1) task slot
    → ((slot ≡ neg eagain) × ((i : ℕ) → 0 < i → i < nr_tasks → task i ≢ none))
      ⊎ ((0 < slot) × (slot < nr_tasks) × (task slot ≡ none))
slot_of task slot (inl (a, f)) = inl (a, λ i b c. f i c (omega arith))
slot_of task slot (inr h) = inr h

-- A number that no task uses, and a slot that is free if there is one.
pub record Fresh (task : Tasks) (pid slot : ℕ) : Type 0 where
  pub unused : (i : ℕ) (t : Task) → i < nr_tasks → task i ≡ some t → (t.pid ≢ pid) × (t.pgrp ≢ pid)
  pub slot_free :
      ((slot ≡ neg eagain) × ((i : ℕ) → 0 < i → i < nr_tasks → task i ≢ none))
      ⊎ ((0 < slot) × (slot < nr_tasks) × (task slot ≡ none))

-- `find_empty_process` ends within 259 rounds whatever numbers are in use, also where `last_pid` wraps
-- around: the new number is neither the pid nor the group of any task, and the slot is free, or
-- it is -EAGAIN and slots 1 to 63 are all in use.
pub find_empty_process-Fresh :
    (last : ℕ) (task : Tasks)
    → last < 2 ^ 31
    → (pid : ℕ) × (slot : ℕ) × (find_empty_process 259 last task ≡ some (pid, slot))
      × Fresh task pid slot
unfolding find_empty_process
find_empty_process-Fresh last task h = elim (Option-cases (find_pid 259 last task)) [
  | inl e ↦ absurd (found last task h e)
  | inr (pid, e) ↦ (
    pid,
    free_slot (nr_tasks - 1) task,
    ap (Option.map {A = ℕ} (λ p. (p, free_slot (nr_tasks - 1) task))) e,
    record {
      unused = λ i t l q.
          taken_from-unused nr_tasks pid i t task (omega arith) (find_pid-free 259 last pid task e)
            l (omega arith) q;
      slot_free =
          slot_of task (free_slot (nr_tasks - 1) task)
            (free_slot-FreeSlot (nr_tasks - 1) task (omega arith));
    },
  )
]
