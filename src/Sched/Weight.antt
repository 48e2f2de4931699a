-- ===== src/Sched/Weight.antt =====
-- The steps that the tasks of a wait queue (ver05/kernel/sched.c) have left, once it has been woken.
use linux_0_12_study.Base.{
  ==_iff, Bool-cases, List, Option, [], ap, arith, eq→==, false, has, if◌then◌else◌, inl, inr,
  is_some, ne→==_false, none, refl, some, subst, suc, sym, true, ℕ, ℕ_discrete, ◌+◌, ◌==◌, ◌∙◌, ◌∷◌,
  ◌≡◌, ◌≢◌, ◌≤◌,
}
use mathlib.Core.Option
use linux_0_12_study.Task.{Task, Tasks, Kernel}
use linux_0_12_study.Sched.Sleep.{set_state}
use linux_0_12_study.Sched.Calm.{state_of, Calm}

-- A task that waits and can be interrupted counts 3, one that is ready 2, any other 1.
abbrev pub weight : ℕ → ℕ
weight s = if s == 0 then 2 else if s == 1 then 3 else 1

abbrev pub total : Tasks → List ℕ → ℕ
total task [] = 0
total task (i ∷ l) = weight (state_of (task i)) + total task l

abbrev pub AllLive : Tasks → List ℕ → Type 0
AllLive task [] = Unit {0}
AllLive task (i ∷ l) = (is_some (task i) ≡ true) × AllLive task l

-- The first task of the queue can run.
abbrev pub FirstReady : Tasks → List ℕ → Type 0
FirstReady task [] = Unit {0}
FirstReady task (i ∷ l) = state_of (task i) ≡ 0

abbrev pub AllCalm : Tasks → Tasks → List ℕ → Type 0
AllCalm task task' [] = Unit {0}
AllCalm task task' (i ∷ l) = Calm (task i) (task' i) × AllCalm task task' l

pub AllCalm-total :
    (task task' : Tasks) (l : List ℕ) → AllCalm task task' l → total task' l ≤ total task l
AllCalm-total task task' [] _ = omega arith
AllCalm-total task task' (i ∷ l) ((_, c), rest) =
    let less = AllCalm-total task task' l rest in
    let this : weight (state_of (task' i)) ≤ weight (state_of (task i)) = ground (arith, c) in
    omega (arith, less, this)

pub AllCalm-live :
    (task task' : Tasks) (l : List ℕ) → AllCalm task task' l → AllLive task l → AllLive task' l
AllCalm-live task task' [] _ _ = tt
AllCalm-live task task' (i ∷ l) ((s, c), rest) (live, others) =
    (s ∙ live, AllCalm-live task task' l rest others)

pub AllCalm-first :
    (task task' : Tasks) (l : List ℕ)
    → AllCalm task task' l
    → FirstReady task l
    → FirstReady task' l
AllCalm-first task task' [] _ _ = tt
AllCalm-first task task' (i ∷ l) ((s, c), rest) first = ground (arith, c, first)

pub map-state :
    (s : ℕ) (o : Option Task)
    → is_some o ≡ true
    → state_of (Option.map {A = Task} (λ t. record t { state = s }) o) ≡ s
map-state s none h = absurd (cc h)
map-state s (some t) h = refl

map-is_some : (f : Task → Task) (o : Option Task) → is_some (Option.map f o) ≡ is_some o
map-is_some f none = refl
map-is_some f (some t) = refl

ready_live : (o : Option Task) → state_of o ≡ 0 → is_some o ≡ true
ready_live none h = absurd (omega (arith, h))
ready_live (some t) h = refl

module _ (s i : ℕ) (k : Kernel) where
  pub set_state_self : is_some (k.task i) ≡ true → state_of ((set_state s i k).task i) ≡ s
  set_state_self live = rw (eq→== i i refl) (map-state s (k.task i) live)

  pub set_state-ne : (j : ℕ) → j ≢ i → (set_state s i k).task j ≡ k.task j
  set_state-ne j ne = rw (ne→==_false j i ne) refl

  pub set_state-live : (l : List ℕ) → AllLive k.task l → AllLive (set_state s i k).task l
  set_state-live [] _ = tt
  set_state-live (j ∷ l) (live, rest) = (
    elim (Bool-cases (j == i)) [
      | inl e ↦ rw e (map-is_some (λ t. record t { state = s }) (k.task j) ∙ live)
      | inr e ↦ rw e live
    ],
    set_state-live l rest,
  )

  -- A task that is not in the list has no part in its total.
  pub set_state-total_out :
      (l : List ℕ) → has i l ≡ false → total (set_state s i k).task l ≡ total k.task l
  set_state-total_out [] _ = refl
  set_state-total_out (j ∷ l) out =
      let rest = set_state-total_out l (ground (arith, out)) in
      let this = set_state-ne j (ground (arith, out)) in
      ap (λ o. weight (state_of o) + total (set_state s i k).task l) this
      ∙ ap (λ n. weight (state_of (k.task j)) + n) rest

total-le :
    (task task' : Tasks) (l : List ℕ)
    → ((j : ℕ) → weight (state_of (task' j)) ≤ weight (state_of (task j)))
    → total task' l ≤ total task l
total-le task task' [] h = omega arith
total-le task task' (i ∷ l) h = omega (arith, h i, total-le task task' l h)

-- The states after one is set.
state_at :
    (s i : ℕ) (k : Kernel) (j : ℕ)
    → is_some (k.task i) ≡ true
    → state_of ((set_state s i k).task j) ≡ (if j == i then s else state_of (k.task j))
state_at s i k j live = elim (ℕ_discrete j i) [
  | yes e ↦
      subst (λ x. state_of ((set_state s i k).task x) ≡ (if x == i then s else state_of (k.task x)))
        (sym e) (set_state_self s i k live ∙ (rw (eq→== i i refl) refl))
  | no ne ↦ ap state_of (set_state-ne s i k j ne) ∙ (rw (ne→==_false j i ne) refl)
]

weight-le :
    (s i : ℕ) (k : Kernel) (j : ℕ)
    → state_of (k.task i) ≡ 0
    → weight s ≤ 2
    → weight (state_of ((set_state s i k).task j)) ≤ weight (state_of (k.task j))
weight-le s i k j ready small =
    subst (λ x. weight x ≤ weight (state_of (k.task j)))
      (sym (state_at s i k j (ready_live (k.task i) ready)))
      (elim (Bool-cases (j == i)) [
        | inl e ↦
            let same : state_of (k.task j) ≡ 0 =
              ap (λ x. state_of (k.task x)) ((==_iff j i).0 e) ∙ ready in
            rw (e, same) small
        | inr e ↦ rw e (omega arith)
      ])

-- A task that was ready and sleeps on, uninterruptible, makes the total less.
pub total-sleep :
    (i : ℕ) (k : Kernel) (l : List ℕ)
    → state_of (k.task i) ≡ 0
    → has i l ≡ true
    → suc (total (set_state 2 i k).task l) ≤ total k.task l
total-sleep i k [] ready inside = absurd (cc inside)
total-sleep i k (j ∷ l) ready inside = elim (ℕ_discrete i j) [
  | yes e ↦
      let before : weight (state_of (k.task j)) ≡ 2 = rw (← e, ready) refl in
      let after : weight (state_of ((set_state 2 i k).task j)) ≡ 1 =
        rw (← e, set_state_self 2 i k (ready_live (k.task i) ready)) refl in
      omega (
        arith,
        before,
        after,
        total-le k.task (set_state 2 i k).task l (λ x. weight-le 2 i k x ready (omega arith)),
      )
  | no ne ↦ omega (
    arith,
    weight-le 2 i k j ready (omega arith),
    total-sleep i k l ready (ground (arith, inside, ne)),
  )
]

-- Making a task ready that was so makes no total more.
pub total-ready :
    (i : ℕ) (k : Kernel) (l : List ℕ)
    → state_of (k.task i) ≡ 0
    → total (set_state 0 i k).task l ≤ total k.task l
total-ready i k l ready =
    total-le k.task (set_state 0 i k).task l (λ x. weight-le 0 i k x ready (omega arith))
