-- ===== src/Fork/Codes.antt =====
-- The search for a number in `find_empty_process` of ver05/kernel/fork.c ends: a number is taken in a
-- slot as a pid or as a group, and there are 128 of these places.
use linux_0_12_study.Base.{
  Bool, Bool-cases, List, Option, [], ap, arith, dec_lt, false, has, if◌then◌else◌, inl, inr,
  length, ne→==_false, none, refl, some, subst, suc, true, zero, ℕ, ◌%◌, ◌*◌, ◌+◌, ◌-◌, ◌/◌, ◌<◌,
  ◌==◌, ◌^◌, ◌∙◌, ◌∷◌, ◌≡◌, ◌≤◌,
}
use linux_0_12_study.Base.Pigeonhole.{Distinct, AllBelow, pigeonhole}
use linux_0_12_study.Task.{Task, Tasks, nr_tasks}
use linux_0_12_study.Fork.{uses, taken_from, find_pid, next_pid}

-- The number that a code stands for: the pid of slot i for 2 * i, its group for 2 * i + 1.
abbrev number_of : Option Task → ℕ → ℕ
number_of none c = 0
number_of (some t) c = if c % 2 == 0 then t.pid else t.pgrp

abbrev value : Tasks → ℕ → ℕ
value task c = number_of (task (c / 2)) c

abbrev code_in : Option Task → ℕ → ℕ → ℕ
code_in none i pid = 0
code_in (some t) i pid = if t.pid == pid then 2 * i else 2 * i + 1

-- Where a number that is taken is used.
code : ℕ → ℕ → Tasks → ℕ
code zero pid task = 0
code (suc n) pid task =
    if uses pid (task (nr_tasks - suc n))
    then code_in (task (nr_tasks - suc n)) (nr_tasks - suc n) pid
    else code n pid task

code_in-value :
    (o : Option Task) (i pid : ℕ)
    → uses pid o ≡ true
    → (number_of o (code_in o i pid) ≡ pid)
      × (code_in o i pid / 2 ≡ i)
      × (code_in o i pid ≤ 2 * i + 1)
code_in-value none i pid h = ground arith
code_in-value (some t) i pid h = elim (Bool-cases (t.pid == pid)) [
  | inl e ↦ rw e (
      let m : (2 * i % 2 == 0) ≡ true = ground arith in
      rw m (ground arith, omega arith, omega arith))
  | inr e ↦ rw e (
      let m : ((2 * i + 1) % 2 == 0) ≡ false = ground arith in
      rw m (ground arith, omega arith, omega arith))
]

code-value :
    (n pid : ℕ) (task : Tasks)
    → n ≤ nr_tasks
    → taken_from n pid task ≡ true
    → (value task (code n pid task) ≡ pid) × (code n pid task < 2 * nr_tasks)
unfolding taken_from code
code-value zero pid task l h = ground arith
code-value (suc n) pid task l h = elim (Bool-cases (uses pid (task (nr_tasks - suc n)))) [
  | inl e ↦
      let o = task (nr_tasks - suc n) in
      let i = nr_tasks - suc n in
      let (v, half, most) = code_in-value o i pid e in
      rw e ((ap (λ j. number_of (task j) (code_in o i pid)) half ∙ v, omega (arith, most)))
  | inr e ↦ rw e (code-value n pid task (omega arith) (ground (arith, e)))
]

-- The codes of the numbers that a search of `fuel` rounds finds taken.
abbrev codes : ℕ → ℕ → Tasks → List ℕ
codes zero last task = []
codes (suc fuel) last task = code nr_tasks (last + 1) task ∷ codes fuel (last + 1) task

next_pid-suc : (last : ℕ) → last + 1 < 2 ^ 31 → next_pid last ≡ last + 1
next_pid-suc last h = ground arith

repeats :
    (b : Bool) (again : Option ℕ) (pid : ℕ)
    → (if b then again else some pid) ≡ none
    → (b ≡ true) × (again ≡ none)
repeats true again pid h = (refl, h)
repeats false again pid h = ground arith

missed-step :
    (fuel last : ℕ) (task : Tasks)
    → find_pid (suc fuel) last task ≡ none
    → (taken_from nr_tasks (next_pid last) task ≡ true)
      × (find_pid fuel (next_pid last) task ≡ none)
unfolding find_pid
missed-step fuel last task h =
    repeats (taken_from nr_tasks (next_pid last) task) (find_pid fuel (next_pid last) task)
      (next_pid last) h

-- Without a wrap-around the numbers go up, so that no code comes twice.
codes-later :
    (fuel last c : ℕ) (task : Tasks)
    → last + fuel < 2 ^ 31
    → find_pid fuel last task ≡ none
    → value task c ≤ last
    → has c (codes fuel last task) ≡ false
codes-later zero last c task r h l = refl
codes-later (suc fuel) last c task r h l =
    let e = next_pid-suc last (omega arith) in
    let (t, again) = missed-step fuel last task h in
    let (v, _) =
      code-value nr_tasks (last + 1) task (omega arith)
        (subst (λ p. taken_from nr_tasks p task ≡ true) e t) in
    let rest =
      codes-later fuel (last + 1) c task (omega arith)
        (subst (λ p. find_pid fuel p task ≡ none) e again) (omega arith) in
    let differ : (c == code nr_tasks (last + 1) task) ≡ false =
      ne→==_false c (code nr_tasks (last + 1) task)
        (λ q. absurd (omega (arith, ap (value task) q, v))) in
    rw (differ, rest) refl

codes-Distinct :
    (fuel last : ℕ) (task : Tasks)
    → last + fuel < 2 ^ 31
    → find_pid fuel last task ≡ none
    → Distinct (codes fuel last task) × AllBelow (2 * nr_tasks) (codes fuel last task)
codes-Distinct zero last task r h = (tt, tt)
codes-Distinct (suc fuel) last task r h =
    let e = next_pid-suc last (omega arith) in
    let (t, again) = missed-step fuel last task h in
    let (v, b) =
      code-value nr_tasks (last + 1) task (omega arith)
        (subst (λ p. taken_from nr_tasks p task ≡ true) e t) in
    let again' = subst (λ p. find_pid fuel p task ≡ none) e again in
    let (d, below) = codes-Distinct fuel (last + 1) task (omega arith) again' in
    (
      (
        codes-later fuel (last + 1) (code nr_tasks (last + 1) task) task (omega arith) again'
            (omega (arith, v)),
        d,
      ),
      (b, below),
    )

length-codes : (fuel last : ℕ) (task : Tasks) → length (codes fuel last task) ≡ fuel
length-codes zero last task = refl
length-codes (suc fuel) last task = ap suc (length-codes fuel (last + 1) task)

missed-fuel :
    (fuel last : ℕ) (task : Tasks)
    → last + fuel < 2 ^ 31
    → find_pid fuel last task ≡ none
    → fuel ≤ 2 * nr_tasks
missed-fuel fuel last task r h =
    let (d, below) = codes-Distinct fuel last task r h in
    omega
      (arith, pigeonhole (2 * nr_tasks) (codes fuel last task) d below, length-codes fuel last task)

missed-less :
    (fuel last : ℕ) (task : Tasks)
    → find_pid (suc fuel) last task ≡ none
    → find_pid fuel last task ≡ none
unfolding find_pid
missed-less zero last task h = refl
missed-less (suc fuel) last task h =
    let (t, again) = missed-step (suc fuel) last task h in
    rw t (missed-less fuel (next_pid last) task again)

missed-fewer :
    (k fuel last : ℕ) (task : Tasks)
    → find_pid (k + fuel) last task ≡ none
    → find_pid fuel last task ≡ none
missed-fewer zero fuel last task h =
    ap (λ n. find_pid n last task) {x = fuel} {y = 0 + fuel} (omega arith) ∙ h
missed-fewer (suc k) fuel last task h = missed-fewer k fuel last task (
    missed-less (k + fuel) last task
      (ap (λ n. find_pid n last task) {x = suc (k + fuel)} {y = suc k + fuel} (omega arith) ∙ h))

-- After the wrap-around the numbers start from 1.
missed-wrap :
    (to_end last : ℕ) (task : Tasks)
    → last + 1 + to_end ≡ 2 ^ 31
    → ¬ (find_pid (130 + to_end) last task ≡ none)
missed-wrap zero last task r h =
    let (_, again) =
      missed-step 129 last task
        (ap (λ n. find_pid n last task) {x = 130} {y = 130 + 0} (omega arith) ∙ h) in
    let one : next_pid last ≡ 1 = ground arith in
    absurd (
      omega (
        arith,
        missed-fuel 129 1 task (omega arith) (subst (λ p. find_pid 129 p task ≡ none) one again),
      ))
missed-wrap (suc d) last task r h =
    let (_, again) =
      missed-step (130 + d) last task
        (ap (λ n. find_pid n last task) {x = suc (130 + d)} {y = 130 + suc d} (omega arith) ∙ h) in
    missed-wrap d (last + 1) task (omega arith)
      (subst (λ p. find_pid (130 + d) p task ≡ none) (next_pid-suc last (omega arith)) again)

pub found : (last : ℕ) (task : Tasks) → last < 2 ^ 31 → ¬ (find_pid 259 last task ≡ none)
found last task r h = elim (dec_lt (last + 129) (2 ^ 31)) [
  | yes far ↦
      absurd (omega (arith, missed-fuel 129 last task far (missed-fewer 130 129 last task h)))
  | no near ↦ missed-wrap (2 ^ 31 - 1 - last) last task (omega arith) (
      missed-fewer (129 - (2 ^ 31 - 1 - last)) (130 + (2 ^ 31 - 1 - last)) last task (
        ap (λ n. find_pid n last task) {x = 129 - (2 ^ 31 - 1 - last) + (130 + (2 ^ 31 - 1 - last))}
          {y = 259} (omega arith)
        ∙ h))
]
