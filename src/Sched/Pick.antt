-- ===== src/Sched/Pick.antt =====
-- The search of `schedule` finds a task with the largest counter.
use linux_0_12_study.Base.{
  ==_iff, Bool-cases, Option-cases, and-left, and-right, ap, arith, false, inl, inr, int_lt, neg,
  refl, some, subst, suc, sym, true, zero, ℕ, ℕ_discrete, ◌&&◌, ◌<◌, ◌==◌, ◌^◌, ◌∙◌, ◌≡◌, ◌≤◌, ◌⊎◌,
}
use linux_0_12_study.Task.{Task, Tasks, task_running}
use linux_0_12_study.Sched.{better, pick}

-- No counter in the slots from 1 to n is negative.
abbrev pub Counters : ℕ → Tasks → Type 0
Counters n task = (i : ℕ) (t : Task) → task i ≡ some t → 0 < i → i ≤ n → t.counter < 2 ^ 31

-- The outcome of a search of the slots above n: no task of these can run, or `next` is one that can,
-- with the largest counter c, and the highest slot among those with c.
pub record IsBest (n m : ℕ) (task : Tasks) (c next : ℕ) : Type 0 where
  pub chosen :
      ((c ≡ neg 1) × (next ≡ 0))
      ⊎ ((t : Task) × (task next ≡ some t)
          × (t.state ≡ task_running)
          × (t.counter ≡ c)
          × (c < 2 ^ 31)
          × (n < next)
          × (next ≤ m))
  pub largest :
      (i : ℕ) (t : Task)
      → task i ≡ some t
      → t.state ≡ task_running
      → n < i
      → i ≤ m
      → (c < 2 ^ 31) × (t.counter ≤ c) × (next < i → t.counter < c)

module _ (n m : ℕ) (task : Tasks) (c next : ℕ) (b : IsBest (suc n) m task c next)
    (small : Counters m task) (le : suc n ≤ m) where
  below : c ≡ neg 1 ⊎ (c < 2 ^ 31)
  below = elim b.chosen [ inl (e, _) ↦ inl e | inr h ↦ inr h.4 ]

  skip :
      ((t : Task) → task (suc n) ≡ some t → t.state ≡ task_running → int_lt c t.counter ≡ false)
      → IsBest n m task c next
  skip h = record {
    chosen = elim b.chosen [
      | inl e ↦ inl e
      | inr (t, p, q, r, l, k, z) ↦ inr (t, p, q, r, l, omega arith, z)
    ];
    largest = λ i t e run lo hi. elim (ℕ_discrete i (suc n)) [
      | no ne ↦ b.largest i t e run (omega arith) hi
      | yes same ↦
          let e' : task (suc n) ≡ some t = subst (λ j. task j ≡ some t) same e in
          let here = h t e' run in
          let s = small (suc n) t e' (omega arith) le in
          (
            ground (arith, below, here),
            ground (arith, below, here),
            λ l. elim b.chosen [
              | inl z ↦ absurd (ground (arith, z, here))
              | inr (t, p, q, r, z, k, y) ↦ absurd (omega arith)
            ],
          )
    ];
  }

  take_it :
      (t : Task)
      → task (suc n) ≡ some t
      → t.state ≡ task_running
      → int_lt c t.counter ≡ true
      → IsBest n m task t.counter (suc n)
  take_it t e run lt =
      let s = small (suc n) t e (omega arith) le in
      record {
        chosen = inr (t, e, run, refl, s, omega arith, le);
        largest = λ i u e' run' lo hi. elim (ℕ_discrete i (suc n)) [
          | yes same ↦
              let q : some u ≡ some t = sym (subst (λ j. task j ≡ some u) same e') ∙ e in
              let q' : u ≡ t = cc in
              (s, omega (arith, ap Task.counter q'), λ l. absurd (omega arith))
          | no ne ↦
              let l = b.largest i u e' run' (omega arith) hi in
              (s, ground (arith, l, lt), λ k. ground (arith, l, lt))
        ];
      }

  better-IsBest : let r = better (suc n) (task (suc n)) (c, next) in IsBest n m task r.0 r.1
  unfolding better
  better-IsBest = elim (Option-cases (task (suc n))) [
    | inl e ↦ rw e (skip λ t e' run. absurd (cc))
    | inr (t, e) ↦ elim (Bool-cases ((t.state == task_running) && int_lt c t.counter)) [
      | inl yes_better ↦ rw e (
          rw yes_better (
            take_it t e
              ((==_iff t.state task_running).0 (and-left _ (int_lt c t.counter) yes_better))
              (and-right (t.state == task_running) _ yes_better)))
      | inr no_better ↦ rw e (
          rw no_better (
            skip λ u e' run.
              let q : u ≡ t = cc in
              subst (λ v. int_lt c v.counter ≡ false) (sym q)
                (ground (arith, ap Task.state q, run, no_better))))
    ]
  ]

pick-step :
    (n m : ℕ) (task : Tasks) (best : ℕ × ℕ)
    → IsBest n m task best.0 best.1
    → Counters m task
    → n ≤ m
    → let r = pick n task best in IsBest 0 m task r.0 r.1
unfolding pick
pick-step zero m task (c, next) b small le = b
pick-step (suc n) m task (c, next) b small le =
    pick-step n m task (better (suc n) (task (suc n)) (c, next))
      (better-IsBest n m task c next b small le) small (omega arith)

-- The search of all slots.
pub pick-IsBest :
    (m : ℕ) (task : Tasks)
    → Counters m task
    → let r = pick m task (neg 1, 0) in IsBest 0 m task r.0 r.1
pick-IsBest m task small =
    pick-step m m task (neg 1, 0)
      (record { chosen = inl (refl, refl); largest = λ i t e run lo hi. absurd (omega arith) })
      small (omega arith)
