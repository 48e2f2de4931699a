-- ===== src/Sched/Ends.antt =====
-- The end of the sleep in `sleep_on` (ver05/kernel/sched.c): what one call of `wake_up` leads to.
use linux_0_12_study.Base.{
  List, Option, Option-cases, [], ap, arith, eq→==, inl, inr, is_some, length, none, refl, some,
  subst, sym, true, ℕ, ◌*◌, ◌<◌, ◌∙◌, ◌∷◌, ◌≡◌, ◌≢◌, ◌≤◌, ◌⊎◌,
}
use mathlib.Core.Option.{some_inj}
use linux_0_12_study.Task.{Task, Tasks, Kernel}
use linux_0_12_study.Sched.{schedule}
use linux_0_12_study.Sched.Choice.{Priorities, schedule-IsNext}
use linux_0_12_study.Sched.Sleep.{Waiting, set_state, make_ready, woken, Reach}
use linux_0_12_study.Sched.Queue.{Links, IsQueue, IsFresh, Reach-IsQueue, with_kernel-IsQueue}
use linux_0_12_study.Sched.Calm.{state_of, Calm, schedule-Calm}
use linux_0_12_study.Sched.Weight.{
  total, AllLive, FirstReady, set_state_self, set_state-live, weight,
}
use linux_0_12_study.Sched.Drain.{Drain, IsDraining, drains}

Links-AllLive :
    (tmp : ℕ → Option (Option ℕ)) (task : Tasks) (q : Option ℕ) (l : List ℕ)
    → Links tmp q l
    → ((j : ℕ) (t : Option ℕ) → tmp j ≡ some t → is_some (task j) ≡ true)
    → AllLive task l
Links-AllLive tmp task q [] _ _ = tt
Links-AllLive tmp task q (i ∷ l) (_, (t, e, rest)) live =
    (live i t e, Links-AllLive tmp task t l rest live)

make_ready-first :
    (q : Option ℕ) (k : Kernel) (tmp : ℕ → Option (Option ℕ)) (l : List ℕ)
    → Links tmp q l
    → AllLive k.task l
    → FirstReady (make_ready q k).task l × AllLive (make_ready q k).task l
make_ready-first none k tmp [] _ _ = (tt, tt)
make_ready-first none k tmp (i ∷ l) (e, _) _ = absurd (cc e)
make_ready-first (some j) k tmp [] e _ = absurd (cc e)
make_ready-first (some j) k tmp (i ∷ l) (e, _) live =
    let same : j ≡ i = some_inj.0 e in
    (
      subst (λ x. state_of ((set_state 0 j k).task x) ≡ 0) same
          (set_state_self 0 j k (subst (λ x. is_some (k.task x) ≡ true) (sym same) live.0)),
      set_state-live 0 j k (i ∷ l) live,
    )

woken-IsDraining :
    (w : Waiting) (l : List ℕ)
    → IsQueue w l
    → ((j : ℕ) (t : Option ℕ) → w.tmp j ≡ some t → is_some (w.kernel.task j) ≡ true)
    → IsDraining (woken w) l
woken-IsDraining w l h live =
    let (first, all) =
      make_ready-first w.queue w.kernel w.tmp l h.links
        (Links-AllLive w.tmp w.kernel.task w.queue l h.links live) in
    record {
      is_queue = with_kernel-IsQueue (make_ready w.queue w.kernel) w l h;
      live = all;
      first = first;
    }

weight-le_three : (s : ℕ) → weight s ≤ 3
weight-le_three s = ground arith

total-le : (task : Tasks) (l : List ℕ) → total task l ≤ 3 * length l
total-le task [] = omega arith
total-le task (i ∷ l) = omega (arith, weight-le_three (state_of (task i)), total-le task l)

-- Nobody sleeps any more, or `schedule` does not choose the idle task.
abbrev pub GoesOn : Waiting → Type 0
GoesOn w =
    ((j : ℕ) → w.tmp j ≡ none) ⊎ ((k : Kernel) × (schedule 2 w.kernel ≡ some k) × (k.current ≢ 0))

Calm-ready : (o o' : Option Task) → Calm o o' → state_of o ≡ 0 → state_of o' ≡ 0
Calm-ready o o' (_, h) e = ground (arith, h, e)

ready_task :
    (task : Tasks) (i : ℕ)
    → ((j : ℕ) (t : Task) → task j ≡ some t → 0 < j → j ≤ 63 → t.state ≢ 0)
    → 0 < i
    → i < 64
    → state_of (task i) ≡ 0
    → ⊥
ready_task task i nobody lo hi e = elim (Option-cases (task i)) [
  | inl z ↦ absurd (omega (arith, sym e ∙ ap state_of z))
  | inr (t, z) ↦ nobody i t z lo (omega arith) (sym (ap state_of z) ∙ e)
]

IsDraining-GoesOn :
    (w : Waiting) (l : List ℕ) → Priorities w.kernel.task → IsDraining w l → GoesOn w
IsDraining-GoesOn w [] _ h = inl (λ j. elim (Option-cases (w.tmp j)) [
  | inl z ↦ z
  | inr (t, e) ↦ absurd (cc (h.is_queue.all_in j t e))
])
IsDraining-GoesOn w (i ∷ l) p h =
    let (task', next, run, how, best) = schedule-IsNext 0 w.kernel p in
    let k = record w.kernel { task = task'; current = next } in
    elim best [
      | inr (t, e, runs, pos, _, _, _) ↦ inr (k, run, λ z. absurd (omega (arith, z, pos)))
      | inl (z, nobody) ↦
          let bounds = h.is_queue.all_inside i (rw (eq→== i i refl) refl) in
          absurd (
            ready_task task' i nobody bounds.0 bounds.1 (
              Calm-ready (w.kernel.task i) (task' i) ((schedule-Calm 2 w.kernel k run).0 i)
                h.first))
    ]

-- After one `wake_up` of a queue whose tasks exist, while no other task begins to sleep on it, the
-- tasks of the queue take at most three turns for each of them, however they and others are
-- scheduled and whatever signals come; and as long as one of them is left, `schedule` does not
-- choose the idle task, if counters and priorities are below 2 ^ 30 and priorities positive.
pub wake_up-GoesOn :
    {s w w' : Waiting} {n : ℕ}
    → IsFresh s
    → Reach s w
    → ((j : ℕ) (t : Option ℕ) → w.tmp j ≡ some t → is_some (w.kernel.task j) ≡ true)
    → Drain w' n (woken w)
    → Priorities w'.kernel.task
    → (l : List ℕ) × IsQueue w l × (n ≤ 3 * length l) × GoesOn w'
wake_up-GoesOn {s} {w} {w'} fresh r live d p =
    let (l, h) = Reach-IsQueue fresh r in
    let (l', h', less) = drains d l (woken-IsDraining w l h live) in
    (l, h, omega (arith, less, total-le (woken w).kernel.task l), IsDraining-GoesOn w' l' p h')
