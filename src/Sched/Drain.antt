-- ===== src/Sched/Drain.antt =====
-- The turns of the tasks of a wait queue (ver05/kernel/sched.c) that has been woken.
use linux_0_12_study.Base.{
  List, Option, [], ap, arith, has, inl, inr, is_some, none, refl, some, subst, suc, sym, true,
  zero, ℕ, ◌+◌, ◌<◌, ◌∙◌, ◌∷◌, ◌≡◌, ◌≢◌, ◌≤◌, ◌⊎◌,
}
use mathlib.Core.Option.{some_inj}
use linux_0_12_study.Task.{Tasks, Kernel}
use linux_0_12_study.Sched.{schedule}
use linux_0_12_study.Sched.Sleep.{Waiting, set_state, leave, wait_again, go_on, with_kernel}
use linux_0_12_study.Sched.Queue.{Links, IsQueue, go_on-Turn, with_kernel-IsQueue}
use linux_0_12_study.Sched.Calm.{state_of, Calm, schedule-Calm}
use linux_0_12_study.Sched.Weight.{
  total, AllLive, FirstReady, AllCalm, AllCalm-total, AllCalm-live, AllCalm-first, set_state_self,
  set_state-ne, set_state-live, set_state-total_out, total-sleep, total-ready, weight,
}

-- What happens after a `wake_up` while no task begins to sleep: n turns of the tasks of the queue that
-- `schedule` chooses, and between them whatever leaves the states of these tasks alone, but that an
-- interruptible one may be made ready by a signal.
pub data Drain (w' : Waiting) : ℕ → Waiting → Type 0 where
  done : Drain w' zero w'
  turn :
      (n fuel : ℕ) (t : Option ℕ) (w : Waiting) (k : Kernel)
      → schedule fuel w.kernel ≡ some k
      → w.tmp k.current ≡ some t
      → Drain w' n (go_on t (with_kernel k w))
      → Drain w' (suc n) w
  besides :
      (n : ℕ) (w : Waiting) (k : Kernel)
      → ((j : ℕ) (t : Option ℕ) → w.tmp j ≡ some t → Calm (w.kernel.task j) (k.task j))
      → Drain w' n (with_kernel k w)
      → Drain w' n w

-- The queue, whose tasks are there and whose first one can run.
pub record IsDraining (w : Waiting) (l : List ℕ) : Type 0 where
  pub is_queue : IsQueue w l
  pub live : AllLive w.kernel.task l
  pub first : FirstReady w.kernel.task l

Links-AllCalm :
    (tmp : ℕ → Option (Option ℕ)) (task task' : Tasks) (q : Option ℕ) (l : List ℕ)
    → Links tmp q l
    → ((j : ℕ) (t : Option ℕ) → tmp j ≡ some t → Calm (task j) (task' j))
    → AllCalm task task' l
Links-AllCalm tmp task task' q [] _ _ = tt
Links-AllCalm tmp task task' q (i ∷ l) (_, (t, e, rest)) calm =
    (calm i t e, Links-AllCalm tmp task task' t l rest calm)

with_kernel-IsDraining :
    (w : Waiting) (k : Kernel) (l : List ℕ)
    → IsDraining w l
    → AllCalm w.kernel.task k.task l
    → IsDraining (with_kernel k w) l
with_kernel-IsDraining w k l h calm = record {
  is_queue = with_kernel-IsQueue k w l h.is_queue;
  live = AllCalm-live w.kernel.task k.task l calm h.live;
  first = AllCalm-first w.kernel.task k.task l calm h.first;
}

weight_pos : (s : ℕ) → 0 < weight s
weight_pos s = ground arith

-- The first task leaves and makes the next one ready.
leave-IsDraining :
    (t : Option ℕ) (w : Waiting) (rest : List ℕ)
    → IsDraining w (w.kernel.current ∷ rest)
    → IsQueue (leave t w) rest
    → IsDraining (leave t w) rest
      × (suc (total (leave t w).kernel.task rest) ≤ total w.kernel.task (w.kernel.current ∷ rest))
leave-IsDraining none w [] h q =
    (record { is_queue = q; live = tt; first = tt }, ground (arith, h.first))
leave-IsDraining none w (i ∷ l) h q = absurd (cc q.links.0)
leave-IsDraining (some i) w [] h q = absurd (cc q.links)
leave-IsDraining (some i) w (j ∷ l) h q =
    let k = w.kernel in
    let e : i ≡ j = some_inj.0 q.links.0 in
    let live : is_some (k.task i) ≡ true = rw e h.live.1.0 in
    let now : state_of ((set_state 0 i k).task j) ≡ 0 =
      subst (λ x. state_of ((set_state 0 i k).task x) ≡ 0) e (set_state_self 0 i k live) in
    let others = set_state-total_out 0 i k l (rw e q.no_twice.0) in
    let mine : weight (state_of (k.task k.current)) ≡ 2 = rw h.first refl in
    let next_one : weight (state_of ((set_state 0 i k).task j)) ≡ 2 = rw now refl in
    (
      record { is_queue = q; live = set_state-live 0 i k (j ∷ l) h.live.1; first = now },
      omega (arith, others, mine, next_one, weight_pos (state_of (k.task j))),
    )

wait_again-IsDraining :
    (head : ℕ) (w : Waiting) (rest : List ℕ)
    → IsDraining w (head ∷ rest)
    → head ≢ w.kernel.current
    → state_of (w.kernel.task w.kernel.current) ≡ 0
    → has w.kernel.current (head ∷ rest) ≡ true
    → IsQueue (wait_again head w) (head ∷ rest)
    → IsDraining (wait_again head w) (head ∷ rest)
      × (suc (total (wait_again head w).kernel.task (head ∷ rest))
          ≤ total w.kernel.task (head ∷ rest))
wait_again-IsDraining head w rest h ne ready inside q =
    let k = w.kernel in
    let l = head ∷ rest in
    let k1 = set_state 0 head k in
    let awake : state_of (k1.task k.current) ≡ 0 =
      ap state_of (set_state-ne 0 head k k.current (λ s. ne (sym s))) ∙ ready in
    let asleep = total-sleep k.current k1 l awake inside in
    let same = total-ready head k l h.first in
    (
      record {
        is_queue = q;
        live = set_state-live 2 k.current k1 l (set_state-live 0 head k l h.live);
        first =
            ap state_of (set_state-ne 2 k.current k1 head ne) ∙ set_state_self 0 head k h.live.0;
      },
      omega (arith, asleep, same),
    )

-- The queue is in order and nearer to its end.
abbrev Progress : Waiting → List ℕ → Waiting → Type 0
Progress w l v =
    (l' : List ℕ) × IsDraining v l' × (suc (total v.kernel.task l') ≤ total w.kernel.task l)

-- One turn, of any task of the queue that can run.
turn-Progress :
    (t : Option ℕ) (w : Waiting) (l : List ℕ)
    → IsDraining w l
    → w.tmp w.kernel.current ≡ some t
    → state_of (w.kernel.task w.kernel.current) ≡ 0
    → Progress w l (go_on t w)
turn-Progress t w l h e ready = elim (go_on-Turn t w l e h.is_queue) [
  | inl (rest, same, runs, q) ↦
      let (d, less) = leave-IsDraining t w rest (subst (λ x. IsDraining w x) same h) q in
      subst (λ v. Progress w l v) (sym runs)
        (
          rest,
          d,
          subst (λ x. suc (total (leave t w).kernel.task rest) ≤ total w.kernel.task x) (sym same)
              less,
        )
  | inr (head, rest, same, ne, runs, q) ↦
      subst (λ v. Progress w l v) (sym runs)
        (subst (λ x. Progress w x (wait_again head w)) (sym same)
          (let (d, less) =
              wait_again-IsDraining head w rest (subst (λ x. IsDraining w x) same h) ne ready
                (subst (λ x. has w.kernel.current x ≡ true) same
                  (h.is_queue.all_in w.kernel.current t e))
                (subst (λ x. IsQueue (wait_again head w) x) same q) in
            (head ∷ rest, d, less)))
]

not_zero : (i s : ℕ) → 0 < i → (i ≡ 0) ⊎ (s ≡ 0) → s ≡ 0
not_zero i s pos h = ground (arith, h)

-- Every turn makes the total less.
pub drains :
    {w' : Waiting} {n : ℕ} {w : Waiting}
    → Drain w' n w
    → (l : List ℕ) → IsDraining w l
    → (l' : List ℕ) × IsDraining w' l' × (n + total w'.kernel.task l' ≤ total w.kernel.task l)
drains done l h = (l, h, omega arith)
drains (turn n fuel t w k e f d) l h =
    let (calm, chosen) = schedule-Calm fuel w.kernel k e in
    let all =
      Links-AllCalm w.tmp w.kernel.task k.task w.queue l h.is_queue.links (λ j _ _. calm j) in
    let inside = h.is_queue.all_inside k.current (h.is_queue.all_in k.current t f) in
    let (l1, h1, less) =
      turn-Progress t (with_kernel k w) l (with_kernel-IsDraining w k l h all) f
        (not_zero k.current (state_of (k.task k.current)) inside.0 chosen) in
    let (l2, h2, rest) = drains d l1 h1 in
    (l2, h2, omega (arith, rest, less, AllCalm-total w.kernel.task k.task l all))
drains (besides n w k calm d) l h =
    let all = Links-AllCalm w.tmp w.kernel.task k.task w.queue l h.is_queue.links calm in
    let (l1, h1, rest) = drains d l (with_kernel-IsDraining w k l h all) in
    (l1, h1, omega (arith, rest, AllCalm-total w.kernel.task k.task l all))
