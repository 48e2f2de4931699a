-- ===== src/Sched/Kept.antt =====
-- What `do_timer` of ver05/kernel/sched.c relies on in the functions that it calls: they leave the running
-- task alone, and may make other tasks ready.
use linux_0_12_study.Base.{
  List, Option, [], ap, arith, eq→==, inl, inr, ne→==_false, none, refl, some, subst, sym, ℕ,
  ℕ_discrete, ◌∙◌, ◌∷◌, ◌≡◌, ◌≢◌, ◌⊎◌,
}
use mathlib.Core.Option
use mathlib.Core.Option.{some_inj}
use linux_0_12_study.Task.{Task, Kernel, task_running}
use linux_0_12_study.Sched.{wake_up}
use linux_0_12_study.Sched.Ticks.{Clock, Calls, count_hd, run_calls}

-- The same slot before and after: a task in it keeps counter and priority, and does not cease to be
-- ready.
abbrev pub Similar : Option Task → Option Task → Type 0
Similar none o = o ≡ none
Similar (some u) o =
    (v : Task) × (o ≡ some v)
    × (v.counter ≡ u.counter)
    × (v.priority ≡ u.priority)
    × ((u.state ≢ task_running) ⊎ (v.state ≡ task_running))

pub Similar-refl : (o : Option Task) → Similar o o
Similar-refl none = refl
Similar-refl (some u) = elim (ℕ_discrete u.state task_running) [
  | yes s ↦ (u, refl, refl, refl, inr s)
  | no n ↦ (u, refl, refl, refl, inl n)
]

Similar-join :
    (u v w : Task) (o : Option Task)
    → (v.counter ≡ u.counter)
    → (v.priority ≡ u.priority)
    → (u.state ≢ task_running) ⊎ (v.state ≡ task_running)
    → (o ≡ some w)
      × (w.counter ≡ v.counter)
      × (w.priority ≡ v.priority)
      × ((v.state ≢ task_running) ⊎ (w.state ≡ task_running))
    → Similar (some u) o
Similar-join u v w o a b s (q, c, d, r) = (w, q, c ∙ a, d ∙ b, omega (arith, s, r))

pub Similar-trans : (o p q : Option Task) → Similar o p → Similar p q → Similar o q
Similar-trans none p q h g = subst (λ x. Similar x q) h g
Similar-trans (some u) p q (v, e, a, b, s) g =
    let (w, same, c, d, r) = subst (λ x. Similar x q) e g in
    Similar-join u v w q a b s (same, c, d, r)

-- A task that is there has been there.
pub Similar-back :
    (o p : Option Task) (v : Task)
    → Similar o p
    → p ≡ some v
    → (u : Task) × (o ≡ some u) × (v.counter ≡ u.counter) × (v.priority ≡ u.priority)
Similar-back none p v h e = absurd (cc (sym h ∙ e))
Similar-back (some u) p v (w, q, a, b, _) e =
    let same : w ≡ v = some_inj.0 (sym q ∙ e) in
    (u, refl, ap Task.counter (sym same) ∙ a, ap Task.priority (sym same) ∙ b)

pub record Kept (k k' : Kernel) : Type 0 where
  pub same_current : k'.current ≡ k.current
  pub running : k'.task k.current ≡ k.task k.current
  pub others : (j : ℕ) → j ≢ k.current → Similar (k.task j) (k'.task j)
  pub same_jiffies : k'.jiffies ≡ k.jiffies

pub Kept-refl : (k : Kernel) → Kept k k
Kept-refl k = record {
  same_current = refl;
  running = refl;
  others = λ j _. Similar-refl (k.task j);
  same_jiffies = refl;
}

pub Kept-trans : (k k1 k2 : Kernel) → Kept k k1 → Kept k1 k2 → Kept k k2
Kept-trans k k1 k2 a b = record {
  same_current = b.same_current ∙ a.same_current;
  running = subst (λ i. k2.task i ≡ k1.task i) a.same_current b.running ∙ a.running;
  others = λ j ne.
      Similar-trans (k.task j) (k1.task j) (k2.task j) (a.others j ne)
        (b.others j (λ z. ne (z ∙ a.same_current)));
  same_jiffies = b.same_jiffies ∙ a.same_jiffies;
}

pub record Harmless (f : Calls) : Type 0 where
  pub hd_times_out : (k : Kernel) → Kept k (f.hd_times_out k).1
  pub call : (fn : ℕ) (k : Kernel) → Kept k (f.call fn k)

pub count_hd-Kept : (f : Calls) (c : Clock) → Harmless f → Kept c.kernel (count_hd f c).kernel
count_hd-Kept f c h = elim (ℕ_discrete c.hd_timeout 0) [
  | yes z ↦ rw z (Kept-refl c.kernel)
  | no nz ↦ elim (ℕ_discrete c.hd_timeout 1) [
    | yes one ↦ rw one (h.hd_times_out c.kernel)
    | no ne ↦ rw (ne→==_false c.hd_timeout 0 nz, ne→==_false c.hd_timeout 1 ne) (Kept-refl c.kernel)
  ]
]

pub run_calls-Kept : (f : Calls) (l : List ℕ) (k : Kernel) → Harmless f → Kept k (run_calls f l k)
unfolding run_calls
run_calls-Kept f [] k h = Kept-refl k
run_calls-Kept f (fn ∷ older) k h =
    Kept-trans k (run_calls f older k) (run_calls f (fn ∷ older) k) (run_calls-Kept f older k h)
      (h.call fn (run_calls f older k))

Similar-ready :
    (o : Option Task) → Similar o (Option.map {A = Task} (λ t. record t { state = task_running }) o)
Similar-ready none = refl
Similar-ready (some u) = (_, refl, refl, refl, inr refl)

-- `wake_up` is such a function, if the task that it wakes is not the running one.
pub wake_up-Kept : (q : Option ℕ) (k : Kernel) → q ≢ some k.current → Kept k (wake_up q k)
unfolding wake_up
wake_up-Kept none k ne = Kept-refl k
wake_up-Kept (some i) k ne =
    let other : i ≢ k.current = λ e. ne (ap some e) in
    record {
      same_current = refl;
      running = rw (ne→==_false i k.current other) refl;
      others = λ j _. elim (ℕ_discrete i j) [
        | yes z ↦ rw (eq→== i j z) (Similar-ready (k.task j))
        | no n ↦ rw (ne→==_false i j n) (Similar-refl (k.task j))
      ];
      same_jiffies = refl;
    }
