-- ===== src/Signals/Group.antt =====
-- Whom `kill_pg` reaches.
use linux_0_12_study.Base.{
  Bool, Bool-cases, Option, Option-cases, ap, arith, eq→==, false, if◌then◌else◌, inl, inr, int_le,
  int_lt, leb, ltb, neg, ne→==_false, none, refl, some, subst, suc, sym, true, zero, ℕ, ℕ_discrete,
  ◌!=◌, ◌&&◌, ◌<◌, ◌==◌, ◌^◌, ◌||◌, ◌∙◌, ◌≡◌, ◌≢◌, ◌≤◌,
}
use linux_0_12_study.Task.{Task, Tasks, Kernel, put}
use linux_0_12_study.Signals.{
  resume, post, send_task, at, current, permits, send_sig, count, kill_from, kill_pg, esrch,
}

-- Is the task in the group, and may a task with the effective user id e send it signals?
abbrev pub hit : ℕ → ℕ → ℕ → Task → Bool
hit e priv pgrp t = (t.pgrp == pgrp) && ((priv != 0) || (e == t.euid) || (e == 0))

abbrev pub signalled : ℕ → ℕ → ℕ → ℕ → Option Task → Option Task
signalled e sig priv pgrp none = none
signalled e sig priv pgrp (some t) = some (if hit e priv pgrp t then send_task sig t else t)

send_task-euid : (sig : ℕ) (t : Task) → (send_task sig t).euid ≡ t.euid
unfolding resume post
send_task-euid sig t = ground arith

at_slot :
    (task task' : Tasks) (p : ℕ) (f : Option Task → Option Task)
    → task' p ≡ f (task p)
    → ((i : ℕ) → i ≢ p → task' i ≡ task i)
    → (i : ℕ) → task' i ≡ (if i == p then f (task i) else task i)
at_slot task task' p f here there i = elim (ℕ_discrete i p) [
  | yes e ↦ rw (eq→== i p e) (subst (λ j. task' j ≡ f (task j)) (sym e) here)
  | no ne ↦ rw (ne→==_false i p ne) (there i ne)
]

module _ (at_null : Task) (pgrp sig priv : ℕ) where
  -- One slot of the loop.
  record IsStep (p e : ℕ) (k : Kernel) (err : ℕ) (k' : Kernel) : Type 0 where
    task : (i : ℕ) → k'.task i ≡ (if i == p then signalled e sig priv pgrp (k.task i) else k.task i)
    same : k'.current ≡ k.current
    user : (current at_null k').euid ≡ e

  at-put :
      (k : Kernel) (p : ℕ) (t : Task)
      → k.task p ≡ some t
      → (at at_null (put k.task p (send_task sig t) k.current)).euid ≡ (current at_null k).euid
  at-put k p t h = elim (ℕ_discrete p k.current) [
    | yes e ↦
        let c : k.task k.current ≡ some t = ap k.task (sym e) ∙ h in
        rw (eq→== p k.current e) (send_task-euid sig t ∙ ap (λ o. (at at_null o).euid) (sym c))
    | no ne ↦ rw (ne→==_false p k.current ne) refl
  ]

  hit-eq :
      (e : ℕ) (k : Kernel) (t : Task) {b : Bool}
      → (t.pgrp == pgrp) ≡ true
      → (current at_null k).euid ≡ e
      → permits at_null priv (current at_null k) t ≡ b
      → hit e priv pgrp t ≡ b
  hit-eq e k t {b} g u q = rw g (subst (λ x. ((priv != 0) || (x == t.euid) || (x == 0)) ≡ b) u q)

  put_self :
      (k : Kernel) (p e : ℕ) (t : Task)
      → k.task p ≡ some t
      → hit e priv pgrp t ≡ true
      → put k.task p (send_task sig t) p ≡ signalled e sig priv pgrp (k.task p)
  put_self k p e t there h = rw (eq→== p p refl, there) (rw h refl)

  kept_self :
      (k : Kernel) (p e : ℕ) (t : Task)
      → k.task p ≡ some t
      → hit e priv pgrp t ≡ false
      → k.task p ≡ signalled e sig priv pgrp (k.task p)
  kept_self k p e t there h = rw there (rw h refl)

  send_sig-IsStep :
      (p e : ℕ) (k : Kernel)
      → (current at_null k).euid ≡ e
      → ((at at_null (k.task p)).pgrp == pgrp) ≡ true
      → let r = send_sig at_null sig p priv k in IsStep p e k r.0 r.1
  send_sig-IsStep p e k u g =
      let f = signalled e sig priv pgrp in
      elim (Option-cases (k.task p)) [
        | inl none_there ↦ rw none_there (record {
          task = at_slot k.task k.task p f (none_there ∙ ap f (sym none_there)) (λ i ne. refl);
          same = refl;
          user = u;
        })
        | inr (t, there) ↦
            let g' : (t.pgrp == pgrp) ≡ true =
              ap (λ o. (at at_null o).pgrp == pgrp) (sym there) ∙ g in
            elim (Bool-cases (permits at_null priv (current at_null k) t)) [
              | inl may ↦ rw there (
                  rw may (record {
                    task =
                        at_slot k.task (put k.task p (send_task sig t)) p f
                          (put_self k p e t there (hit-eq e k t g' u may)) (λ i ne. ground arith);
                    same = refl;
                    user = at-put k p t there ∙ u;
                  }))
              | inr not_may ↦ rw there (
                  rw not_may (record {
                    task =
                        at_slot k.task k.task p f
                          (kept_self k p e t there (hit-eq e k t g' u not_may)) (λ i ne. refl);
                    same = refl;
                    user = u;
                  }))
            ]
      ]

  other_kept :
      (e : ℕ) (o : Option Task)
      → ((at at_null o).pgrp == pgrp) ≡ false
      → signalled e sig priv pgrp o ≡ o
  other_kept e none h = refl
  other_kept e (some t) h = rw h refl

  -- The loop over the slots from n down to 1.
  kill_from-task :
      (n e : ℕ) (kept : ℕ × ℕ) (k : Kernel)
      → (current at_null k).euid ≡ e
      → (i : ℕ)
      → (kill_from at_null n pgrp sig priv kept k).1.task i
        ≡ (if ltb 0 i && leb i n then signalled e sig priv pgrp (k.task i) else k.task i)
  unfolding kill_from
  kill_from-task zero e kept k u i = ground arith
  kill_from-task (suc n) e kept k u i =
      elim (Bool-cases ((at at_null (k.task (suc n))).pgrp == pgrp)) [
        | inl member ↦
            let r = send_sig at_null sig (suc n) priv k in
            let step = send_sig-IsStep (suc n) e k u member in
            rw member (
              kill_from-task n e (count at_null r.0 kept) r.1 step.user i
              ∙ ground (arith, step.task i))
        | inr other ↦ rw other (
            kill_from-task n e kept k u i
            ∙ ground (arith, other_kept e (k.task (suc n)) other, ap k.task {x = i} {y = suc n}))
      ]

  -- In the slots from 1 to 63 `kill_pg` sends a signal from 1 to 32 to the tasks of a positive process
  -- group that the running task may send it to, and to no other.
  pub kill_pg-task :
      (k : Kernel)
      → 0 < sig
      → sig ≤ 32
      → 0 < pgrp
      → pgrp < 2 ^ 31
      → (i : ℕ)
      → (kill_pg at_null pgrp sig priv k).1.task i ≡ (
          if ltb 0 i && leb i 63
          then signalled (current at_null k).euid sig priv pgrp (k.task i)
          else k.task i)
  unfolding kill_pg
  kill_pg-task k lo hi p q i =
      let ok : (int_lt sig 1 || int_lt 32 sig || int_le pgrp 0) ≡ false = ground arith in
      rw ok (kill_from-task 63 (current at_null k).euid (neg esrch, 0) k refl i)
