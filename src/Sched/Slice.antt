-- ===== src/Sched/Slice.antt =====
-- The time slice of a task that computes: `timer_interrupt` of ver05/kernel/sys_call.s with `do_timer` of
-- ver05/kernel/sched.c, tick by tick.
use linux_0_12_study.Base.{
  Option, ap, arith, eq→==, ne→==_false, none, refl, some, subst, suc, sym, true, word, word_sub,
  zero, ℕ, ◌+◌, ◌-◌, ◌<◌, ◌^◌, ◌∙◌, ◌≡◌, ◌≢◌,
}
use mathlib.Core.Option
use linux_0_12_study.Task.{Task, Kernel}
use linux_0_12_study.Sched.Ticks.{
  Clock, Calls, count_hd, charge, at_current, spend, has_time, end_slice, run_calls, ticked,
  charged, after_tick, advance, do_timer, timer_interrupt,
}
use linux_0_12_study.Sched.Kept.{
  Similar, Similar-refl, Similar-trans, Harmless, count_hd-Kept, run_calls-Kept,
}

-- n ticks in user mode; `none` is a `schedule` without a choice.
abbrev pub then_on : Option Clock → (Clock → Option Clock) → Option Clock
then_on none f = none
then_on (some c) f = f c

unfoldable pub user_ticks : Calls → ℕ → Clock → Option Clock
user_ticks f zero c = some c
user_ticks f (suc n) c = then_on (timer_interrupt f 2 3 c) (λ c'. user_ticks f n c')

pub at_current-at :
    (f : Task → Task) (k : Kernel) (i : ℕ) (t : Task)
    → i ≡ k.current
    → k.task i ≡ some t
    → (at_current f k).task i ≡ some (f t)
at_current-at f k i t q e = rw (eq→== i k.current q, e) refl

pub at_current-ne :
    (f : Task → Task) (k : Kernel) (j : ℕ) → j ≢ k.current → (at_current f k).task j ≡ k.task j
at_current-ne f k j ne = rw (ne→==_false j k.current ne) refl

-- The task has used n more ticks of its time; the others keep their counters and priorities, and those
-- that were ready still are.
pub record HasUsed (n : ℕ) (t : Task) (k k' : Kernel) : Type 0 where
  pub same_current : k'.current ≡ k.current
  pub used :
      k'.task k.current ≡ some (record t { counter = t.counter - n; utime = word (t.utime + n) })
  pub others : (j : ℕ) → j ≢ k.current → Similar (k.task j) (k'.task j)
  pub time : word k'.jiffies ≡ word (k.jiffies + n)

pub charged-HasUsed :
    (f : Calls) (c : Clock) (t : Task)
    → Harmless f
    → c.kernel.task c.kernel.current ≡ some t
    → t.counter < 2 ^ 31
    → 0 < t.counter
    → HasUsed 1 t c.kernel (charged f 3 (advance c))
charged-HasUsed f c t h e small more =
    let i = c.kernel.current in
    let k1 = (count_hd f (advance c)).kernel in
    let k2 = at_current (charge 3) k1 in
    let k3 = run_calls f (ticked c.timers).ran k2 in
    let a = count_hd-Kept f (advance c) h in
    let b = run_calls-Kept f (ticked c.timers).ran k2 h in
    let same : i ≡ k1.current = sym a.same_current in
    let same3 : i ≡ k3.current = same ∙ sym b.same_current in
    let at2 : k2.task i ≡ some (charge 3 t) =
      at_current-at (charge 3) k1 i t same (a.running ∙ e) in
    let at3 : k3.task i ≡ some (charge 3 t) =
      subst (λ x. k3.task x ≡ k2.task x) (sym same) b.running ∙ at2 in
    let less : word_sub t.counter 1 ≡ t.counter - 1 = ground arith in
    record {
      same_current = sym same3;
      used =
          at_current-at spend k3 i (charge 3 t) same3 at3
          ∙ ap (λ n. some (record t { counter = n; utime = word (t.utime + 1) })) less;
      others = λ j ne.
          let ne1 : j ≢ k1.current = λ z. ne (z ∙ sym same) in
          let ne3 : j ≢ k3.current = λ z. ne (z ∙ sym same3) in
          let s2 =
            subst (Similar (c.kernel.task j)) (sym (at_current-ne (charge 3) k1 j ne1))
              (a.others j ne) in
          let s3 = Similar-trans (c.kernel.task j) (k2.task j) (k3.task j) s2 (b.others j ne1) in
          subst (Similar (c.kernel.task j)) (sym (at_current-ne spend k3 j ne3)) s3;
      time = ap word (b.same_jiffies ∙ a.same_jiffies) ∙ omega arith;
    }

end_slice_kept :
    (fuel cpl : ℕ) (k : Kernel) → has_time (k.task k.current) ≡ true → end_slice fuel cpl k ≡ some k
unfolding end_slice
end_slice_kept fuel cpl k h = rw h refl

one_tick :
    (f : Calls) (c : Clock) (t : Task)
    → Harmless f
    → c.kernel.task c.kernel.current ≡ some t
    → t.counter < 2 ^ 31
    → 1 < t.counter
    → timer_interrupt f 2 3 c ≡ some (after_tick f (advance c) (charged f 3 (advance c)))
unfolding do_timer timer_interrupt
one_tick f c t h e small more =
    let k = charged f 3 (advance c) in
    let used = charged-HasUsed f c t h e small (omega arith) in
    let time : has_time (k.task k.current) ≡ true =
      ap (λ i. has_time (k.task i)) used.same_current ∙ ap has_time used.used ∙ ground arith in
    ap (Option.map (after_tick f (advance c))) (end_slice_kept 2 3 k time)

used_again :
    (t : Task) (a b u v : ℕ)
    → a ≡ b
    → u ≡ v
    → some (record t { counter = a; utime = u }) ≡ some (record t { counter = b; utime = v })
used_again t a b u v p q = rw (p, q) refl

-- m ticks, and n more.
pub HasUsed-trans :
    (m n : ℕ) (t : Task) (k k1 k2 : Kernel)
    → HasUsed m t k k1
    → HasUsed n (record t { counter = t.counter - m; utime = word (t.utime + m) }) k1 k2
    → HasUsed (m + n) t k k2
HasUsed-trans m n t k k1 k2 a b = record {
  same_current = b.same_current ∙ a.same_current;
  used =
      subst
        (λ i.
          k2.task i
          ≡ some (record t { counter = t.counter - (m + n); utime = word (t.utime + (m + n)) }))
        a.same_current
        (b.used
          ∙ used_again t (t.counter - m - n) (t.counter - (m + n)) (word (word (t.utime + m) + n))
              (word (t.utime + (m + n))) (omega arith) (omega arith));
  others = λ j ne.
      Similar-trans (k.task j) (k1.task j) (k2.task j) (a.others j ne)
        (b.others j (λ z. ne (z ∙ a.same_current)));
  time = omega (arith, a.time, b.time);
}

-- While time is left, the task goes on.
pub user_ticks-HasUsed :
    (f : Calls) (n : ℕ) (c : Clock) (t : Task)
    → Harmless f
    → c.kernel.task c.kernel.current ≡ some t
    → t.counter < 2 ^ 31
    → t.utime < 2 ^ 32
    → n < t.counter
    → (c' : Clock) × (user_ticks f n c ≡ some c') × HasUsed n t c.kernel c'.kernel
unfolding user_ticks
user_ticks-HasUsed f zero c t h e small word_time more = (
  c,
  refl,
  record {
    same_current = refl;
    used =
        e
        ∙ used_again t t.counter (t.counter - 0) t.utime (word (t.utime + 0)) (omega arith)
            (omega arith);
    others = λ j _. Similar-refl (c.kernel.task j);
    time = omega arith;
  },
)
user_ticks-HasUsed f (suc n) c t h e small word_time more =
    let k1 = charged f 3 (advance c) in
    let c1 = after_tick f (advance c) k1 in
    let t1 = record t { counter = t.counter - 1; utime = word (t.utime + 1) } in
    let used1 = charged-HasUsed f c t h e small (omega arith) in
    let at1 : k1.task k1.current ≡ some t1 = ap k1.task used1.same_current ∙ used1.used in
    let (c', run, used) =
      user_ticks-HasUsed f n c1 t1 h at1 (omega arith) (omega arith) (omega arith) in
    let count : 1 + n ≡ suc n = omega arith in
    (
      c',
      ap (λ o. then_on o (λ d. user_ticks f n d)) (one_tick f c t h e small (omega arith)) ∙ run,
      subst (λ m. HasUsed m t c.kernel c'.kernel) count
          (HasUsed-trans 1 n t c.kernel k1 c'.kernel used1 used),
    )
