-- ===== src/Timer/Tick.antt =====
-- The ticks of the clock on the queue of timers.
use linux_0_12_study.Base.{
  ==_iff, Bool-cases, List, Option, [], ap, arith, if◌then◌else◌, inl, inr, int_le, length,
  length-set, refl, some, subst, suc, sym, true, word_sub, zero, ℕ, ◌++◌, ◌+◌, ◌-◌, ◌<◌, ◌==◌, ◌∙◌,
  ◌∷◌, ◌≡◌,
}
use mathlib.Core.List.{reverse_aux}
use linux_0_12_study.Timer.{Slot, Timers, slot, put_slot, time_requests, run_due, tick}
use linux_0_12_study.Timer.Queue.{Cells, at, contents, Chain, Chain-frame, IsQueue}
use linux_0_12_study.Timer.Insert.{at-set}
use linux_0_12_study.Timer.Expiry.{Events, expiries, schedule_of, before}

-- The queue is not yet due.
run_due-wait :
    (fuel : ℕ) (t : Timers) (cs : Cells) → Chain t.timer_list t.next_timer cs → run_due fuel t ≡ t
unfolding run_due
run_due-wait zero t cs c = refl
run_due-wait (suc fuel) t [] c = ground arith
run_due-wait (suc fuel) t ((p, d, f) ∷ cs) c = ground (arith, c.0, c.2, c.4, c.5)

abbrev after_pop : Timers → ℕ → Timers
after_pop t p = record (put_slot t p (record (slot t p) { fn = 0 })) {
  next_timer = (slot t p).next;
  ran = (slot t p).fn ∷ t.ran;
}

run_due-due :
    (fuel p : ℕ) (t : Timers)
    → t.next_timer ≡ some p
    → int_le (slot t p).jiffies 0 ≡ true
    → run_due (suc fuel) t ≡ run_due fuel (after_pop t p)
unfolding run_due
run_due-due fuel p t e h = ground arith

tick_lem :
    (p : ℕ) (t : Timers)
    → t.next_timer ≡ some p
    → tick t
      ≡ run_due time_requests
          (put_slot t p (record (slot t p) { jiffies = word_sub (slot t p).jiffies 1 }))
unfolding tick
tick_lem p t e = ground arith

module _ (t : Timers) (p d f : ℕ) (cs : Cells) (q : IsQueue t ((p, d, f) ∷ cs)) where
  abbrev ticked : Timers
  ticked = put_slot t p (record (slot t p) { jiffies = word_sub (slot t p).jiffies 1 })

  -- While more than one tick is left, a tick takes one off.
  tick-wait : 1 < d → IsQueue (tick t) ((p, d - 1, f) ∷ cs) × ((tick t).ran ≡ t.ran)
  tick-wait h =
      let c = q.chain in
      let head : t.next_timer ≡ some p = c.0 in
      let new : Slot = record (slot t p) { jiffies = word_sub (slot t p).jiffies 1 } in
      let here : at ticked.timer_list p ≡ new = at-set t.timer_list p p new c.1 ∙ ground arith in
      let len = length-set t.timer_list p new in
      let rest =
        Chain-frame t.timer_list ticked.timer_list (at t.timer_list p).next cs len
          (λ a m. at-set t.timer_list p a new c.1 ∙ ground (arith, c.7)) c.8 in
      let chain : Chain ticked.timer_list t.next_timer ((p, d - 1, f) ∷ cs) = (
        head,
        omega (arith, c.1, len),
        ap Slot.jiffies here ∙ ground (arith, c.2, c.4, c.5),
        ap Slot.fn here ∙ c.3,
        omega arith,
        omega (arith, c.5),
        c.6,
        c.7,
        subst (λ (s : Slot). Chain ticked.timer_list s.next cs) (sym here) rest,
      ) in
      let same = run_due-wait time_requests ticked ((p, d - 1, f) ∷ cs) chain in
      let e : tick t ≡ ticked = tick_lem p t head ∙ same in
      rw e (record { size = len ∙ q.size; chain = chain }, refl)

  abbrev popped : Timers
  popped = after_pop ticked p

  -- The last tick runs the timer and gives its slot back.
  tick-due :
      d ≡ 1 → IsQueue (tick t) cs × ((tick t).ran ≡ f ∷ t.ran) × ((at (tick t).timer_list p).fn ≡ 0)
  tick-due h =
      let c = q.chain in
      let head : t.next_timer ≡ some p = c.0 in
      let new : Slot = record (slot t p) { jiffies = word_sub (slot t p).jiffies 1 } in
      let here : at ticked.timer_list p ≡ new = at-set t.timer_list p p new c.1 ∙ ground arith in
      let len = length-set t.timer_list p new in
      let free : Slot = record (slot ticked p) { fn = 0 } in
      let len' = length-set ticked.timer_list p free in
      let pin : p < length ticked.timer_list = omega (arith, len, c.1) in
      let here' : at popped.timer_list p ≡ free =
        at-set ticked.timer_list p p free pin ∙ ground arith in
      let rest : Chain popped.timer_list popped.next_timer cs =
        Chain-frame t.timer_list popped.timer_list popped.next_timer cs (len' ∙ len)
          (λ a m.
            at-set ticked.timer_list p a free pin
            ∙ ground (arith, c.7, at-set t.timer_list p a new c.1))
          (subst (λ (s : Slot). Chain t.timer_list s.next cs) (sym here) c.8) in
      let due : int_le (slot ticked p).jiffies 0 ≡ true =
        ground (arith, ap Slot.jiffies here, c.2) in
      let stop = run_due-wait 63 popped cs rest in
      let e : tick t ≡ popped = tick_lem p t head ∙ run_due-due 63 p ticked head due ∙ stop in
      rw e (
        record { size = len' ∙ len ∙ q.size; chain = rest },
        ap (λ n. n ∷ t.ran) (ap Slot.fn here ∙ c.3),
        ap Slot.fn here',
      )

unfoldable pub ticks : ℕ → Timers → Timers
ticks zero t = t
ticks (suc n) t = ticks n (tick t)

pub functions : Events → List ℕ
functions [] = []
functions ((t, f) ∷ es) = f ∷ functions es

functions-shift :
    (n b r : ℕ) (cs : Events)
    → functions (before (n + r) (expiries (b + r) cs)) ≡ functions (before n (expiries b cs))
unfolding functions before expiries
functions-shift n b r [] = refl
functions-shift n b r ((d, f) ∷ cs) =
    let e : b + r + d ≡ b + d + r = omega arith in
    let ih = functions-shift n (b + d) r cs in rw e (ground (arith, ih))

-- A tick runs the function of the first timer if its delta is 1, and else takes 1 off.
after_tick : Cells → Cells
after_tick [] = []
after_tick ((p, d, f) ∷ cs) = if d == 1 then cs else (p, d - 1, f) ∷ cs

run_by_tick : Cells → List ℕ
run_by_tick [] = []
run_by_tick ((p, d, f) ∷ cs) = if d == 1 then f ∷ [] else []

tick-after_tick :
    (t : Timers) (cs : Cells)
    → IsQueue t cs
    → IsQueue (tick t) (after_tick cs) × ((tick t).ran ≡ run_by_tick cs ++ t.ran)
unfolding after_tick run_by_tick tick
tick-after_tick t [] q = let e : tick t ≡ t = ground (arith, q.chain) in rw e (q, refl)
tick-after_tick t ((p, d, f) ∷ cs) q = elim (Bool-cases (d == 1)) [
  | inl one ↦ let r = tick-due t p d f cs q ((==_iff d 1).0 one) in rw one (r.0, r.1)
  | inr more ↦ rw more (tick-wait t p d f cs q (ground (arith, q.chain.4)))
]

-- The functions due within n + 1 ticks, before and after the first of them.
functions-after_tick :
    (n : ℕ) (cs : Cells) (t : Timers)
    → Chain t.timer_list t.next_timer cs
    → functions (before (suc (suc n)) (schedule_of cs))
      ≡ run_by_tick cs ++ functions (before (suc n) (schedule_of (after_tick cs)))
unfolding after_tick run_by_tick functions before expiries
functions-after_tick n [] t c = refl
functions-after_tick n ((p, d, f) ∷ cs) t c =
    let k : suc n + 1 ≡ suc (suc n) = omega arith in
    let b : 0 + (d - 1) + 1 ≡ 0 + d = ground (arith, c.4) in
    let s = functions-shift (suc n) (0 + (d - 1)) 1 (contents cs) in
    let s' = rw (k, b) at s in ground (arith, s')

functions-now :
    (cs : Cells) (l : List Slot) (h : Option ℕ)
    → Chain l h cs
    → functions (before 1 (schedule_of cs)) ≡ []
unfolding functions before expiries
functions-now [] l h c = refl
functions-now ((p, d, f) ∷ cs) l h c = ground (arith, c.4)

reverse_aux-run_by_tick :
    (cs : Cells) (xs ys : List ℕ)
    → reverse_aux (run_by_tick cs ++ xs) ys ≡ reverse_aux xs (run_by_tick cs ++ ys)
unfolding run_by_tick
reverse_aux-run_by_tick [] xs ys = refl
reverse_aux-run_by_tick ((p, d, f) ∷ cs) xs ys = elim (Bool-cases (d == 1)) [
  | inl one ↦ rw one
  | inr more ↦ rw more
]

-- After n ticks the functions of the timers that were due within n ticks have run, each once and
-- in the order of their times, and no other.
pub ticks-functions :
    (n : ℕ) (t : Timers) (cs : Cells)
    → IsQueue t cs
    → (cs' : Cells) × IsQueue (ticks n t) cs'
      × ((ticks n t).ran ≡ reverse_aux (functions (before (suc n) (schedule_of cs))) t.ran)
unfolding ticks
ticks-functions zero t cs q = (cs, q, rw (functions-now cs t.timer_list t.next_timer q.chain))
ticks-functions (suc n) t cs q =
    let (q', log) = tick-after_tick t cs q in
    let (cs', r, ran) = ticks-functions n (tick t) (after_tick cs) q' in
    let due = functions-after_tick n cs t q.chain in
    let rest = functions (before (suc n) (schedule_of (after_tick cs))) in
    (
      cs',
      r,
      ran
          ∙ ap (reverse_aux rest) log
          ∙ sym (reverse_aux-run_by_tick cs rest t.ran)
          ∙ ap (λ xs. reverse_aux xs t.ran) (sym due),
    )
