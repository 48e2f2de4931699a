-- ===== src/Timer/Expiry.antt =====
-- When the timers of the queue run: the sums of the deltas, from the next tick on.
use linux_0_12_study.Base.{
  Bool-cases, List, [], ap, arith, if◌then◌else◌, inl, inr, ltb, refl, some, sym, true, ℕ, ◌++◌,
  ◌+◌, ◌-◌, ◌<◌, ◌^◌, ◌∙◌, ◌∷◌, ◌≡◌, ◌≢◌,
}
use linux_0_12_study.Timer.{Timers, find_slot, add_timer}
use linux_0_12_study.Timer.Queue.{Cells, contents, IsQueue}
use linux_0_12_study.Timer.Insert.{sink_cells, add_timer-sink_cells}

-- a number of ticks and a function
abbrev pub Events : Type 0
Events = List (ℕ × ℕ)

unfoldable pub expiries : ℕ → Events → Events
expiries b [] = []
expiries b ((d, f) ∷ cs) = (b + d, f) ∷ expiries (b + d) cs

-- The timers of the queue cs with the number of ticks after which each runs.
abbrev pub schedule_of : Cells → Events
schedule_of cs = expiries 0 (contents cs)

-- The events of a schedule before the time n, and the others.
unfoldable pub before : ℕ → Events → Events
before n [] = []
before n ((t, f) ∷ es) = if ltb t n then (t, f) ∷ before n es else []

unfoldable pub from_on : ℕ → Events → Events
from_on n [] = []
from_on n ((t, f) ∷ es) = if ltb t n then from_on n es else (t, f) ∷ es

-- The time of the last event, b for none.
unfoldable pub last_time : ℕ → Events → ℕ
last_time b [] = b
last_time b ((t, f) ∷ es) = last_time t es

unfoldable pub delay : ℕ → Events → Events
delay r [] = []
delay r ((t, f) ∷ es) = (t + r, f) ∷ delay r es

expiries-delay : (b r : ℕ) (cs : Events) → expiries (b + r) cs ≡ delay r (expiries b cs)
unfolding expiries delay
expiries-delay b r [] = refl
expiries-delay b r ((d, f) ∷ cs) =
    let e : b + r + d ≡ b + d + r = omega arith in rw (e, expiries-delay (b + d) r cs)

expiries-sink_cells :
    (b p j f : ℕ) (cs : Cells)
    → let es = expiries b (contents cs) in
      expiries b (contents (sink_cells p j f cs))
      ≡ before (b + j) es
        ++ ((b + j, f) ∷ delay (b + j - last_time b (before (b + j) es)) (from_on (b + j) es))
unfolding expiries sink_cells before from_on last_time delay
expiries-sink_cells b p j f [] = refl
expiries-sink_cells b p j f ((q, d, g) ∷ cs) = elim (Bool-cases (ltb d j)) [
  | inl lt ↦
      let e : b + d + (j - d) ≡ b + j = ground arith in
      let t : ltb (b + d) (b + j) ≡ true = ground arith in
      let ih = expiries-sink_cells (b + d) q (j - d) f cs in
      rw (lt, t) (ap (λ es. (b + d, g) ∷ es) (rw e at ih))
  | inr ge ↦ ground (arith, expiries-delay (b + d) j (contents cs))
]

-- For a queue of timers with a free slot, a function and a positive number j of ticks, `add_timer`
-- succeeds and keeps the queue well formed; the new timer runs after j ticks, those that ran before
-- that time keep their time, and each of the others is late by what the new timer's delta came to:
-- j less the time of the timer before it.
pub add_timer-schedule_of :
    (j f : ℕ) (t : Timers) (cs : Cells) {p : ℕ}
    → IsQueue t cs
    → find_slot t.timer_list 0 ≡ some p
    → 0 < f
    → 0 < j
    → j < 2 ^ 31
    → (t' : Timers) × (cs' : Cells) × (add_timer j f t ≡ some t')
      × IsQueue t' cs'
      × (t'.ran ≡ t.ran)
      × (schedule_of cs'
          ≡ before j (schedule_of cs)
            ++ ((j, f)
                ∷ delay (j - last_time 0 (before j (schedule_of cs))) (from_on j (schedule_of cs))))
add_timer-schedule_of j f t cs {p} q e fp jp jw =
    let (t', done, added) = add_timer-sink_cells j f t cs q fp jp jw e in
    let z : 0 + j ≡ j = omega arith in
    (
      t',
      sink_cells p j f cs,
      done,
      added.queue,
      added.same_log,
      rw z at (expiries-sink_cells 0 p j f cs),
    )

last_time-before : (b n : ℕ) (es : Events) → b < n → last_time b (before n es) < n
unfolding last_time before
last_time-before b n [] h = h
last_time-before b n ((t, f) ∷ es) h = ground (arith, last_time-before t n es)

delay-ne : (r : ℕ) (es : Events) → 0 < r → es ≢ [] → delay r es ≢ es
unfolding delay
delay-ne r [] h ne e = ne refl
delay-ne r ((t, f) ∷ es) h ne e = ground arith

++_cancel : (xs ys zs : Events) → xs ++ ys ≡ xs ++ zs → ys ≡ zs
++_cancel [] ys zs e = e
++_cancel (x ∷ xs) ys zs e = ++_cancel xs ys zs (cc)

-- Whenever a timer of the queue is to run j ticks from now or later, `add_timer` for j ticks gives
-- a schedule other than the one that merely adds the new timer: the timers after it are late.
pub add_timer-ne-merge :
    (j f : ℕ) (t : Timers) (cs : Cells) {p : ℕ}
    → IsQueue t cs
    → find_slot t.timer_list 0 ≡ some p
    → 0 < f
    → 0 < j
    → j < 2 ^ 31
    → from_on j (schedule_of cs) ≢ []
    → (t' : Timers) × (cs' : Cells) × (add_timer j f t ≡ some t')
      × IsQueue t' cs'
      × (schedule_of cs' ≢ before j (schedule_of cs) ++ ((j, f) ∷ from_on j (schedule_of cs)))
add_timer-ne-merge j f t cs q e fp jp jw later =
    let (t', cs', done, queue, log, shape) = add_timer-schedule_of j f t cs q e fp jp jw in
    let es = schedule_of cs in
    let r = j - last_time 0 (before j es) in
    let rp : 0 < r = omega (arith, last_time-before 0 j es jp) in
    (
      t',
      cs',
      done,
      queue,
      λ same.
          let tails =
            ++_cancel (before j es) ((j, f) ∷ delay r (from_on j es)) ((j, f) ∷ from_on j es)
              (sym shape ∙ same) in
          delay-ne r (from_on j es) rp later (cc),
    )
