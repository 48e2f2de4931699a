-- ===== src/Timer.antt =====
-- The kernel timers of ver05/kernel/sched.c: `timer_list`, `next_timer`, `add_timer`, and the part of
-- `do_timer` that runs them. A pointer into `timer_list` is the slot's number, and NULL is `none`;
-- a function pointer is a number, 0 for NULL. `ran` logs the calls `(fn)()`, newest first: what the
-- called functions do is not modelled.
pub mod Queue
pub mod Insert
pub mod Expiry
pub mod Tick
mod Tests
use linux_0_12_study.Base.{
  List, Option, [], get_or, if◌then◌else◌, int_le, int_lt, none, set, some, suc, word_sub, zero, ℕ,
  ◌+◌, ◌==◌, ◌∷◌,
}

abbrev pub time_requests : ℕ
time_requests = 64

-- `struct timer_list`
pub record Slot : Type 0 where
  pub jiffies : ℕ
  pub fn : ℕ
  pub next : Option ℕ

pub record Timers : Type 0 where
  pub timer_list : List Slot
  pub next_timer : Option ℕ
  pub ran : List ℕ

abbrev pub empty_slot : Slot
empty_slot = record { jiffies = 0; fn = 0; next = none }

abbrev pub slot : Timers → ℕ → Slot
slot t p = get_or t.timer_list p empty_slot

abbrev pub put_slot : Timers → ℕ → Slot → Timers
put_slot t p s = record t { timer_list = set t.timer_list p s }

-- The first slot with `fn == NULL`, counted from i.
pub find_slot : List Slot → ℕ → Option ℕ
find_slot [] i = none
find_slot (s ∷ ss) i = if s.fn == 0 then some i else find_slot ss (i + 1)

-- One round of the loop that sinks the new timer: the delta is taken off, and the contents of the
-- slots p and q, the next one, are exchanged.
pub sink : Timers → ℕ → ℕ → Timers
sink t p q =
    let a = slot t p in
    let b = slot t q in
    put_slot (put_slot t p (record a { jiffies = b.jiffies; fn = b.fn })) q
      (record b { jiffies = word_sub a.jiffies b.jiffies; fn = a.fn })

-- The loop, on fuel; `int` comparison of two positive numbers.
pub sink_loop : ℕ → Timers → ℕ → Timers
unfolding sink
sink_loop zero t p = t
sink_loop (suc fuel) t p = elim (slot t p).next [
  | none ↦ t
  | some q ↦
      let rest = sink_loop fuel (sink t p q) q in
      if int_lt (slot t q).jiffies (slot t p).jiffies then rest else t
]

-- `none` is the panic "No more time requests free". A chain of slots is at most `time_requests`
-- long, which is the fuel of the loop.
pub add_timer : ℕ → ℕ → Timers → Option Timers
unfolding find_slot sink_loop
add_timer jiffies fn t =
    if fn == 0
    then some t
    else if int_le jiffies 0
    then some (record t { ran = fn ∷ t.ran })
    else elim (find_slot t.timer_list 0) [
      | none ↦ none
      | some p ↦ some (
          sink_loop time_requests
            (record (put_slot t p (record { jiffies = jiffies; fn = fn; next = t.next_timer })) {
              next_timer = some p;
            })
            p)
    ]

-- `while (next_timer && next_timer->jiffies <= 0)`: the slot is given back before the call.
pub run_due : ℕ → Timers → Timers
run_due zero t = t
run_due (suc fuel) t = elim t.next_timer [
  | none ↦ t
  | some p ↦
      let s = slot t p in
      let rest =
        run_due fuel (record (put_slot t p (record s { fn = 0 })) {
          next_timer = s.next;
          ran = s.fn ∷ t.ran;
        }) in
      if int_le s.jiffies 0 then rest else t
]

-- The timers' part of `do_timer`, one tick.
pub tick : Timers → Timers
unfolding run_due
tick t = elim t.next_timer [
  | none ↦ t
  | some p ↦
      let s = slot t p in
      run_due time_requests (put_slot t p (record s { jiffies = word_sub s.jiffies 1 }))
]
