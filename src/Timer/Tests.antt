-- ===== src/Timer/Tests.antt =====
-- Runs of `add_timer` and `tick`, and the theorems at a queue of two timers.
use linux_0_12_study.Base.{[], arith, none, refl, replicate, some, ◌∷◌, ◌≡◌}
use linux_0_12_study.Timer.{Timers, empty_slot, find_slot, add_timer, tick}
use linux_0_12_study.Timer.Queue.{Cells, IsQueue}
use mathlib.Core.List.{reverse_aux}
use linux_0_12_study.Timer.Expiry.{
  expiries, before, from_on, delay, last_time, schedule_of, add_timer-schedule_of,
}
use linux_0_12_study.Timer.Tick.{ticks, functions, ticks-functions}

-- Function 7 runs after 3 ticks, function 8 after 10.
abbrev two_timers : Timers
two_timers = record {
  timer_list =
      (record { jiffies = 3; fn = 7; next = some 1 })
      ∷ (record { jiffies = 7; fn = 8; next = none })
      ∷ replicate 62 empty_slot;
  next_timer = some 0;
  ran = [];
}

abbrev two_cells : Cells
two_cells = (0, 3, 7) ∷ (1, 7, 8) ∷ []

two_timers-IsQueue : IsQueue two_timers two_cells
two_timers-IsQueue = record {
  size = refl;
  chain = (
    refl,
    omega arith,
    refl,
    refl,
    omega arith,
    omega arith,
    omega arith,
    refl,
    (refl, omega arith, refl, refl, omega arith, omega arith, omega arith, refl, refl),
  );
}

ticks_run : (ticks 10 two_timers).ran ≡ 8 ∷ 7 ∷ []
unfolding ticks tick
ticks_run = refl

ticks-functions_example :
    (cs' : Cells) × IsQueue (ticks 10 two_timers) cs'
    × ((ticks 10 two_timers).ran ≡ reverse_aux (functions (before 11 (schedule_of two_cells))) [])
ticks-functions_example = ticks-functions 10 two_timers two_cells two_timers-IsQueue

-- The timer of 10 ticks now runs after 12: 2 ticks late.
add_timer-schedule_of_example :
    (t' : Timers) × (cs' : Cells) × (add_timer 5 9 two_timers ≡ some t')
    × IsQueue t' cs'
    × (t'.ran ≡ [])
    × (schedule_of cs' ≡ (3, 7) ∷ (5, 9) ∷ (12, 8) ∷ [])
unfolding expiries before from_on delay last_time
add_timer-schedule_of_example =
    add_timer-schedule_of 5 9 two_timers two_cells {p = 2} two_timers-IsQueue
      (unfold find_slot in refl) (omega arith) (omega arith) (omega arith)
