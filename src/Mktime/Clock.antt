-- ===== src/Mktime/Clock.antt =====
-- `time_init`: reading the CMOS clock.
use linux_0_12_study.Base.{
  ap, arith, false, some, subst, suc, zero, ℕ, ◌%◌, ◌*◌, ◌+◌, ◌/◌, ◌<◌, ◌==◌, ◌∙◌, ◌≡◌, ◌≢◌,
}
use linux_0_12_study.Mktime.{Tm, bcd_to_bin, read_tm, read_loop, from_bcd, kernel_mktime, time_init}
use linux_0_12_study.Mktime.Calendar.{IsDate, seconds_since_1970, kernel_mktime-seconds_since_1970}

-- What a register of the clock holds for the number n.
abbrev pub to_bcd : ℕ → ℕ
to_bcd n = n / 10 * 16 + n % 10

bcd_to_bin-to_bcd : (n : ℕ) → bcd_to_bin (to_bcd n) ≡ n
unfolding bcd_to_bin
bcd_to_bin-to_bcd n = omega arith

-- The round of reads that begins with the read k sees the date and time tm, the year in the
-- twentieth century, and the same seconds at its end.
pub record Shows (cmos : ℕ → ℕ → ℕ) (k : ℕ) (tm : Tm) : Type 0 where
  pub sec : cmos k 0 ≡ to_bcd tm.tm_sec
  pub minutes : cmos (k + 1) 2 ≡ to_bcd tm.tm_min
  pub hours : cmos (k + 2) 4 ≡ to_bcd tm.tm_hour
  pub mday : cmos (k + 3) 7 ≡ to_bcd tm.tm_mday
  pub mon : cmos (k + 4) 8 ≡ to_bcd (tm.tm_mon + 1)
  pub years : cmos (k + 5) 9 ≡ to_bcd tm.tm_year
  pub same_sec : cmos (k + 6) 0 ≡ to_bcd tm.tm_sec

-- The seconds change during the round that begins with the read k.
abbrev pub Ticks : (ℕ → ℕ → ℕ) → ℕ → Type 0
Ticks cmos k = cmos k 0 ≢ cmos (k + 6) 0

module _ (cmos : ℕ → ℕ → ℕ) (tm : Tm) where
  from_bcd-Shows : (k : ℕ) → tm.tm_mon < 12 → Shows cmos k tm → from_bcd (read_tm cmos k) ≡ tm
  unfolding from_bcd read_tm
  from_bcd-Shows k h s = ground (
    arith,
    bcd_to_bin-to_bcd tm.tm_sec,
    bcd_to_bin-to_bcd tm.tm_min,
    bcd_to_bin-to_bcd tm.tm_hour,
    bcd_to_bin-to_bcd tm.tm_mday,
    bcd_to_bin-to_bcd (tm.tm_mon + 1),
    bcd_to_bin-to_bcd tm.tm_year,
  )

  read_loop-Shows :
      (j fuel k : ℕ)
      → j < fuel
      → ((i : ℕ) → i < j → Ticks cmos (k + 7 * i))
      → Shows cmos (k + 7 * j) tm
      → read_loop fuel cmos k ≡ some (read_tm cmos (k + 7 * j))
  unfolding read_loop read_tm
  read_loop-Shows j zero k h ticks s = absurd (omega arith)
  read_loop-Shows zero (suc fuel) k h ticks s =
      let e : k + 7 * 0 ≡ k = omega arith in rw e (ground (arith, subst (λ n. Shows cmos n tm) e s))
  read_loop-Shows (suc j) (suc fuel) k h ticks s =
      let e : k + 7 * suc j ≡ k + 7 + 7 * j = omega arith in
      let ih =
        read_loop-Shows j fuel (k + 7) (omega arith)
          (λ i l. subst (Ticks cmos) (omega arith) (ticks (suc i) (omega arith)))
          (subst (λ n. Shows cmos n tm) e s) in
      let t : Ticks cmos k = subst (Ticks cmos) (omega arith) (ticks 0 (omega arith)) in
      let d : ((read_tm cmos k).tm_sec == cmos (k + 6) 0) ≡ false = ground arith in rw (d, e) ih

-- If the seconds change during the first j rounds of reads, and the next round sees a date and
-- time of the years 1970 to 1999, then `time_init` sets `startup_time` to its seconds since 1970,
-- given more rounds than j.
pub time_init-seconds_since_1970 :
    (cmos : ℕ → ℕ → ℕ) (tm : Tm) (j fuel : ℕ)
    → IsDate tm
    → tm.tm_year < 100
    → j < fuel
    → ((i : ℕ) → i < j → Ticks cmos (7 * i))
    → Shows cmos (7 * j) tm
    → time_init fuel cmos ≡ some (seconds_since_1970 tm)
unfolding time_init
time_init-seconds_since_1970 cmos tm j fuel d y h ticks s =
    let found : read_loop fuel cmos 0 ≡ some (read_tm cmos (7 * j)) =
      read_loop-Shows cmos tm j fuel 0 h (λ i l. subst (Ticks cmos) (omega arith) (ticks i l))
        (subst (λ n. Shows cmos n tm) (omega arith) s)
      ∙ ap (λ n. some (read_tm cmos n)) (omega arith) in
    rw (found, time_init)
      (ap kernel_mktime (from_bcd-Shows cmos tm (7 * j) d.mon_in s)
        ∙ kernel_mktime-seconds_since_1970 tm d)
