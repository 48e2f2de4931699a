-- ===== src/Mktime.antt =====
-- ver05/kernel/mktime.c: the seconds since 1970 from the CMOS clock.
-- `struct tm` holds `int`s, given as bit patterns.
pub mod Calendar
pub mod Clock
mod Tests
use linux_0_12_study.Base.{
  List, Option, [], get_elem?, if◌then◌else◌, int_div, is_negative, ltb, none, not, some, suc, word,
  word_sub, zero, ℕ, ◌!=◌, ◌%◌, ◌&&◌, ◌*◌, ◌+◌, ◌/◌, ◌==◌, ◌∷◌,
}

pub record Tm : Type 0 where
  pub tm_sec : ℕ
  pub tm_min : ℕ
  pub tm_hour : ℕ
  pub tm_mday : ℕ
  pub tm_mon : ℕ
  pub tm_year : ℕ

abbrev pub minute : ℕ
minute = 60

abbrev pub hour : ℕ
hour = 60 * minute

abbrev pub day : ℕ
day = 24 * hour

abbrev pub year : ℕ
year = 365 * day

-- The seconds of a leap year before each month.
abbrev pub month : List ℕ
month =
    0
    ∷ (day * 31)
    ∷ (day * (31 + 29))
    ∷ (day * (31 + 29 + 31))
    ∷ (day * (31 + 29 + 31 + 30))
    ∷ (day * (31 + 29 + 31 + 30 + 31))
    ∷ (day * (31 + 29 + 31 + 30 + 31 + 30))
    ∷ (day * (31 + 29 + 31 + 30 + 31 + 30 + 31))
    ∷ (day * (31 + 29 + 31 + 30 + 31 + 30 + 31 + 31))
    ∷ (day * (31 + 29 + 31 + 30 + 31 + 30 + 31 + 31 + 30))
    ∷ (day * (31 + 29 + 31 + 30 + 31 + 30 + 31 + 31 + 30 + 31))
    ∷ (day * (31 + 29 + 31 + 30 + 31 + 30 + 31 + 31 + 30 + 31 + 30))
    ∷ []

-- What is computed once `month[tm->tm_mon]` is read.
mktime_of : Tm → ℕ → ℕ
mktime_of tm m =
    let y = word_sub tm.tm_year 70 in
    let whole = word (year * y + day * int_div (word (y + 1)) 4 + m) in
    let late = ltb 1 tm.tm_mon && not (is_negative tm.tm_mon) && (word (y + 2) % 4 != 0) in
    let res = (if late then word_sub whole day else whole) in
    word (res + day * word_sub tm.tm_mday 1 + hour * tm.tm_hour + minute * tm.tm_min + tm.tm_sec)

-- `none` is a read outside of `month`.
pub kernel_mktime : Tm → Option ℕ
unfolding mktime_of
kernel_mktime tm = elim (get_elem? month tm.tm_mon) [ none ↦ none | some m ↦ some (mktime_of tm m) ]

-- `BCD_TO_BIN`
pub bcd_to_bin : ℕ → ℕ
bcd_to_bin v = v % 16 + v / 16 * 10

-- One round of the loop of `time_init`: the k-th read of the clock, at each register. The seconds
-- are read again at the end of the round, as the read k + 6.
read_tm : (ℕ → ℕ → ℕ) → ℕ → Tm
read_tm cmos k = record {
  tm_sec = cmos k 0;
  tm_min = cmos (k + 1) 2;
  tm_hour = cmos (k + 2) 4;
  tm_mday = cmos (k + 3) 7;
  tm_mon = cmos (k + 4) 8;
  tm_year = cmos (k + 5) 9;
}

read_loop : ℕ → (ℕ → ℕ → ℕ) → ℕ → Option Tm
unfolding read_tm
read_loop zero cmos k = none
read_loop (suc fuel) cmos k =
    let again = read_loop fuel cmos (k + 7) in
    if (read_tm cmos k).tm_sec == cmos (k + 6) 0 then some (read_tm cmos k) else again

from_bcd : Tm → Tm
unfolding bcd_to_bin
from_bcd t = record {
  tm_sec = bcd_to_bin t.tm_sec;
  tm_min = bcd_to_bin t.tm_min;
  tm_hour = bcd_to_bin t.tm_hour;
  tm_mday = bcd_to_bin t.tm_mday;
  tm_mon = word_sub (bcd_to_bin t.tm_mon) 1;
  tm_year = bcd_to_bin t.tm_year;
}

-- `startup_time`, from the reads of the clock; `none` if the rounds of the loop run out.
pub time_init : ℕ → (ℕ → ℕ → ℕ) → Option ℕ
unfolding read_loop from_bcd kernel_mktime
time_init fuel cmos = elim (read_loop fuel cmos 0) [
  | none ↦ none
  | some t ↦ kernel_mktime (from_bcd t)
]
