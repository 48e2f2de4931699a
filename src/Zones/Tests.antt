-- ===== src/Zones/Tests.antt =====
-- A map of which the first three bits are set.
use linux_0_12_study.Base.{
  Option, arith, false, if◌then◌else◌, ltb, none, refl, some, true, ℕ, ◌==◌, ◌≡◌,
}
use linux_0_12_study.Zones.{
  Map, Super, zero_block, find_first_zero, zero_from, new_block, clear_zone, zone_number,
}
use linux_0_12_study.Zones.Search.{bit_in}
use linux_0_12_study.Zones.Numbers.{new_block-clear_zone}

abbrev three_set : ℕ → Option Map
three_set i = if i == 0 then some (record { bit_of = λ k. ltb k 3; dirt = 0 }) else none

abbrev small_disk : Super
small_disk = record {
  s_ninodes = 10;
  s_nzones = 100;
  s_firstdatazone = 8;
  s_imap = three_set;
  s_zmap = three_set;
}

first_zero : zero_block 8 three_set ≡ some (0, 3)
unfolding zero_block find_first_zero zero_from
first_zero = refl

new_block-clear_zone_example :
    let marked = (new_block (λ c. c) (λ b c. c) (λ b c. c) (λ c. c) (λ b c. c) 4 3 small_disk).0 in
    (bit_in (three_set 0) 3 ≡ false)
    × (bit_in (marked.s_zmap 0) 3 ≡ true)
    × (bit_in ((clear_zone marked (zone_number marked 0 3)).s_zmap 0) 2 ≡ bit_in (three_set 0) 2)
new_block-clear_zone_example =
    new_block-clear_zone (λ c. c) (λ b c. c) (λ b c. c) (λ c. c) (λ b c. c) 4 3 0 3 0 2 small_disk
      first_zero (omega arith) (omega arith)
