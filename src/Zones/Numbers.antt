-- ===== src/Zones/Numbers.antt =====
-- Zones and their bits (ver05/fs/bitmap.c): what `free_block` clears is what `new_block` set.
use linux_0_12_study.Base.{
  Bool, Bool-cases, Option, ap, arith, eq→==, false, if◌then◌else◌, inl, inr, map, none, refl, some,
  subst, sym, true, ℕ, ◌%◌, ◌&&◌, ◌*◌, ◌+◌, ◌/◌, ◌<◌, ◌==◌, ◌^◌, ◌∙◌, ◌≡◌,
}
use linux_0_12_study.Buffers.{Cache}
use linux_0_12_study.Zones.{
  Map, Super, put_bit, put_in, with_bit, clear_zone, new_block, zero_block, zone_number, zone_index,
  take_zone,
}
use linux_0_12_study.Zones.Search.{bit_in, zero_block-at}

-- The bits after one of them has been given a value.
abbrev pub with_value : Bool → ℕ → ℕ → ℕ → ℕ → Bool → Bool
with_value b i j x y old = if (i == x) && (y == j) then b else old

pub put_bit-at :
    (b : Bool) (i j : ℕ) (m : Map) (map : ℕ → Option Map) (x y : ℕ)
    → map i ≡ some m
    → bit_in (put_bit b i j map x) y ≡ with_value b i j x y (bit_in (map x) y)
put_bit-at b i j m map x y e =
    ap (λ o. bit_in (put_in o b i j map x) y) e ∙ elim (Bool-cases (i == x)) [
      | inl s ↦ let there : map x ≡ some m = ap map (ground (arith, s)) ∙ e in rw (s, there) refl
      | inr s ↦ rw s refl
    ]

put_bit-there :
    (b : Bool) (i j : ℕ) (m : Map) (map : ℕ → Option Map)
    → map i ≡ some m
    → put_bit b i j map i ≡ some (with_bit b j m)
put_bit-there b i j m map e =
    ap (λ o. put_in o b i j map i) e
    ∙ ap (λ t. if t then some (with_bit b j m) else map i) (eq→== i i refl)

-- A bit that was clear is set and cleared again.
put_bit-back :
    (i j : ℕ) (m : Map) (map : ℕ → Option Map) (x y : ℕ)
    → map i ≡ some m
    → m.bit_of j ≡ false
    → bit_in (put_bit false i j (put_bit true i j map) x) y ≡ bit_in (map x) y
put_bit-back i j m map x y e clear =
    let again =
      put_bit-at false i j (with_bit true j m) (put_bit true i j map) x y
        (put_bit-there true i j m map e) in
    again
    ∙ ap (with_value false i j x y) (put_bit-at true i j m map x y e)
    ∙ elim (Bool-cases ((i == x) && (y == j))) [
      | inl s ↦
          let ix : i ≡ x = ground (arith, s) in
          let yj : y ≡ j = ground (arith, s) in
          rw s (
            sym (
              ap (λ a. bit_in (map a) y) (sym ix)
              ∙ ap (λ o. bit_in o y) e
              ∙ ap m.bit_of yj
              ∙ clear))
      | inr s ↦ rw s refl
    ]

-- The map for a bit that is clear is there.
pub clear-there :
    (o : Option Map) (j : ℕ) → bit_in o j ≡ false → (m : Map) × (o ≡ some m) × (m.bit_of j ≡ false)
clear-there none j h = ground arith
clear-there (some m) j h = (m, refl, h)

zone_index-number :
    (sb : Super) (i j : ℕ)
    → i < 8
    → j < 8192
    → 0 < sb.s_firstdatazone
    → sb.s_firstdatazone < 2 ^ 16
    → zone_index sb (zone_number sb i j) ≡ j + i * 8192
zone_index-number sb i j a b c d = omega arith

module _ (others : Cache → Cache) (write read : ℕ → Cache → Cache)
    (sync_inodes : Cache → Cache) where
  -- `new_block` sets a bit of the map that was clear, and clearing the bit of the zone's number, as
  -- `free_block` does, gives back all bits of the map as they were.
  pub new_block-clear_zone :
      (clear : ℕ → Cache → Cache) (fuel dev i j x y : ℕ) (sb : Super)
      → zero_block 8 sb.s_zmap ≡ some (i, j)
      → 0 < sb.s_firstdatazone
      → sb.s_firstdatazone < 2 ^ 16
      → let marked = (new_block others write read sync_inodes clear fuel dev sb).0 in
        (bit_in (sb.s_zmap i) j ≡ false)
        × (bit_in (marked.s_zmap i) j ≡ true)
        × (bit_in ((clear_zone marked (zone_number marked i j)).s_zmap x) y
            ≡ bit_in (sb.s_zmap x) y)
  unfolding new_block
  new_block-clear_zone clear fuel dev i j x y sb e p q =
      let (a, b, c) = zero_block-at sb.s_zmap i j e in
      let (m, there, bit) = clear-there (sb.s_zmap i) j c in
      let n = zone_index-number sb i j a b p q in
      let marked = record sb { s_zmap = put_bit true i j sb.s_zmap } in
      let k : (new_block others write read sync_inodes clear fuel dev sb).0 ≡ marked =
        ap (λ o. (take_zone others write read sync_inodes o clear fuel dev sb).0) e in
      let first : zone_index marked (zone_number marked i j) / 8192 ≡ i = omega (arith, n) in
      let second : zone_index marked (zone_number marked i j) % 8192 ≡ j = omega (arith, n) in
      subst
        (λ r.
          (bit_in (sb.s_zmap i) j ≡ false)
          × (bit_in (r.s_zmap i) j ≡ true)
          × (bit_in ((clear_zone r (zone_number r i j)).s_zmap x) y ≡ bit_in (sb.s_zmap x) y))
        (sym k)
        (
          c,
          ap (λ o. bit_in o j) (put_bit-there true i j m sb.s_zmap there)
              ∙ ap (λ t. if t then true else m.bit_of j) (eq→== j j refl),
          ap
                (λ u.
                  bit_in
                    (put_bit false u (zone_index marked (zone_number marked i j) % 8192)
                      marked.s_zmap x)
                    y)
                first
              ∙ ap (λ u. bit_in (put_bit false i u marked.s_zmap x) y) second
              ∙ put_bit-back i j m sb.s_zmap x y there bit,
        )
