-- ===== src/Bmap/Agree.antt =====
-- `new_block` of ver05/fs/bitmap.c does what `device_block` says of the blocks in use.
use linux_0_12_study.Base.{
  Bool-cases, Option, ap, arith, eq→==, false, inl, inr, int_le, ne→==_false, none, refl, some,
  subst, sym, true, ℕ, ℕ_discrete, ◌!=◌, ◌&&◌, ◌*◌, ◌+◌, ◌-◌, ◌<◌, ◌==◌, ◌∙◌, ◌≡◌, ◌≤◌,
}
use mathlib.Core.Option
use mathlib.Core.Path.{ap₂}
use linux_0_12_study.Buffers.{Cache}
use linux_0_12_study.Buffers.Runs.{Op, Ends, Ends-bind, Ends-if, panic}
use linux_0_12_study.Buffers.Blocks.{getblk, brelse}
use linux_0_12_study.Zones.{
  Map, Super, put_bit, new_block, take_zone, fresh_zone, zero_block, zone_number,
}
use linux_0_12_study.Zones.Search.{bit_in, zero_block-at}
use linux_0_12_study.Zones.Numbers.{put_bit-at, with_value, clear-there}
use linux_0_12_study.Bmap.{Disk}
use linux_0_12_study.Bmap.Contract.{IsAllocator}
use linux_0_12_study.Bmap.Device.{
  mark, wipe, IsSized, maps, device_block, Found, by_view, zone_number-lem,
  device_block-IsAllocator,
}

-- The super block with the bits of the blocks in use.
abbrev pub on_device : Super → Disk → Super
on_device sb d = record sb { s_zmap = maps sb d.used }

module _ (sb : Super) (s : IsSized sb) where
  same_zone :
      (i j x y : ℕ)
      → i < 8
      → j < 8192
      → x < 8
      → y < 8192
      → zone_number sb x y ≡ zone_number sb i j
      → (x ≡ i) × (y ≡ j)
  same_zone i j x y a b c e h =
      let p = zone_number-lem sb i j s a b in
      let q = zone_number-lem sb x y s c e in
      let r : x * 8192 + y + sb.s_firstdatazone - 1 ≡ i * 8192 + j + sb.s_firstdatazone - 1 =
        sym q ∙ h ∙ p in
      (omega (arith, r, s.first_zone), omega (arith, r, s.first_zone))

  mark-bit :
      (d : Disk) (i j n x y : ℕ) (o : Option Map)
      → Found sb d i j n
      → x < 8
      → y < 8192
      → with_value true i j x y (
          bit_in
            (Option.map {A = Map} (λ m. record m { bit_of = λ z. d.used (zone_number sb x z) }) o)
            y)
        ≡ bit_in
            (Option.map {A = Map}
              (λ m. record m { bit_of = λ z. (mark n d).used (zone_number sb x z) })
              o)
            y
  mark-bit d i j n x y none _ c f = elim (Bool-cases ((i == x) && (y == j))) [
    | inl t ↦ rw t refl
    | inr t ↦ rw t refl
  ]
  mark-bit d i j n x y (some m) (e, a, b, num, zone, free) c f =
      let k = zone_number sb x y in
      elim (ℕ_discrete k n) [
        | yes q ↦
            let (xi, yj) = same_zone i j x y a b c f (q ∙ zone) in
            ap (λ t. with_value true i j x y t) refl
            ∙ let both : ((i == x) && (y == j)) ≡ true = ground (arith, xi, yj) in
              rw (both, eq→== k n q) refl
        | no q ↦ elim (Bool-cases ((i == x) && (y == j))) [
          | inl t ↦
              absurd (q (ap₂ (zone_number sb) (ground (arith, t)) (ground (arith, t)) ∙ sym zone))
          | inr t ↦ rw (t, ne→==_false k n q) refl
        ]
      ]

  -- The bits after one is set are those of the blocks in use and its block.
  marked-bit :
      (d : Disk) (i j n x y : ℕ)
      → Found sb d i j n
      → x < 8
      → y < 8192
      → bit_in (put_bit true i j (maps sb d.used) x) y ≡ bit_in (maps sb (mark n d).used x) y
  marked-bit d i j n x y found c f =
      let (_, _, clear) = zero_block-at (maps sb d.used) i j found.0 in
      let (m, there, _) = clear-there (maps sb d.used i) j clear in
      put_bit-at true i j m (maps sb d.used) x y there
      ∙ mark-bit d i j n x y (sb.s_zmap x) found c f

module _ (others : Cache → Cache) (write read : ℕ → Cache → Cache)
    (sync_inodes : Cache → Cache) where
  fresh_zone-Ends :
      (clear : ℕ → Cache → Cache) (fuel dev j : ℕ) (c : Cache)
      → Ends (λ r _. r ≡ j) (fresh_zone others write read sync_inodes clear fuel dev j c)
  unfolding fresh_zone
  fresh_zone-Ends clear fuel dev j c =
      Ends-bind (λ r _. r ≡ j) (getblk others write read sync_inodes fuel dev j c) _
        (λ bh c1 _.
          Ends-if (λ r _. r ≡ j) ((c1.buffer bh).b_count != 1) panic _ c1 (λ _. tt)
            (Ends-bind (λ r _. r ≡ j) (brelse others write read sync_inodes fuel bh _) _
              (λ _ _ _. refl)))

  -- The maps afterwards have the bits of the blocks in use, and a result is the zone.
  abbrev Good : Super → ℕ × Disk → Super × Op ℕ → Type 0
  Good sb r t =
      ((x y : ℕ) → x < 8 → y < 8192 → bit_in (t.0.s_zmap x) y ≡ bit_in (maps sb r.1.used x) y)
      × ((c : Cache) → Ends (λ q _. q ≡ r.0) (t.1 c))

  le-int_le : (a b : ℕ) → a < 65536 → b < 200000 → a ≤ b → int_le a b ≡ true
  le-int_le a b p q h = ground arith

  lt-int_le : (a b : ℕ) → a < 65536 → b < 200000 → b < a → int_le a b ≡ false
  lt-int_le a b p q h = ground arith

  module _ (sb : Super) (s : IsSized sb) (clear : ℕ → Cache → Cache) (fuel dev : ℕ) where
    taken : Disk → Option (ℕ × ℕ) → Super × Op ℕ
    taken d o = take_zone others write read sync_inodes o clear fuel dev (on_device sb d)

    behind-Good :
        (d : Disk) (i j n : ℕ)
        → Found sb d i j n
        → sb.s_nzones ≤ n
        → Good sb (0, mark n d) (taken d (some (i, j)))
    unfolding taken
    behind-Good d i j n found l =
        let (_, a, b, num, zone, _) = found in
        let t : int_le sb.s_nzones (zone_number sb i j) ≡ true =
          subst (λ z. int_le sb.s_nzones z ≡ true) zone
            (le-int_le sb.s_nzones n s.few_zones (omega (arith, num, a, b, s.first_zone)) l) in
        ((λ x y c f. marked-bit sb s d i j n x y found c f), (λ c. rw t refl))

    given-Good :
        (d : Disk) (i j n : ℕ)
        → Found sb d i j n
        → n < sb.s_nzones
        → Good sb (n, wipe n (mark n d)) (taken d (some (i, j)))
    unfolding taken
    given-Good d i j n found l =
        let (_, a, b, num, zone, _) = found in
        let t : int_le sb.s_nzones (zone_number sb i j) ≡ false =
          subst (λ z. int_le sb.s_nzones z ≡ false) zone
            (lt-int_le sb.s_nzones n s.few_zones (omega (arith, num, a, b, s.first_zone)) l) in
        (
          (λ x y c f. marked-bit sb s d i j n x y found c f),
          (λ c. rw t (
              subst
                (λ m.
                  Ends (λ q _. q ≡ m)
                    (fresh_zone others write read sync_inodes clear fuel dev (zone_number sb i j)
                      c))
                (sym zone) (fresh_zone-Ends clear fuel dev (zone_number sb i j) c))),
        )

    new_block-Good :
        (d : Disk)
        → Good sb
            (device_block sb d)
            (new_block others write read sync_inodes clear fuel dev (on_device sb d))
    unfolding new_block taken
    new_block-Good d =
        by_view sb s d (λ r. Good sb r (taken d (zero_block 8 (maps sb d.used))))
          (λ e. subst (λ o. Good sb (0, d) (taken d o)) (sym e) ((λ _ _ _ _. refl), (λ _. refl)))
          (λ i j n found l.
            subst (λ o. Good sb (0, mark n d) (taken d o)) (sym found.0)
              (behind-Good d i j n found l))
          (λ i j n found l.
            subst (λ o. Good sb (n, wipe n (mark n d)) (taken d o)) (sym found.0)
              (given-Good d i j n found l))

    -- For a device whose first data zone is from 2 to 65535 and that has less than 65536 zones,
    -- `new_block` on the maps whose bits are the blocks in use leaves the bits of the blocks in
    -- use after `device_block`, and what it returns, if it does not panic or go on sleeping, is
    -- the block of `device_block`; and `device_block` keeps the contract that `create_block`
    -- relies on.
    pub new_block-device_block :
        IsAllocator (device_block sb)
        × ((d : Disk)
            → let (marked, run) =
                new_block others write read sync_inodes clear fuel dev (on_device sb d) in
              ((x y : ℕ)
                → x < 8
                → y < 8192
                → bit_in (marked.s_zmap x) y ≡ bit_in (maps sb (device_block sb d).1.used x) y)
              × ((c : Cache) → Ends (λ q _. q ≡ (device_block sb d).0) (run c)))
    new_block-device_block = (device_block-IsAllocator sb s, new_block-Good)
