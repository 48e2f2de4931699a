-- ===== src/Bmap/Device.antt =====
-- The bit map of a device (ver05/fs/bitmap.c) behind `create_block` (ver05/fs/inode.c): what `new_block`
-- does, told of the blocks in use.
use linux_0_12_study.Base.{
  Bool, Bool-cases, Option, Option-cases, ap, arith, eq→==, false, if◌then◌else◌, inl, inr, int_le,
  ne→==_false, none, refl, some, subst, sym, true, ℕ, ◌*◌, ◌+◌, ◌-◌, ◌<◌, ◌==◌, ◌∙◌, ◌≡◌, ◌≢◌, ◌≤◌,
  ◌⊎◌,
}
use mathlib.Core.Option
use linux_0_12_study.Zones.{Map, Super, zero_block, zone_number}
use linux_0_12_study.Zones.Search.{bit_in, zero_block-at}
use linux_0_12_study.Zones.First.{zero_block-first}
use linux_0_12_study.Bmap.{Disk}
use linux_0_12_study.Bmap.Contract.{IsAllocator}

abbrev pub mark : ℕ → Disk → Disk
mark n d = record d { used = λ b. if b == n then true else d.used b }

abbrev pub wipe : ℕ → Disk → Disk
wipe n d = record d { entry = λ b k. if b == n then 0 else d.entry b k }

-- The sizes of a device whose zones have numbers of 16 bits; the first block is no zone.
pub record IsSized (sb : Super) : Type 0 where
  pub first_zone : (1 < sb.s_firstdatazone) × (sb.s_firstdatazone < 65536)
  pub few_zones : sb.s_nzones < 65536

pub zone_number-lem :
    (sb : Super) (i j : ℕ)
    → IsSized sb
    → i < 8
    → j < 8192
    → zone_number sb i j ≡ i * 8192 + j + sb.s_firstdatazone - 1
zone_number-lem sb i j s a b = ground (arith, s.first_zone)

int_le-le : (a b : ℕ) → a < 65536 → b < 200000 → int_le a b ≡ true → a ≤ b
int_le-le a b p q h = ground arith

int_le-lt : (a b : ℕ) → a < 65536 → b < 200000 → int_le a b ≡ false → b < a
int_le-lt a b p q h = ground arith

small_number :
    (i j first n : ℕ) → i < 8 → j < 8192 → first < 65536 → n ≡ i * 8192 + j + first - 1 → n < 200000
small_number i j first n a b c e = omega arith

module _ (sb : Super) where
  -- The maps of the device, which have the bits of the blocks in use.
  abbrev pub maps : (ℕ → Bool) → ℕ → Option Map
  maps used i =
      Option.map {A = Map} (λ m. record m { bit_of = λ j. used (zone_number sb i j) }) (sb.s_zmap i)

  -- A zone behind the end of the device is only marked.
  unfoldable pub grant_zone : Bool → ℕ → Disk → ℕ × Disk
  grant_zone true b d = (0, mark b d)
  grant_zone false b d = (b, wipe b (mark b d))

  unfoldable pub grant : Option (ℕ × ℕ) → Disk → ℕ × Disk
  grant none d = (0, d)
  grant (some (i, j)) d =
      grant_zone (int_le sb.s_nzones (zone_number sb i j)) (zone_number sb i j) d

  unfoldable pub device_block : Disk → ℕ × Disk
  device_block d = grant (zero_block 8 (maps d.used)) d

  -- What the search has found: bit j of block i, for the zone n.
  abbrev pub Found : Disk → ℕ → ℕ → ℕ → Type 0
  Found d i j n =
      (zero_block 8 (maps d.used) ≡ some (i, j))
      × (i < 8)
      × (j < 8192)
      × (n ≡ i * 8192 + j + sb.s_firstdatazone - 1)
      × (n ≡ zone_number sb i j)
      × (d.used n ≡ false)

  -- The device is full, has only bits left that are behind its end, or gives zone n.
  abbrev View : Disk → Type 0
  View d =
      ((zero_block 8 (maps d.used) ≡ none) × (device_block d ≡ (0, d)))
      ⊎ ((i j n : ℕ) × Found d i j n × (sb.s_nzones ≤ n) × (device_block d ≡ (0, mark n d)))
      ⊎ ((i j n : ℕ) × Found d i j n
          × (n < sb.s_nzones)
          × (device_block d ≡ (n, wipe n (mark n d))))

  clear-used :
      (used : ℕ → Bool) (i j : ℕ) (o : Option Map)
      → bit_in
          (Option.map {A = Map} (λ m. record m { bit_of = λ x. used (zone_number sb i x) }) o)
          j
        ≡ false
      → used (zone_number sb i j) ≡ false
  clear-used used i j none h = absurd (cc h)
  clear-used used i j (some m) h = h

  view : IsSized sb → (d : Disk) → View d
  unfolding device_block grant grant_zone
  view s d = elim (Option-cases (zero_block 8 (maps d.used))) [
    | inl z ↦ inl (z, ap (λ o. grant o d) z)
    | inr ((i, j), e) ↦
        let (a, b, c) = zero_block-at (maps d.used) i j e in
        let n = zone_number sb i j in
        let number = zone_number-lem sb i j s a b in
        let found : Found d i j n =
          (e, a, b, number, refl, clear-used d.used i j (sb.s_zmap i) c) in
        elim (Bool-cases (int_le sb.s_nzones n)) [
          | inl t ↦ inr (
              inl (
                i,
                j,
                n,
                found,
                int_le-le sb.s_nzones n s.few_zones
                    (small_number i j sb.s_firstdatazone n a b s.first_zone.1 number) t,
                ap (λ o. grant o d) e ∙ ap (λ q. grant_zone q n d) t,
              ))
          | inr t ↦ inr (
              inr (
                i,
                j,
                n,
                found,
                int_le-lt sb.s_nzones n s.few_zones
                    (small_number i j sb.s_firstdatazone n a b s.first_zone.1 number) t,
                ap (λ o. grant o d) e ∙ ap (λ q. grant_zone q n d) t,
              ))
        ]
  ]

  pub by_view :
      IsSized sb
      → (d : Disk) (P : ℕ × Disk → Type 0) → (zero_block 8 (maps d.used) ≡ none → P (0, d))
      → ((i j n : ℕ) → Found d i j n → sb.s_nzones ≤ n → P (0, mark n d))
      → ((i j n : ℕ) → Found d i j n → n < sb.s_nzones → P (n, wipe n (mark n d)))
      → P (device_block d)
  by_view s d P full behind given = elim (view s d) [
    | inl (z, e) ↦ subst P (sym e) (full z)
    | inr (inl (i, j, n, found, l, e)) ↦ subst P (sym e) (behind i j n found l)
    | inr (inr (i, j, n, found, l, e)) ↦ subst P (sym e) (given i j n found l)
  ]

  mark-used : (n : ℕ) (d : Disk) → (mark n d).used n ≡ true
  mark-used n d = rw (eq→== n n refl) refl

  mark-still : (n : ℕ) (d : Disk) (b : ℕ) → d.used b ≡ true → (mark n d).used b ≡ true
  mark-still n d b h = elim (Bool-cases (b == n)) [ inl e ↦ rw e refl | inr e ↦ rw e h ]

  mark-free : (n : ℕ) (d : Disk) (b : ℕ) → (mark n d).used b ≡ false → (b ≢ n) × (d.used b ≡ false)
  mark-free n d b h = elim (Bool-cases (b == n)) [
    | inl e ↦ absurd (cc (rw e at h))
    | inr e ↦ ((λ z. cc (eq→== b n z, e)), (rw e at h))
  ]

  bit_of-other :
      (used used' : ℕ → Bool) (i j : ℕ) (o : Option Map)
      → bit_in
          (Option.map {A = Map} (λ m. record m { bit_of = λ x. used' (zone_number sb i x) }) o)
          j
        ≡ false
      → used (zone_number sb i j) ≡ false
      → bit_in
          (Option.map {A = Map} (λ m. record m { bit_of = λ x. used (zone_number sb i x) }) o)
          j
        ≡ false
  bit_of-other used used' i j none h _ = h
  bit_of-other used used' i j (some m) _ h = h

  full-fails : (d : Disk) → zero_block 8 (maps d.used) ≡ none → (device_block d).0 ≡ 0
  unfolding device_block grant
  full-fails d z = ap (λ o. (grant o d).0) z

  -- After a zone behind the end of the device, no other is given.
  behind-fails :
      IsSized sb
      → (d : Disk) (i j n : ℕ) → Found d i j n
      → sb.s_nzones ≤ n
      → (device_block (mark n d)).0 ≡ 0
  behind-fails s d i j n (e, a, b, num, _, free) l =
      by_view s (mark n d) (λ r. r.0 ≡ 0) (λ _. refl) (λ _ _ _ _ _. refl)
        (λ i' j' n' (e', a', b', num', zone', free') l'.
          let (_, _, clear) = zero_block-at (maps (mark n d).used) i' j' e' in
          let set : bit_in (maps d.used i') j' ≡ true =
            zero_block-first (maps d.used) i j i' j' e b' (omega arith) in
          let unset : bit_in (maps d.used i') j' ≡ false =
            bit_of-other d.used (mark n d).used i' j' (sb.s_zmap i') clear
              (subst (λ x. d.used x ≡ false) zone' (mark-free n d n' free').1) in
          absurd (cc (set, unset)))

  pub device_block-IsAllocator : IsSized sb → IsAllocator device_block
  device_block-IsAllocator s = record {
    in_range = λ d.
        by_view s d (λ r. r.0 < 65536) (λ _. omega arith) (λ _ _ _ _ _. omega arith)
          (λ i j n f l. omega (arith, s.few_zones));
    was_free = λ d.
        by_view s d (λ r. r.0 ≢ 0 → d.used r.0 ≡ false) (λ _ ne. absurd (ne refl))
          (λ _ _ _ _ _ ne. absurd (ne refl)) (λ i j n (_, _, _, _, _, free) l _. free);
    now_used = λ d.
        by_view s d (λ r. r.0 ≢ 0 → r.1.used r.0 ≡ true) (λ _ ne. absurd (ne refl))
          (λ _ _ _ _ _ ne. absurd (ne refl)) (λ i j n _ _ _. mark-used n d);
    is_clear = λ d k.
        by_view s d (λ r. r.0 ≢ 0 → r.1.entry r.0 k ≡ 0) (λ _ ne. absurd (ne refl))
          (λ _ _ _ _ _ ne. absurd (ne refl)) (λ i j n _ _ _. rw (eq→== n n refl) refl);
    fails_again = λ d.
        by_view s d (λ r. r.0 ≡ 0 → (device_block r.1).0 ≡ 0) (λ z _. full-fails d z)
          (λ i j n f l _. behind-fails s d i j n f l)
          (λ i j n (_, _, _, num, _, _) l z. absurd (omega (arith, num, z, s.first_zone)));
    still_used = λ d b h.
        by_view s d (λ r. r.1.used b ≡ true) (λ _. h) (λ i j n _ _. mark-still n d b h)
          (λ i j n _ _. mark-still n d b h);
    others_kept = λ d b k.
        by_view s d (λ r. b ≢ r.0 → r.1.entry b k ≡ d.entry b k) (λ _ _. refl) (λ _ _ _ _ _ _. refl)
          (λ i j n _ _ ne. rw (ne→==_false b n ne) refl);
  }
