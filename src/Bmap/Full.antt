-- ===== src/Bmap/Full.antt =====
-- When `create_block` of ver05/fs/inode.c returns 0.
use linux_0_12_study.Base.{
  ==_iff, Bool, Bool-cases, ap, arith, eq→==, false, inl, inr, not, refl, suc, sym, true, zero, ℕ,
  ◌%◌, ◌&&◌, ◌/◌, ◌==◌, ◌||◌, ◌∙◌, ◌≡◌, ◌≢◌, ◌⊎◌,
}
use mathlib.Core.Bool.{true≢false}
use linux_0_12_study.Bmap.{
  Disk, Volume, enter, zone_at, entry_at, fill_zone, fill_entry, read_entry, single, double,
}
use linux_0_12_study.Bmap.Contract.{IsAllocator, mod_of_small}

module _ (readable : ℕ → Bool) (new_block : Disk → ℕ × Disk) (current_time : ℕ) where
  -- The device is full, or it has a block that cannot be read.
  abbrev pub IsStuck : Volume → Type 0
  IsStuck v = ((new_block v.disk).0 ≡ 0) ⊎ ((block : ℕ) × (block ≢ 0) × (readable block ≡ false))

  fill_zone-full :
      IsAllocator new_block
      → (b : Bool) (k : ℕ) (v : Volume) → (b ≡ false → v.file.i_zone k ≢ 0)
      → (fill_zone readable new_block current_time b k v).0 ≡ 0
      → (new_block (fill_zone readable new_block current_time b k v).1.disk).0 ≡ 0
  unfolding fill_zone
  fill_zone-full laws true k v _ failed =
      laws.fails_again v.disk
        (sym (mod_of_small (new_block v.disk).0 (laws.in_range v.disk)) ∙ failed)
  fill_zone-full _ false _ _ present failed = absurd (present refl failed)

  enter-zero : (block k r : ℕ) (d : Disk) → r ≡ 0 → enter block k r d ≡ d
  unfolding enter
  enter-zero _ _ zero _ _ = refl
  enter-zero _ _ (suc r) _ failed = absurd (ground arith)

  fill_entry-full :
      IsAllocator new_block
      → (b : Bool) (block k : ℕ) (v : Volume) → (b ≡ false → v.disk.entry block k ≢ 0)
      → (fill_entry readable new_block current_time b block k v).0 ≡ 0
      → (new_block (fill_entry readable new_block current_time b block k v).1.disk).0 ≡ 0
  unfolding fill_entry
  fill_entry-full laws true block k v _ failed =
      ap (λ d. (new_block d).0)
        (enter-zero block k (new_block v.disk).0 (new_block v.disk).1 failed)
      ∙ laws.fails_again v.disk failed
  fill_entry-full _ false _ _ _ present failed = absurd (present refl failed)

  not_empty : (x : ℕ) → (true && (x == 0)) ≡ false → x ≢ 0
  not_empty x h = ground arith

  pub zone_at-IsStuck :
      IsAllocator new_block
      → (k : ℕ) (v : Volume) → (zone_at readable new_block current_time true k v).0 ≡ 0
      → IsStuck (zone_at readable new_block current_time true k v).1
  zone_at-IsStuck laws k v failed = inl (
      fill_zone-full laws (true && (v.file.i_zone k == 0)) k v (not_empty (v.file.i_zone k)) failed)

  read_entry-IsStuck :
      IsAllocator new_block
      → (b : Bool) (block k : ℕ) (v : Volume) → (b ≡ true → IsStuck v)
      → (read_entry readable new_block current_time b true block k v).0 ≡ 0
      → IsStuck (read_entry readable new_block current_time b true block k v).1
  unfolding read_entry
  read_entry-IsStuck _ true _ _ _ before _ = before refl
  read_entry-IsStuck laws false block k v _ failed = inl (
      fill_entry-full laws (true && (v.disk.entry block k == 0)) block k v
        (not_empty (v.disk.entry block k)) failed)

  not_readable : (b r : Bool) → b ≡ false → (b || not r) ≡ true → r ≡ false
  not_readable true _ h _ = absurd (true≢false h)
  not_readable false true _ e = sym e
  not_readable false false _ _ = refl

  entry_at-IsStuck :
      IsAllocator new_block
      → (block k : ℕ) (v : Volume) → (block ≡ 0 → IsStuck v)
      → (entry_at readable new_block current_time true block k v).0 ≡ 0
      → IsStuck (entry_at readable new_block current_time true block k v).1
  entry_at-IsStuck laws block k v before =
      read_entry-IsStuck laws ((block == 0) || not (readable block)) block k v (λ e.
        elim (Bool-cases (block == 0)) [
          | inl z ↦ before ((==_iff block 0).0 z)
          | inr z ↦ inr (
            block,
            (λ same. true≢false (sym (eq→== block 0 same) ∙ z)),
            not_readable (block == 0) (readable block) z e,
          )
        ])

  pub single-IsStuck :
      IsAllocator new_block
      → (k : ℕ) (v : Volume)
      → let r =
          single readable new_block current_time true k
            (zone_at readable new_block current_time true 7 v) in
        r.0 ≡ 0 → IsStuck r.1
  single-IsStuck laws k v =
      let zone = zone_at readable new_block current_time true 7 v in
      entry_at-IsStuck laws zone.0 k zone.1 (zone_at-IsStuck laws 7 v)

  pub double-IsStuck :
      IsAllocator new_block
      → (k : ℕ) (v : Volume)
      → let r =
          double readable new_block current_time true k
            (zone_at readable new_block current_time true 8 v) in
        r.0 ≡ 0 → IsStuck r.1
  double-IsStuck laws k v =
      let zone = zone_at readable new_block current_time true 8 v in
      let first = entry_at readable new_block current_time true zone.0 (k / 512) zone.1 in
      entry_at-IsStuck laws first.0 (k % 512) first.1
        (entry_at-IsStuck laws zone.0 (k / 512) zone.1 (zone_at-IsStuck laws 8 v))
