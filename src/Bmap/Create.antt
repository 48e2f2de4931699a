-- ===== src/Bmap/Create.antt =====
-- `create_block` and `bmap` of ver05/fs/inode.c: a block of a file that has been made is found again.
use linux_0_12_study.Base.{
  Bool, Bool-cases, ap, arith, false, inl, inr, leb, leb→le, ltb, none, not, refl, some, subst, sym,
  true, ℕ, ◌%◌, ◌&&◌, ◌-◌, ◌/◌, ◌<◌, ◌==◌, ◌||◌, ◌∙◌, ◌≡◌, ◌≢◌, ◌≤◌, ◌⊎◌,
}
use linux_0_12_study.Bmap.{
  Disk, Volume, zone_at, entry_at, bmap_with, bmap, create_block, fill_zone, single, double,
}
use linux_0_12_study.Bmap.Contract.{IsAllocator, IsIndirect}
use linux_0_12_study.Bmap.Steps.{
  fill_zone-again, fill_zone-IsIndirect, read_entry-found, read_entry-file, read_entry-others,
  read_entry-ne, read_entry-IsIndirect, readable_not_zero, zone_at-found,
}
use linux_0_12_study.Bmap.Full.{IsStuck, zone_at-IsStuck, single-IsStuck, double-IsStuck}

module _ (readable : ℕ → Bool) (new_block : Disk → ℕ × Disk) (current_time : ℕ) where
  -- The result and the volume after `create_block`'s part for a single indirect block ...
  single-again :
      IsAllocator new_block
      → (k : ℕ) (r : ℕ × Volume) → r.1.file.i_zone 7 ≡ r.0
      → let made = single readable new_block current_time true k r in
        single readable new_block current_time false k
          (zone_at readable new_block current_time false 7 made.1)
        ≡ made
  unfolding fill_zone
  single-again laws k (zone, v) there =
      let made = entry_at readable new_block current_time true zone k v in
      subst (λ z. entry_at readable new_block current_time false z k made.1 ≡ made)
        (sym (
          ap (λ f. f.i_zone 7)
            (read_entry-file readable new_block current_time ((zone == 0) || not (readable zone))
              true zone k v)
          ∙ there))
        (read_entry-found readable new_block current_time laws ((zone == 0) || not (readable zone))
          zone k v made.1 (readable_not_zero readable new_block current_time zone) (λ _. refl))

  -- ... and for the double one.
  double-again :
      IsAllocator new_block
      → (k : ℕ) (r : ℕ × Volume) → r.1.file.i_zone 8 ≡ r.0
      → (r.0 ≢ 0 → IsIndirect r.0 r.1.disk)
      → let made = double readable new_block current_time true k r in
        double readable new_block current_time false k
          (zone_at readable new_block current_time false 8 made.1)
        ≡ made
  unfolding fill_zone
  double-again laws k (zone, v) there indirect =
      let test = (zone == 0) || not (readable zone) in
      let first = entry_at readable new_block current_time true zone (k / 512) v in
      let made = entry_at readable new_block current_time true first.0 (k % 512) first.1 in
      let first_again : entry_at readable new_block current_time false zone (k / 512) made.1
          ≡ (first.0, made.1) =
        read_entry-found readable new_block current_time laws test zone (k / 512) v made.1
          (readable_not_zero readable new_block current_time zone)
          (λ present.
            read_entry-others readable new_block current_time laws
              ((first.0 == 0) || not (readable first.0)) first.0 (k % 512) first.1 zone (k / 512)
              (read_entry-IsIndirect readable new_block current_time laws test zone (k / 512) v
                (indirect present))
              (λ same.
                read_entry-ne readable new_block current_time laws test zone (k / 512) v
                  (indirect present) (sym same))) in
      subst (λ z. double readable new_block current_time false k (z, made.1) ≡ made)
        (sym (
          ap (λ f. f.i_zone 8)
            (read_entry-file readable new_block current_time
                ((first.0 == 0) || not (readable first.0)) true first.0 (k % 512) first.1
              ∙ read_entry-file readable new_block current_time test true zone (k / 512) v)
          ∙ there))
        (ap (λ r. entry_at readable new_block current_time false r.0 (k % 512) r.1) first_again
          ∙ read_entry-found readable new_block current_time laws
              ((first.0 == 0) || not (readable first.0)) first.0 (k % 512) first.1 made.1
              (readable_not_zero readable new_block current_time first.0) (λ _. refl))

  not_big : (block : ℕ) → leb 262663 block ≡ false → block < 262663
  not_big block h = ground arith

  -- If `new_block` keeps to its contract and the double indirect block of a file, if there is one,
  -- is in use and no entry of its own, then making a block whose number is in range gives a block
  -- that `bmap` finds again, changing nothing; the result is 0 only if the device has become full
  -- or has a block that cannot be read. For a number out of range `create_block` panics.
  pub create_block-bmap :
      IsAllocator new_block
      → (block : ℕ) (v : Volume) → (v.file.i_zone 8 ≢ 0 → IsIndirect (v.file.i_zone 8) v.disk)
      → ((block < 262663)
          × ((r : ℕ × Volume) × (create_block readable new_block current_time block v ≡ some r)
              × (bmap readable new_block current_time block r.1 ≡ some r)
              × (r.0 ≡ 0 → IsStuck readable new_block current_time r.1)))
        ⊎ ((262663 ≤ block) × (create_block readable new_block current_time block v ≡ none))
  unfolding bmap_with
  create_block-bmap laws block v indirect = elim (Bool-cases (leb 262663 block)) [
    | inl big ↦ inr (leb→le 262663 block big, rw big refl)
    | inr fits ↦ inl (
      not_big block fits,
      elim (Bool-cases (ltb block 7)) [
        | inl direct ↦ (
          zone_at readable new_block current_time true block v,
          rw (fits, direct) refl,
          rw (fits, direct) (ap some (zone_at-found readable new_block current_time block v)),
          zone_at-IsStuck readable new_block current_time laws block v,
        )
        | inr indirect_block ↦ elim (Bool-cases (ltb (block - 7) 512)) [
          | inl one ↦ (
            single readable new_block current_time true (block - 7)
                (zone_at readable new_block current_time true 7 v),
            rw (fits, indirect_block, one) refl,
            rw (fits, indirect_block, one)
                (ap some (
                  single-again laws (block - 7) (zone_at readable new_block current_time true 7 v) (
                    fill_zone-again readable new_block current_time (true && (v.file.i_zone 7 == 0))
                      7 v))),
            single-IsStuck readable new_block current_time laws (block - 7) v,
          )
          | inr two ↦ (
            double readable new_block current_time true (block - 519)
                (zone_at readable new_block current_time true 8 v),
            rw (fits, indirect_block, two) refl,
            rw (fits, indirect_block, two)
                (ap some (
                  double-again laws (block - 519) (zone_at readable new_block current_time true 8 v)
                    (fill_zone-again readable new_block current_time
                      (true && (v.file.i_zone 8 == 0)) 8 v)
                    (fill_zone-IsIndirect readable new_block current_time laws
                      (true && (v.file.i_zone 8 == 0)) 8 v (λ _. indirect)))),
            double-IsStuck readable new_block current_time laws (block - 519) v,
          )
        ]
      ],
    )
  ]
