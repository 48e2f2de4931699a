-- ===== src/Bmap/Steps.antt =====
-- The zones and entries that `_bmap` of ver05/fs/inode.c reads and fills, one at a time.
use linux_0_12_study.Base.{
  ==_iff, Bool, ap, eq→==, false, not, refl, subst, sym, true, ℕ, ◌%◌, ◌&&◌, ◌==◌, ◌||◌, ◌∙◌, ◌≡◌,
  ◌≢◌,
}
use mathlib.Core.Bool.{true≢false}
use linux_0_12_study.Bmap.{Disk, Volume, put_zone, zone_at, fill_zone, fill_entry, read_entry}
use linux_0_12_study.Bmap.Contract.{
  IsAllocator, IsIndirect, touch-zone, enter-used, enter-again, enter-others, enter-ne,
  IsIndirect-ne, mod_of_small, new-IsIndirect,
}

module _ (readable : ℕ → Bool) (new_block : Disk → ℕ × Disk) (current_time : ℕ) where
  -- The results of `zone_at` and `entry_at` are what is there afterwards.
  pub fill_zone-again :
      (b : Bool) (k : ℕ) (v : Volume)
      → (fill_zone readable new_block current_time b k v).1.file.i_zone k
        ≡ (fill_zone readable new_block current_time b k v).0
  unfolding fill_zone
  fill_zone-again true k v =
      ap (λ z. z k)
        (touch-zone ((new_block v.disk).0 % 65536) current_time
          (put_zone k ((new_block v.disk).0 % 65536) v.file))
      ∙ rw (eq→== k k refl) refl
  fill_zone-again false _ _ = refl

  fill_entry-again :
      IsAllocator new_block
      → (b : Bool) (block k : ℕ) (v : Volume) → block ≢ 0
      → (b ≡ true → v.disk.entry block k ≡ 0)
      → let r = fill_entry readable new_block current_time b block k v in
        r.1.disk.entry block k ≡ r.0
  unfolding fill_entry
  fill_entry-again laws true block k v present empty =
      let (r, d) = new_block v.disk in
      enter-again block k r d (laws.in_range v.disk) (λ zero_new.
        laws.others_kept v.disk block k (λ same. present (same ∙ zero_new)) ∙ empty refl)
  fill_entry-again _ false _ _ _ _ _ = refl

  fill_entry-file :
      (b : Bool) (block k : ℕ) (v : Volume)
      → (fill_entry readable new_block current_time b block k v).1.file ≡ v.file
  unfolding fill_entry
  fill_entry-file true _ _ _ = refl
  fill_entry-file false _ _ _ = refl

  -- Another indirect block is as it was.
  fill_entry-others :
      IsAllocator new_block
      → (b : Bool) (block k : ℕ) (v : Volume) (other i : ℕ) → IsIndirect other v.disk
      → other ≢ block
      → (fill_entry readable new_block current_time b block k v).1.disk.entry other i
        ≡ v.disk.entry other i
  unfolding fill_entry
  fill_entry-others laws true block k v other i there different =
      let (r, d) = new_block v.disk in
      enter-others block k r d other i different
      ∙ laws.others_kept v.disk other i (IsIndirect-ne laws other v.disk there)
  fill_entry-others _ false _ _ _ _ _ _ _ = refl

  -- What an indirect block leads to is not that block.
  fill_entry-ne :
      IsAllocator new_block
      → (b : Bool) (block k : ℕ) (v : Volume) → IsIndirect block v.disk
      → (fill_entry readable new_block current_time b block k v).0 ≢ block
  unfolding fill_entry
  fill_entry-ne laws true block k v there = λ same. IsIndirect-ne laws block v.disk there (sym same)
  fill_entry-ne _ false block k v there = there.not_itself k

  fill_entry-IsIndirect :
      IsAllocator new_block
      → (b : Bool) (block k : ℕ) (v : Volume) → IsIndirect block v.disk
      → IsIndirect block (fill_entry readable new_block current_time b block k v).1.disk
  unfolding fill_entry
  fill_entry-IsIndirect laws true block k v there = record {
    not_zero = there.not_zero;
    is_used =
        ap (λ used. used block) (enter-used block k (new_block v.disk).0 (new_block v.disk).1)
        ∙ laws.still_used v.disk block there.is_used;
    not_itself =
        enter-ne block k (new_block v.disk).0 (new_block v.disk).1 (laws.in_range v.disk)
          (λ same. IsIndirect-ne laws block v.disk there (sym same))
          (λ i.
            subst (λ e. e ≢ block)
              (sym (laws.others_kept v.disk block i (IsIndirect-ne laws block v.disk there)))
              (there.not_itself i));
  }
  fill_entry-IsIndirect _ false _ _ _ there = there

  -- The double indirect block of an inode is in use and no entry of its own, or there is none.
  pub fill_zone-IsIndirect :
      IsAllocator new_block
      → (b : Bool) (k : ℕ) (v : Volume)
      → (b ≡ false → v.file.i_zone k ≢ 0 → IsIndirect (v.file.i_zone k) v.disk)
      → let r = fill_zone readable new_block current_time b k v in r.0 ≢ 0 → IsIndirect r.0 r.1.disk
  unfolding fill_zone
  fill_zone-IsIndirect laws true k v _ present =
      let (r, d) = new_block v.disk in
      subst (λ zone. IsIndirect zone d) (sym (mod_of_small r (laws.in_range v.disk)))
        (new-IsIndirect laws v.disk (λ zero_new. present (ap (λ r1. r1 % 65536) zero_new)))
  fill_zone-IsIndirect _ false _ _ before present = before refl present

  -- Code that makes no block finds the one that was made.
  pub read_entry-found :
      IsAllocator new_block
      → (b : Bool) (block k : ℕ) (v w : Volume) → (b ≡ false → block ≢ 0)
      → let r = read_entry readable new_block current_time b true block k v in
        (block ≢ 0 → w.disk.entry block k ≡ r.1.disk.entry block k)
        → read_entry readable new_block current_time b false block k w ≡ (r.0, w)
  unfolding read_entry fill_entry
  read_entry-found _ true _ _ _ _ _ _ = refl
  read_entry-found laws false block k v w present same =
      let filled = v.disk.entry block k == 0 in
      ap (λ r. (r, w))
        (same (present refl)
          ∙ fill_entry-again laws filled block k v (present refl)
              (λ e. (==_iff (v.disk.entry block k) 0).0 e))

  pub read_entry-file :
      (b create : Bool) (block k : ℕ) (v : Volume)
      → (read_entry readable new_block current_time b create block k v).1.file ≡ v.file
  unfolding read_entry
  read_entry-file true _ _ _ _ = refl
  read_entry-file false create block k v =
      fill_entry-file (create && (v.disk.entry block k == 0)) block k v

  -- A first entry of the double indirect block stays when one of the block it leads to is made.
  pub read_entry-others :
      IsAllocator new_block
      → (b : Bool) (block k : ℕ) (v : Volume) (other i : ℕ) → IsIndirect other v.disk
      → other ≢ block
      → (read_entry readable new_block current_time b true block k v).1.disk.entry other i
        ≡ v.disk.entry other i
  unfolding read_entry
  read_entry-others _ true _ _ _ _ _ _ _ = refl
  read_entry-others laws false block k v other i there different =
      fill_entry-others laws (true && (v.disk.entry block k == 0)) block k v other i there different

  pub read_entry-ne :
      IsAllocator new_block
      → (b : Bool) (block k : ℕ) (v : Volume) → IsIndirect block v.disk
      → (read_entry readable new_block current_time b true block k v).0 ≢ block
  unfolding read_entry
  read_entry-ne _ true _ _ _ there = λ same. there.not_zero (sym same)
  read_entry-ne laws false block k v there =
      fill_entry-ne laws (true && (v.disk.entry block k == 0)) block k v there

  pub read_entry-IsIndirect :
      IsAllocator new_block
      → (b : Bool) (block k : ℕ) (v : Volume) → IsIndirect block v.disk
      → IsIndirect block (read_entry readable new_block current_time b true block k v).1.disk
  unfolding read_entry
  read_entry-IsIndirect _ true _ _ _ there = there
  read_entry-IsIndirect laws false block k v there =
      fill_entry-IsIndirect laws (true && (v.disk.entry block k == 0)) block k v there

  pub readable_not_zero : (block : ℕ) → ((block == 0) || not (readable block)) ≡ false → block ≢ 0
  readable_not_zero block h same =
      true≢false (sym (ap (λ t. t || not (readable block)) (eq→== block 0 same)) ∙ h)

  pub zone_at-found :
      (k : ℕ) (v : Volume)
      → zone_at readable new_block current_time false k
          (zone_at readable new_block current_time true k v).1
        ≡ zone_at readable new_block current_time true k v
  unfolding fill_zone
  zone_at-found k v =
      ap (λ zone. (zone, (zone_at readable new_block current_time true k v).1))
        (fill_zone-again (true && (v.file.i_zone k == 0)) k v)
