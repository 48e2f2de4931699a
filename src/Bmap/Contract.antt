-- ===== src/Bmap/Contract.antt =====
-- What `_bmap` of ver05/fs/inode.c asks of `new_block` (ver05/fs/bitmap.c), and writing an entry.
use linux_0_12_study.Base.{
  Bool-cases, ap, arith, eq→==, false, inl, inr, ne→==_false, refl, suc, sym, true, zero, ℕ, ◌%◌,
  ◌<◌, ◌==◌, ◌∙◌, ◌≡◌, ◌≢◌,
}
use mathlib.Core.Bool.{true≢false}
use linux_0_12_study.Bmap.{Disk, File, touch, enter}

-- What `new_block` promises: it returns 0, or a block of 16 bits that was not in use, is now, and is
-- clear; no other block is changed. When it has returned 0, it does again.
pub record IsAllocator (new_block : Disk → ℕ × Disk) : Type 0 where
  pub in_range : (d : Disk) → (new_block d).0 < 65536
  pub was_free : (d : Disk) → (new_block d).0 ≢ 0 → d.used (new_block d).0 ≡ false
  pub now_used : (d : Disk) → (new_block d).0 ≢ 0 → (new_block d).1.used (new_block d).0 ≡ true
  pub is_clear :
      (d : Disk) (k : ℕ) → (new_block d).0 ≢ 0 → (new_block d).1.entry (new_block d).0 k ≡ 0
  pub fails_again : (d : Disk) → (new_block d).0 ≡ 0 → (new_block (new_block d).1).0 ≡ 0
  pub still_used : (d : Disk) (b : ℕ) → d.used b ≡ true → (new_block d).1.used b ≡ true
  pub others_kept :
      (d : Disk) (b k : ℕ) → b ≢ (new_block d).0 → (new_block d).1.entry b k ≡ d.entry b k

-- A block that is in use and is no entry of its own.
pub record IsIndirect (b : ℕ) (d : Disk) : Type 0 where
  pub not_zero : b ≢ 0
  pub is_used : d.used b ≡ true
  pub not_itself : (k : ℕ) → d.entry b k ≢ b

pub touch-zone : (r t : ℕ) (f : File) → (touch r t f).i_zone ≡ f.i_zone
unfolding touch
touch-zone zero _ _ = refl
touch-zone (suc _) _ _ = refl

pub enter-used : (block k r : ℕ) (d : Disk) → (enter block k r d).used ≡ d.used
unfolding enter
enter-used _ _ zero _ = refl
enter-used _ _ (suc _) _ = refl

-- An entry that has been written, or not for 0.
pub enter-again :
    (block k r : ℕ) (d : Disk)
    → r < 65536
    → (r ≡ 0 → d.entry block k ≡ 0)
    → (enter block k r d).entry block k ≡ r
unfolding enter
enter-again block k zero d _ was = was refl
enter-again block k (suc r) d small _ = rw (eq→== block block refl, eq→== k k refl) (ground arith)

pub enter-others :
    (block k r : ℕ) (d : Disk) (b i : ℕ) → b ≢ block → (enter block k r d).entry b i ≡ d.entry b i
unfolding enter
enter-others _ _ zero _ _ _ _ = refl
enter-others block k (suc r) d b i other = rw (ne→==_false b block other) refl

-- No entry becomes the block itself when what is written is not.
pub enter-ne :
    (block k r : ℕ) (d : Disk)
    → r < 65536
    → r ≢ block
    → ((i : ℕ) → d.entry block i ≢ block)
    → (i : ℕ) → (enter block k r d).entry block i ≢ block
unfolding enter
enter-ne _ _ zero _ _ _ not_itself i = not_itself i
enter-ne block k (suc r) d small different not_itself i =
    let written : (i == k) ≡ true → (enter block k (suc r) d).entry block i ≡ suc r =
      λ e. rw (eq→== block block refl, e) (ground arith) in
    let kept : (i == k) ≡ false → (enter block k (suc r) d).entry block i ≡ d.entry block i =
      λ e. rw (eq→== block block refl, e) refl in
    elim (Bool-cases (i == k)) [
      | inl e ↦ λ same. different (sym (written e) ∙ same)
      | inr e ↦ λ same. not_itself i (sym (kept e) ∙ same)
    ]

-- A block that is in use is not what `new_block` returns.
pub IsIndirect-ne :
    {new_block : Disk → ℕ × Disk}
    → IsAllocator new_block
    → (b : ℕ) (d : Disk) → IsIndirect b d
    → b ≢ (new_block d).0
IsIndirect-ne {new_block} laws b d there same = true≢false (
    sym there.is_used
    ∙ ap d.used same
    ∙ laws.was_free d (λ zero_new. there.not_zero (same ∙ zero_new)))

pub mod_of_small : (r : ℕ) → r < 65536 → r % 65536 ≡ r
mod_of_small r small = ground arith

pub new-IsIndirect :
    {new_block : Disk → ℕ × Disk}
    → IsAllocator new_block
    → (d : Disk) → (new_block d).0 ≢ 0
    → IsIndirect (new_block d).0 (new_block d).1
new-IsIndirect laws d present = record {
  not_zero = present;
  is_used = laws.now_used d present;
  not_itself = λ k same. present (sym same ∙ laws.is_clear d k present);
}
