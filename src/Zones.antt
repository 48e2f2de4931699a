-- ===== src/Zones.antt =====
-- The bit maps of zones and inodes: ver05/fs/bitmap.c. A map is the eight blocks that the super block
-- points to, with a bit for each zone or inode; `none` is a null pointer. The calls of the buffer cache
-- are those of Buffers; `meanwhile` is what others do to the maps while `free_block` sleeps in one.
pub mod Search
pub mod First
pub mod Numbers
mod Tests
use linux_0_12_study.Base.{
  Bool, Option, false, if◌then◌else◌, int_le, int_lt, is_some, ltb, map, none, not, some, suc, true,
  word, word_sub, zero, ℕ, ◌!=◌, ◌%◌, ◌*◌, ◌+◌, ◌-◌, ◌/◌, ◌==◌, ◌^◌, ◌||◌,
}
use linux_0_12_study.Buffers.{Buffer, Cache, at_buffer}
use linux_0_12_study.Buffers.Runs.{Run, Op, done, panics, ◌>>=◌, ◌>>◌, pure, panic, gets}
use linux_0_12_study.Buffers.Blocks.{get_hash_table, getblk, brelse, change, look}

-- A block of a map, and its buffer's b_dirt.
pub record Map : Type 0 where
  pub bit_of : ℕ → Bool
  pub dirt : ℕ

-- What the code reads of `struct super_block`.
pub record Super : Type 0 where
  pub s_ninodes : ℕ
  pub s_nzones : ℕ
  pub s_firstdatazone : ℕ
  pub s_imap : ℕ → Option Map
  pub s_zmap : ℕ → Option Map

-- `set_bit`, `clear_bit` of this file: the bit, and the map after.
abbrev pub with_bit : Bool → ℕ → Map → Map
with_bit b nr m = record { bit_of = λ k. if k == nr then b else m.bit_of k; dirt = 1 }

-- The bit that `find_first_zero` finds, among the last n; 8192 if there is none.
unfoldable pub zero_from : ℕ → Map → ℕ
zero_from zero m = 8192
zero_from (suc n) m =
    let rest = zero_from n m in if m.bit_of (8192 - suc n) then rest else 8192 - suc n

unfoldable pub find_first_zero : Map → ℕ
find_first_zero m = zero_from 8192 m

abbrev pub zero_in : Option Map → ℕ
zero_in none = 8192
zero_in (some m) = find_first_zero m

-- for (i=0 ; i<8 ; i++): the block of the map and the bit in it, among the last n blocks
unfoldable pub zero_block : ℕ → (ℕ → Option Map) → Option (ℕ × ℕ)
zero_block zero map = none
zero_block (suc n) map =
    let rest = zero_block n map in
    let j = zero_in (map (8 - suc n)) in if ltb j 8192 then some (8 - suc n, j) else rest

abbrev pub put_map : ℕ → Map → (ℕ → Option Map) → ℕ → Option Map
put_map i m map k = if i == k then some m else map k

abbrev pub put_in : Option Map → Bool → ℕ → ℕ → (ℕ → Option Map) → ℕ → Option Map
put_in none b i j map = map
put_in (some m) b i j map = put_map i (with_bit b j m) map

-- Bit j of block i is given the value b.
abbrev pub put_bit : Bool → ℕ → ℕ → (ℕ → Option Map) → ℕ → Option Map
put_bit b i j map = put_in (map i) b i j map

-- The number of the zone with bit j of block i.
abbrev pub zone_number : Super → ℕ → ℕ → ℕ
zone_number sb i j = word (j + word_sub (word (i * 8192 + sb.s_firstdatazone)) 1)

-- Is the zone of the data, as `free_block` wants it?
abbrev pub in_datazone : Super → ℕ → Bool
in_datazone sb block = not (int_lt block sb.s_firstdatazone || int_le sb.s_nzones block)

-- Block and bit of the map for a zone.
abbrev pub zone_index : Super → ℕ → ℕ
zone_index sb block = word_sub block (word_sub sb.s_firstdatazone 1)

abbrev pub clear_zone : Super → ℕ → Super
clear_zone sb block =
    let n = zone_index sb block in
    record sb { s_zmap = put_bit false (n / 8192) (n % 8192) sb.s_zmap }

module _ (others : Cache → Cache) (write read : ℕ → Cache → Cache)
    (sync_inodes : Cache → Cache) where
  -- The new zone j: its buffer is cleared (`clear` is the string instruction) and released.
  unfoldable pub fresh_zone : (ℕ → Cache → Cache) → ℕ → ℕ → ℕ → Op ℕ
  fresh_zone clear fuel dev j = do
    bh ← getblk others write read sync_inodes fuel dev j
    b ← look bh
    (if b.b_count != 1 then panic else do
      (λ c. done tt (clear bh c))
      change bh (λ x. record x { b_uptodate = 1; b_dirt = 1 })
      brelse others write read sync_inodes fuel bh
      pure j)

  -- What it does with the bit that is found.
  abbrev pub take_zone : Option (ℕ × ℕ) → (ℕ → Cache → Cache) → ℕ → ℕ → Super → Super × Op ℕ
  take_zone none clear fuel dev sb = (sb, pure 0)
  take_zone (some (i, j)) clear fuel dev sb =
      let block = zone_number sb i j in
      (
        record sb { s_zmap = put_bit true i j sb.s_zmap },
        if int_le sb.s_nzones block then pure 0 else fresh_zone clear fuel dev block,
      )

  -- `new_block`, for the super block of the device: the maps after it, and what else it does.
  unfoldable pub new_block : (ℕ → Cache → Cache) → ℕ → ℕ → Super → Super × Op ℕ
  new_block clear fuel dev sb = take_zone (zero_block 8 sb.s_zmap) clear fuel dev sb

  -- What `free_block` does with a buffer of the block: false is the early `return 0`.
  unfoldable pub forget_buffer : ℕ → Option ℕ → Op Bool
  forget_buffer fuel none = pure true
  forget_buffer fuel (some bh) = do
    b ← look bh
    (if ltb 1 b.b_count then brelse others write read sync_inodes fuel bh >> pure false else do
      change bh (λ x. record x { b_dirt = 0; b_uptodate = 0 })
      (if b.b_count != 0 then brelse others write read sync_inodes fuel bh else pure tt)
      pure true)

  -- The maps after it and the result; the warning about a bit that is clear is only printed.
  unfoldable pub free_block : (Super → Super) → ℕ → ℕ → ℕ → Super → Op (Super × ℕ)
  free_block meanwhile fuel dev block sb = if not (in_datazone sb block) then panic else do
    o ← get_hash_table others write read sync_inodes fuel dev block
    on ← forget_buffer fuel o
    if on then pure (clear_zone (meanwhile sb) block, 1) else pure (meanwhile sb, 0)

-- `struct m_inode`, as far as the two functions on inodes read and set it; i_mtime, i_atime and
-- i_ctime get the same time
pub record Inode : Type 0 where
  pub i_dev : ℕ
  pub i_num : ℕ
  pub i_count : ℕ
  pub i_nlinks : ℕ
  pub i_uid : ℕ
  pub i_gid : ℕ
  pub i_dirt : ℕ
  pub i_time : ℕ

abbrev pub no_inode : Inode
no_inode = record {
  i_dev = 0;
  i_num = 0;
  i_count = 0;
  i_nlinks = 0;
  i_uid = 0;
  i_gid = 0;
  i_dirt = 0;
  i_time = 0;
}

-- `free_inode`: the maps and the inode after it; `none` is a panic. `sb` is the super block, if any.
unfoldable pub free_inode : Option Super → Inode → Option (Option Super × Inode)
free_inode sb inode =
    if inode.i_dev == 0
    then some (sb, no_inode)
    else if ltb 1 inode.i_count || (inode.i_nlinks != 0)
    then none
    else elim sb [
      | none ↦ none
      | some s ↦
          if ltb inode.i_num 1
            || ltb s.s_ninodes inode.i_num
            || not (is_some (s.s_imap (inode.i_num / 8192)))
          then none
          else some (
            some (record s {
              s_imap = put_bit false (inode.i_num / 8192) (inode.i_num % 8192) s.s_imap;
            }),
            no_inode,
          )
    ]

-- The last part of `new_inode`, for an empty inode and the super block of the device: `none` where the
-- inode is put back and NULL returned.
unfoldable pub new_inode : ℕ → ℕ → ℕ → ℕ → Super → Option (Super × Inode)
new_inode dev euid egid time sb = elim (zero_block 8 sb.s_imap) [
  | none ↦ none
  | some (i, j) ↦
      if ltb sb.s_ninodes (j + i * 8192)
      then none
      else some (
        record sb { s_imap = put_bit true i j sb.s_imap },
        record {
          i_dev = dev % 2 ^ 16;
          i_num = j + i * 8192;
          i_count = 1;
          i_nlinks = 1;
          i_uid = euid % 2 ^ 16;
          i_gid = egid % 2 ^ 8;
          i_dirt = 1;
          i_time = time;
        },
      )
]
