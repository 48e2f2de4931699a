-- ===== src/Bmap.antt =====
-- The blocks of a file: `_bmap`, `bmap` and `create_block` of ver05/fs/inode.c. A block number is a
-- natural number below 2 ^ 31. A block is the entries that an indirect block has, of 16 bits, as the
-- buffer cache shows them; `readable` says whether `bread` gets it. `new_block` is that of
-- ver05/fs/bitmap.c for the device of the inode: it returns 0 when the device is full. `used` is what
-- the bit map says, for statements about `new_block`; the code here does not read it.
pub mod Contract
mod Steps
pub mod Full
pub mod Create
pub mod Device
pub mod Agree
mod Tests
use linux_0_12_study.Base.{
  Bool, Option, false, if◌then◌else◌, leb, ltb, none, not, some, suc, true, zero, ℕ, ◌%◌, ◌&&◌, ◌*◌,
  ◌+◌, ◌-◌, ◌/◌, ◌==◌, ◌||◌,
}

pub record Disk : Type 0 where
  pub entry : ℕ → ℕ → ℕ
  pub used : ℕ → Bool

-- of `struct m_inode`, what is read and written here
pub record File : Type 0 where
  pub i_mode : ℕ
  pub i_size : ℕ
  pub i_mtime : ℕ
  pub i_zone : ℕ → ℕ
  pub i_dirt : ℕ
  pub i_ctime : ℕ

pub record Volume : Type 0 where
  pub file : File
  pub disk : Disk

abbrev pub put_entry : ℕ → ℕ → ℕ → Disk → Disk
put_entry block k v d = record d {
  entry = λ b i. if (b == block) && (i == k) then v else d.entry b i;
}

abbrev pub put_zone : ℕ → ℕ → File → File
put_zone k v f = record f { i_zone = λ i. if i == k then v else f.i_zone i }

-- What is done when a new block is there (if it is not 0): the inode is changed ...
unfoldable pub touch : ℕ → ℕ → File → File
touch zero _ f = f
touch (suc _) current_time f = record f { i_dirt = 1; i_ctime = current_time }

-- ... or the entry of the indirect block is written, with its low 16 bits.
unfoldable pub enter : ℕ → ℕ → ℕ → Disk → Disk
enter _ _ zero d = d
enter block k (suc r) d = put_entry block k (suc r % 65536) d

module _ (readable : ℕ → Bool) (new_block : Disk → ℕ × Disk) (current_time : ℕ) where
  -- inode->i_zone[k] = new_block(inode->i_dev), which is an unsigned short
  abbrev pub new_zone : ℕ → ℕ × Disk → Volume → ℕ × Volume
  new_zone k (r, d) v = (
    r % 65536,
    record { file = touch (r % 65536) current_time (put_zone k (r % 65536) v.file); disk = d },
  )

  -- Zone k of the inode, filled first if the test says so.
  unfoldable pub fill_zone : Bool → ℕ → Volume → ℕ × Volume
  fill_zone true k v = new_zone k (new_block v.disk) v
  fill_zone false k v = (v.file.i_zone k, v)

  abbrev pub zone_at : Bool → ℕ → Volume → ℕ × Volume
  zone_at create k v = fill_zone (create && (v.file.i_zone k == 0)) k v

  abbrev pub new_entry : ℕ → ℕ → ℕ × Disk → Volume → ℕ × Volume
  new_entry block k (r, d) v = (r, record v { disk = enter block k r d })

  -- Entry k of an indirect block that has been read, filled first if the test says so.
  unfoldable pub fill_entry : Bool → ℕ → ℕ → Volume → ℕ × Volume
  fill_entry true block k v = new_entry block k (new_block v.disk) v
  fill_entry false block k v = (v.disk.entry block k, v)

  -- The block that entry k of the indirect block leads to: 0 when there is no indirect block or it
  -- cannot be read.
  unfoldable pub read_entry : Bool → Bool → ℕ → ℕ → Volume → ℕ × Volume
  read_entry true _ _ _ v = (0, v)
  read_entry false create block k v = fill_entry (create && (v.disk.entry block k == 0)) block k v

  abbrev pub entry_at : Bool → ℕ → ℕ → Volume → ℕ × Volume
  entry_at create block k v = read_entry ((block == 0) || not (readable block)) create block k v

  -- block < 512 after block -= 7
  abbrev pub single : Bool → ℕ → ℕ × Volume → ℕ × Volume
  single create k (zone, v) = entry_at create zone k v

  abbrev pub double : Bool → ℕ → ℕ × Volume → ℕ × Volume
  double create k (zone, v) =
      let (first, v1) = entry_at create zone (k / 512) v in entry_at create first (k % 512) v1

  -- `none` is the panic.
  unfoldable pub bmap_with : Bool → ℕ → Volume → Option (ℕ × Volume)
  bmap_with create block v =
      if leb (7 + 512 + 512 * 512) block
      then none
      else if ltb block 7
      then some (zone_at create block v)
      else if ltb (block - 7) 512
      then some (single create (block - 7) (zone_at create 7 v))
      else some (double create (block - 519) (zone_at create 8 v))

  abbrev pub bmap : ℕ → Volume → Option (ℕ × Volume)
  bmap block v = bmap_with false block v

  abbrev pub create_block : ℕ → Volume → Option (ℕ × Volume)
  create_block block v = bmap_with true block v
