-- ===== src/Bmap/Tests.antt =====
-- Blocks of files of ver05/fs/inode.c on a small device.
use linux_0_12_study.Base.{
  Bool, Option, arith, false, if◌then◌else◌, none, refl, some, true, ℕ, ◌*◌, ◌<◌, ◌==◌, ◌≡◌, ◌≤◌,
  ◌⊎◌,
}
use linux_0_12_study.Bmap.{
  Disk, Volume, bmap, create_block, bmap_with, touch, enter, fill_zone, fill_entry, read_entry,
}
use linux_0_12_study.Bmap.Contract.{IsAllocator}
use linux_0_12_study.Zones.{Super, new_block, zero_block, find_first_zero, zero_from}
use linux_0_12_study.Zones.Search.{bit_in}
use linux_0_12_study.Buffers.{Cache}
use linux_0_12_study.Buffers.Runs.{Ends}
use linux_0_12_study.Bmap.Device.{
  IsSized, device_block, device_block-IsAllocator, maps, grant, grant_zone,
}
use linux_0_12_study.Bmap.Agree.{on_device, new_block-device_block}
use linux_0_12_study.Bmap.Full.{IsStuck}
use linux_0_12_study.Bmap.Create.{create_block-bmap}

-- A device whose first data zone is 8, with a map of one block.
abbrev small_device : Super
small_device = record {
  s_ninodes = 10;
  s_nzones = 100;
  s_firstdatazone = 8;
  s_imap = λ _. none;
  s_zmap = λ i. if i == 0 then some (record { bit_of = λ _. false; dirt = 0 }) else none;
}

small_device-IsSized : IsSized small_device
small_device-IsSized = record { first_zone = (omega arith, omega arith); few_zones = omega arith }

small_device-IsAllocator : IsAllocator (device_block small_device)
small_device-IsAllocator = device_block-IsAllocator small_device small_device-IsSized

abbrev all_readable : ℕ → Bool
all_readable _ = true

abbrev empty_file : Volume
empty_file = record {
  file = record {
    i_mode = 8 * 4096;
    i_size = 700;
    i_mtime = 0;
    i_zone = λ _. 0;
    i_dirt = 0;
    i_ctime = 0;
  };
  disk = record { entry = λ _ _. 77; used = λ _. false };
}

abbrev block_of : Option (ℕ × Volume) → ℕ
block_of none = 0
block_of (some r) = r.0

-- Block 600 takes the double indirect block 7, the indirect block 8 and the block 9.
created : block_of (create_block all_readable (device_block small_device) 9 600 empty_file) ≡ 9
unfolding bmap_with fill_zone touch fill_entry read_entry enter device_block grant grant_zone
    zero_block find_first_zero zero_from
created = refl

create_block-bmap_example :
    ((600 < 262663)
      × ((r : ℕ × Volume) × (create_block all_readable (device_block small_device) 9 600 empty_file
            ≡ some r)
          × (bmap all_readable (device_block small_device) 9 600 r.1 ≡ some r)
          × (r.0 ≡ 0 → IsStuck all_readable (device_block small_device) 9 r.1)))
    ⊎ ((262663 ≤ 600)
        × (create_block all_readable (device_block small_device) 9 600 empty_file ≡ none))
create_block-bmap_example =
    create_block-bmap all_readable (device_block small_device) 9 small_device-IsAllocator 600
      empty_file (λ present. absurd (present refl))

new_block-device_block_example :
    IsAllocator (device_block small_device)
    × ((d : Disk)
        → let (marked, run) =
            new_block
              (λ c. c)
              (λ _ c. c)
              (λ _ c. c)
              (λ c. c)
              (λ _ c. c)
              4
              3
              (on_device small_device d) in
          ((x y : ℕ)
            → x < 8
            → y < 8192
            → bit_in (marked.s_zmap x) y
              ≡ bit_in (maps small_device (device_block small_device d).1.used x) y)
          × ((c : Cache) → Ends (λ q _. q ≡ (device_block small_device d).0) (run c)))
new_block-device_block_example =
    new_block-device_block (λ c. c) (λ _ c. c) (λ _ c. c) (λ c. c) small_device small_device-IsSized
      (λ _ c. c) 4 3
