-- ===== src/Partition.antt =====
-- kernel/kernel/fs/partition.c: the partitions of a disk as block devices, and the tables that name
-- them. A sector that was read is a buffer; the fields of the packed structures are read from it at
-- their offsets, least byte first. NULL or false is `none`.
pub mod Gpt
pub mod Isolation
use Prim.Native.Nat.{bit_xor}
use meaty_skeleton.Prelude.{
  ℕ, zero, suc, ◌+◌, ◌-◌, ◌*◌, ◌/◌, ◌%◌, ◌^◌, Bool, true, false, ◌&&◌, ◌||◌, not, Option, none,
  some, min, List, [], ◌∷◌, length, ltb, leb, ◌==◌, if◌then◌else◌, ◌>>=◌, ◌>>◌, refuse,
}
use meaty_skeleton.Block.{Buffer, BlockDevice, block_read, block_write}

-- The bits of the loop over one byte.
pub crc_bits : ℕ → ℕ → ℕ
crc_bits zero crc = crc
crc_bits (suc bits) crc =
    crc_bits bits (if crc % 2 == 1 then bit_xor (crc / 2) 0xEDB88320 else crc / 2)

-- `crc32_update` over the `rounds` bytes from the offset `i` on.
pub crc32_from : ℕ → ℕ → Buffer → ℕ → ℕ
crc32_from zero i bytes crc = crc
crc32_from (suc rounds) i bytes crc =
    crc32_from rounds (i + 1) bytes (crc_bits 8 (bit_xor crc (bytes i)))

abbrev pub crc32_update : ℕ → Buffer → ℕ → ℕ
crc32_update crc bytes length = crc32_from length 0 bytes crc

-- `~crc`.
abbrev pub crc32_finish : ℕ → ℕ
crc32_finish crc = 2 ^ 32 - 1 - crc

abbrev pub crc32_start : ℕ
crc32_start = 0xFFFFFFFF

pub crc32_compute : Buffer → ℕ → ℕ
crc32_compute bytes length = crc32_finish (crc32_from length 0 bytes crc32_start)

abbrev pub le32 : Buffer → ℕ → ℕ
le32 b i = b i + 256 * (b (i + 1) + 256 * (b (i + 2) + 256 * b (i + 3)))

abbrev pub le64 : Buffer → ℕ → ℕ
le64 b i = le32 b i + 2 ^ 32 * le32 b (i + 4)

abbrev pub mbr_partition_count : ℕ
mbr_partition_count = 4

abbrev pub gpt_header_signature : ℕ
gpt_header_signature = 0x5452415020494645

-- `sizeof(gpt_partition_entry_t)`.
abbrev pub sizeof_gpt_entry : ℕ
sizeof_gpt_entry = 128

-- `mbr_partition_entry_t`, the fields that are used.
pub record MbrEntry : Type 0 where
  pub type : ℕ
  pub start_lba : ℕ
  pub sector_count : ℕ

abbrev pub mbr_entry : Buffer → ℕ → MbrEntry
mbr_entry sector index = record {
  type = sector (446 + index * 16 + 4);
  start_lba = le32 sector (446 + index * 16 + 8);
  sector_count = le32 sector (446 + index * 16 + 12);
}

-- `gpt_header_t`, the fields that are used.
pub record GptHeader : Type 0 where
  pub signature : ℕ
  pub header_size : ℕ
  pub header_crc32 : ℕ
  pub first_usable_lba : ℕ
  pub last_usable_lba : ℕ
  pub partition_entries_lba : ℕ
  pub partition_entry_count : ℕ
  pub partition_entry_size : ℕ
  pub partition_entries_crc32 : ℕ

abbrev pub gpt_header : Buffer → GptHeader
gpt_header sector = record {
  signature = le64 sector 0;
  header_size = le32 sector 12;
  header_crc32 = le32 sector 16;
  first_usable_lba = le64 sector 40;
  last_usable_lba = le64 sector 48;
  partition_entries_lba = le64 sector 72;
  partition_entry_count = le32 sector 80;
  partition_entry_size = le32 sector 84;
  partition_entries_crc32 = le32 sector 88;
}

-- `gpt_partition_entry_t` at an offset of a sector: the first and the last sector.
pub record GptEntry : Type 0 where
  pub empty : Bool
  pub first_lba : ℕ
  pub last_lba : ℕ

-- The loop over `type_guid`.
pub all_zero : ℕ → Buffer → ℕ → Bool
all_zero zero b i = true
all_zero (suc rounds) b i = (b i == 0) && all_zero rounds b (i + 1)

abbrev pub gpt_entry : Buffer → ℕ → GptEntry
gpt_entry sector offset = record {
  empty = all_zero 16 sector offset;
  first_lba = le64 sector (offset + 32);
  last_lba = le64 sector (offset + 40);
}

-- The copy of the header in which `header_crc32` is 0.
abbrev pub header_for_crc : Buffer → Buffer
header_for_crc sector i = if leb 16 i && ltb i 20 then 0 else sector i

-- `partition_device_t`. Its `block` is `partition_block`.
pub record PartitionDevice (D : Type 0) : Type 0 where
  pub parent : BlockDevice D
  pub start_lba : ℕ
  pub sector_count : ℕ

module _ {D : Type 0} where
  pub partition_read : PartitionDevice D → ℕ → ℕ → D → Option Buffer
  partition_read p lba count d = do
    refuse (count == 0)
    read ← p.parent.read
    refuse (leb p.sector_count lba)
    refuse (ltb (p.sector_count - lba) count)
    block_read p.parent ((p.start_lba + lba) % 2 ^ 64) count d

  pub partition_write : PartitionDevice D → ℕ → ℕ → Buffer → D → Bool × D
  partition_write p lba count buffer d = if count == 0 then (false, d) else elim p.parent.write [
    | none ↦ (false, d)
    | some write ↦
        if leb p.sector_count lba
        then (false, d)
        else if ltb (p.sector_count - lba) count
        then (false, d)
        else block_write p.parent ((p.start_lba + lba) % 2 ^ 64) count buffer d
  ]

  -- `partition_initialize`: the partition, and the device that stands for it.
  abbrev pub partition_initialize : BlockDevice D → ℕ → ℕ → PartitionDevice D
  partition_initialize parent start_lba sector_count = record {
    parent = parent;
    start_lba = start_lba;
    sector_count = sector_count;
  }

  abbrev pub partition_block : PartitionDevice D → BlockDevice D
  partition_block p = record {
    sector_size = p.parent.sector_size;
    sector_count = p.sector_count;
    read = some (partition_read p);
    write = some (partition_write p);
  }

  pub partition_from_mbr : BlockDevice D → ℕ → D → Option (PartitionDevice D)
  partition_from_mbr disk index d = do
    refuse (leb mbr_partition_count index)
    refuse (not (disk.sector_size == 512))
    sector ← block_read disk 0 1 d
    refuse (not (sector 510 == 0x55) || not (sector 511 == 0xAA))
    let entry = mbr_entry sector index
    refuse (entry.type == 0 || entry.sector_count == 0)
    refuse (leb disk.sector_count entry.start_lba)
    refuse (ltb (disk.sector_count - entry.start_lba) entry.sector_count)
    some (partition_initialize disk entry.start_lba entry.sector_count)
