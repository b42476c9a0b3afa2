-- ===== src/Partition/Gpt.antt =====
-- The functions of kernel/kernel/fs/partition.c that read a GPT, and the scan of a disk. What they
-- print is left out.
pub mod Fits
pub mod Crc
pub mod Scan
use meaty_skeleton.Prelude.{
  ℕ, zero, suc, ◌+◌, ◌-◌, ◌*◌, ◌/◌, ◌%◌, ◌^◌, Bool, true, false, ◌&&◌, ◌||◌, not, Option, none,
  some, min, List, [], ◌∷◌, ltb, leb, ◌==◌, if◌then◌else◌, ◌>>=◌, ◌>>◌, refuse,
}
use meaty_skeleton.Block.{Buffer, BlockDevice, block_read}
use meaty_skeleton.Partition.{
  crc32_update, crc32_finish, crc32_start, crc32_compute, mbr_partition_count, gpt_header_signature,
  sizeof_gpt_entry, mbr_entry, GptHeader, gpt_header, GptEntry, gpt_entry, header_for_crc,
  PartitionDevice, partition_initialize, partition_from_mbr,
}

-- The product of two `uint32_t` as `uint64_t`.
abbrev pub table_bytes : GptHeader → ℕ
table_bytes header = header.partition_entry_count * header.partition_entry_size

-- How many sectors hold that many bytes, and the sector and the offset of an entry.
abbrev pub sectors_of : ℕ → ℕ
sectors_of bytes = (bytes + 511) / 512

abbrev pub entry_lba : GptHeader → ℕ → ℕ
entry_lba header index =
    (header.partition_entries_lba + index * header.partition_entry_size / 512) % 2 ^ 64

abbrev pub entry_offset : GptHeader → ℕ → ℕ
entry_offset header index = index * header.partition_entry_size % 512

-- The checks of the header that both readers make.
abbrev pub bad_size : GptHeader → Bool
bad_size header = ltb header.header_size 92 || ltb 512 header.header_size

abbrev pub bad_crc : GptHeader → Buffer → Bool
bad_crc header sector =
    not (crc32_compute (header_for_crc sector) header.header_size == header.header_crc32)

-- The loop over the four entries.
pub any_protective : ℕ → Buffer → ℕ → Bool
any_protective zero sector i = false
any_protective (suc rounds) sector i =
    ((mbr_entry sector i).type == 0xEE) || any_protective rounds sector (i + 1)

module _ {D : Type 0} where
  -- `while (remaining > 0)`, with a bound on the rounds; `none` is a read that failed, or the bound.
  pub table_crc : ℕ → BlockDevice D → D → ℕ → ℕ → ℕ → Option ℕ
  table_crc fuel disk d lba zero crc = some crc
  table_crc zero disk d lba (suc rest) crc = none
  table_crc (suc fuel) disk d lba (suc rest) crc = do
    sector ← block_read disk lba 1 d
    let chunk = min (suc rest) 512
    table_crc fuel disk d ((lba + 1) % 2 ^ 64) (suc rest - chunk) (crc32_update crc sector chunk)

  -- The loop over the whole table.
  abbrev pub whole_table_crc : BlockDevice D → D → GptHeader → Option ℕ
  whole_table_crc disk d header =
      table_crc (sectors_of (table_bytes header)) disk d header.partition_entries_lba
        (table_bytes header) crc32_start

  -- The end of `partition_from_gpt`, on the entry's sector.
  pub gpt_entry_partition : BlockDevice D → GptHeader → GptEntry → Option (PartitionDevice D)
  gpt_entry_partition disk header entry = do
    refuse (entry.empty)
    refuse (ltb entry.last_lba entry.first_lba)
    refuse (leb disk.sector_count entry.first_lba)
    refuse (leb disk.sector_count entry.last_lba)
    refuse
        (ltb entry.first_lba header.first_usable_lba || ltb header.last_usable_lba entry.last_lba)
    some (partition_initialize disk entry.first_lba (entry.last_lba - entry.first_lba + 1))

  -- `partition_from_gpt` behind the read of the header.
  pub from_gpt_header : BlockDevice D → ℕ → D → Buffer → Option (PartitionDevice D)
  from_gpt_header disk index d sector = do
    let header = gpt_header sector
    refuse (not (header.signature == gpt_header_signature))
    refuse (bad_size header)
    refuse (bad_crc header sector)
    refuse (ltb header.partition_entry_size sizeof_gpt_entry)
    refuse (leb header.partition_entry_count index)
    refuse (leb disk.sector_count header.partition_entries_lba)
    refuse
        (ltb (disk.sector_count - header.partition_entries_lba) (sectors_of (table_bytes header)))
    crc ← whole_table_crc disk d header
    refuse (not (crc32_finish crc == header.partition_entries_crc32))
    refuse (leb disk.sector_count (entry_lba header index))
    refuse (ltb 512 (entry_offset header index + header.partition_entry_size))
    entry_sector ← block_read disk (entry_lba header index) 1 d
    gpt_entry_partition disk header (gpt_entry entry_sector (entry_offset header index))

  pub partition_from_gpt : BlockDevice D → ℕ → D → Option (PartitionDevice D)
  partition_from_gpt disk index d = do
    refuse (not (disk.sector_size == 512))
    sector ← block_read disk 1 1 d
    from_gpt_header disk index d sector

  pub mbr_is_protective_gpt : BlockDevice D → D → Bool
  mbr_is_protective_gpt disk d = elim (block_read disk 0 1 d) [
    | none ↦ false
    | some sector ↦
        if not (sector 510 == 0x55) || not (sector 511 == 0xAA)
        then false
        else any_protective mbr_partition_count sector 0
  ]

  -- A loop `for (...; i < n && found < max_partitions; ...)` that collects what `find` gives.
  pub scan_from : (ℕ → Option (PartitionDevice D)) → ℕ → ℕ → ℕ → List (PartitionDevice D)
  scan_from find zero i room = []
  scan_from find (suc rounds) i zero = []
  scan_from find (suc rounds) i (suc room) = elim (find i) [
    | none ↦ scan_from find rounds (i + 1) (suc room)
    | some p ↦ p ∷ scan_from find rounds (i + 1) room
  ]

  pub partition_scan_mbr : BlockDevice D → ℕ → D → List (PartitionDevice D)
  partition_scan_mbr disk max_partitions d =
      scan_from (λ i. partition_from_mbr disk i d) mbr_partition_count 0 max_partitions

  -- The body of the loop of `partition_scan_gpt`.
  pub scan_gpt_entry : BlockDevice D → D → GptHeader → ℕ → Option (PartitionDevice D)
  scan_gpt_entry disk d header index = do
    refuse (ltb 512 (entry_offset header index + header.partition_entry_size))
    entry_sector ← block_read disk (entry_lba header index) 1 d
    let entry = gpt_entry entry_sector (entry_offset header index)
    refuse (entry.empty)
    refuse (ltb entry.last_lba entry.first_lba)
    refuse (ltb entry.first_lba header.first_usable_lba)
    refuse (ltb header.last_usable_lba entry.last_lba)
    refuse (leb disk.sector_count entry.last_lba)
    some (partition_initialize disk entry.first_lba (entry.last_lba - entry.first_lba + 1))

  -- The header that `partition_scan_gpt` goes on with.
  pub scan_gpt_header : BlockDevice D → D → Option GptHeader
  scan_gpt_header disk d = do
    refuse (not (disk.sector_size == 512))
    sector ← block_read disk 1 1 d
    let header = gpt_header sector
    refuse (not (header.signature == gpt_header_signature))
    refuse (bad_size header)
    refuse (ltb header.partition_entry_size sizeof_gpt_entry)
    refuse (bad_crc header sector)
    crc ← whole_table_crc disk d header
    refuse (not (crc32_finish crc == header.partition_entries_crc32))
    some header

  pub partition_scan_gpt : BlockDevice D → ℕ → D → List (PartitionDevice D)
  partition_scan_gpt disk max_partitions d = elim (scan_gpt_header disk d) [
    | none ↦ []
    | some header ↦
        scan_from (scan_gpt_entry disk d header) header.partition_entry_count 0 max_partitions
  ]

  pub partition_scan : BlockDevice D → ℕ → D → List (PartitionDevice D)
  partition_scan disk max_partitions d =
      if mbr_is_protective_gpt disk d
      then partition_scan_gpt disk max_partitions d
      else partition_scan_mbr disk max_partitions d
