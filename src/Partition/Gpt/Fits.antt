-- ===== src/Partition/Gpt/Fits.antt =====
-- Every partition that a scan finds lies on the disk.
use meaty_skeleton.Prelude.{
  ℕ, zero, suc, ◌+◌, ◌≤◌, ◌<◌, ◌≡◌, inl, inr, Option, some, List, [], ◌∷◌, arith, length,
  Bool-cases, Option-cases,
}
use meaty_skeleton.Block.{BlockDevice}
use meaty_skeleton.Partition.{PartitionDevice, GptHeader, partition_from_mbr}
use meaty_skeleton.Partition.Gpt.{
  scan_from, scan_gpt_entry, scan_gpt_header, partition_scan_mbr, partition_scan_gpt,
  mbr_is_protective_gpt, partition_scan,
}

pub record Fits {D : Type 0} (disk : BlockDevice D) (p : PartitionDevice D) : Type 0 where
  pub on : p.parent ≡ disk
  pub some_sectors : 0 < p.sector_count
  pub end : p.start_lba + p.sector_count ≤ disk.sector_count

abbrev pub AllFit : {D : Type 0} → BlockDevice D → List (PartitionDevice D) → Type 0
AllFit disk [] = Unit {0}
AllFit disk (p ∷ ps) = Fits disk p × AllFit disk ps

module _ {D : Type 0} (disk : BlockDevice D) where
  gpt_entry-Fits :
      (d : D) (header : GptHeader) (index : ℕ) (p : PartitionDevice D)
      → scan_gpt_entry disk d header index ≡ some p
      → Fits disk p
  unfolding scan_gpt_entry
  gpt_entry-Fits d header index p e = record {
    on = ground arith;
    some_sectors = ground arith;
    end = ground arith;
  }

  mbr_entry-Fits :
      (d : D) (index : ℕ) (p : PartitionDevice D)
      → partition_from_mbr disk index d ≡ some p
      → Fits disk p
  unfolding partition_from_mbr
  mbr_entry-Fits d index p e = record {
    on = ground arith;
    some_sectors = ground arith;
    end = ground arith;
  }

  scan_from-AllFit :
      (find : ℕ → Option (PartitionDevice D)) (rounds i room : ℕ)
      → ((j : ℕ) (p : PartitionDevice D) → find j ≡ some p → Fits disk p)
      → AllFit disk (scan_from find rounds i room) × (length (scan_from find rounds i room) ≤ room)
  unfolding scan_from
  scan_from-AllFit find zero i room h = (tt, omega arith)
  scan_from-AllFit find (suc rounds) i zero h = (tt, omega arith)
  scan_from-AllFit find (suc rounds) i (suc room) h = elim (Option-cases (find i)) [
    | inl e ↦ rw (e, scan_from) (scan_from-AllFit find rounds (i + 1) (suc room) h)
    | inr (p, e) ↦
        let k = scan_from-AllFit find rounds (i + 1) room h in
        rw (e, scan_from) ((h i p e, k.0), omega arith)
  ]

  scan_gpt-AllFit :
      (room : ℕ) (d : D)
      → AllFit disk (partition_scan_gpt disk room d)
        × (length (partition_scan_gpt disk room d) ≤ room)
  unfolding partition_scan_gpt
  scan_gpt-AllFit room d = elim (Option-cases (scan_gpt_header disk d)) [
    | inl e ↦ rw (e, partition_scan_gpt) (tt, omega arith)
    | inr (header, e) ↦
        rw (e, partition_scan_gpt)
          (scan_from-AllFit (scan_gpt_entry disk d header) header.partition_entry_count 0 room
            (gpt_entry-Fits d header))
  ]

  scan_mbr-AllFit :
      (room : ℕ) (d : D)
      → AllFit disk (partition_scan_mbr disk room d)
        × (length (partition_scan_mbr disk room d) ≤ room)
  unfolding partition_scan_mbr
  scan_mbr-AllFit room d =
      scan_from-AllFit (λ i. partition_from_mbr disk i d) 4 0 room (mbr_entry-Fits d)

  -- Whatever stands on the disk, `partition_scan` finds no more partitions than it was asked for,
  -- and each of them is a partition of that disk, has at least one sector, and ends inside the disk.
  pub partition_scan-AllFit :
      (max_partitions : ℕ) (d : D)
      → AllFit disk (partition_scan disk max_partitions d)
        × (length (partition_scan disk max_partitions d) ≤ max_partitions)
  unfolding partition_scan
  partition_scan-AllFit room d = elim (Bool-cases (mbr_is_protective_gpt disk d)) [
    | inl e ↦ rw (e, partition_scan) (scan_gpt-AllFit room d)
    | inr e ↦ rw (e, partition_scan) (scan_mbr-AllFit room d)
  ]
