-- ===== src/Tests/Disk.antt =====
-- A disk of 64 sectors with a GPT of one entry, and its partitions.
use mathlib.Core.Path.{fun_ext, subst}
use meaty_skeleton.Prelude.{
  ℕ, ◌⊎◌, Bool-cases, ◌+◌, ◌-◌, ◌*◌, ◌/◌, ◌%◌, ◌<◌, ◌≤◌, ◌≡◌, refl, ap, inl, inr, Bool, true, false,
  ◌&&◌, some, none, Option, List, [], ◌∷◌, take, length, arith, ltb, leb, ◌==◌, if◌then◌else◌,
}
use meaty_skeleton.Block.{Buffer, BlockDevice, block_read, block_device_valid}
use meaty_skeleton.Partition.{
  GptHeader, gpt_header, partition_initialize, partition_read, partition_write, crc32_finish,
  crc32_compute,
}
use meaty_skeleton.Partition.Isolation.{WritesInPlace, read-partition_write}
use meaty_skeleton.Partition.Gpt.{
  partition_from_gpt, partition_scan_gpt, partition_scan, whole_table_crc, table_bytes,
}
use meaty_skeleton.Partition.Gpt.Fits.{AllFit, partition_scan-AllFit}
use meaty_skeleton.Partition.Gpt.Crc.{joined, table_crc-compute}
use meaty_skeleton.Partition.Gpt.Scan.{found_from, entry_count, scan_gpt-from_gpt}

-- The bytes that are not 0, with their offsets.
abbrev bytes_at : List (ℕ × ℕ) → Buffer
bytes_at [] i = 0
bytes_at ((at, byte) ∷ rest) i = if i == at then byte else bytes_at rest i

abbrev Sectors : Type 0
Sectors = ℕ → Buffer

abbrev disk_read : ℕ → ℕ → Sectors → Option Buffer
disk_read l c d = some (λ i. if ltb i (c * 512) then d (l + i / 512) (i % 512) else 0)

abbrev disk_write : ℕ → ℕ → Buffer → Sectors → Bool × Sectors
disk_write l c buffer d =
    (true, λ s. if leb l s && ltb s (l + c) then (λ i. buffer ((s - l) * 512 + i)) else d s)

abbrev a_disk : BlockDevice Sectors
a_disk = record {
  sector_size = 512;
  sector_count = 64;
  read = some disk_read;
  write = some disk_write;
}

abbrev protective : List (ℕ × ℕ)
protective = (450, 238) ∷ (510, 85) ∷ (511, 170) ∷ []

abbrev a_header : List (ℕ × ℕ)
a_header =
    (0, 69)
    ∷ (1, 70)
    ∷ (2, 73)
    ∷ (3, 32)
    ∷ (4, 80)
    ∷ (5, 65)
    ∷ (6, 82)
    ∷ (7, 84)
    ∷ (12, 92)
    ∷ (16, 52)
    ∷ (17, 5)
    ∷ (18, 8)
    ∷ (19, 80)
    ∷ (40, 3)
    ∷ (48, 60)
    ∷ (72, 2)
    ∷ (80, 1)
    ∷ (84, 128)
    ∷ (88, 132)
    ∷ (89, 105)
    ∷ (90, 206)
    ∷ (91, 54)
    ∷ []

abbrev an_entry : List (ℕ × ℕ)
an_entry = (0, 17) ∷ (32, 4) ∷ (40, 9) ∷ []

abbrev some_sectors : Sectors
some_sectors s =
    if s == 0
    then bytes_at protective
    else if s == 1
    then bytes_at a_header
    else if s == 2
    then bytes_at an_entry
    else (λ i. 0)

scan_example :
    AllFit a_disk (partition_scan a_disk 4 some_sectors)
    × (length (partition_scan a_disk 4 some_sectors) ≤ 4)
scan_example = partition_scan-AllFit a_disk 4 some_sectors

gpt_example :
    partition_scan_gpt a_disk 4 some_sectors
    ≡ take 4 (
        found_from
          (λ i. partition_from_gpt a_disk i some_sectors)
          (entry_count a_disk some_sectors)
          0)
gpt_example = scan_gpt-from_gpt a_disk 4 some_sectors (omega arith)

abbrev table_header : GptHeader
table_header = gpt_header (bytes_at a_header)

-- The sectors of the table, as a read gives them.
abbrev table_sectors : ℕ → Buffer
table_sectors j i = if ltb i 512 then some_sectors (2 + j + i / 512) (i % 512) else 0

table_reads : (j : ℕ) → j < 1 → block_read a_disk (2 + j) 1 some_sectors ≡ some (table_sectors j)
unfolding block_read block_device_valid
table_reads j l =
    let a : leb 64 (2 + j) ≡ false = ground arith in
    let b : ltb (64 - (2 + j)) 1 ≡ false = ground arith in simp (a, b, block_read) refl

table_example :
    (crc : ℕ) × (whole_table_crc a_disk some_sectors table_header ≡ some crc)
    × (crc32_finish crc ≡ crc32_compute (joined table_sectors) (table_bytes table_header))
table_example =
    table_crc-compute a_disk some_sectors table_header table_sectors (omega arith) table_reads

place_lem :
    (l c l' c' : ℕ) (buffer : Buffer) (d : Sectors) (i : ℕ)
    → (l + c ≤ l') ⊎ (l' + c' ≤ l)
    → (if ltb i (c' * 512) then (disk_write l c buffer d).1 (l' + i / 512) (i % 512) else 0)
      ≡ (if ltb i (c' * 512) then d (l' + i / 512) (i % 512) else 0)
place_lem l c l' c' buffer d i a = elim (Bool-cases (ltb i (c' * 512))) [
  | inr n ↦ rw n refl
  | inl n ↦
      let m : (leb l (l' + i / 512) && ltb (l' + i / 512) (l + c)) ≡ false = elim a [
        | inl x ↦ ground arith
        | inr x ↦ ground arith
      ] in
      rw (n, m) refl
]

a_disk-WritesInPlace : WritesInPlace a_disk
a_disk-WritesInPlace read write r w l c l' c' buffer d a =
    subst
      (λ (o : Option (ℕ → ℕ → Sectors → Option Buffer)). elim o [
        | none ↦ Unit {0}
        | some f ↦ f l' c' (write l c buffer d).1 ≡ f l' c' d
      ])
      r
      (subst
        (λ (o : Option (ℕ → ℕ → Buffer → Sectors → Bool × Sectors)). elim o [
          | none ↦ Unit {0}
          | some g ↦ disk_read l' c' (g l c buffer d).1 ≡ disk_read l' c' d
        ])
        w (ap some (fun_ext (λ i. place_lem l c l' c' buffer d i a))))

isolation_example :
    partition_read
      (partition_initialize a_disk 10 5)
      0
      2
      (partition_write (partition_initialize a_disk 4 6) 5 1 (λ i. 7) some_sectors).1
    ≡ partition_read (partition_initialize a_disk 10 5) 0 2 some_sectors
isolation_example =
    read-partition_write a_disk (partition_initialize a_disk 4 6) (partition_initialize a_disk 10 5)
      5 1 0 2 (λ i. 7) some_sectors a_disk-WritesInPlace (omega arith) refl refl (omega arith)
      (omega arith) (inl (omega arith))
