-- ===== src/Partition/Gpt/Scan.antt =====
-- `partition_scan_gpt` finds what `partition_from_gpt` gives for the entries, one after the other.
use meaty_skeleton.Prelude.{
  ℕ, zero, suc, ◌+◌, ◌-◌, ◌*◌, ◌^◌, ◌≤◌, ◌<◌, ◌≡◌, refl, sym, ◌∙◌, ap, inl, inr, true, false,
  Option, none, some, List, [], ◌∷◌, take, arith, leb, ltb, ◌==◌, Option-cases, ◌>>=◌, ◌>>◌, refuse,
}
use meaty_skeleton.Block.{Buffer, BlockDevice, block_read, block_read_inside}
use meaty_skeleton.Partition.{
  PartitionDevice, GptHeader, gpt_header, gpt_entry, gpt_header_signature, sizeof_gpt_entry,
  crc32_finish, crc32_start,
}
use meaty_skeleton.Partition.Gpt.{
  table_bytes, sectors_of, entry_lba, entry_offset, bad_size, bad_crc, whole_table_crc,
  gpt_entry_partition, from_gpt_header, partition_from_gpt, scan_from, scan_gpt_entry,
  scan_gpt_header, partition_scan_gpt,
}
use meaty_skeleton.Partition.Gpt.Crc.{table_crc_inside}

-- What `find` gives for the indices from `i` on, in order.
abbrev pub found_from :
    {D : Type 0} → (ℕ → Option (PartitionDevice D)) → ℕ → ℕ → List (PartitionDevice D)
found_from find zero i = []
found_from find (suc rounds) i = elim (find i) [
  | none ↦ found_from find rounds (i + 1)
  | some p ↦ p ∷ found_from find rounds (i + 1)
]

product_positive : (m n : ℕ) → 0 < m → 0 < n → 0 < m * n
product_positive m n h k = grind arith

module _ {D : Type 0} where
  scan_from-take :
      (find find' : ℕ → Option (PartitionDevice D)) (rounds i room : ℕ)
      → ((j : ℕ) → j < i + rounds → find j ≡ find' j)
      → scan_from find rounds i room ≡ take room (found_from find' rounds i)
  unfolding scan_from
  scan_from-take find find' zero i zero h = refl
  scan_from-take find find' zero i (suc room) h = refl
  scan_from-take find find' (suc rounds) i zero h = refl
  scan_from-take find find' (suc rounds) i (suc room) h =
      let e = h i (omega arith) in
      elim (Option-cases (find i)) [
        | inl n ↦
            let n' = sym e ∙ n in
            rw (n, n', scan_from, found_from)
              (scan_from-take find find' rounds (i + 1) (suc room) (λ j l. h j (omega arith)))
        | inr (p, s) ↦
            let s' = sym e ∙ s in
            rw (s, s', scan_from, found_from)
              (ap (λ k. p ∷ k)
                (scan_from-take find find' rounds (i + 1) room (λ j l. h j (omega arith))))
      ]

  -- Nothing is found where no index gives anything.
  found_from-none :
      (find : ℕ → Option (PartitionDevice D)) (rounds i : ℕ)
      → ((j : ℕ) → find j ≡ none)
      → found_from find rounds i ≡ []
  found_from-none find zero i h = refl
  found_from-none find (suc rounds) i h =
      rw (h i, found_from) (found_from-none find rounds (i + 1) h)

  module _ (disk : BlockDevice D) (d : D) (header : GptHeader) (index : ℕ) where
    -- The two readers check an entry in different orders.
    entry_checks :
        disk.sector_count < 2 ^ 64
        → (do
          refuse (leb disk.sector_count (entry_lba header index))
          refuse (ltb 512 (entry_offset header index + header.partition_entry_size))
          entry_sector ← block_read disk (entry_lba header index) 1 d
          gpt_entry_partition disk header (gpt_entry entry_sector (entry_offset header index)))
          ≡ scan_gpt_entry disk d header index
    unfolding scan_gpt_entry gpt_entry_partition
    entry_checks s = elim (Option-cases (block_read disk (entry_lba header index) 1 d)) [
      | inl n ↦ ground arith
      | inr (b, e) ↦
          let i = block_read_inside disk (entry_lba header index) 1 d b e in ground (arith, i)
    ]

  -- A header that the scan goes on with, and what it passed.
  pub record Passes (disk : BlockDevice D) (d : D) (header : GptHeader) : Type 0 where
    pub sector : Buffer
    pub crc : ℕ
    pub sectors : (disk.sector_size == 512) ≡ true
    pub was_read : block_read disk 1 1 d ≡ some sector
    pub is : gpt_header sector ≡ header
    pub signed : ((gpt_header sector).signature == gpt_header_signature) ≡ true
    pub sized : bad_size (gpt_header sector) ≡ false
    pub summed : bad_crc (gpt_header sector) sector ≡ false
    pub entries : ltb (gpt_header sector).partition_entry_size sizeof_gpt_entry ≡ false
    pub table : whole_table_crc disk d (gpt_header sector) ≡ some crc
    pub table_summed : (crc32_finish crc == (gpt_header sector).partition_entries_crc32) ≡ true

  scan_gpt_header-Passes :
      (disk : BlockDevice D) (d : D) (header : GptHeader)
      → scan_gpt_header disk d ≡ some header
      → Passes disk d header
  unfolding scan_gpt_header
  scan_gpt_header-Passes disk d header e = elim (Option-cases (block_read disk 1 1 d)) [
    | inl n ↦ absurd (ground arith)
    | inr (s, r) ↦ elim (Option-cases (whole_table_crc disk d (gpt_header s))) [
      | inl n ↦ absurd (ground arith)
      | inr (c, t) ↦ record {
        sector = s;
        crc = c;
        sectors = ground arith;
        was_read = r;
        is = ground arith;
        signed = ground arith;
        sized = ground arith;
        summed = ground arith;
        entries = ground arith;
        table = t;
        table_summed = ground arith;
      }
    ]
  ]

  from_gpt-none :
      (disk : BlockDevice D) (d : D) (index : ℕ)
      → scan_gpt_header disk d ≡ none
      → partition_from_gpt disk index d ≡ none
  unfolding scan_gpt_header partition_from_gpt from_gpt_header
  from_gpt-none disk d index e = elim (Option-cases (block_read disk 1 1 d)) [
    | inl n ↦ ground arith
    | inr (s, r) ↦ elim (Option-cases (whole_table_crc disk d (gpt_header s))) [
      | inl n ↦ ground arith
      | inr (c, t) ↦ ground arith
    ]
  ]

  from_gpt-scan :
      (disk : BlockDevice D) (d : D) (header : GptHeader) (index : ℕ)
      → disk.sector_count < 2 ^ 64
      → (p : Passes disk d header) → index < (gpt_header p.sector).partition_entry_count
      → partition_from_gpt disk index d ≡ scan_gpt_entry disk d (gpt_header p.sector) index
  unfolding partition_from_gpt from_gpt_header
  from_gpt-scan disk d header index s p l =
      simp
        (
          p.sectors, p.was_read, p.signed, p.sized, p.summed, p.entries, seen, begins, ends,
          p.table, p.table_summed, partition_from_gpt, from_gpt_header,
        )
        (entry_checks disk d (gpt_header p.sector) index s)
    where
      some_bytes : 0 < table_bytes (gpt_header p.sector)
      some_bytes =
          product_positive (gpt_header p.sector).partition_entry_count
            (gpt_header p.sector).partition_entry_size (omega arith) (ground arith)

      inside :
          (gpt_header p.sector).partition_entries_lba
            + sectors_of (table_bytes (gpt_header p.sector))
          ≤ disk.sector_count
      inside =
          table_crc_inside (sectors_of (table_bytes (gpt_header p.sector))) disk d
            (gpt_header p.sector).partition_entries_lba (table_bytes (gpt_header p.sector))
            crc32_start p.crc s some_bytes p.table

      seen : leb (gpt_header p.sector).partition_entry_count index ≡ false
      seen = ground arith

      begins : leb disk.sector_count (gpt_header p.sector).partition_entries_lba ≡ false
      begins = ground (arith, inside, some_bytes)

      ends :
          ltb
            (disk.sector_count - (gpt_header p.sector).partition_entries_lba)
            (sectors_of (table_bytes (gpt_header p.sector)))
          ≡ false
      ends = ground (arith, inside)

take_nil {ℓ} : {A : Type ℓ} (n : ℕ) → take {A = A} n [] ≡ []
take_nil zero = refl
take_nil (suc n) = refl

-- How many entries the table has, by the header that was read.
abbrev pub count_in : Option Buffer → ℕ
count_in none = 0
count_in (some sector) = (gpt_header sector).partition_entry_count

abbrev pub entry_count : {D : Type 0} → BlockDevice D → D → ℕ
entry_count disk d = count_in (block_read disk 1 1 d)

-- On a disk with fewer than 2^64 sectors, `partition_scan_gpt` finds exactly what
-- `partition_from_gpt` gives for the indices of the entries, in their order, up to the number that
-- it was asked for, although the two check headers and entries in different ways.
pub scan_gpt-from_gpt :
    {D : Type 0} (disk : BlockDevice D) (max_partitions : ℕ) (d : D)
    → disk.sector_count < 2 ^ 64
    → partition_scan_gpt disk max_partitions d
      ≡ take max_partitions (found_from (λ i. partition_from_gpt disk i d) (entry_count disk d) 0)
unfolding partition_scan_gpt
scan_gpt-from_gpt disk room d s = elim (Option-cases (scan_gpt_header disk d)) [
  | inl e ↦
      rw (e, partition_scan_gpt)
        (sym (take_nil room)
          ∙ ap (take room) (
              sym (
                found_from-none (λ i. partition_from_gpt disk i d) (entry_count disk d) 0
                  (λ j. from_gpt-none disk d j e))))
  | inr (header, e) ↦
      let p = scan_gpt_header-Passes disk d header e in
      let c : entry_count disk d ≡ header.partition_entry_count =
        ap count_in p.was_read ∙ ap (λ (k : GptHeader). k.partition_entry_count) p.is in
      rw (e, partition_scan_gpt)
        (scan_from-take (scan_gpt_entry disk d header) (λ i. partition_from_gpt disk i d)
            header.partition_entry_count 0 room
            (λ j l.
              ap (λ k. scan_gpt_entry disk d k j) (sym p.is)
              ∙ sym (
                  from_gpt-scan disk d header j s p
                    (omega (arith, ap (λ (k : GptHeader). k.partition_entry_count) p.is))))
          ∙ ap (λ k. take room (found_from (λ i. partition_from_gpt disk i d) k 0)) (sym c))
]
