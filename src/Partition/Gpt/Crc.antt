-- ===== src/Partition/Gpt/Crc.antt =====
-- The CRC of the entry table, which is read sector by sector.
use Prim.Native.Nat.{bit_xor}
use meaty_skeleton.Prelude.{
  ℕ, zero, suc, ◌+◌, ◌-◌, ◌/◌, ◌%◌, ◌^◌, ◌≤◌, ◌<◌, ◌≡◌, refl, sym, ◌∙◌, ap, inl, inr, some, min,
  arith, ltb, Bool-cases, Option-cases,
}
use meaty_skeleton.Block.{Buffer, BlockDevice, block_read, block_read_inside}
use meaty_skeleton.Partition.{
  crc_bits, crc32_from, crc32_update, crc32_finish, crc32_start, crc32_compute, GptHeader,
}
use meaty_skeleton.Partition.Gpt.{table_crc, whole_table_crc, table_bytes, sectors_of}

crc32_from-add :
    (m n i : ℕ) (b : Buffer) (crc : ℕ)
    → crc32_from (m + n) i b crc ≡ crc32_from n (i + m) b (crc32_from m i b crc)
unfolding crc32_from
crc32_from-add zero n i b crc =
    let e : 0 + n ≡ n = omega arith in
    let e' : i ≡ i + 0 = omega arith in
    ap (λ k. crc32_from k i b crc) e ∙ ap (λ k. crc32_from n k b crc) e'
crc32_from-add (suc m) n i b crc =
    let e : suc m + n ≡ suc (m + n) = omega arith in
    let e' : i + 1 + m ≡ i + suc m = omega arith in
    ap (λ k. crc32_from k i b crc) e
    ∙ crc32_from-add m n (i + 1) b (crc_bits 8 (bit_xor crc (b i)))
    ∙ ap (λ k. crc32_from n k b (crc32_from m (i + 1) b (crc_bits 8 (bit_xor crc (b i)))))
        (omega arith)

-- The CRC depends only on the bytes that it reads.
crc32_from-shift :
    (n i j : ℕ) (b b' : Buffer) (crc : ℕ)
    → ((k : ℕ) → k < n → b (i + k) ≡ b' (j + k))
    → crc32_from n i b crc ≡ crc32_from n j b' crc
unfolding crc32_from
crc32_from-shift zero i j b b' crc h = refl
crc32_from-shift (suc n) i j b b' crc h =
    let e : b i ≡ b' j = ap b (omega arith) ∙ h 0 (omega arith) ∙ ap b' (omega arith) in
    rw e (
      crc32_from-shift n (i + 1) (j + 1) b b' (crc_bits 8 (bit_xor crc (b' j)))
        (λ k l. ap b (omega arith) ∙ h (k + 1) (omega arith) ∙ ap b' (omega arith)))

-- Sectors one behind the other.
abbrev pub joined : (ℕ → Buffer) → Buffer
joined sectors i = sectors (i / 512) (i % 512)

-- The first sector, then the others.
crc32_from-joined :
    (n crc : ℕ) (sectors : ℕ → Buffer)
    → crc32_from n 0 (joined sectors) crc
      ≡ crc32_from
          (n - min n 512)
          0
          (joined (λ j. sectors (j + 1)))
          (crc32_update crc (sectors 0) (min n 512))
crc32_from-joined n crc sectors =
    ap (λ k. crc32_from k 0 (joined sectors) crc) parts
    ∙ crc32_from-add c more 0 (joined sectors) crc
    ∙ ap (crc32_from more (0 + c) (joined sectors))
        (crc32_from-shift c 0 0 (joined sectors) (sectors 0) crc head)
    ∙ crc32_from-shift more (0 + c) 0 (joined sectors) (joined (λ j. sectors (j + 1)))
        (crc32_update crc (sectors 0) c) tail
  where
    c : ℕ
    c = min n 512

    more : ℕ
    more = n - c

    parts : n ≡ c + more
    parts = omega arith

    head : (k : ℕ) → k < c → joined sectors (0 + k) ≡ sectors 0 (0 + k)
    head k l =
        let q : (0 + k) / 512 ≡ 0 = omega arith in
        let r : (0 + k) % 512 ≡ 0 + k = omega arith in rw (q, r) refl

    tail : (k : ℕ) → k < more → joined sectors (0 + c + k) ≡ joined (λ j. sectors (j + 1)) (0 + k)
    tail k l =
        let q : (0 + c + k) / 512 ≡ (0 + k) / 512 + 1 = omega arith in
        let r : (0 + c + k) % 512 ≡ (0 + k) % 512 = omega arith in rw (q, r) refl

table_crc_round :
    (fuel : ℕ) {D : Type 0} (disk : BlockDevice D) (d : D) (lba rest crc : ℕ) (sector : Buffer)
    → block_read disk lba 1 d ≡ some sector
    → table_crc (suc fuel) disk d lba (suc rest) crc
      ≡ table_crc fuel disk d
          ((lba + 1) % 2 ^ 64)
          (suc rest - min (suc rest) 512)
          (crc32_update crc sector (min (suc rest) 512))
unfolding table_crc
table_crc_round fuel disk d lba rest crc sector e = rw (e, table_crc) refl

table_crc_lem :
    (fuel : ℕ) {D : Type 0} (disk : BlockDevice D) (d : D) (lba bytes crc : ℕ)
    (sectors : ℕ → Buffer)
    → sectors_of bytes ≤ fuel
    → lba + sectors_of bytes < 2 ^ 64
    → ((j : ℕ) → j < sectors_of bytes → block_read disk (lba + j) 1 d ≡ some (sectors j))
    → table_crc fuel disk d lba bytes crc ≡ some (crc32_from bytes 0 (joined sectors) crc)
unfolding table_crc crc32_from
table_crc_lem fuel disk d lba zero crc sectors f s h = refl
table_crc_lem zero disk d lba (suc rest) crc sectors f s h = absurd (omega arith)
table_crc_lem (suc fuel) disk d lba (suc rest) crc sectors f s h =
    let c = min (suc rest) 512 in
    let more = suc rest - c in
    let first : block_read disk lba 1 d ≡ some (sectors 0) =
      ap (λ k. block_read disk k 1 d) (omega arith) ∙ h 0 (omega arith) in
    let wrap : (lba + 1) % 2 ^ 64 ≡ lba + 1 = omega arith in
    let next = crc32_update crc (sectors 0) c in
    table_crc_round fuel disk d lba rest crc (sectors 0) first
    ∙ ap (λ k. table_crc fuel disk d k more next) wrap
    ∙ table_crc_lem fuel disk d (lba + 1) more next (λ j. sectors (j + 1)) (omega arith)
        (omega arith)
        (λ j l. ap (λ k. block_read disk k 1 d) (omega arith) ∙ h (j + 1) (omega arith))
    ∙ ap some (sym (crc32_from-joined (suc rest) crc sectors))

-- Where the sectors of the entry table can be read and end below sector 2^64, the loop over them
-- ends within as many rounds as there are sectors, and its finished CRC is `crc32_compute` of the
-- bytes of the table, the last sector in part.
pub table_crc-compute :
    {D : Type 0} (disk : BlockDevice D) (d : D) (header : GptHeader) (sectors : ℕ → Buffer)
    → header.partition_entries_lba + sectors_of (table_bytes header) < 2 ^ 64
    → ((j : ℕ)
        → j < sectors_of (table_bytes header)
        → block_read disk (header.partition_entries_lba + j) 1 d ≡ some (sectors j))
    → (crc : ℕ) × (whole_table_crc disk d header ≡ some crc)
      × (crc32_finish crc ≡ crc32_compute (joined sectors) (table_bytes header))
unfolding crc32_compute
table_crc-compute disk d header sectors s h = (
  crc32_from (table_bytes header) 0 (joined sectors) crc32_start,
  table_crc_lem (sectors_of (table_bytes header)) disk d header.partition_entries_lba
      (table_bytes header) crc32_start sectors (omega arith) s h,
  refl,
)

-- A table that was read whole lies on the disk.
pub table_crc_inside :
    (fuel : ℕ) {D : Type 0} (disk : BlockDevice D) (d : D) (lba bytes crc c : ℕ)
    → disk.sector_count < 2 ^ 64
    → 0 < bytes
    → table_crc fuel disk d lba bytes crc ≡ some c
    → lba + sectors_of bytes ≤ disk.sector_count
unfolding table_crc
table_crc_inside fuel disk d lba zero crc c s p e = absurd (omega arith)
table_crc_inside zero disk d lba (suc rest) crc c s p e = absurd (ground arith)
table_crc_inside (suc fuel) disk d lba (suc rest) crc c s p e =
    elim (Option-cases (block_read disk lba 1 d)) [
      | inl n ↦ absurd (ground arith)
      | inr (sector, r) ↦
          let i = block_read_inside disk lba 1 d sector r in
          let e' = sym (table_crc_round fuel disk d lba rest crc sector r) ∙ e in
          elim (Bool-cases (ltb 512 (suc rest))) [
            | inr n ↦ ground arith
            | inl l ↦
                let k =
                  table_crc_inside fuel disk d ((lba + 1) % 2 ^ 64) (suc rest - min (suc rest) 512)
                    (crc32_update crc sector (min (suc rest) 512)) c s (ground arith) e' in
                ground (arith, i, k)
          ]
    ]
