-- ===== src/Partition/Isolation.antt =====
-- Partitions that do not overlap do not see each other's writes.
use mathlib.Core.Path.{subst}
use meaty_skeleton.Prelude.{
  ℕ, ◌+◌, ◌%◌, ◌^◌, ◌≤◌, ◌<◌, ◌≡◌, ◌⊎◌, sym, ◌∙◌, ap, inl, inr, Bool, false, Option, none, some,
  arith, leb, ◌==◌, Bool-cases, Option-cases,
}
use meaty_skeleton.Block.{Buffer, BlockDevice}
use meaty_skeleton.Block.Inside.{Reads, block_read-Reads, Writes, block_write-Writes}
use meaty_skeleton.Partition.{PartitionDevice, partition_read, partition_write}

-- Two runs of sectors have none in common.
abbrev pub Apart : ℕ → ℕ → ℕ → ℕ → Type 0
Apart l c l' c' = (l + c ≤ l') ⊎ (l' + c' ≤ l)

-- What a driver promises: a write changes no sector outside of its run.
abbrev pub WritesInPlace : {D : Type 0} → BlockDevice D → Type 0
WritesInPlace {D} disk =
    (read : ℕ → ℕ → D → Option Buffer) (write : ℕ → ℕ → Buffer → D → Bool × D)
    → disk.read ≡ some read
    → disk.write ≡ some write
    → (l c l' c' : ℕ) (buffer : Buffer) (d : D) → Apart l c l' c'
    → read l' c' (write l c buffer d).1 ≡ read l' c' d

module _ {D : Type 0} (p : PartitionDevice D) (lba count : ℕ) where
  -- The calls of the partition's functions, as calls of its driver.
  partition_read-Reads :
      p.start_lba + p.sector_count ≤ p.parent.sector_count
      → p.parent.sector_count < 2 ^ 64
      → ((d : D) → partition_read p lba count d ≡ none)
        ⊎ ((lba + count ≤ p.sector_count)
            × Reads p.parent (p.start_lba + lba) count (partition_read p lba count))
  unfolding partition_read
  partition_read-Reads fits small = elim (Option-cases p.parent.read) [
    | inl e ↦ inl (λ d. ground arith)
    | inr (read, e) ↦ elim (Bool-cases (leb (lba + count) p.sector_count)) [
      | inr n ↦ inl (λ d. ground arith)
      | inl l ↦ elim (Bool-cases (count == 0)) [
        | inl z ↦ inl (λ d. ground arith)
        | inr z ↦
            let wrap : (p.start_lba + lba) % 2 ^ 64 ≡ p.start_lba + lba = ground arith in
            inr (
              ground arith,
              elim (block_read-Reads p.parent (p.start_lba + lba) count) [
                | inl h ↦ inl (λ d. ground (arith, h d))
                | inr (r, h, k, f) ↦ inr (r, h, k, (λ d. ground (arith, f d)))
              ],
            )
      ]
    ]
  ]

  partition_write-Writes :
      (buffer : Buffer)
      → p.start_lba + p.sector_count ≤ p.parent.sector_count
      → p.parent.sector_count < 2 ^ 64
      → ((d : D) → partition_write p lba count buffer d ≡ (false, d))
        ⊎ ((lba + count ≤ p.sector_count)
            × Writes p.parent (p.start_lba + lba) count buffer (partition_write p lba count buffer))
  unfolding partition_write
  partition_write-Writes buffer fits small = elim (Option-cases p.parent.write) [
    | inl e ↦ inl (λ d. ground arith)
    | inr (write, e) ↦ elim (Bool-cases (leb (lba + count) p.sector_count)) [
      | inr n ↦ inl (λ d. ground arith)
      | inl l ↦ elim (Bool-cases (count == 0)) [
        | inl z ↦ inl (λ d. ground arith)
        | inr z ↦
            let wrap : (p.start_lba + lba) % 2 ^ 64 ≡ p.start_lba + lba = ground arith in
            inr (
              ground arith,
              elim (block_write-Writes p.parent (p.start_lba + lba) count buffer) [
                | inl h ↦ inl (λ d. ground (arith, h d))
                | inr (r, h, k, f) ↦ inr (r, h, k, (λ d. ground (arith, f d)))
              ],
            )
      ]
    ]
  ]

-- A read does not see a write on other sectors.
Reads-frame :
    {D : Type 0} (disk : BlockDevice D) (l c l' c' : ℕ) (buffer : Buffer) (d : D)
    (f : D → Option Buffer) (g : D → Bool × D)
    → WritesInPlace disk
    → Apart l c l' c'
    → Reads disk l' c' f
    → Writes disk l c buffer g
    → f (g d).1 ≡ f d
Reads-frame disk l c l' c' buffer d f g w a (inl h) v = h (g d).1 ∙ sym (h d)
Reads-frame disk l c l' c' buffer d f g w a (inr r) (inl h) = ap f (ap (λ t. t.1) (h d))
Reads-frame disk l c l' c' buffer d f g w a (inr (read, er, kr, fr)) (inr (write, ew, kw, fw)) =
    fr (g d).1
    ∙ ap (λ t. read l' c' t.1) (fw d)
    ∙ w read write er ew l c l' c' buffer d a
    ∙ sym (fr d)

-- For two partitions of one disk with fewer than 2^64 sectors, each on the disk and without a
-- sector in common, whatever is written through one of them, a read through the other gives what
-- it gave before, where the driver's write changes no sector outside of the run that it is given.
pub read-partition_write :
    {D : Type 0} (disk : BlockDevice D) (p q : PartitionDevice D) (lba count lba' count' : ℕ)
    (buffer : Buffer) (d : D)
    → WritesInPlace disk
    → disk.sector_count < 2 ^ 64
    → p.parent ≡ disk
    → q.parent ≡ disk
    → p.start_lba + p.sector_count ≤ disk.sector_count
    → q.start_lba + q.sector_count ≤ disk.sector_count
    → Apart p.start_lba p.sector_count q.start_lba q.sector_count
    → partition_read q lba' count' (partition_write p lba count buffer d).1
      ≡ partition_read q lba' count' d
read-partition_write disk p q lba count lba' count' buffer d w small pd qd pe qe a =
    elim (partition_read-Reads q lba' count' (ground arith) (ground arith)) [
      | inl h ↦ h (partition_write p lba count buffer d).1 ∙ sym (h d)
      | inr (lq, r) ↦
          elim (partition_write-Writes p lba count buffer (ground arith) (ground arith)) [
            | inl h ↦ ap (λ t. partition_read q lba' count' t.1) (h d)
            | inr (lp, v) ↦
                Reads-frame disk (p.start_lba + lba) count (q.start_lba + lba') count' buffer d
                  (partition_read q lba' count') (partition_write p lba count buffer) w
                  (elim a [ inl x ↦ inl (omega arith) | inr x ↦ inr (omega arith) ])
                  (subst (λ k. Reads k (q.start_lba + lba') count' (partition_read q lba' count'))
                    qd r)
                  (subst
                    (λ k.
                      Writes k (p.start_lba + lba) count buffer
                        (partition_write p lba count buffer))
                    pd v)
          ]
    ]
