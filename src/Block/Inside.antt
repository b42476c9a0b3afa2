-- ===== src/Block/Inside.antt =====
-- What reaches the driver: only calls for sectors of the device.
use meaty_skeleton.Prelude.{
  ℕ, ◌+◌, ◌≤◌, ◌≡◌, ◌⊎◌, inl, inr, Bool, false, Option, none, some, arith, leb, ◌==◌, Bool-cases,
  Option-cases,
}
use meaty_skeleton.Block.{Buffer, BlockDevice, block_read, block_write, block_device_valid}

-- A call either fails in every state, or it is the driver's, on sectors of the device.
abbrev pub Reads : {D : Type 0} → BlockDevice D → ℕ → ℕ → (D → Option Buffer) → Type 0
Reads {D} device lba count f =
    ((d : D) → f d ≡ none)
    ⊎ ((read : ℕ → ℕ → D → Option Buffer) × (device.read ≡ some read)
        × (lba + count ≤ device.sector_count)
        × ((d : D) → f d ≡ read lba count d))

abbrev pub Writes : {D : Type 0} → BlockDevice D → ℕ → ℕ → Buffer → (D → Bool × D) → Type 0
Writes {D} device lba count buffer f =
    ((d : D) → f d ≡ (false, d))
    ⊎ ((write : ℕ → ℕ → Buffer → D → Bool × D) × (device.write ≡ some write)
        × (lba + count ≤ device.sector_count)
        × ((d : D) → f d ≡ write lba count buffer d))

module _ {D : Type 0} where
  pub block_read-Reads :
      (device : BlockDevice D) (lba count : ℕ)
      → Reads device lba count (block_read device lba count)
  unfolding block_read block_device_valid
  block_read-Reads device lba count = elim (Option-cases device.read) [
    | inl e ↦ inl (λ d. ground arith)
    | inr (read, e) ↦ elim (Bool-cases (leb (lba + count) device.sector_count)) [
      | inr n ↦ inl (λ d. ground arith)
      | inl l ↦ elim (Bool-cases (count == 0)) [
        | inl z ↦ inl (λ d. ground arith)
        | inr z ↦ elim (Bool-cases (device.sector_size == 0)) [
          | inl y ↦ inl (λ d. ground arith)
          | inr y ↦ inr (read, e, ground arith, (λ d. ground arith))
        ]
      ]
    ]
  ]

  pub block_write-Writes :
      (device : BlockDevice D) (lba count : ℕ) (buffer : Buffer)
      → Writes device lba count buffer (block_write device lba count buffer)
  unfolding block_write block_device_valid
  block_write-Writes device lba count buffer = elim (Option-cases device.write) [
    | inl e ↦ inl (λ d. ground arith)
    | inr (write, e) ↦ elim (Bool-cases (leb (lba + count) device.sector_count)) [
      | inr n ↦ inl (λ d. ground arith)
      | inl l ↦ elim (Bool-cases (count == 0)) [
        | inl z ↦ inl (λ d. ground arith)
        | inr z ↦ elim (Bool-cases (block_device_valid device)) [
          | inr y ↦ inl (λ d. ground arith)
          | inl y ↦ inr (write, e, ground arith, (λ d. ground arith))
        ]
      ]
    ]
  ]
