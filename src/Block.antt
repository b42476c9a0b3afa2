-- ===== src/Block.antt =====
-- kernel/kernel/fs/block_device.c: the checked calls of a driver's functions. A driver is a parameter:
-- `D` is the state of the disk, which reads leave as it is. A result other than 0 is `none` or
-- false, a buffer a function from offsets to bytes.
pub mod Inside
use meaty_skeleton.Prelude.{
  ℕ, ◌+◌, ◌-◌, ◌<◌, ◌≤◌, ◌≡◌, arith, Bool, true, false, ◌&&◌, not, Option, none, some, ltb, leb,
  ◌==◌, if◌then◌else◌,
}

abbrev pub Buffer : Type 0
Buffer = ℕ → ℕ

-- `block_device_t` less its name; a function pointer that is NULL is `none`.
pub record BlockDevice (D : Type 0) : Type 0 where
  pub sector_size : ℕ
  pub sector_count : ℕ
  pub read : Option (ℕ → ℕ → D → Option Buffer)
  pub write : Option (ℕ → ℕ → Buffer → D → Bool × D)

module _ {D : Type 0} where
  unfoldable pub block_device_valid : BlockDevice D → Bool
  block_device_valid device =
      if device.sector_size == 0
      then false
      else if device.sector_count == 0
      then false
      else elim device.read [ none ↦ false | some read ↦ true ]

  -- The call through `device->read`.
  abbrev pub call_read : BlockDevice D → ℕ → ℕ → D → Option Buffer
  call_read device lba count d = elim device.read [ none ↦ none | some read ↦ read lba count d ]

  unfoldable pub block_read : BlockDevice D → ℕ → ℕ → D → Option Buffer
  block_read device lba count d =
      if count == 0
      then none
      else if not (block_device_valid device)
      then none
      else if leb device.sector_count lba
      then none
      else if ltb (device.sector_count - lba) count
      then none
      else call_read device lba count d

  pub block_write : BlockDevice D → ℕ → ℕ → Buffer → D → Bool × D
  block_write device lba count buffer d =
      if count == 0
      then (false, d)
      else if not (block_device_valid device)
      then (false, d)
      else elim device.write [
        | none ↦ (false, d)
        | some write ↦
            if leb device.sector_count lba
            then (false, d)
            else if ltb (device.sector_count - lba) count
            then (false, d)
            else write lba count buffer d
      ]

  -- A read that succeeds lies inside the device.
  pub block_read_inside :
      (device : BlockDevice D) (lba count : ℕ) (d : D) (b : Buffer)
      → block_read device lba count d ≡ some b
      → (lba < device.sector_count) × (lba + count ≤ device.sector_count)
  unfolding block_read
  block_read_inside device lba count d b e = ground arith
