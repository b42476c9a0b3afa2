-- ===== src/Fd.antt =====
-- kernel/kernel/fs/fd.c: the kernel's descriptors of open files. `fd_lock` makes each access to the
-- table one step. A descriptor is the unsigned value of the `int`, so that a negative one is at least
-- 2^31; -1 as a result is `none` or false. `whence` is read in the same way.
pub mod Open
use Prim.Native.Nat.{bit_and, bit_or}
use meaty_skeleton.Prelude.{
  ℕ, zero, suc, ◌+◌, ◌-◌, Bool, true, false, ◌&&◌, ◌||◌, not, Option, none, some, ltb, leb, ◌==◌,
  if◌then◌else◌, update, ◌>>=◌, ◌>>◌, refuse,
}

abbrev pub kernel_fd_first : ℕ
kernel_fd_first = 3

abbrev pub kernel_fd_max : ℕ
kernel_fd_max = 64

-- The flags of a descriptor.
abbrev pub fd_read : ℕ
fd_read = 1

abbrev pub fd_write : ℕ
fd_write = 2

abbrev pub fd_append : ℕ
fd_append = 4

abbrev pub fd_create : ℕ
fd_create = 8

abbrev pub fd_trunc : ℕ
fd_trunc = 16

-- The flags of vfs.h.
abbrev pub vfs_open_read : ℕ
vfs_open_read = 1

abbrev pub vfs_open_write : ℕ
vfs_open_write = 2

abbrev pub vfs_open_append : ℕ
vfs_open_append = 4

abbrev pub vfs_open_create : ℕ
vfs_open_create = 8

abbrev pub vfs_open_trunc : ℕ
vfs_open_trunc = 16

-- What the table of descriptors calls of vfs.c, on a state of its own: `P` are paths, `F` open
-- files. Reads and writes give the buffer and the count, or nothing where they fail.
pub record Vfs (P F B E V : Type 0) : Type 0 where
  pub vfs_open : P → ℕ → V → Option F × V
  pub vfs_close : F → V → V
  pub vfs_read : F → ℕ → V → Option (B × ℕ) × V
  pub vfs_write : F → B → ℕ → V → Option ℕ × V
  pub vfs_readdir : F → V → Option E × V
  pub vfs_seek : F → ℕ → ℕ → V → Option ℕ × V

-- `flags & bit`.
abbrev pub has : ℕ → ℕ → Bool
has flags bit = not (bit_and flags bit == 0)

-- `vfs_flags |= bit`, under a condition.
abbrev pub with_flag : Bool → ℕ → ℕ → ℕ
with_flag true bit flags = bit_or flags bit
with_flag false bit flags = flags

pub kernel_fd_valid : ℕ → Bool
kernel_fd_valid fd = leb kernel_fd_first fd && ltb fd kernel_fd_max

-- The flags for `vfs_open`; `none` where the descriptor's flags are refused.
pub vfs_flags : ℕ → Option ℕ
vfs_flags flags = do
  refuse (has flags fd_append && not (has flags fd_write))
  refuse (has flags fd_create && not (has flags fd_write))
  refuse (has flags fd_trunc && not (has flags fd_write))
  let bits = with_flag (has flags fd_trunc) vfs_open_trunc (
      with_flag (has flags fd_create) vfs_open_create (
        with_flag (has flags fd_append) vfs_open_append (
          with_flag (has flags fd_write) vfs_open_write
            (with_flag (has flags fd_read) vfs_open_read 0))))
  refuse (bits == 0)
  some bits

module _ {F : Type 0} where
  -- The loop over the table, over the descriptors that are left.
  pub find_slot : ℕ → ℕ → (ℕ → Option F) → Option ℕ
  find_slot zero fd table = none
  find_slot (suc rounds) fd table = elim (table fd) [
    | none ↦ some fd
    | some file ↦ find_slot rounds (fd + 1) table
  ]

  -- The open file of a descriptor.
  pub file_of : ℕ → (ℕ → Option F) → Option F
  file_of fd table = if kernel_fd_valid fd then table fd else none

module _ {P F B E V : Type 0} (os : Vfs P F B E V) where
  -- The open file gets a descriptor, or is closed again.
  pub open_file : F → (ℕ → Option F) → V → Option ℕ × (ℕ → Option F) × V
  open_file file table v =
      elim (find_slot (kernel_fd_max - kernel_fd_first) kernel_fd_first table) [
        | none ↦ (none, table, os.vfs_close file v)
        | some fd ↦ (some fd, update table fd (some file), v)
      ]

  pub opened : Option F × V → (ℕ → Option F) → Option ℕ × (ℕ → Option F) × V
  opened (none, v) table = (none, table, v)
  opened (some file, v) table = open_file file table v

  pub kernel_fd_open : P → ℕ → (ℕ → Option F) → V → Option ℕ × (ℕ → Option F) × V
  kernel_fd_open path flags table v = elim (vfs_flags flags) [
    | none ↦ (none, table, v)
    | some bits ↦ opened (os.vfs_open path bits v) table
  ]

  pub kernel_fd_read : ℕ → ℕ → (ℕ → Option F) → V → Option (B × ℕ) × V
  kernel_fd_read fd size table v = elim (file_of fd table) [
    | none ↦ (none, v)
    | some file ↦ os.vfs_read file size v
  ]

  pub kernel_fd_readdir : ℕ → (ℕ → Option F) → V → Option E × V
  kernel_fd_readdir fd table v = elim (file_of fd table) [
    | none ↦ (none, v)
    | some file ↦ os.vfs_readdir file v
  ]

  pub kernel_fd_write : ℕ → B → ℕ → (ℕ → Option F) → V → Option ℕ × V
  kernel_fd_write fd buffer size table v = elim (file_of fd table) [
    | none ↦ (none, v)
    | some file ↦ os.vfs_write file buffer size v
  ]

  pub kernel_fd_close : ℕ → (ℕ → Option F) → V → Bool × (ℕ → Option F) × V
  kernel_fd_close fd table v = elim (file_of fd table) [
    | none ↦ (false, table, v)
    | some file ↦ (true, update table fd none, os.vfs_close file v)
  ]

  -- The three values of `whence` are those of vfs.h.
  pub kernel_fd_seek : ℕ → ℕ → ℕ → (ℕ → Option F) → V → Option ℕ × V
  kernel_fd_seek fd offset whence table v = elim (file_of fd table) [
    | none ↦ (none, v)
    | some file ↦ if ltb 2 whence then (none, v) else os.vfs_seek file offset whence v
  ]
