-- ===== src/Tests/Files.antt =====
-- The descriptors on a file system that numbers its open files.
use meaty_skeleton.Prelude.{ℕ, ◌+◌, ◌-◌, Option, none, some, ◌==◌, if◌then◌else◌}
use meaty_skeleton.Fd.{Vfs, kernel_fd_open}
use meaty_skeleton.Fd.Open.{Opens, kernel_fd_open-Opens}

abbrev numbering : Vfs ℕ ℕ ℕ ℕ ℕ
numbering = record {
  vfs_open = λ path flags v. (some v, v + 1);
  vfs_close = λ file v. v - 1;
  vfs_read = λ file size v. (some (file, size), v);
  vfs_write = λ file b size v. (some size, v);
  vfs_readdir = λ file v. (none, v);
  vfs_seek = λ file offset whence v. (some offset, v);
}

-- Descriptor 3 is taken.
abbrev a_table : ℕ → Option ℕ
a_table fd = if fd == 3 then some 9 else none

open_example : Opens numbering 7 3 a_table 10 (kernel_fd_open numbering 7 3 a_table 10)
open_example = kernel_fd_open-Opens numbering 7 3 a_table 10
