-- ===== src/Tests/Users.antt =====
-- A user program with one page to write to, and one to read.
use meaty_skeleton.Prelude.{ℕ, Option, some, none, ◌==◌, if◌then◌else◌}

abbrev two_pages : ℕ → Option ℕ
two_pages page = if page == 0x400000 then some 7 else if page == 0x401000 then some 5 else none
