-- ===== src/Fd/Open.antt =====
-- `kernel_fd_open` and `kernel_fd_close`: which descriptor a file gets, and when it is closed.
use mathlib.Core.Path.{fun_ext, subst}
use meaty_skeleton.Prelude.{
  ℕ, zero, suc, ◌+◌, ◌≤◌, ◌<◌, ◌≡◌, ◌≢◌, ◌⊎◌, refl, ◌∙◌, ap, inl, inr, true, ◌&&◌, Option, none,
  some, ltb, leb, ◌==◌, update, arith, Option-cases, Bool-cases,
}
use meaty_skeleton.Fd.{
  kernel_fd_first, kernel_fd_max, Vfs, kernel_fd_valid, vfs_flags, find_slot, file_of, open_file,
  opened, kernel_fd_open, kernel_fd_close,
}

-- A descriptor between `low` and `high` that is free, where no lower one from `low` on is.
pub record LowestFree {F : Type 0} (table : ℕ → Option F) (low high fd : ℕ) : Type 0 where
  pub free : table fd ≡ none
  pub from : low ≤ fd
  pub below : fd < high
  pub lowest : (k : ℕ) → low ≤ k → k < fd → table k ≢ none

abbrev pub Slot : {F : Type 0} → (ℕ → Option F) → ℕ → ℕ → Option ℕ → Type 0
Slot table low high none = (k : ℕ) → low ≤ k → k < high → table k ≢ none
Slot table low high (some fd) = LowestFree table low high fd

used_ne : {F : Type 0} (o : Option F) (f : F) → o ≡ some f → o ≢ none
used_ne o f e n = ground arith

Slot-next :
    {F : Type 0} (table : ℕ → Option F) (low high : ℕ) (f : F) (r : Option ℕ)
    → table low ≡ some f
    → Slot table (low + 1) high r
    → Slot table low high r
Slot-next table low high f none e s = λ k l h. elim (Bool-cases (k == low)) [
  | inl q ↦ used_ne (table k) f (ap table (ground arith) ∙ e)
  | inr q ↦ s k (ground arith) h
]
Slot-next table low high f (some fd) e s = record {
  free = s.free;
  from = omega arith;
  below = s.below;
  lowest = λ k l h. elim (Bool-cases (k == low)) [
    | inl q ↦ used_ne (table k) f (ap table (ground arith) ∙ e)
    | inr q ↦ s.lowest k (ground arith) h
  ];
}

find_slot-Slot :
    {F : Type 0} (rounds low : ℕ) (table : ℕ → Option F)
    → Slot table low (low + rounds) (find_slot rounds low table)
unfolding find_slot
find_slot-Slot zero low table = λ k l h n. omega arith
find_slot-Slot (suc rounds) low table = elim (Option-cases (table low)) [
  | inl e ↦
      rw (e, find_slot)
        (record {
          free = e;
          from = omega arith;
          below = omega arith;
          lowest = λ k l h n. omega arith;
        })
  | inr (f, e) ↦
      let up : low + 1 + rounds ≡ low + suc rounds = omega arith in
      rw (e, find_slot)
        (subst (λ h. Slot table low h (find_slot rounds (low + 1) table)) up
          (Slot-next table low (low + 1 + rounds) f (find_slot rounds (low + 1) table) e
            (find_slot-Slot rounds (low + 1) table)))
]

module _ {P F B E V : Type 0} (os : Vfs P F B E V) where
  -- What becomes of a file that the file system opened: it gets the lowest free descriptor, which
  -- closes it, or all descriptors are in use and it is closed at once.
  abbrev pub Placed : F → (ℕ → Option F) → V → Option ℕ × (ℕ → Option F) × V → Type 0
  Placed file table v r =
      (((k : ℕ) → kernel_fd_first ≤ k → k < kernel_fd_max → table k ≢ none)
        × (r ≡ (none, table, os.vfs_close file v)))
      ⊎ ((fd : ℕ) × LowestFree table kernel_fd_first kernel_fd_max fd
          × (r ≡ (some fd, update table fd (some file), v))
          × (kernel_fd_close os fd (update table fd (some file)) v
              ≡ (true, table, os.vfs_close file v)))

  -- What an open leads to, by the flags and by what the file system answers.
  abbrev pub Opens : P → ℕ → (ℕ → Option F) → V → Option ℕ × (ℕ → Option F) × V → Type 0
  Opens path flags table v r =
      ((vfs_flags flags ≡ none) × (r ≡ (none, table, v)))
      ⊎ ((bits : ℕ) × (vfs_flags flags ≡ some bits)
          × ((((os.vfs_open path bits v).0 ≡ none)
                × (r ≡ (none, table, (os.vfs_open path bits v).1)))
              ⊎ ((file : F) × ((os.vfs_open path bits v).0 ≡ some file)
                  × Placed file table (os.vfs_open path bits v).1 r)))

  restored :
      (table : ℕ → Option F) (fd : ℕ) (file : Option F)
      → table fd ≡ none
      → update (update table fd file) fd none ≡ table
  restored table fd file e = fun_ext (λ k. ground arith)

  close-open :
      (fd : ℕ) (file : F) (table : ℕ → Option F) (v : V)
      → LowestFree table kernel_fd_first kernel_fd_max fd
      → kernel_fd_close os fd (update table fd (some file)) v ≡ (true, table, os.vfs_close file v)
  unfolding kernel_fd_close file_of kernel_fd_valid
  close-open fd file table v s =
      let valid : (leb 3 fd && ltb fd 64) ≡ true = ground arith in
      let same : (fd == fd) ≡ true = ground arith in
      simp (valid, same, kernel_fd_close, file_of, kernel_fd_valid)
        (ap (λ t. (true, t, os.vfs_close file v)) (restored table fd (some file) s.free))

  open_file-Placed :
      (file : F) (table : ℕ → Option F) (v : V) → Placed file table v (open_file os file table v)
  unfolding open_file
  open_file-Placed file table v = placed (find_slot 61 3 table) refl (find_slot-Slot 61 3 table)
    where
      placed :
          (r : Option ℕ)
          → find_slot 61 3 table ≡ r
          → Slot table 3 64 r
          → Placed file table v (open_file os file table v)
      placed none e s = inl (s, simp (e, open_file) refl)
      placed (some fd) e s = inr (fd, s, simp (e, open_file) refl, close-open fd file table v s)

  opened-file :
      (r : Option F × V) (table : ℕ → Option F)
      → ((r.0 ≡ none) × (opened os r table ≡ (none, table, r.1)))
        ⊎ ((file : F) × (r.0 ≡ some file) × Placed file table r.1 (opened os r table))
  unfolding opened
  opened-file (none, v) table = inl (refl, refl)
  opened-file (some file, v) table = inr (file, refl, open_file-Placed file table v)

  -- `kernel_fd_open` returns -1 and changes nothing where the flags are refused, and -1 with the
  -- table as it was where `vfs_open` fails. Otherwise the file that was opened gets the lowest free
  -- descriptor from 3 to 63, and `kernel_fd_close` of that descriptor, called next, succeeds, closes
  -- the file and leaves the table as it was before the open; or every descriptor is in use, the file
  -- is closed again, the table is as before, and the result is -1.
  pub kernel_fd_open-Opens :
      (path : P) (flags : ℕ) (table : ℕ → Option F) (v : V)
      → Opens path flags table v (kernel_fd_open os path flags table v)
  unfolding kernel_fd_open
  kernel_fd_open-Opens path flags table v = elim (Option-cases (vfs_flags flags)) [
    | inl e ↦ inl (e, simp (e, kernel_fd_open) refl)
    | inr (bits, e) ↦
        inr (bits, e, rw (e, kernel_fd_open) (opened-file (os.vfs_open path bits v) table))
  ]
