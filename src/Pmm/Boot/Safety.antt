-- ===== src/Pmm/Boot/Safety.antt =====
-- What holds of the bitmap when `pmm_initialize` returns, and that it returns.
use Prim.Native.Nat.{bit_and}
use mathlib.Core.Path.{subst}
use meaty_skeleton.Prelude.{
  ℕ, zero, suc, ◌+◌, ◌-◌, ◌*◌, ◌%◌, ◌^◌, ◌≤◌, ◌<◌, ◌≡◌, inl, inr, refl, Bool, true, false, ◌||◌,
  arith, ltb, ◌==◌, Bool-cases, ltb→lt, ◌∙◌, sym, Option, none, some,
}
use meaty_skeleton.Pmm.{Pmm, Bitmap, page_size, frame_is_used, reserve_range}
use meaty_skeleton.Pmm.Marks.{IsBytes, is_used-ones}
use meaty_skeleton.Pmm.Ranges.{
  overlaps, within, is_used-reserve_range, is_used-release_range, reserve_range-IsBytes,
  release_range-IsBytes,
}
use meaty_skeleton.Pmm.Boot.{
  MmapEntry, BootMemory, multiboot_info_memory_map, multiboot_memory_available,
  sizeof_multiboot_info, region_end, is_released, release_entry, release_map, all_reserved,
  reserve_boot, finish_boot, pmm_initialize,
}

-- The addresses of the entries of the memory map from `start` up to `end`: an entry begins where
-- the one before it ends, its `size` and the four bytes that `size` does not count behind it.
pub data IsEntry (entry_at : ℕ → MmapEntry) (start end : ℕ) : ℕ → Type 0 where
  first_entry : start < end → IsEntry entry_at start end start
  next_entry :
      (a : ℕ)
      → IsEntry entry_at start end a
      → a + (entry_at a).size + 4 < end
      → IsEntry entry_at start end (a + (entry_at a).size + 4)

pub IsEntry-below :
    (entry_at : ℕ → MmapEntry) (start end a : ℕ) → IsEntry entry_at start end a → a < end
IsEntry-below entry_at start end a (first_entry l) = l
IsEntry-below entry_at start end a (next_entry b i l) = l

-- Some entry of the map that is marked available holds frame `g` whole.
abbrev pub Available : (ℕ → MmapEntry) → ℕ → ℕ → ℕ → Type 0
Available entry_at start end g =
    (a : ℕ) × IsEntry entry_at start end a
    × ((entry_at a).kind ≡ multiboot_memory_available)
    × ((entry_at a).address ≤ g * page_size)
    × (g * page_size + page_size ≤ (entry_at a).address + (entry_at a).length)

-- A bitmap that the loop may have reached: what is free is memory that the map offers.
record Offered (entry_at : ℕ → MmapEntry) (start end : ℕ) (pmm : Pmm) : Type 0 where
  bytes : IsBytes pmm.frame_bitmap
  free : (g : ℕ) → frame_is_used pmm.frame_bitmap g ≡ false → Available entry_at start end g

all_reserved-Offered :
    (entry_at : ℕ → MmapEntry) (start end : ℕ) → Offered entry_at start end all_reserved
all_reserved-Offered entry_at start end = record {
  bytes = λ i. omega arith;
  free = λ g h. cc (is_used-ones g);
}

-- A frame that the released part of an entry holds lies in that entry.
within-Available :
    (entry_at : ℕ → MmapEntry) (start end a g : ℕ)
    → IsEntry entry_at start end a
    → is_released (entry_at a) ≡ true
    → within
        ((entry_at a).address % 2 ^ 32)
        ((region_end (entry_at a) - (entry_at a).address) % 2 ^ 32)
        g
      ≡ true
    → Available entry_at start end g
within-Available entry_at start end a g i r w = (a, i, ground arith, ground arith, ground arith)

release_entry-Offered :
    (entry_at : ℕ → MmapEntry) (start end a : ℕ) (pmm : Pmm)
    → IsEntry entry_at start end a
    → Offered entry_at start end pmm
    → Offered entry_at start end (release_entry (entry_at a) pmm)
unfolding release_entry
release_entry-Offered entry_at start end a pmm i h = elim (Bool-cases (is_released (entry_at a))) [
  | inr n ↦ rw (n, release_entry) h
  | inl r ↦
      rw (r, release_entry)
        (record {
          bytes = release_range-IsBytes base length pmm.frame_bitmap h.bytes;
          free = λ g e. elim (Bool-cases (within base length g)) [
            | inl w ↦ within-Available entry_at start end a g i r w
            | inr o ↦
                h.free g
                  (ground (arith, is_used-release_range base length g pmm.frame_bitmap h.bytes))
          ];
        })
]
  where
    base : ℕ
    base = (entry_at a).address % 2 ^ 32

    length : ℕ
    length = (region_end (entry_at a) - (entry_at a).address) % 2 ^ 32

-- With four bytes of the map for each round the loop ends, if no step leaves the address space.
release_map-Offered :
    (fuel : ℕ) (entry_at : ℕ → MmapEntry) (start current end : ℕ) (pmm : Pmm)
    → end - current + 4 ≤ 4 * fuel
    → ((a : ℕ) → IsEntry entry_at start end a → a + (entry_at a).size + 4 < 2 ^ 32)
    → (current < end → IsEntry entry_at start end current)
    → Offered entry_at start end pmm
    → (pmm' : Pmm) × (release_map fuel entry_at current end pmm ≡ some pmm')
      × Offered entry_at start end pmm'
unfolding release_map
release_map-Offered zero entry_at start current end pmm f s i h = absurd (omega arith)
release_map-Offered (suc fuel) entry_at start current end pmm f s i h =
    elim (Bool-cases (ltb current end)) [
      | inl e ↦
          let l = ltb→lt _ _ e in
          let j = i l in
          let small = s current j in
          let step : (current + ((entry_at current).size + 4) % 2 ^ 32) % 2 ^ 32
              ≡ current + (entry_at current).size + 4 =
            omega (arith, small) in
          rw (e, release_map)
            (release_map-Offered fuel entry_at start
              ((current + ((entry_at current).size + 4) % 2 ^ 32) % 2 ^ 32) end
              (release_entry (entry_at current) pmm) (omega (arith, small, l)) s
              (λ m.
                subst (IsEntry entry_at start end) (sym step)
                  (next_entry current j (omega (arith, m, step))))
              (release_entry-Offered entry_at start end current pmm j h))
      | inr e ↦ rw (e, release_map) (pmm, refl, h)
    ]

-- What a frame that is free after the boot is not.
abbrev pub NotReserved : BootMemory → ℕ → ℕ → Type 0
NotReserved memory mbi g =
    (overlaps 0 0x100000 g ≡ false)
    × (overlaps memory.kernel_start ((memory.kernel_end + 2 ^ 32 - memory.kernel_start) % 2 ^ 32) g
        ≡ false)
    × (overlaps mbi sizeof_multiboot_info g ≡ false)
    × (overlaps (memory.mbi_at mbi).mmap_addr (memory.mbi_at mbi).mmap_lengh g ≡ false)

-- A frame that is free after a reservation was free before it, and is not reserved.
reserve_range-free :
    (base length g : ℕ) (bitmap : Bitmap)
    → IsBytes bitmap
    → frame_is_used (reserve_range base length bitmap) g ≡ false
    → (overlaps base length g ≡ false) × (frame_is_used bitmap g ≡ false)
reserve_range-free base length g bitmap h e =
    or_false _ _ (sym (is_used-reserve_range base length g bitmap h) ∙ e)
  where
    or_false : (a b : Bool) → (a || b) ≡ false → (a ≡ false) × (b ≡ false)
    or_false true b e = cc
    or_false false b e = (refl, e)

reserve_boot-NotReserved :
    (memory : BootMemory) (mbi g : ℕ) (bitmap : Bitmap)
    → IsBytes bitmap
    → frame_is_used (reserve_boot memory mbi bitmap) g ≡ false
    → NotReserved memory mbi g × (frame_is_used bitmap g ≡ false)
unfolding reserve_boot
reserve_boot-NotReserved memory mbi g bitmap h e =
    let h1 = reserve_range-IsBytes 0 0x100000 bitmap h in
    let h2 = reserve_range-IsBytes start length _ h1 in
    let h3 = reserve_range-IsBytes mbi sizeof_multiboot_info _ h2 in
    let f4 =
      reserve_range-free (memory.mbi_at mbi).mmap_addr (memory.mbi_at mbi).mmap_lengh g _ h3 e in
    let f3 = reserve_range-free mbi sizeof_multiboot_info g _ h2 f4.1 in
    let f2 = reserve_range-free start length g _ h1 f3.1 in
    let f1 = reserve_range-free 0 0x100000 g bitmap h f2.1 in ((f1.0, f2.0, f3.0, f4.0), f1.1)
  where
    start : ℕ
    start = memory.kernel_start

    length : ℕ
    length = (memory.kernel_end + 2 ^ 32 - memory.kernel_start) % 2 ^ 32

finish_boot-safe :
    (memory : BootMemory) (mbi start end : ℕ) (r : Option Pmm)
    → ((pmm : Pmm) × (r ≡ some pmm) × Offered memory.entry_at start end pmm)
    → (pmm : Pmm) × (finish_boot memory mbi r ≡ some pmm)
      × ((g : ℕ)
          → frame_is_used pmm.frame_bitmap g ≡ false
          → Available memory.entry_at start end g × NotReserved memory mbi g)
unfolding finish_boot
finish_boot-safe memory mbi start end none (pmm, e, h) = cc
finish_boot-safe memory mbi start end (some q) (pmm, e, h) = (
  record q { frame_bitmap = reserve_boot memory mbi q.frame_bitmap },
  refl,
  λ g f.
      let r = reserve_boot-NotReserved memory mbi g q.frame_bitmap o.bytes f in (o.free g r.1, r.0),
)
  where
    same : q ≡ pmm
    same = cc

    o : Offered memory.entry_at start end q
    o = subst (Offered memory.entry_at start end) (sym same) h

-- Where the memory map ends.
abbrev pub map_end : BootMemory → ℕ → ℕ
map_end memory mbi = ((memory.mbi_at mbi).mmap_addr + (memory.mbi_at mbi).mmap_lengh) % 2 ^ 32

-- `pmm_initialize` returns when no entry that the walk over the memory map reaches ends at or over
-- the end of the address space, within one round more than the map has words of four bytes; and
-- every frame that is free then lies whole in an entry that the walk reaches, from the first one
-- on by the sizes of the entries, and that is marked available, and shares no address with the
-- first MiB, the kernel's image, the Multiboot structure and the memory map.
pub pmm_initialize-safe :
    (memory : BootMemory) (mbi fuel : ℕ)
    → (memory.mbi_at mbi).mmap_lengh + 4 ≤ 4 * fuel
    → ((a : ℕ)
        → IsEntry memory.entry_at (memory.mbi_at mbi).mmap_addr (map_end memory mbi) a
        → a + (memory.entry_at a).size + 4 < 2 ^ 32)
    → (pmm : Pmm) × (pmm_initialize fuel memory mbi ≡ some pmm)
      × ((g : ℕ)
          → frame_is_used pmm.frame_bitmap g ≡ false
          → Available memory.entry_at (memory.mbi_at mbi).mmap_addr (map_end memory mbi) g
            × NotReserved memory mbi g)
unfolding pmm_initialize
pmm_initialize-safe memory mbi fuel f s =
    elim (Bool-cases (bit_and (memory.mbi_at mbi).flags multiboot_info_memory_map == 0)) [
      | inl e ↦ rw (e, pmm_initialize) (all_reserved, refl, λ g h. cc (is_used-ones g))
      | inr e ↦
          rw (e, pmm_initialize)
            (finish_boot-safe memory mbi _ _ _ (
              release_map-Offered fuel memory.entry_at (memory.mbi_at mbi).mmap_addr
                (memory.mbi_at mbi).mmap_addr (map_end memory mbi) all_reserved (omega arith) s
                first_entry
                (all_reserved-Offered memory.entry_at (memory.mbi_at mbi).mmap_addr
                  (map_end memory mbi))))
    ]
