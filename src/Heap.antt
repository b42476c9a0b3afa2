-- ===== src/Heap.antt =====
-- kernel/kernel/memory/heap.c: the kernel's heap, blocks in one list that tile the mapped memory.
-- The headers of blocks are a store from addresses to records, and the bytes between them a store
-- of their own. `heap_lock` makes each function one step. `size_t` and addresses have 32 bits.
pub mod Alloc
pub mod Tiles
pub mod Split
pub mod Merge
pub mod Free
use meaty_skeleton.Prelude.{
  ℕ, zero, suc, ◌+◌, ◌-◌, ◌*◌, ◌/◌, ◌%◌, ◌^◌, Bool, true, false, ◌&&◌, ◌||◌, not, Option, none,
  some, ltb, leb, ◌==◌, if◌then◌else◌, update,
}
use meaty_skeleton.Pmm.{page_size}

-- `heap_block_t`.
pub record HeapBlock : Type 0 where
  pub size : ℕ
  pub previous : Option ℕ
  pub next : Option ℕ
  pub magic : ℕ
  pub free : Bool

abbrev pub Blocks : Type 0
Blocks = ℕ → HeapBlock

-- 17 bytes, aligned to 16.
abbrev pub header : ℕ
header = 32

abbrev pub kernel_heap_start : ℕ
kernel_heap_start = 0xD0000000

abbrev pub kernel_heap_limit : ℕ
kernel_heap_limit = 0xE0000000

abbrev pub heap_initial_pages : ℕ
heap_initial_pages = 4

abbrev pub heap_minimum_expansion : ℕ
heap_minimum_expansion = 4

abbrev pub heap_alignment : ℕ
heap_alignment = 16

abbrev pub heap_block_magic : ℕ
heap_block_magic = 0x48454150

abbrev pub size_max : ℕ
size_max = 2 ^ 32 - 1

-- What the heap calls of pmm.c and paging.c, on a state of their own. The results that
-- `paging_unmap_page` returns are ignored.
pub record Pager (K : Type 0) : Type 0 where
  pub pmm_allocate_frame : K → ℕ × K
  pub pmm_free_frame : ℕ → K → K
  pub paging_map_page : ℕ → ℕ → K → Bool × K
  pub paging_unmap_page : ℕ → K → K
  pub paging_ensure_kernel_page_table : ℕ → K → Bool × K

-- The static variables of the file, with the memory of the heap.
pub record Heap (K : Type 0) : Type 0 where
  pub blocks : Blocks
  pub bytes : ℕ → ℕ
  pub first : Option ℕ
  pub last : Option ℕ
  pub mapped_end : ℕ
  pub initialized : Bool
  pub pager : K

-- `block->field = value`.
abbrev pub set_size : ℕ → ℕ → Blocks → Blocks
set_size b v blocks = update blocks b (record (blocks b) { size = v })

abbrev pub set_previous : ℕ → Option ℕ → Blocks → Blocks
set_previous b v blocks = update blocks b (record (blocks b) { previous = v })

abbrev pub set_next : ℕ → Option ℕ → Blocks → Blocks
set_next b v blocks = update blocks b (record (blocks b) { next = v })

abbrev pub set_free : ℕ → Bool → Blocks → Blocks
set_free b v blocks = update blocks b (record (blocks b) { free = v })

-- `alignment` is a power of two.
pub align_up_size : ℕ → ℕ → ℕ
align_up_size value alignment =
    if ltb (size_max - (alignment - 1)) value
    then 0
    else (value + (alignment - 1)) / alignment * alignment

pub pages_for_size : ℕ → ℕ
pages_for_size size =
    if ltb (size_max - (page_size - 1)) size then 0 else (size + page_size - 1) / page_size

-- `memset(start, 0, size)` over headers, and over bytes.
abbrev pub zero_block : HeapBlock
zero_block = record { size = 0; previous = none; next = none; magic = 0; free = false }

abbrev pub in_range : ℕ → ℕ → ℕ → Bool
in_range start size a = leb start a && ltb a (start + size)

abbrev pub clear_blocks : ℕ → ℕ → Blocks → Blocks
clear_blocks start size blocks a = if in_range start size a then zero_block else blocks a

abbrev pub clear_bytes : ℕ → ℕ → (ℕ → ℕ) → ℕ → ℕ
clear_bytes start size bytes a = if in_range start size a then 0 else bytes a

-- `memcpy(to, from, size)`.
abbrev pub copy_bytes : ℕ → ℕ → ℕ → (ℕ → ℕ) → ℕ → ℕ
copy_bytes to from size bytes a = if in_range to size a then bytes (from + (a - to)) else bytes a

-- The loop of `heap_find_free_block`, with a bound on the rounds: the outer `none` means that the
-- bound was met.
pub find_free_block : ℕ → Blocks → ℕ → Option ℕ → Option (Option ℕ)
find_free_block zero blocks requested current = none
find_free_block (suc fuel) blocks requested none = some none
find_free_block (suc fuel) blocks requested (some b) =
    elim ((blocks b).free && leb requested (blocks b).size) [
      | true ↦ some (some b)
      | false ↦ find_free_block fuel blocks requested (blocks b).next
    ]

module _ {K : Type 0} where
  -- The writes of a split that is made: the new block lies at `n`.
  pub write_split : ℕ → ℕ → ℕ → Heap K → Heap K
  write_split b requested n h =
      let next = (h.blocks b).next in
      let made = update h.blocks n (record {
        size = ((h.blocks b).size - requested) - header;
        previous = some b;
        next = next;
        magic = heap_block_magic;
        free = true;
      }) in
      elim next [
        | some m ↦ record h {
          blocks = set_next b (some n) (set_size b requested (set_previous m (some n) made));
        }
        | none ↦ record h {
          blocks = set_next b (some n) (set_size b requested made);
          last = some n;
        }
      ]

  pub heap_split_block : ℕ → ℕ → Heap K → Heap K
  heap_split_block b requested h =
      if ltb (h.blocks b).size requested
      then h
      else if ltb ((h.blocks b).size - requested) (header + heap_alignment)
      then h
      else write_split b requested ((b + header + requested) % 2 ^ 32) h

  -- The writes of a merge that is made, with the next block `n`.
  pub write_merge : ℕ → ℕ → Heap K → Heap K
  write_merge b n h =
      let after = (h.blocks n).next in
      let grown =
        set_next b after
          (set_size b (((h.blocks b).size + header + (h.blocks n).size) % 2 ^ 32) h.blocks) in
      elim after [
        | some m ↦ record h { blocks = update (set_previous m (some b) grown) n zero_block }
        | none ↦ record h { blocks = update grown n zero_block; last = some b }
      ]

  pub heap_merge_with_next : ℕ → Heap K → Heap K
  heap_merge_with_next b h = elim (h.blocks b).next [
    | none ↦ h
    | some n ↦
        if not (h.blocks n).free
        then h
        else if not (n == (b + header + (h.blocks b).size) % 2 ^ 32)
        then h
        else write_merge b n h
  ]

  pub heap_pointer_is_inside : ℕ → Heap K → Bool
  heap_pointer_is_inside address h = leb kernel_heap_start address && ltb address h.mapped_end

  -- `heap_block_from_pointer`, for a pointer that is not NULL.
  pub heap_block_from_pointer : ℕ → Heap K → Option ℕ
  heap_block_from_pointer pointer h =
      if not (heap_pointer_is_inside pointer h)
      then none
      else if ltb pointer (kernel_heap_start + header)
      then none
      else if not (heap_pointer_is_inside (pointer - header) h)
      then none
      else if not ((h.blocks (pointer - header)).magic == heap_block_magic)
      then none
      else some (pointer - header)

  -- The end of `heap_free_unlocked`: the block before takes the freed one in.
  pub merge_previous : ℕ → Heap K → Heap K
  merge_previous b h = elim (h.blocks b).previous [
    | none ↦ h
    | some p ↦ if (h.blocks p).free then heap_merge_with_next p h else h
  ]

  pub free_block : ℕ → Heap K → Heap K
  free_block b h =
      if (h.blocks b).free
      then h
      else merge_previous b
          (heap_merge_with_next b (record h { blocks = set_free b true h.blocks }))

  -- NULL is `none`.
  pub kfree : Option ℕ → Heap K → Heap K
  kfree none h = h
  kfree (some pointer) h = elim (heap_block_from_pointer pointer h) [
    | none ↦ h
    | some b ↦ free_block b h
  ]
