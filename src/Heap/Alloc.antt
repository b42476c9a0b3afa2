-- ===== src/Heap/Alloc.antt =====
-- The functions of kernel/kernel/memory/heap.c that map pages and give memory.
pub mod Take
pub mod Grow
pub mod Expand
pub mod Give
pub mod Start
use meaty_skeleton.Prelude.{
  ℕ, zero, suc, ◌+◌, ◌-◌, ◌*◌, ◌/◌, ◌%◌, ◌^◌, Bool, true, false, ◌&&◌, ◌||◌, not, Option, none,
  some, ltb, leb, ◌==◌, if◌then◌else◌, update,
}
use meaty_skeleton.Pmm.{page_size}
use meaty_skeleton.Heap.{
  HeapBlock, Blocks, Heap, Pager, header, kernel_heap_start, kernel_heap_limit, heap_initial_pages,
  heap_minimum_expansion, heap_alignment, heap_block_magic, size_max, set_size, set_next, set_free,
  align_up_size, pages_for_size, zero_block, clear_blocks, clear_bytes, copy_bytes, find_free_block,
  heap_split_block, heap_merge_with_next, heap_block_from_pointer, kfree, in_range,
}

-- A free block of this size at `start`, behind the block `previous`.
abbrev pub fresh_block : ℕ → Option ℕ → HeapBlock
fresh_block size previous = record {
  size = size;
  previous = previous;
  next = none;
  magic = heap_block_magic;
  free = true;
}

-- The pages that `heap_expand` asks for; `none` is an overflow.
pub expansion_pages : ℕ → Option ℕ
expansion_pages minimum_payload =
    if ltb (size_max - header) minimum_payload
    then none
    else let pages = pages_for_size (header + minimum_payload) in
      if pages == 0
      then none
      else let count = if ltb pages heap_minimum_expansion then heap_minimum_expansion else pages in
        if ltb (size_max / page_size) count then none else some count

module _ {K : Type 0} where
  -- The mapped memory `[start, start + size)` joins the heap.
  pub grow : ℕ → ℕ → Heap K → Heap K
  grow start size h =
      let cleared = record h {
        blocks = clear_blocks start size h.blocks;
        bytes = clear_bytes start size h.bytes;
        mapped_end = (h.mapped_end + size) % 2 ^ 32;
      } in
      let made = update cleared.blocks start (fresh_block (size - header) h.last) in
      elim h.last [
        | none ↦ record cleared { blocks = made; first = some start; last = some start }
        | some l ↦
            if (cleared.blocks l).free
            then record cleared {
              blocks = set_size l (((cleared.blocks l).size + size) % 2 ^ 32) cleared.blocks;
            }
            else record cleared { blocks = set_next l (some start) made; last = some start }
      ]

  pub expand_mapped : ℕ → Heap K → Bool × K → Bool × Heap K
  expand_mapped size h (false, k) = (false, record h { pager = k })
  expand_mapped size h (true, k) = (true, grow h.mapped_end size (record h { pager = k }))

  -- The end of `heap_allocate_unlocked`: the block that was found is cut to size and taken.
  pub take_block : ℕ → ℕ → Heap K → Option ℕ × Heap K
  take_block b aligned_size h =
      let h' = heap_split_block b aligned_size h in
      (some (b + header), record h' { blocks = set_free b false h'.blocks })

  -- After an expansion the search is made again.
  pub allocate_expanded : ℕ → ℕ → Bool × Heap K → Option (Option ℕ × Heap K)
  allocate_expanded fuel aligned_size (false, h) = some (none, h)
  allocate_expanded fuel aligned_size (true, h) =
      elim (find_free_block fuel h.blocks aligned_size h.first) [
        | none ↦ none
        | some none ↦ some (none, h)
        | some (some b) ↦ some (take_block b aligned_size h)
      ]

  -- The memory that `kcalloc` got is cleared.
  pub zeroed : ℕ → Option (Option ℕ × Heap K) → Option (Option ℕ × Heap K)
  zeroed size none = none
  zeroed size (some (none, h)) = some (none, h)
  zeroed size (some (some pointer, h)) =
      some (some pointer, record h { bytes = clear_bytes pointer size h.bytes })

  -- The last resort of `krealloc`: the bytes move to another block.
  pub moved : ℕ → ℕ → ℕ → Option (Option ℕ × Heap K) → Option (Option ℕ × Heap K)
  moved b pointer new_size none = none
  moved b pointer new_size (some (none, h)) = some (none, h)
  moved b pointer new_size (some (some replacement, h)) =
      let count = if ltb (h.blocks b).size new_size then (h.blocks b).size else new_size in
      some (
        some replacement,
        kfree (some pointer) (record h { bytes = copy_bytes replacement pointer count h.bytes }),
      )

  -- The sum of the two sizes where the block takes its free neighbour in.
  pub combined_size : ℕ → ℕ → Heap K → ℕ
  combined_size b n h = ((h.blocks b).size + header + (h.blocks n).size) % 2 ^ 32

  -- The block takes its neighbour in, and is cut to size.
  pub merged : ℕ → ℕ → ℕ → Heap K → Option ℕ × Heap K
  merged b pointer aligned_size h =
      let h' = heap_split_block b aligned_size (heap_merge_with_next b h) in
      (some pointer, record h' { blocks = set_free b false h'.blocks })

  -- The first block, in the pages that were mapped.
  pub initialize_mapped : Heap K → Bool × K → Heap K
  initialize_mapped h (false, k) = record h { pager = k }
  initialize_mapped h (true, k) =
      let size = heap_initial_pages * page_size in
      record {
        blocks =
            update (clear_blocks kernel_heap_start size h.blocks) kernel_heap_start
              (fresh_block (size - header) none);
        bytes = clear_bytes kernel_heap_start size h.bytes;
        first = some kernel_heap_start;
        last = some kernel_heap_start;
        mapped_end = kernel_heap_start + size;
        initialized = true;
        pager = k;
      }

module _ {K : Type 0} (os : Pager K) where
  -- `for (; mapped_pages < page_count; ++mapped_pages)`, over the rounds that are left: the pages
  -- that were mapped.
  pub map_from : ℕ → ℕ → ℕ → K → ℕ × K
  map_from zero mapped start k = (mapped, k)
  map_from (suc rounds) mapped start k =
      let (frame, k1) = os.pmm_allocate_frame k in
      elim (frame == 0) [
        | true ↦ (mapped, k1)
        | false ↦
            let (ok, k2) = os.paging_map_page ((start + mapped * page_size) % 2 ^ 32) frame k1 in
            elim ok [
              | true ↦ map_from rounds (mapped + 1) start k2
              | false ↦ (mapped, os.pmm_free_frame frame k2)
            ]
      ]

  -- The rollback of the pages from `i` on.
  pub unmap_from : ℕ → ℕ → ℕ → K → K
  unmap_from zero i start k = k
  unmap_from (suc rounds) i start k =
      unmap_from rounds (i + 1) start (os.paging_unmap_page ((start + i * page_size) % 2 ^ 32) k)

  pub heap_map_pages : ℕ → ℕ → K → Bool × K
  heap_map_pages start page_count k =
      let (mapped, k') = map_from page_count 0 start k in
      if mapped == page_count then (true, k') else (false, unmap_from mapped 0 start k')

  pub heap_expand : ℕ → Heap K → Bool × Heap K
  heap_expand minimum_payload h = elim (expansion_pages minimum_payload) [
    | none ↦ (false, h)
    | some count ↦
        if ltb kernel_heap_limit h.mapped_end
        then (false, h)
        else if ltb (kernel_heap_limit - h.mapped_end) (count * page_size)
        then (false, h)
        else expand_mapped (count * page_size) h (heap_map_pages h.mapped_end count h.pager)
  ]

  -- `none` means that a search met its bound; the pointer `none` is NULL.
  pub heap_allocate : ℕ → ℕ → Heap K → Option (Option ℕ × Heap K)
  heap_allocate fuel size h =
      if not h.initialized
      then some (none, h)
      else if size == 0
      then some (none, h)
      else let aligned_size = align_up_size size heap_alignment in
        if aligned_size == 0
        then some (none, h)
        else elim (find_free_block fuel h.blocks aligned_size h.first) [
          | none ↦ none
          | some none ↦ allocate_expanded fuel aligned_size (heap_expand aligned_size h)
          | some (some b) ↦ some (take_block b aligned_size h)
        ]

  pub kmalloc : ℕ → ℕ → Heap K → Option (Option ℕ × Heap K)
  kmalloc fuel size h = if size == 0 then some (none, h) else heap_allocate fuel size h

  pub kcalloc : ℕ → ℕ → ℕ → Heap K → Option (Option ℕ × Heap K)
  kcalloc fuel count size h =
      if count == 0 || size == 0
      then some (none, h)
      else if ltb (size_max / size) count
      then some (none, h)
      else zeroed (count * size % 2 ^ 32) (kmalloc fuel (count * size % 2 ^ 32) h)

  pub reallocate_block : ℕ → ℕ → ℕ → ℕ → ℕ → Heap K → Option (Option ℕ × Heap K)
  reallocate_block fuel b pointer new_size aligned_size h =
      let move = moved b pointer new_size (heap_allocate fuel new_size h) in
      if leb aligned_size (h.blocks b).size
      then some (some pointer, heap_split_block b aligned_size h)
      else elim (h.blocks b).next [
        | none ↦ move
        | some n ↦
            if (h.blocks n).free && leb aligned_size (combined_size b n h)
            then some (merged b pointer aligned_size h)
            else move
      ]

  pub krealloc : ℕ → Option ℕ → ℕ → Heap K → Option (Option ℕ × Heap K)
  krealloc fuel none new_size h = heap_allocate fuel new_size h
  krealloc fuel (some pointer) new_size h =
      if new_size == 0
      then some (none, kfree (some pointer) h)
      else elim (heap_block_from_pointer pointer h) [
        | none ↦ some (none, h)
        | some b ↦
            if (h.blocks b).free
            then some (none, h)
            else let aligned_size = align_up_size new_size heap_alignment in
              if aligned_size == 0
              then some (none, h)
              else reallocate_block fuel b pointer new_size aligned_size h
      ]

  -- The loop over the page tables of the heap's 256 MiB, 4 MiB a round.
  pub ensure_from : ℕ → ℕ → K → Bool × K
  ensure_from zero address k = (true, k)
  ensure_from (suc rounds) address k = elim (ltb address kernel_heap_limit) [
    | false ↦ (true, k)
    | true ↦
        let (ok, k') = os.paging_ensure_kernel_page_table address k in
        elim ok [
          | true ↦ ensure_from rounds ((address + page_size * 1024) % 2 ^ 32) k'
          | false ↦ (false, k')
        ]
  ]

  pub initialize_ensured : Heap K → Bool × K → Heap K
  initialize_ensured h (false, k) = record h { pager = k }
  initialize_ensured h (true, k) =
      initialize_mapped h (heap_map_pages kernel_heap_start heap_initial_pages k)

  pub heap_initialize : Heap K → Heap K
  heap_initialize h =
      if h.initialized
      then h
      else initialize_ensured
          (record h { first = none; last = none; mapped_end = kernel_heap_start })
          (ensure_from 64 kernel_heap_start h.pager)
