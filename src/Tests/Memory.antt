-- ===== src/Tests/Memory.antt =====
-- The kernel's heap on a pager that counts the frames it gave.
use meaty_skeleton.Prelude.{
  ℕ, ◌+◌, ◌*◌, ◌-◌, refl, true, false, some, none, List, [], ◌∷◌, arith, ◌==◌, if◌then◌else◌,
}
use meaty_skeleton.Heap.{Blocks, Heap, Pager, zero_block, kfree, heap_block_magic}
use meaty_skeleton.Heap.Tiles.{IsHeap}
use meaty_skeleton.Heap.Free.{Frees, kfree-Frees}

abbrev counting : Pager ℕ
counting = record {
  pmm_allocate_frame = λ k. ((k + 1) * 4096, k + 1);
  pmm_free_frame = λ frame k. k - 1;
  paging_map_page = λ address frame k. (true, k);
  paging_unmap_page = λ address k. k - 1;
  paging_ensure_kernel_page_table = λ address k. (true, k);
}

-- One page: a block of 64 bytes in use, and a free one behind it.
abbrev two_blocks : Blocks
two_blocks a =
    if a == 0xD0000000
    then record {
      size = 64;
      previous = none;
      next = some 0xD0000060;
      magic = heap_block_magic;
      free = false;
    }
    else if a == 0xD0000060
    then record {
      size = 3968;
      previous = some 0xD0000000;
      next = none;
      magic = heap_block_magic;
      free = true;
    }
    else zero_block

abbrev one_page : Heap ℕ
one_page = record {
  blocks = two_blocks;
  bytes = λ a. 0;
  first = some 0xD0000000;
  last = some 0xD0000060;
  mapped_end = 0xD0001000;
  initialized = true;
  pager = 1;
}

abbrev two : List ℕ
two = 0xD0000000 ∷ 0xD0000060 ∷ []

one_page-IsHeap : IsHeap one_page two
one_page-IsHeap = record {
  in_order = record {
    distinct = (((λ e. omega arith), tt), (tt, tt));
    linked = (refl, refl, (refl, refl, tt));
    at_head = refl;
    at_tail = refl;
  };
  tiles = (
    refl,
    refl,
    (omega arith, omega arith),
    (omega arith, refl, (omega arith, omega arith), omega arith),
  );
  below = omega arith;
}

kfree_example : Frees 0xD0000000 one_page [] (0xD0000060 ∷ []) (kfree (some 0xD0000020) one_page)
kfree_example = kfree-Frees 0xD0000000 one_page [] (0xD0000060 ∷ []) one_page-IsHeap
