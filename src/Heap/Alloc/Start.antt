-- ===== src/Heap/Alloc/Start.antt =====
-- `heap_initialize`: the heap that the kernel starts with.
use mathlib.Core.Path.{subst}
use meaty_skeleton.Prelude.{
  sym, ◌-◌, ◌*◌, ◌≡◌, ◌⊎◌, refl, inl, inr, Bool, true, false, none, [], ◌∷◌, arith, Bool-cases,
}
use meaty_skeleton.Pmm.{page_size}
use meaty_skeleton.Heap.{Heap, Pager, header, kernel_heap_start, heap_initial_pages}
use meaty_skeleton.Heap.Tiles.{IsHeap}
use meaty_skeleton.Heap.Alloc.{
  initialize_mapped, initialize_ensured, heap_initialize, ensure_from, heap_map_pages,
}

-- A heap of one free block over the first pages; or none, and the flag says so.
abbrev Starts : {K : Type 0} → Heap K → Type 0
Starts h =
    ((h.initialized ≡ true)
      × IsHeap h (kernel_heap_start ∷ [])
      × ((h.blocks kernel_heap_start).free ≡ true)
      × ((h.blocks kernel_heap_start).size ≡ heap_initial_pages * page_size - header))
    ⊎ (h.initialized ≡ false)

module _ {K : Type 0} where
  first_block-Starts :
      (h : Heap K) (r : Bool × K) → h.initialized ≡ false → Starts (initialize_mapped h r)
  unfolding initialize_mapped
  first_block-Starts h (false, k) e = inr e
  first_block-Starts h (true, k) e = inl (
    refl,
    record {
      in_order = record {
        distinct = (tt, tt);
        linked = (refl, refl, tt);
        at_head = refl;
        at_tail = refl;
      };
      tiles = (refl, refl, (omega arith, omega arith), omega arith);
      below = omega arith;
    },
    refl,
    refl,
  )

  module _ (os : Pager K) where
    ensured-Starts :
        (h : Heap K) (r : Bool × K) → h.initialized ≡ false → Starts (initialize_ensured os h r)
    unfolding initialize_ensured initialize_mapped
    ensured-Starts h (false, k) e = inr e
    ensured-Starts h (true, k) e =
        first_block-Starts (record h { pager = k })
          (heap_map_pages os kernel_heap_start heap_initial_pages k) e

    -- The heap is started, or still not initialized.
    heap_initialize-Starts :
        (h : Heap K)
        → ((h.initialized ≡ true) × (heap_initialize os h ≡ h))
          ⊎ ((h.initialized ≡ false) × Starts (heap_initialize os h))
    unfolding heap_initialize
    heap_initialize-Starts h = elim (Bool-cases h.initialized) [
      | inl e ↦ inl (e, simp (e, heap_initialize) refl)
      | inr e ↦ inr (
        e,
        subst Starts (sym (simp (e, heap_initialize) refl)) (
            ensured-Starts (record h { first = none; last = none; mapped_end = kernel_heap_start })
              (ensure_from os 64 kernel_heap_start h.pager) e),
      )
    ]
