-- ===== src/Heap/Alloc/Grow.antt =====
-- `heap_expand`: newly mapped memory joins the heap as a free block, or as part of the last one.
use mathlib.Core.List.{append-nil}
use meaty_skeleton.Prelude.{
  ℕ, ◌+◌, ◌-◌, ◌%◌, ◌^◌, ◌≤◌, ◌<◌, ◌≡◌, ◌≢◌, refl, sym, ◌∙◌, inl, inr, Bool, true, false, Option,
  none, some, List, [], ◌∷◌, ◌++◌, arith, length, length-append, Option-cases,
}
use meaty_skeleton.Links.{
  first_or, last_or, Fresh, Agree, Inserted, IsQueue-insert, Seg-frame, nil_of_last,
  first_or-append, last_or-append, first_or_of_last, last_or-ne,
}
use meaty_skeleton.Heap.{
  Blocks, Heap, header, heap_block_magic, kernel_heap_start, kernel_heap_limit, clear_blocks,
  set_size,
}
use meaty_skeleton.Heap.Tiles.{
  IsPayload, Tiles, Linked, IsHeap, in_use, in_use-append, Tiles-le, Tiles-frame, in_use-frame,
  Fresh-above, Tiles-append,
}
use meaty_skeleton.Heap.Alloc.{grow}

-- Two stores that agree on the tiled memory agree on its blocks.
Agree-of_Tiles :
    (blocks : Blocks) (f g : ℕ → Option ℕ) (start end : ℕ) (xs : List ℕ)
    → ((y : ℕ) → start ≤ y → y < end → g y ≡ f y)
    → Tiles blocks start end xs
    → Agree f g xs
Agree-of_Tiles blocks f g start end [] h t = tt
Agree-of_Tiles blocks f g start end (x ∷ xs) h t =
    let l = Tiles-le blocks (start + header + (blocks x).size) end xs t.3 in
    (
      h x (omega arith) (omega arith),
      Agree-of_Tiles blocks f g (start + header + (blocks x).size) end xs
          (λ y p q. h y (omega arith) q) t.3,
    )

-- Memory behind the heap is cleared.
pub clear-Linked :
    {K : Type 0} (size : ℕ) (h : Heap K) (xs : List ℕ)
    → IsHeap h xs
    → Linked (clear_blocks h.mapped_end size h.blocks) h.first h.last xs
clear-Linked size h xs i = record {
  distinct = i.in_order.distinct;
  linked =
      Seg-frame (λ a. (h.blocks a).next) (λ a. (h.blocks a).previous)
        (λ a. (clear_blocks h.mapped_end size h.blocks a).next)
        (λ a. (clear_blocks h.mapped_end size h.blocks a).previous) none none xs
        (Agree-of_Tiles h.blocks _ _ kernel_heap_start h.mapped_end xs (λ y p q. ground arith)
          i.tiles)
        (Agree-of_Tiles h.blocks _ _ kernel_heap_start h.mapped_end xs (λ y p q. ground arith)
          i.tiles)
        i.in_order.linked;
  at_head = i.in_order.at_head;
  at_tail = i.in_order.at_tail;
}

-- The two ways to grow.
abbrev pub extends : {K : Type 0} → ℕ → Heap K → Bool
extends size h = elim h.last [
  | none ↦ false
  | some l ↦ (clear_blocks h.mapped_end size h.blocks l).free
]

module _ {K : Type 0} (size : ℕ) (h : Heap K) where
  pub grow_end : (grow h.mapped_end size h).mapped_end ≡ (h.mapped_end + size) % 2 ^ 32
  unfolding grow
  grow_end = ground arith

  grow-Inserted :
      (xs : List ℕ)
      → extends size h ≡ false
      → h.last ≡ last_or none xs
      → Fresh h.mapped_end xs
      → Inserted
          (λ a. (clear_blocks h.mapped_end size h.blocks a).next)
          (λ a. (clear_blocks h.mapped_end size h.blocks a).previous)
          (λ a. ((grow h.mapped_end size h).blocks a).next)
          (λ a. ((grow h.mapped_end size h).blocks a).previous)
          h.mapped_end
          xs
          []
  unfolding grow
  grow-Inserted xs e l f = record {
    after_last = λ y i. ground arith;
    before_first = λ y i. cc;
    self_next = ground (arith, last_or-ne h.mapped_end none xs f);
    self_previous = ground (arith);
    other_next = λ y i j. ground arith;
    other_previous = λ y i j. ground arith;
  }

  grow_ends :
      (xs : List ℕ)
      → extends size h ≡ false
      → h.first ≡ first_or none xs
      → h.last ≡ last_or none xs
      → ((grow h.mapped_end size h).first ≡ first_or none (xs ++ h.mapped_end ∷ []))
        × ((grow h.mapped_end size h).last ≡ last_or none (xs ++ h.mapped_end ∷ []))
  unfolding grow
  grow_ends xs e f l = elim (Option-cases h.last) [
    | inl n ↦ rw (nil_of_last xs (sym l ∙ n)) (ground arith, ground arith)
    | inr (m, s) ↦ (
      ground (
        arith,
        first_or-append none xs (h.mapped_end ∷ []),
        first_or_of_last (some h.mapped_end) m xs (sym l ∙ s),
        first_or_of_last none m xs (sym l ∙ s),
      ),
      ground (arith, last_or-append none xs (h.mapped_end ∷ [])),
    )
  ]

  -- The blocks of the heap stay as they are.
  grow_old :
      (y : ℕ)
      → extends size h ≡ false
      → y < h.mapped_end
      → (((grow h.mapped_end size h).blocks y).size ≡ (h.blocks y).size)
        × (((grow h.mapped_end size h).blocks y).magic ≡ (h.blocks y).magic)
        × (((grow h.mapped_end size h).blocks y).free ≡ (h.blocks y).free)
  unfolding grow
  grow_old y e l = (ground arith, ground arith, ground arith)

  grow_new :
      extends size h ≡ false
      → h.last ≢ some h.mapped_end
      → (((grow h.mapped_end size h).blocks h.mapped_end).size ≡ size - header)
        × (((grow h.mapped_end size h).blocks h.mapped_end).magic ≡ heap_block_magic)
        × (((grow h.mapped_end size h).blocks h.mapped_end).free ≡ true)
  unfolding grow
  grow_new e l = (ground arith, ground arith, ground arith)

  -- The last block takes the new memory in.
  pub grow_more :
      (l : ℕ)
      → h.last ≡ some l
      → extends size h ≡ true
      → (grow h.mapped_end size h).blocks
        ≡ set_size l
            (((clear_blocks h.mapped_end size h.blocks l).size + size) % 2 ^ 32)
            (clear_blocks h.mapped_end size h.blocks)
  unfolding grow
  grow_more l e f = ground arith

  pub grow_same :
      extends size h ≡ true
      → ((grow h.mapped_end size h).first ≡ h.first) × ((grow h.mapped_end size h).last ≡ h.last)
  unfolding grow
  grow_same f = (ground arith, ground arith)

-- The heap takes in `size` bytes: what is in use stays in use, and at most one block is added.
abbrev pub Grows : {K : Type 0} → Heap K → List ℕ → Heap K → Type 0
Grows h xs h' =
    (zs : List ℕ) × IsHeap h' zs
    × (in_use h'.blocks zs ≡ in_use h.blocks xs)
    × (length zs ≤ length xs + 1)

pub grow-appends :
    {K : Type 0} (size : ℕ) (h : Heap K) (xs : List ℕ)
    → extends size h ≡ false
    → IsPayload (size - header)
    → header ≤ size
    → h.mapped_end + size ≤ kernel_heap_limit
    → IsHeap h xs
    → Grows h xs (grow h.mapped_end size h)
grow-appends {K} size h xs e pay le top i = (
  xs ++ h.mapped_end ∷ [],
  record {
    in_order =
        IsQueue-insert {head = h.first} {tail = h.last} h.mapped_end xs [] (rw append-nil fresh)
          (grow-Inserted size h xs e i.in_order.at_tail fresh)
          (grow_ends size h xs e i.in_order.at_head i.in_order.at_tail).0
          (grow_ends size h xs e i.in_order.at_head i.in_order.at_tail).1
          (rw append-nil (clear-Linked size h xs i));
    tiles =
        Tiles-append h'.blocks kernel_heap_start h.mapped_end h'.mapped_end xs (h.mapped_end ∷ [])
          (Tiles-frame h.blocks h'.blocks kernel_heap_start h.mapped_end xs
            (λ y p q. let o = old y q in (o.0, o.1)) i.tiles)
          (refl, new.1, omega (arith, new.0), omega (arith, new.0, end));
    below = omega (arith, end);
  },
  in_use-append h'.blocks xs (h.mapped_end ∷ [])
      ∙ ground (
        arith,
        in_use-frame h.blocks h'.blocks kernel_heap_start h.mapped_end xs
            (λ y p q. let o = old y q in (o.0, o.2)) i.tiles,
        new.2,
        append-nil (in_use h.blocks xs),
      ),
  omega (arith, length-append xs (h.mapped_end ∷ [])),
)
  where
    h' : Heap K
    h' = grow h.mapped_end size h

    fresh : Fresh h.mapped_end xs
    fresh =
        Fresh-above h.blocks kernel_heap_start h.mapped_end h.mapped_end xs (omega arith) i.tiles

    old :
        (y : ℕ)
        → y < h.mapped_end
        → ((h'.blocks y).size ≡ (h.blocks y).size)
          × ((h'.blocks y).magic ≡ (h.blocks y).magic)
          × ((h'.blocks y).free ≡ (h.blocks y).free)
    old y q = grow_old size h y e q

    new :
        ((h'.blocks h.mapped_end).size ≡ size - header)
        × ((h'.blocks h.mapped_end).magic ≡ heap_block_magic)
        × ((h'.blocks h.mapped_end).free ≡ true)
    new =
        grow_new size h e
          (λ k. last_or-ne h.mapped_end none xs fresh (λ z. cc) (sym i.in_order.at_tail ∙ k))

    end : h'.mapped_end ≡ h.mapped_end + size
    end = omega (arith, grow_end size h)
