-- ===== src/Heap/Alloc/Expand.antt =====
-- `heap_expand`: the two ways to grow together, and the expansion that may fail.
use mathlib.Core.Path.{subst}
use meaty_skeleton.Prelude.{
  ℕ, ◌+◌, ◌-◌, ◌*◌, ◌%◌, ◌^◌, ◌≤◌, ◌<◌, ◌≡◌, ◌≢◌, refl, sym, ◌∙◌, ap, inl, inr, Bool, true, false,
  Option, none, some, List, [], ◌∷◌, ◌++◌, arith, ltb, Bool-cases, Option-cases,
}
use meaty_skeleton.Links.{last_or, IsQueue-frame, last_or-append}
use meaty_skeleton.Heap.{Heap, header, kernel_heap_start, kernel_heap_limit, clear_blocks, set_size}
use meaty_skeleton.Heap.Tiles.{
  Tiles, Linked, IsHeap, in_use-append, Tiles-frame, in_use-frame, Tiles-append, Tiles-split,
}
use meaty_skeleton.Heap.Free.{snoc-cases}
use meaty_skeleton.Heap.Alloc.{grow, expand_mapped, expansion_pages, heap_map_pages, heap_expand}
use meaty_skeleton.Pmm.{page_size}
use meaty_skeleton.Heap.{Pager, heap_minimum_expansion}
use meaty_skeleton.Heap.Alloc.Grow.{
  clear-Linked, extends, grow_end, grow_more, grow_same, Grows, grow-appends,
}

grow-extends :
    {K : Type 0} (size l : ℕ) (h : Heap K) (zs : List ℕ)
    → extends size h ≡ true
    → size % 16 ≡ 0
    → h.mapped_end + size ≤ kernel_heap_limit
    → IsHeap h (zs ++ l ∷ [])
    → Grows h (zs ++ l ∷ []) (grow h.mapped_end size h)
grow-extends {K} size l h zs e al top i = (
  zs ++ l ∷ [],
  record {
    in_order =
        subst {A = Option ℕ × Option ℕ} (λ p. Linked h'.blocks p.0 p.1 (zs ++ l ∷ []))
          (λ t. (sym (grow_same size h e).0 t, sym (grow_same size h e).1 t))
          (subst (λ bs. Linked bs h.first h.last (zs ++ l ∷ [])) (sym more)
            (IsQueue-frame (λ y. ground arith) (λ y. ground arith)
              (clear-Linked size h (zs ++ l ∷ []) i)));
    tiles =
        Tiles-append h'.blocks kernel_heap_start l h'.mapped_end zs (l ∷ [])
          (Tiles-frame h.blocks h'.blocks kernel_heap_start l zs
            (λ y p q. let o = old y (omega arith) (omega (arith, under)) in (o.0, o.1)) parts.0)
          (
            refl,
            kept.0 ∙ parts.1.1,
            omega (arith, parts.1.2, size_l),
            omega (arith, size_l, end, parts.1.3),
          );
    below = omega (arith, end);
  },
  in_use-append h'.blocks zs (l ∷ [])
      ∙ ground (
        arith,
        in_use-frame h.blocks h'.blocks kernel_heap_start l zs
            (λ y p q. let o = old y (omega arith) (omega (arith, under)) in (o.0, o.2)) parts.0,
        kept.1,
        was_free,
        in_use-append h.blocks zs (l ∷ []),
      ),
  omega arith,
)
  where
    h' : Heap K
    h' = grow h.mapped_end size h

    at : h.last ≡ some l
    at = i.in_order.at_tail ∙ last_or-append none zs (l ∷ [])

    more :
        h'.blocks
        ≡ set_size l
            (((clear_blocks h.mapped_end size h.blocks l).size + size) % 2 ^ 32)
            (clear_blocks h.mapped_end size h.blocks)
    more = grow_more size h l at e

    parts : Tiles h.blocks kernel_heap_start l zs × Tiles h.blocks l h.mapped_end (l ∷ [])
    parts = Tiles-split h.blocks kernel_heap_start h.mapped_end l zs [] i.tiles

    under : l + header + (h.blocks l).size ≡ h.mapped_end
    under = parts.1.3

    was_free : (h.blocks l).free ≡ true
    was_free = ground (arith, at, under)

    old :
        (y : ℕ)
        → y ≢ l
        → y < h.mapped_end
        → ((h'.blocks y).size ≡ (h.blocks y).size)
          × ((h'.blocks y).magic ≡ (h.blocks y).magic)
          × ((h'.blocks y).free ≡ (h.blocks y).free)
    old y n q = rw more (ground arith, ground arith, ground arith)

    kept : ((h'.blocks l).magic ≡ (h.blocks l).magic) × ((h'.blocks l).free ≡ (h.blocks l).free)
    kept = rw more (ground (arith, under), ground (arith, under))

    size_l : (h'.blocks l).size ≡ (h.blocks l).size + size
    size_l = rw more (ground (arith, under))

    end : h'.mapped_end ≡ h.mapped_end + size
    end = omega (arith, grow_end size h)

grow-Grows :
    {K : Type 0} (size : ℕ) (h : Heap K) (xs : List ℕ)
    → size % 16 ≡ 0
    → header + 16 ≤ size
    → h.mapped_end + size ≤ kernel_heap_limit
    → IsHeap h xs
    → Grows h xs (grow h.mapped_end size h)
grow-Grows size h xs al le top i = elim (Bool-cases (extends size h)) [
  | inr e ↦ grow-appends size h xs e (omega arith, omega arith) (omega arith) top i
  | inl e ↦ elim (snoc-cases xs) [
    | inl n ↦
        let at : h.last ≡ none = i.in_order.at_tail ∙ ap (last_or none) n in
        absurd (ground (arith, at))
    | inr (zs, l, s) ↦
        subst (λ k. Grows h k (grow h.mapped_end size h)) (sym s)
          (grow-extends size l h zs e al top (subst (IsHeap h) s i))
  ]
]

pub expansion_pages_le :
    (payload count : ℕ) → expansion_pages payload ≡ some count → heap_minimum_expansion ≤ count
unfolding expansion_pages
expansion_pages_le payload count e = ground arith

module _ {K : Type 0} where
  unchanged : (h : Heap K) (xs : List ℕ) → IsHeap h xs → Grows h xs h
  unchanged h xs i = (xs, i, refl, omega arith)

  repaged : (h : Heap K) (k : K) (xs : List ℕ) → IsHeap h xs → IsHeap (record h { pager = k }) xs
  repaged h k xs i = record { in_order = i.in_order; tiles = i.tiles; below = i.below }

  expand_mapped-Grows :
      (size : ℕ) (h : Heap K) (xs : List ℕ) (r : Bool × K)
      → size % 16 ≡ 0
      → header + 16 ≤ size
      → h.mapped_end + size ≤ kernel_heap_limit
      → IsHeap h xs
      → Grows h xs (expand_mapped size h r).1
  unfolding expand_mapped
  expand_mapped-Grows size h xs (false, k) al le top i =
      unchanged (record h { pager = k }) xs (repaged h k xs i)
  expand_mapped-Grows size h xs (true, k) al le top i =
      grow-Grows size (record h { pager = k }) xs al le top (repaged h k xs i)

  module _ (os : Pager K) where
    pub heap_expand-Grows :
        (payload : ℕ) (h : Heap K) (xs : List ℕ)
        → IsHeap h xs
        → Grows h xs (heap_expand os payload h).1
    unfolding heap_expand
    heap_expand-Grows payload h xs i = elim (Option-cases (expansion_pages payload)) [
      | inl e ↦ rw (e, heap_expand) (unchanged h xs i)
      | inr (count, e) ↦
          let c = expansion_pages_le payload count e in
          rw (e, heap_expand)
            (elim (Bool-cases (ltb kernel_heap_limit h.mapped_end)) [
              | inl t ↦ rw t (unchanged h xs i)
              | inr t ↦
                  elim (Bool-cases (ltb (kernel_heap_limit - h.mapped_end) (count * page_size))) [
                    | inl u ↦ rw (t, u) (unchanged h xs i)
                    | inr u ↦
                        rw (t, u)
                          (expand_mapped-Grows (count * page_size) h xs
                            (heap_map_pages os h.mapped_end count h.pager) (omega arith)
                            (omega arith) (ground arith) i)
                  ]
            ])
    ]
