-- ===== src/Heap/Alloc/Give.antt =====
-- `kmalloc`: what an allocation gives, and when it gives nothing.
use mathlib.Core.Path.{subst}
use meaty_skeleton.Prelude.{
  ℕ, ◌+◌, ◌-◌, ◌≤◌, ◌<◌, ◌≡◌, ◌≢◌, ◌⊎◌, refl, sym, ◌∙◌, ap, inl, inr, Bool, true, false, Option,
  none, some, List, ◌∷◌, ◌++◌, arith, length, ltb, ◌==◌, Bool-cases,
}
use meaty_skeleton.Heap.{
  Heap, Pager, header, heap_alignment, size_max, find_free_block, align_up_size,
}
use meaty_skeleton.Heap.Tiles.{IsPayload, IsHeap, in_use}
use meaty_skeleton.Heap.Free.{Keeps}
use meaty_skeleton.Heap.Alloc.{take_block, allocate_expanded, heap_expand, heap_allocate}
use meaty_skeleton.Heap.Alloc.Take.{NoneFits, Finds, find_free_block-Finds, Gives, take_block-Gives}
use meaty_skeleton.Heap.Alloc.Grow.{Grows}
use meaty_skeleton.Heap.Alloc.Expand.{heap_expand-Grows}

-- The aligned size overflows, or it is a block's size that holds the size.
align_up_size-cases :
    (size : ℕ)
    → size ≢ 0
    → (align_up_size size heap_alignment ≡ 0)
      ⊎ (IsPayload (align_up_size size heap_alignment) × (size ≤ align_up_size size heap_alignment))
unfolding align_up_size
align_up_size-cases size n = elim (Bool-cases (ltb (size_max - 15) size)) [
  | inl e ↦ inl (ground arith)
  | inr e ↦ inr (rw e ((omega arith, omega arith), omega arith))
]

-- Why an allocation may give nothing: in the last case no block of the heap is free and large enough.
abbrev pub Excuse : {K : Type 0} → ℕ → Heap K → List ℕ → Type 0
Excuse size h xs =
    (h.initialized ≡ false)
    ⊎ ((align_up_size size heap_alignment ≡ 0)
        ⊎ ((size ≡ 0) ⊎ NoneFits h.blocks (align_up_size size heap_alignment) xs))

-- NULL, with an excuse and what is in use kept, or a block.
abbrev pub Allocates : {K : Type 0} → ℕ → Heap K → List ℕ → Option ℕ → Heap K → Type 0
Allocates size h xs none h' = Excuse size h xs × Keeps h xs h'
Allocates size h xs (some pointer) h' =
    (b : ℕ) × (pointer ≡ b + header) × Gives b size (in_use h.blocks xs) h'

-- The call returns, with such a result.
abbrev pub Answers : {K : Type 0} → ℕ → Heap K → List ℕ → Option (Option ℕ × Heap K) → Type 0
Answers {K} size h xs r =
    (p : Option ℕ) × (h' : Heap K) × (r ≡ some (p, h')) × Allocates size h xs p h'

Gives-le :
    {K : Type 0} (b size aligned : ℕ) (used : List (ℕ × ℕ)) (h' : Heap K)
    → size ≤ aligned
    → Gives b aligned used h'
    → Gives b size used h'
Gives-le b size aligned used h' le g = record {
  list = g.list;
  is_heap = g.is_heap;
  below = g.below;
  above = g.above;
  was = g.was;
  is = g.is;
  fits = omega arith;
  aligned = g.aligned;
  inside = g.inside;
}

module _ {K : Type 0} (size aligned : ℕ) (h : Heap K) (xs : List ℕ) where
  nothing : IsHeap h xs → Excuse size h xs → Answers size h xs (some (none, h))
  nothing i e = (none, h, refl, (e, (xs, i, refl)))

  -- A block that the search found in the heap `h1`, which has the blocks in use of `h`.
  taken :
      (b : ℕ) (h1 : Heap K) (front back : List ℕ)
      → IsPayload aligned
      → size ≤ aligned
      → IsHeap h1 (front ++ b ∷ back)
      → (h1.blocks b).free ≡ true
      → aligned ≤ (h1.blocks b).size
      → in_use h1.blocks (front ++ b ∷ back) ≡ in_use h.blocks xs
      → Answers size h xs (some (take_block b aligned h1))
  taken b h1 front back pay le i fr fits used =
      let (p, g) = take_block-Gives b aligned h1 front back i fr pay fits in
      (
        some (b + header),
        (take_block b aligned h1).1,
        ap some (λ t. (p t, (take_block b aligned h1).1)),
        (
          b,
          refl,
          Gives-le b size aligned (in_use h.blocks xs) (take_block b aligned h1).1 le
              (subst (λ u. Gives b aligned u (take_block b aligned h1).1) used g),
        ),
      )

  by_equation :
      {r r' : Option (Option ℕ × Heap K)} → r ≡ r' → Answers size h xs r' → Answers size h xs r
  by_equation e t = subst (Answers size h xs) (sym e) t

  -- The search in the heap `h1`.
  searched :
      (fuel : ℕ) (h1 : Heap K) (zs : List ℕ)
      → length zs < fuel
      → IsHeap h1 zs
      → (r : Option ℕ) × (find_free_block fuel h1.blocks aligned h1.first ≡ some r)
        × Finds h1.blocks aligned zs r
  searched fuel h1 zs le i =
      rw (i.in_order.at_head)
        (find_free_block-Finds fuel aligned h1.blocks none zs le i.in_order.linked)

  expanded :
      (fuel : ℕ) (r : Bool × Heap K)
      → length xs + 1 < fuel
      → IsPayload aligned
      → size ≤ aligned
      → Excuse size h xs
      → Grows h xs r.1
      → Answers size h xs (allocate_expanded fuel aligned r)
  unfolding allocate_expanded
  expanded fuel (false, h1) lf pay le e (zs, i, used, l) = (none, h1, refl, (e, (zs, i, used)))
  expanded fuel (true, h1) lf pay le e (zs, i, used, l) =
      let (p, q, f) = searched fuel h1 zs (omega arith) i in answer p q f
    where
      answer :
          (p : Option ℕ)
          → find_free_block fuel h1.blocks aligned h1.first ≡ some p
          → Finds h1.blocks aligned zs p
          → Answers size h xs (allocate_expanded fuel aligned (true, h1))
      answer none q f = rw (q, allocate_expanded) (none, h1, refl, (e, (zs, i, used)))
      answer (some b) q (front, back, s, n, fr, fits) =
          rw (q, allocate_expanded)
            (taken b h1 front back pay le (subst (IsHeap h1) s i) fr fits
              (ap (in_use h1.blocks) (sym s) ∙ used))

  module _ (os : Pager K) where
    allocated :
        (fuel : ℕ)
        → length xs + 1 < fuel
        → IsHeap h xs
        → h.initialized ≡ true
        → size ≢ 0
        → aligned ≢ 0
        → align_up_size size heap_alignment ≡ aligned
        → IsPayload aligned
        → size ≤ aligned
        → Answers size h xs (heap_allocate os fuel size h)
    unfolding heap_allocate
    allocated fuel lf i on n m al pay le =
        let nz : (size == 0) ≡ false = ground arith in
        let mz : (aligned == 0) ≡ false = ground arith in
        let (p, q, f) = searched fuel h xs (omega arith) i in answer nz mz p q f
      where
        answer :
            (size == 0) ≡ false
            → (aligned == 0) ≡ false
            → (p : Option ℕ) → find_free_block fuel h.blocks aligned h.first ≡ some p
            → Finds h.blocks aligned xs p
            → Answers size h xs (heap_allocate os fuel size h)
        answer nz mz none q f = by_equation (simp (on, nz, al, mz, q, heap_allocate) refl) (
            expanded fuel (heap_expand os aligned h) lf pay le
              (inr (inr (inr (subst (λ a. NoneFits h.blocks a xs) (sym al) f))))
              (heap_expand-Grows os aligned h xs i))
        answer nz mz (some b) q (front, back, s, t, fr, fits) =
            by_equation (simp (on, nz, al, mz, q, heap_allocate) refl) (
              taken b h front back pay le (subst (IsHeap h) s i) fr fits
                (ap (in_use h.blocks) (sym s)))

module _ {K : Type 0} (os : Pager K) where
  pub heap_allocate-Answers :
      (fuel size : ℕ) (h : Heap K) (xs : List ℕ)
      → length xs + 1 < fuel
      → IsHeap h xs
      → Answers size h xs (heap_allocate os fuel size h)
  unfolding heap_allocate
  heap_allocate-Answers fuel size h xs lf i =
      let aligned = align_up_size size heap_alignment in
      elim (Bool-cases h.initialized) [
        | inr off ↦
            by_equation size aligned h xs (simp (off, heap_allocate) refl)
              (nothing size aligned h xs i (inl off))
        | inl on ↦ elim (Bool-cases (size == 0)) [
          | inl z ↦
              by_equation size aligned h xs (simp (on, z, heap_allocate) refl)
                (nothing size aligned h xs i (inr (inr (inl (ground arith)))))
          | inr n ↦ elim (align_up_size-cases size (ground arith)) [
            | inl z ↦
                by_equation size aligned h xs (simp (on, n, z, heap_allocate) refl)
                  (nothing size aligned h xs i (inr (inl z)))
            | inr (pay, le) ↦
                allocated size aligned h xs os fuel lf i on (ground arith) (λ z. omega arith) refl
                  pay le
          ]
        ]
      ]
