-- ===== src/Heap/Alloc/Take.antt =====
-- The search for a free block, and the block that it gives.
use meaty_skeleton.Prelude.{
  ℕ, zero, suc, ◌+◌, ◌%◌, ◌≤◌, ◌<◌, ◌≡◌, refl, ◌∙◌, ap, inl, inr, true, false, ◌&&◌, Option, none,
  some, List, [], ◌∷◌, ◌++◌, arith, length, leb, Bool-cases,
}
use meaty_skeleton.Links.{first_or, Seg}
use meaty_skeleton.Heap.{
  Blocks, Heap, header, kernel_heap_start, set_free, find_free_block, heap_split_block,
}
use meaty_skeleton.Heap.Tiles.{IsPayload, Tiles, IsHeap, in_use, in_use-append, Tiles-split}
use meaty_skeleton.Heap.Split.{heap_split_block-Reshapes, IsHeap-end}
use meaty_skeleton.Heap.Free.{set_free-IsHeap, set_free-around}
use meaty_skeleton.Heap.Alloc.{take_block}

-- No block of the list is free and large enough.
abbrev pub NoneFits : Blocks → ℕ → List ℕ → Type 0
NoneFits blocks requested [] = Unit {0}
NoneFits blocks requested (x ∷ xs) =
    (((blocks x).free && leb requested (blocks x).size) ≡ false) × NoneFits blocks requested xs

-- What the search over a list finds: its first free block that is large enough, if there is one.
abbrev pub Finds : Blocks → ℕ → List ℕ → Option ℕ → Type 0
Finds blocks requested xs none = NoneFits blocks requested xs
Finds blocks requested xs (some b) =
    (front : List ℕ) × (back : List ℕ) × (xs ≡ front ++ b ∷ back)
    × NoneFits blocks requested front
    × ((blocks b).free ≡ true)
    × (requested ≤ (blocks b).size)

Finds-cons :
    (blocks : Blocks) (requested x : ℕ) (xs : List ℕ) (r : Option ℕ)
    → ((blocks x).free && leb requested (blocks x).size) ≡ false
    → Finds blocks requested xs r
    → Finds blocks requested (x ∷ xs) r
Finds-cons blocks requested x xs none e f = (e, f)
Finds-cons blocks requested x xs (some b) e (front, back, s, n, fr, l) =
    (x ∷ front, back, ap (λ k. x ∷ k) s, (e, n), fr, l)

pub find_free_block-Finds :
    (fuel requested : ℕ) (blocks : Blocks) (b : Option ℕ) (xs : List ℕ)
    → length xs < fuel
    → Seg (λ a. (blocks a).next) (λ a. (blocks a).previous) b none xs
    → (r : Option ℕ) × (find_free_block fuel blocks requested (first_or none xs) ≡ some r)
      × Finds blocks requested xs r
unfolding find_free_block
find_free_block-Finds zero requested blocks b xs h s = absurd (omega arith)
find_free_block-Finds (suc fuel) requested blocks b [] h s = (none, refl, tt)
find_free_block-Finds (suc fuel) requested blocks b (x ∷ xs) h s =
    elim (Bool-cases ((blocks x).free && leb requested (blocks x).size)) [
      | inl e ↦
          (some x, rw (e, find_free_block) refl, ([], xs, refl, tt, ground arith, ground arith))
      | inr e ↦
          let (r, q, f) =
            find_free_block-Finds fuel requested blocks (some x) xs (omega arith) s.2 in
          (
            r,
            rw (e, find_free_block) (ap (find_free_block fuel blocks requested) s.1 ∙ q),
            Finds-cons blocks requested x xs r e f,
          )
    ]

-- What an allocation that gives the block `b` leaves: it was free, it is in use, with at least the
-- size that was asked for, at an aligned address in the heap, and the other blocks in use are as before.
pub record Gives {K : Type 0} (b requested : ℕ) (used : List (ℕ × ℕ)) (h' : Heap K) : Type 0 where
  pub list : List ℕ
  pub is_heap : IsHeap h' list
  pub below : List (ℕ × ℕ)
  pub above : List (ℕ × ℕ)
  pub was : used ≡ below ++ above
  pub is : in_use h'.blocks list ≡ below ++ (b, (h'.blocks b).size) ∷ above
  pub fits : requested ≤ (h'.blocks b).size
  pub aligned : (b + header) % 16 ≡ 0
  pub inside : (kernel_heap_start ≤ b) × (b + header + (h'.blocks b).size ≤ h'.mapped_end)

Tiles-aligned :
    (blocks : Blocks) (start end : ℕ) (xs : List ℕ)
    → start % 16 ≡ 0
    → Tiles blocks start end xs
    → end % 16 ≡ 0
Tiles-aligned blocks start end [] h t = omega arith
Tiles-aligned blocks start end (x ∷ xs) h t =
    Tiles-aligned blocks (start + header + (blocks x).size) end xs (omega arith) t.3

pub take_block-Gives :
    {K : Type 0} (b requested : ℕ) (h : Heap K) (front back : List ℕ)
    → IsHeap h (front ++ b ∷ back)
    → (h.blocks b).free ≡ true
    → IsPayload requested
    → requested ≤ (h.blocks b).size
    → ((take_block b requested h).0 ≡ some (b + header))
      × Gives b requested (in_use h.blocks (front ++ b ∷ back)) (take_block b requested h).1
unfolding take_block
take_block-Gives {K} b requested h front back i fr pay le =
    let (back', r, fits) = heap_split_block-Reshapes b requested h front back pay le i in
    let around = set_free-around b false (heap_split_block b requested h) front back' r.is_heap in
    (
      refl,
      record {
        list = front ++ b ∷ back';
        is_heap =
            set_free-IsHeap b false (heap_split_block b requested h) (front ++ b ∷ back') r.is_heap;
        below = in_use h.blocks front;
        above = in_use h.blocks back;
        was = in_use-append h.blocks front (b ∷ back) ∙ ground arith;
        is =
            in_use-append (set_free b false (heap_split_block b requested h).blocks) front
              (b ∷ back')
            ∙ ground (arith, around.0, around.1, r.before, r.behind);
        fits = ground arith;
        aligned = aligned;
        inside =
            let k = IsHeap-end b (heap_split_block b requested h) front back' r.is_heap in
            ground arith;
      },
    )
  where
    aligned : (b + header) % 16 ≡ 0
    aligned = omega (
      arith,
      Tiles-aligned h.blocks kernel_heap_start b front (omega arith)
          (Tiles-split h.blocks kernel_heap_start h.mapped_end b front back i.tiles).0,
    )
