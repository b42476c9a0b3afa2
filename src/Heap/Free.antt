-- ===== src/Heap/Free.antt =====
-- `kfree`: the block leaves the blocks in use, and nothing else does.
use mathlib.Core.Path.{subst}
use mathlib.Core.List.{append_assoc}
use meaty_skeleton.Prelude.{
  ℕ, ◌+◌, ◌-◌, ◌≡◌, ◌≢◌, ◌⊎◌, refl, sym, ◌∙◌, ap, inl, inr, Bool, true, false, none, some, List, [],
  ◌∷◌, ◌++◌, arith, Bool-cases,
}
use meaty_skeleton.Links.{last_or, IsQueue-frame, Seg-append_right, last_or-append}
use meaty_skeleton.Heap.{
  Heap, header, kernel_heap_start, set_free, heap_merge_with_next, heap_pointer_is_inside,
  heap_block_from_pointer, merge_previous, free_block, kfree,
}
use meaty_skeleton.Heap.Tiles.{
  IsHeap, in_use, in_use-append, Tiles-frame, in_use-frame, Tiles-split,
}
use meaty_skeleton.Heap.Split.{Reshapes, IsHeap-end}
use meaty_skeleton.Heap.Merge.{heap_merge_with_next-Reshapes}

-- The flag of a block is no part of the list.
pub set_free-IsHeap :
    {K : Type 0} (b : ℕ) (v : Bool) (h : Heap K) (xs : List ℕ)
    → IsHeap h xs
    → IsHeap (record h { blocks = set_free b v h.blocks }) xs
set_free-IsHeap b v h xs i = record {
  in_order = IsQueue-frame (λ y. ground arith) (λ y. ground arith) i.in_order;
  tiles =
      Tiles-frame h.blocks (set_free b v h.blocks) kernel_heap_start h.mapped_end xs
        (λ y p q. (ground arith, ground arith)) i.tiles;
  below = i.below;
}

-- What is in use around the block `b` does not depend on its flag.
pub set_free-around :
    {K : Type 0} (b : ℕ) (v : Bool) (h : Heap K) (xs ys : List ℕ)
    → IsHeap h (xs ++ b ∷ ys)
    → (in_use (set_free b v h.blocks) xs ≡ in_use h.blocks xs)
      × (in_use (set_free b v h.blocks) ys ≡ in_use h.blocks ys)
set_free-around b v h xs ys i =
    let t = Tiles-split h.blocks kernel_heap_start h.mapped_end b xs ys i.tiles in
    (
      in_use-frame h.blocks (set_free b v h.blocks) kernel_heap_start b xs
          (λ y p q. let n : y ≢ b = (λ e. omega arith) in (ground arith, ground arith)) t.0,
      in_use-frame h.blocks (set_free b v h.blocks) (b + header + (h.blocks b).size) h.mapped_end ys
          (λ y p q. let n : y ≢ b = (λ e. omega arith) in (ground arith, ground arith)) t.1.3,
    )

-- A list is empty, or has a last element.
pub snoc-cases : (xs : List ℕ) → (xs ≡ []) ⊎ ((zs : List ℕ) × (p : ℕ) × (xs ≡ zs ++ p ∷ []))
snoc-cases [] = inl refl
snoc-cases (x ∷ xs) = elim (snoc-cases xs) [
  | inl e ↦ inr ([], x, ap (λ k. x ∷ k) e)
  | inr (zs, p, e) ↦ inr (x ∷ zs, p, ap (λ k. x ∷ k) e)
]

previous_of :
    {K : Type 0} (b : ℕ) (h : Heap K) (xs ys : List ℕ)
    → IsHeap h (xs ++ b ∷ ys)
    → (h.blocks b).previous ≡ last_or none xs
previous_of b h xs ys i =
    (Seg-append_right (λ a. (h.blocks a).next) (λ a. (h.blocks a).previous) none none xs (b ∷ ys)
      i.in_order.linked).0

module _ {K : Type 0} (b p : ℕ) (h : Heap K) (zs ys : List ℕ) where
  previous_snoc : IsHeap h ((zs ++ p ∷ []) ++ b ∷ ys) → (h.blocks b).previous ≡ some p
  previous_snoc i = previous_of b h (zs ++ p ∷ []) ys i ∙ last_or-append none zs (p ∷ [])

  merge_previous-used :
      IsHeap h ((zs ++ p ∷ []) ++ b ∷ ys) → (h.blocks p).free ≡ false → merge_previous b h ≡ h
  unfolding merge_previous
  merge_previous-used i e = simp (previous_snoc i, merge_previous) (simp (e) refl)

  merge_previous-free :
      IsHeap h ((zs ++ p ∷ []) ++ b ∷ ys)
      → (h.blocks p).free ≡ true
      → merge_previous b h ≡ heap_merge_with_next p h
  unfolding merge_previous
  merge_previous-free i e = simp (previous_snoc i, merge_previous) (simp (e) refl)

merge_previous-first :
    {K : Type 0} (b : ℕ) (h : Heap K) (ys : List ℕ) → IsHeap h (b ∷ ys) → merge_previous b h ≡ h
unfolding merge_previous
merge_previous-first b h ys i = simp (previous_of b h [] ys i, merge_previous) refl

-- What is in use stays in use.
abbrev pub Keeps : {K : Type 0} → Heap K → List ℕ → Heap K → Type 0
Keeps h xs h' = (zs : List ℕ) × IsHeap h' zs × (in_use h'.blocks zs ≡ in_use h.blocks xs)

Reshapes-in_use :
    {K : Type 0} (b : ℕ) (h h' : Heap K) (xs ys ys' : List ℕ)
    → (h.blocks b).free ≡ true
    → Reshapes b h xs ys h' ys'
    → in_use h'.blocks (xs ++ b ∷ ys') ≡ in_use h.blocks (xs ++ b ∷ ys)
Reshapes-in_use b h h' xs ys ys' e r = ground (
  arith,
  in_use-append h'.blocks xs (b ∷ ys'),
  in_use-append h.blocks xs (b ∷ ys),
  r.before,
  r.behind,
  r.status,
)

merge_previous-Keeps :
    {K : Type 0} (b : ℕ) (h : Heap K) (xs ys : List ℕ)
    → IsHeap h (xs ++ b ∷ ys)
    → Keeps h (xs ++ b ∷ ys) (merge_previous b h)
merge_previous-Keeps b h xs ys i = elim (snoc-cases xs) [
  | inl e ↦
      let j = subst (λ k. IsHeap h (k ++ b ∷ ys)) e i in
      rw (merge_previous-first b h ys j) (xs ++ b ∷ ys, i, refl)
  | inr (zs, p, e) ↦
      let j = subst (λ k. IsHeap h (k ++ b ∷ ys)) e i in
      let a = append_assoc zs (p ∷ []) (b ∷ ys) in
      elim (Bool-cases (h.blocks p).free) [
        | inr n ↦ rw (merge_previous-used b p h zs ys j n) (xs ++ b ∷ ys, i, refl)
        | inl f ↦
            let (ys', r, l) =
              heap_merge_with_next-Reshapes p h zs (b ∷ ys) (subst (IsHeap h) a j) in
            rw (merge_previous-free b p h zs ys j f) (
              zs ++ p ∷ ys',
              r.is_heap,
              Reshapes-in_use p h (heap_merge_with_next p h) zs (b ∷ ys) ys' f r
                  ∙ sym (ap (in_use h.blocks) (ap (λ k. k ++ b ∷ ys) e ∙ a)),
            )
      ]
]

pub block_from_pointer-found :
    {K : Type 0} (b : ℕ) (h : Heap K) (xs ys : List ℕ)
    → IsHeap h (xs ++ b ∷ ys)
    → heap_block_from_pointer (b + header) h ≡ some b
unfolding heap_block_from_pointer heap_pointer_is_inside
block_from_pointer-found b h xs ys i =
    let k = IsHeap-end b h xs ys i in
    let t = (Tiles-split h.blocks kernel_heap_start h.mapped_end b xs ys i.tiles).1 in
    let m = t.1 in
    let z = t.2.1 in let e : b + header - header ≡ b = omega arith in rw e (ground arith)

free_block-busy :
    {K : Type 0} (b : ℕ) (h : Heap K)
    → (h.blocks b).free ≡ false
    → free_block b h
      ≡ merge_previous b (heap_merge_with_next b (record h { blocks = set_free b true h.blocks }))
unfolding free_block
free_block-busy b h e = simp (e, free_block) refl

free_block-idle : {K : Type 0} (b : ℕ) (h : Heap K) → (h.blocks b).free ≡ true → free_block b h ≡ h
unfolding free_block
free_block-idle b h e = simp (e, free_block) refl

kfree_lem :
    {K : Type 0} (b : ℕ) (h : Heap K) (xs ys : List ℕ)
    → IsHeap h (xs ++ b ∷ ys)
    → kfree (some (b + header)) h ≡ free_block b h
unfolding kfree
kfree_lem b h xs ys i = simp (block_from_pointer-found b h xs ys i, kfree) refl

-- What giving back the block `b`, which stands between the blocks `xs` and `ys`, may lead to.
abbrev pub Frees : {K : Type 0} → ℕ → Heap K → List ℕ → List ℕ → Heap K → Type 0
Frees b h xs ys h' =
    (((h.blocks b).free ≡ true) × (h' ≡ h))
    ⊎ (((h.blocks b).free ≡ false)
        × (in_use h.blocks (xs ++ b ∷ ys)
            ≡ in_use h.blocks xs ++ (b, (h.blocks b).size) ∷ in_use h.blocks ys)
        × (zs : List ℕ) × IsHeap h' zs
        × (in_use h'.blocks zs ≡ in_use h.blocks xs ++ in_use h.blocks ys))

free_block-Keeps :
    {K : Type 0} (b : ℕ) (h : Heap K) (xs ys : List ℕ)
    → (h.blocks b).free ≡ false
    → IsHeap h (xs ++ b ∷ ys)
    → (zs : List ℕ) × IsHeap (free_block b h) zs
      × (in_use (free_block b h).blocks zs ≡ in_use h.blocks xs ++ in_use h.blocks ys)
free_block-Keeps {K} b h xs ys e i =
    let (ys', r, l) = heap_merge_with_next-Reshapes b h1 xs ys i1 in
    let freed : (h1.blocks b).free ≡ true = ground arith in
    let (zs, j, k) = merge_previous-Keeps b (heap_merge_with_next b h1) xs ys' r.is_heap in
    rw (free_block-busy b h e) (
      zs,
      j,
      k
          ∙ Reshapes-in_use b h1 (heap_merge_with_next b h1) xs ys ys' freed r
          ∙ ground (arith, in_use-append h1.blocks xs (b ∷ ys), around.0, around.1),
    )
  where
    h1 : Heap K
    h1 = record h { blocks = set_free b true h.blocks }

    i1 : IsHeap h1 (xs ++ b ∷ ys)
    i1 = set_free-IsHeap b true h (xs ++ b ∷ ys) i

    around : (in_use h1.blocks xs ≡ in_use h.blocks xs) × (in_use h1.blocks ys ≡ in_use h.blocks ys)
    around = set_free-around b true h xs ys i

-- On a heap whose blocks are linked both ways and tile the mapped memory, `kfree` of the pointer
-- that belongs to a block: where the block is free already, nothing changes; where it is in use,
-- it leaves the blocks in use, every other block in use keeps its address and its size, and the
-- blocks tile the mapped memory again.
pub kfree-Frees :
    {K : Type 0} (b : ℕ) (h : Heap K) (xs ys : List ℕ)
    → IsHeap h (xs ++ b ∷ ys)
    → Frees b h xs ys (kfree (some (b + header)) h)
kfree-Frees b h xs ys i = elim (Bool-cases (h.blocks b).free) [
  | inl e ↦ inl (e, kfree_lem b h xs ys i ∙ free_block-idle b h e)
  | inr e ↦
      let (zs, j, k) = free_block-Keeps b h xs ys e i in
      rw (kfree_lem b h xs ys i)
        (inr (e, in_use-append h.blocks xs (b ∷ ys) ∙ ground arith, zs, j, k))
]
