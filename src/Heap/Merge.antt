-- ===== src/Heap/Merge.antt =====
-- `heap_merge_with_next`: a block takes the free block behind it in.
use mathlib.Core.Path.{subst}
use mathlib.Core.List.{append_assoc}
use meaty_skeleton.Prelude.{
  ℕ, ◌+◌, ◌%◌, ◌^◌, ◌≤◌, ◌≡◌, ◌≢◌, refl, sym, ◌∙◌, ap, inl, inr, true, false, none, some, List, [],
  ◌∷◌, ◌++◌, arith, ◌==◌, Bool-cases,
}
use meaty_skeleton.Links.{
  first_or, last_or, Seg, Fresh, Distinct, Removed, IsQueue-remove, first_or-append, last_or-append,
  Seg-append_right, Distinct-append_right, first_or-ne,
}
use meaty_skeleton.Heap.{Heap, header, kernel_heap_start, write_merge, heap_merge_with_next}
use meaty_skeleton.Heap.Tiles.{
  Tiles, Linked, IsHeap, Tiles-le, Tiles-frame, in_use-frame, Tiles-append, Tiles-split,
}
use meaty_skeleton.Heap.Split.{Reshapes, Reshapes-refl, IsHeap-end}

module _ {K : Type 0} (b n : ℕ) (h : Heap K) where
  merge-Removed :
      (xs ys : List ℕ)
      → (h.blocks n).next ≡ first_or none ys
      → b ≢ n
      → Fresh b ys
      → Fresh n ys
      → last_or none xs ≡ some b
      → Removed
          (λ a. (h.blocks a).next)
          (λ a. (h.blocks a).previous)
          (λ a. ((write_merge b n h).blocks a).next)
          (λ a. ((write_merge b n h).blocks a).previous)
          n
          xs
          ys
  unfolding write_merge
  merge-Removed xs ys e k f g l = record {
    after_last = λ y i. ground (arith, first_or-ne b ys f);
    before_first = λ y i. ground (arith, first_or-ne n ys g);
    other_next = λ y i j. ground arith;
    other_previous = λ y i j. ground arith;
  }

  merge_ends :
      (ys : List ℕ)
      → (h.blocks n).next ≡ first_or none ys
      → h.last ≡ last_or (some n) ys
      → ((write_merge b n h).first ≡ h.first)
        × ((write_merge b n h).last ≡ last_or (some b) ys)
        × ((write_merge b n h).mapped_end ≡ h.mapped_end)
  unfolding write_merge
  merge_ends [] e l = (ground arith, ground arith, ground arith)
  merge_ends (y ∷ ys) e l = (ground arith, ground arith, ground arith)

  merge_other :
      (y : ℕ)
      → y ≢ b
      → y ≢ n
      → (((write_merge b n h).blocks y).size ≡ (h.blocks y).size)
        × (((write_merge b n h).blocks y).magic ≡ (h.blocks y).magic)
        × (((write_merge b n h).blocks y).free ≡ (h.blocks y).free)
  unfolding write_merge
  merge_other y j k = (ground arith, ground arith, ground arith)

  merge_kept :
      b ≢ n
      → (((write_merge b n h).blocks b).size
          ≡ ((h.blocks b).size + header + (h.blocks n).size) % 2 ^ 32)
        × (((write_merge b n h).blocks b).magic ≡ (h.blocks b).magic)
        × (((write_merge b n h).blocks b).free ≡ (h.blocks b).free)
  unfolding write_merge
  merge_kept k = (ground arith, ground arith, ground arith)

write_merge-Linked :
    {K : Type 0} (b n : ℕ) (h : Heap K) (xs ys : List ℕ)
    → Linked h.blocks h.first h.last (xs ++ b ∷ n ∷ ys)
    → Linked
        (write_merge b n h).blocks
        (write_merge b n h).first
        (write_merge b n h).last
        (xs ++ b ∷ ys)
write_merge-Linked {K} b n h xs ys q =
    subst (Linked h'.blocks h'.first h'.last) (append_assoc xs (b ∷ []) ys) (
      IsQueue-remove {head = h.first} {tail = h.last} n (xs ++ b ∷ []) ys
        (merge-Removed b n h (xs ++ b ∷ []) ys here.2.1 d.0.0 d.0.1 d.1.0
          (last_or-append none xs (b ∷ [])))
        (ends.0 ∙ q.at_head ∙ heads)
        (ends.1
          ∙ sym (
              last_or-append none (xs ++ b ∷ []) ys
              ∙ ap (λ k. last_or k ys) (last_or-append none xs (b ∷ []))))
        (subst (Linked h.blocks h.first h.last) (sym (append_assoc xs (b ∷ []) (n ∷ ys))) q))
  where
    h' : Heap K
    h' = write_merge b n h

    here :
        Seg
          (λ a. (h.blocks a).next)
          (λ a. (h.blocks a).previous)
          (last_or none xs)
          none
          (b ∷ n ∷ ys)
    here =
        Seg-append_right (λ a. (h.blocks a).next) (λ a. (h.blocks a).previous) none none xs
          (b ∷ n ∷ ys) q.linked

    d : Distinct (b ∷ n ∷ ys)
    d = Distinct-append_right xs (b ∷ n ∷ ys) q.distinct

    ends : (h'.first ≡ h.first) × (h'.last ≡ last_or (some b) ys) × (h'.mapped_end ≡ h.mapped_end)
    ends = merge_ends b n h ys here.2.1 (q.at_tail ∙ last_or-append none xs (b ∷ n ∷ ys))

    heads : first_or none (xs ++ b ∷ n ∷ ys) ≡ first_or none ((xs ++ b ∷ []) ++ ys)
    heads =
        first_or-append none xs (b ∷ n ∷ ys)
        ∙ sym (first_or-append none xs (b ∷ ys))
        ∙ sym (ap (first_or none) (append_assoc xs (b ∷ []) ys))

write_merge-Reshapes :
    {K : Type 0} (b n : ℕ) (h : Heap K) (xs ys : List ℕ)
    → (h.blocks n).free ≡ true
    → IsHeap h (xs ++ b ∷ n ∷ ys)
    → Reshapes b h xs (n ∷ ys) (write_merge b n h) ys
      × ((h.blocks b).size ≤ ((write_merge b n h).blocks b).size)
write_merge-Reshapes {K} b n h xs ys fr i = (
  record {
    is_heap = record {
      in_order = write_merge-Linked b n h xs ys i.in_order;
      tiles =
          subst (λ e. Tiles h'.blocks kernel_heap_start e (xs ++ b ∷ ys)) (sym ends.2)
            (Tiles-append h'.blocks kernel_heap_start b h.mapped_end xs (b ∷ ys)
              (Tiles-frame h.blocks h'.blocks kernel_heap_start b xs
                (λ y p q. let o = other y (omega (arith, at)) (omega (arith, at)) in (o.0, o.1))
                parts.0)
              (refl, kept.1 ∙ parts.1.1, omega (arith, size, parts.1.2, parts.1.3.2), rest));
      below = omega (arith, ends.2, i.below);
    };
    status = kept.2;
    before =
        in_use-frame h.blocks h'.blocks kernel_heap_start b xs
          (λ y p q. let o = other y (omega (arith, at)) (omega (arith, at)) in (o.0, o.2)) parts.0;
    behind = rw fr (
        in_use-frame h.blocks h'.blocks (n + header + (h.blocks n).size) h.mapped_end ys
          (λ y p q. let o = other y (omega (arith, at)) (omega (arith, at)) in (o.0, o.2)) tail);
  },
  omega (arith, size),
)
  where
    h' : Heap K
    h' = write_merge b n h

    parts : Tiles h.blocks kernel_heap_start b xs × Tiles h.blocks b h.mapped_end (b ∷ n ∷ ys)
    parts = Tiles-split h.blocks kernel_heap_start h.mapped_end b xs (n ∷ ys) i.tiles

    at : n ≡ b + header + (h.blocks b).size
    at = parts.1.3.0

    tail : Tiles h.blocks (n + header + (h.blocks n).size) h.mapped_end ys
    tail =
        subst (λ z. Tiles h.blocks (z + header + (h.blocks n).size) h.mapped_end ys) (sym at)
          parts.1.3.3

    le : n + header + (h.blocks n).size ≤ h.mapped_end
    le = Tiles-le h.blocks (n + header + (h.blocks n).size) h.mapped_end ys tail

    k : b ≢ n
    k e = omega (arith, at)

    other :
        (y : ℕ)
        → y ≢ b
        → y ≢ n
        → ((h'.blocks y).size ≡ (h.blocks y).size)
          × ((h'.blocks y).magic ≡ (h.blocks y).magic)
          × ((h'.blocks y).free ≡ (h.blocks y).free)
    other y = merge_other b n h y

    kept :
        ((h'.blocks b).size ≡ ((h.blocks b).size + header + (h.blocks n).size) % 2 ^ 32)
        × ((h'.blocks b).magic ≡ (h.blocks b).magic)
        × ((h'.blocks b).free ≡ (h.blocks b).free)
    kept = merge_kept b n h k

    size : (h'.blocks b).size ≡ (h.blocks b).size + header + (h.blocks n).size
    size = omega (arith, kept.0, le, at, i.below)

    ends : (h'.first ≡ h.first) × (h'.last ≡ last_or (some b) ys) × (h'.mapped_end ≡ h.mapped_end)
    ends =
        merge_ends b n h ys
          (Seg-append_right (λ a. (h.blocks a).next) (λ a. (h.blocks a).previous) none none xs
            (b ∷ n ∷ ys) i.in_order.linked).2.1
          (i.in_order.at_tail ∙ last_or-append none xs (b ∷ n ∷ ys))

    rest : Tiles h'.blocks (b + header + (h'.blocks b).size) h.mapped_end ys
    rest =
        subst (λ z. Tiles h'.blocks z h.mapped_end ys) (omega (arith, size, at))
          (Tiles-frame h.blocks h'.blocks (n + header + (h.blocks n).size) h.mapped_end ys
            (λ y p q. let o = other y (omega (arith, at)) (omega (arith, at)) in (o.0, o.1)) tail)

module _ {K : Type 0} (b : ℕ) (h : Heap K) (xs : List ℕ) where
  next_of : (ys : List ℕ) → IsHeap h (xs ++ b ∷ ys) → (h.blocks b).next ≡ first_or none ys
  next_of ys i =
      (Seg-append_right (λ a. (h.blocks a).next) (λ a. (h.blocks a).previous) none none xs (b ∷ ys)
        i.in_order.linked).1

  merge-last : IsHeap h (xs ++ b ∷ []) → heap_merge_with_next b h ≡ h
  unfolding heap_merge_with_next
  merge-last i = simp (next_of [] i, heap_merge_with_next) refl

module _ {K : Type 0} (b n : ℕ) (h : Heap K) (xs ys : List ℕ)
    (i : IsHeap h (xs ++ b ∷ n ∷ ys)) where
  merge-used : (h.blocks n).free ≡ false → heap_merge_with_next b h ≡ h
  unfolding heap_merge_with_next
  merge-used e = simp (next_of b h xs (n ∷ ys) i, heap_merge_with_next) (simp (e) refl)

  merge-free : (h.blocks n).free ≡ true → heap_merge_with_next b h ≡ write_merge b n h
  unfolding heap_merge_with_next
  merge-free e =
      simp (next_of b h xs (n ∷ ys) i, heap_merge_with_next) (simp (e) (simp (meets) refl))
    where
      at : n ≡ b + header + (h.blocks b).size
      at = (Tiles-split h.blocks kernel_heap_start h.mapped_end b xs (n ∷ ys) i.tiles).1.3.0

      le : b + header + (h.blocks b).size ≤ h.mapped_end
      le = (IsHeap-end b h xs (n ∷ ys) i).1

      meets : (n == (b + header + (h.blocks b).size) % 2 ^ 32) ≡ true
      meets = ground (arith, at, le, i.below)

-- The test that the next block lies behind this one is always met.
pub heap_merge_with_next-Reshapes :
    {K : Type 0} (b : ℕ) (h : Heap K) (xs ys : List ℕ)
    → IsHeap h (xs ++ b ∷ ys)
    → (ys' : List ℕ) × Reshapes b h xs ys (heap_merge_with_next b h) ys'
      × ((h.blocks b).size ≤ ((heap_merge_with_next b h).blocks b).size)
unfolding heap_merge_with_next
heap_merge_with_next-Reshapes b h xs [] i =
    rw (merge-last b h xs i) ([], Reshapes-refl b h xs [] i, omega arith)
heap_merge_with_next-Reshapes b h xs (n ∷ ys) i = elim (Bool-cases (h.blocks n).free) [
  | inr e ↦ rw (merge-used b n h xs ys i e) (n ∷ ys, Reshapes-refl b h xs (n ∷ ys) i, omega arith)
  | inl e ↦
      let w = write_merge-Reshapes b n h xs ys e i in rw (merge-free b n h xs ys i e) (ys, w.0, w.1)
]
