-- ===== src/Heap/Split.antt =====
-- `heap_split_block`: a block gives the memory behind the requested size to a new free block.
use mathlib.Core.Path.{subst}
use mathlib.Core.List.{append_assoc}
use meaty_skeleton.Prelude.{
  ℕ, ◌+◌, ◌-◌, ◌%◌, ◌^◌, ◌≤◌, ◌≡◌, ◌≢◌, refl, sym, ◌∙◌, ap, inl, inr, true, false, none, some, List,
  [], ◌∷◌, ◌++◌, arith, ltb, Bool-cases,
}
use meaty_skeleton.Links.{
  first_or, last_or, Seg, Fresh, Inserted, IsQueue-insert, first_or-append, last_or-append,
  Seg-append_right, Fresh-append, Fresh-append_right, Distinct-append_right, first_or-ne,
}
use meaty_skeleton.Heap.{
  Heap, header, heap_block_magic, kernel_heap_start, write_split, heap_split_block,
}
use meaty_skeleton.Heap.Tiles.{
  IsPayload, Tiles, Linked, IsHeap, in_use, Tiles-le, Tiles-frame, in_use-frame, Fresh-below,
  Fresh-above, Tiles-append, Tiles-split,
}

module _ {K : Type 0} (b requested n : ℕ) (h : Heap K) (xs ys : List ℕ) where
  split-Inserted :
      (h.blocks b).next ≡ first_or none ys
      → b ≢ n
      → Fresh b ys
      → Fresh n ys
      → last_or none xs ≡ some b
      → Inserted
          (λ a. (h.blocks a).next)
          (λ a. (h.blocks a).previous)
          (λ a. ((write_split b requested n h).blocks a).next)
          (λ a. ((write_split b requested n h).blocks a).previous)
          n
          xs
          ys
  unfolding write_split
  split-Inserted e k f g l = record {
    after_last = λ y i. ground arith;
    before_first = λ y i. ground arith;
    self_next = ground (arith, first_or-ne n ys g);
    self_previous = ground (arith, first_or-ne n ys g);
    other_next = λ y i j. ground arith;
    other_previous = λ y i j. ground arith;
  }

module _ {K : Type 0} (b requested n : ℕ) (h : Heap K) where
  split_ends :
      (ys : List ℕ)
      → (h.blocks b).next ≡ first_or none ys
      → h.last ≡ last_or (some b) ys
      → ((write_split b requested n h).first ≡ h.first)
        × ((write_split b requested n h).last ≡ last_or (some n) ys)
        × ((write_split b requested n h).mapped_end ≡ h.mapped_end)
  unfolding write_split
  split_ends [] e l = (ground arith, ground arith, ground arith)
  split_ends (y ∷ ys) e l = (ground arith, ground arith, ground arith)

  split_other :
      (y : ℕ)
      → y ≢ b
      → y ≢ n
      → (((write_split b requested n h).blocks y).size ≡ (h.blocks y).size)
        × (((write_split b requested n h).blocks y).magic ≡ (h.blocks y).magic)
        × (((write_split b requested n h).blocks y).free ≡ (h.blocks y).free)
  unfolding write_split
  split_other y j k = (ground arith, ground arith, ground arith)

  split_kept :
      b ≢ n
      → (((write_split b requested n h).blocks b).size ≡ requested)
        × (((write_split b requested n h).blocks b).magic ≡ (h.blocks b).magic)
        × (((write_split b requested n h).blocks b).free ≡ (h.blocks b).free)
  unfolding write_split
  split_kept k = (ground arith, ground arith, ground arith)

  split_made :
      b ≢ n
      → (((write_split b requested n h).blocks n).size ≡ (h.blocks b).size - requested - header)
        × (((write_split b requested n h).blocks n).magic ≡ heap_block_magic)
        × (((write_split b requested n h).blocks n).free ≡ true)
  unfolding write_split
  split_made k = (ground arith, ground arith, ground arith)

-- What stays where the block `b` changes between the blocks `xs` and `ys`: the block itself is there,
-- the blocks behind it may be others, and what is in use around it is the same.
pub record Reshapes {K : Type 0} (b : ℕ) (h : Heap K) (xs ys : List ℕ) (h' : Heap K) (ys' : List ℕ)
    : Type 0 where
  pub is_heap : IsHeap h' (xs ++ b ∷ ys')
  pub status : (h'.blocks b).free ≡ (h.blocks b).free
  pub before : in_use h'.blocks xs ≡ in_use h.blocks xs
  pub behind : in_use h'.blocks ys' ≡ in_use h.blocks ys

pub Reshapes-refl :
    {K : Type 0} (b : ℕ) (h : Heap K) (xs ys : List ℕ)
    → IsHeap h (xs ++ b ∷ ys)
    → Reshapes b h xs ys h ys
Reshapes-refl b h xs ys i = record { is_heap = i; status = refl; before = refl; behind = refl }

-- The list behind a split: the new block stands between the old one and the rest.
write_split-Linked :
    {K : Type 0} (b requested n : ℕ) (h : Heap K) (xs ys : List ℕ)
    → b ≢ n
    → Fresh n (xs ++ b ∷ ys)
    → Linked h.blocks h.first h.last (xs ++ b ∷ ys)
    → Linked
        (write_split b requested n h).blocks
        (write_split b requested n h).first
        (write_split b requested n h).last
        (xs ++ b ∷ n ∷ ys)
write_split-Linked {K} b requested n h xs ys k f q =
    subst (Linked h'.blocks h'.first h'.last) (append_assoc xs (b ∷ []) (n ∷ ys)) (
      IsQueue-insert {head = h.first} {tail = h.last} n (xs ++ b ∷ []) ys
        (subst (Fresh n) (sym (append_assoc xs (b ∷ []) ys)) f)
        (split-Inserted b requested n h (xs ++ b ∷ []) ys here.1 k fb fn
          (last_or-append none xs (b ∷ [])))
        (ends.0 ∙ q.at_head ∙ heads) (ends.1 ∙ sym (last_or-append none (xs ++ b ∷ []) (n ∷ ys)))
        (subst (Linked h.blocks h.first h.last) (sym (append_assoc xs (b ∷ []) ys)) q))
  where
    h' : Heap K
    h' = write_split b requested n h

    here : Seg (λ a. (h.blocks a).next) (λ a. (h.blocks a).previous) (last_or none xs) none (b ∷ ys)
    here =
        Seg-append_right (λ a. (h.blocks a).next) (λ a. (h.blocks a).previous) none none xs (b ∷ ys)
          q.linked

    fb : Fresh b ys
    fb = (Distinct-append_right xs (b ∷ ys) q.distinct).0

    fn : Fresh n ys
    fn = (Fresh-append_right n xs (b ∷ ys) f).1

    ends : (h'.first ≡ h.first) × (h'.last ≡ last_or (some n) ys) × (h'.mapped_end ≡ h.mapped_end)
    ends = split_ends b requested n h ys here.1 (q.at_tail ∙ last_or-append none xs (b ∷ ys))

    heads : first_or none (xs ++ b ∷ ys) ≡ first_or none ((xs ++ b ∷ []) ++ n ∷ ys)
    heads =
        first_or-append none xs (b ∷ ys)
        ∙ sym (first_or-append none xs (b ∷ n ∷ ys))
        ∙ sym (ap (first_or none) (append_assoc xs (b ∷ []) (n ∷ ys)))

write_split-Reshapes :
    {K : Type 0} (b requested n : ℕ) (h : Heap K) (xs ys : List ℕ)
    → n ≡ b + header + requested
    → IsPayload requested
    → requested + header + 16 ≤ (h.blocks b).size
    → IsHeap h (xs ++ b ∷ ys)
    → Reshapes b h xs ys (write_split b requested n h) (n ∷ ys)
write_split-Reshapes {K} b requested n h xs ys en al fits i = record {
  is_heap = record {
    in_order = write_split-Linked b requested n h xs ys k fresh i.in_order;
    tiles =
        subst (λ e. Tiles h'.blocks kernel_heap_start e (xs ++ b ∷ n ∷ ys)) (sym ends.2)
          (Tiles-append h'.blocks kernel_heap_start b h.mapped_end xs (b ∷ n ∷ ys)
            (Tiles-frame h.blocks h'.blocks kernel_heap_start b xs
              (λ y p q. let o = other y (omega arith) (omega arith) in (o.0, o.1)) parts.0)
            (
              refl,
              kept.1 ∙ parts.1.1,
              omega (arith, kept.0),
              (omega (arith, kept.0), made.1, omega (arith, made.0, parts.1.2), rest),
            ));
    below = omega (arith, ends.2, i.below);
  };
  status = kept.2;
  before =
      in_use-frame h.blocks h'.blocks kernel_heap_start b xs
        (λ y p q. let o = other y (omega arith) (omega arith) in (o.0, o.2)) parts.0;
  behind = rw (made.2) (
      in_use-frame h.blocks h'.blocks (b + header + (h.blocks b).size) h.mapped_end ys
        (λ y p q. let o = other y (omega arith) (omega arith) in (o.0, o.2)) parts.1.3);
}
  where
    h' : Heap K
    h' = write_split b requested n h

    parts : Tiles h.blocks kernel_heap_start b xs × Tiles h.blocks b h.mapped_end (b ∷ ys)
    parts = Tiles-split h.blocks kernel_heap_start h.mapped_end b xs ys i.tiles

    k : b ≢ n
    k e = omega arith

    other :
        (y : ℕ)
        → y ≢ b
        → y ≢ n
        → ((h'.blocks y).size ≡ (h.blocks y).size)
          × ((h'.blocks y).magic ≡ (h.blocks y).magic)
          × ((h'.blocks y).free ≡ (h.blocks y).free)
    other y = split_other b requested n h y

    kept :
        ((h'.blocks b).size ≡ requested)
        × ((h'.blocks b).magic ≡ (h.blocks b).magic)
        × ((h'.blocks b).free ≡ (h.blocks b).free)
    kept = split_kept b requested n h k

    made :
        ((h'.blocks n).size ≡ (h.blocks b).size - requested - header)
        × ((h'.blocks n).magic ≡ heap_block_magic)
        × ((h'.blocks n).free ≡ true)
    made = split_made b requested n h k

    fresh : Fresh n (xs ++ b ∷ ys)
    fresh =
        Fresh-append n xs (b ∷ ys)
          (Fresh-above h.blocks kernel_heap_start b n xs (omega arith) parts.0)
          (
            (λ e. k (sym e)),
            Fresh-below h.blocks (b + header + (h.blocks b).size) h.mapped_end n ys (omega arith)
                parts.1.3,
          )

    ends : (h'.first ≡ h.first) × (h'.last ≡ last_or (some n) ys) × (h'.mapped_end ≡ h.mapped_end)
    ends =
        split_ends b requested n h ys
          (Seg-append_right (λ a. (h.blocks a).next) (λ a. (h.blocks a).previous) none none xs
            (b ∷ ys) i.in_order.linked).1
          (i.in_order.at_tail ∙ last_or-append none xs (b ∷ ys))

    rest :
        Tiles h'.blocks
          (b + header + (h'.blocks b).size + header + (h'.blocks n).size)
          h.mapped_end
          ys
    rest =
        subst (λ z. Tiles h'.blocks z h.mapped_end ys) (omega (arith, kept.0, made.0))
          (Tiles-frame h.blocks h'.blocks (b + header + (h.blocks b).size) h.mapped_end ys
            (λ y p q. let o = other y (omega arith) (omega arith) in (o.0, o.1)) parts.1.3)

-- Where the block ends lies below the end of the heap.
pub IsHeap-end :
    {K : Type 0} (b : ℕ) (h : Heap K) (xs ys : List ℕ)
    → IsHeap h (xs ++ b ∷ ys)
    → (kernel_heap_start ≤ b) × (b + header + (h.blocks b).size ≤ h.mapped_end)
IsHeap-end b h xs ys i =
    let t = Tiles-split h.blocks kernel_heap_start h.mapped_end b xs ys i.tiles in
    (
      Tiles-le h.blocks kernel_heap_start b xs t.0,
      Tiles-le h.blocks (b + header + (h.blocks b).size) h.mapped_end ys t.1.3,
    )

pub heap_split_block-Reshapes :
    {K : Type 0} (b requested : ℕ) (h : Heap K) (xs ys : List ℕ)
    → IsPayload requested
    → requested ≤ (h.blocks b).size
    → IsHeap h (xs ++ b ∷ ys)
    → (ys' : List ℕ) × Reshapes b h xs ys (heap_split_block b requested h) ys'
      × (requested ≤ ((heap_split_block b requested h).blocks b).size)
unfolding heap_split_block
heap_split_block-Reshapes b requested h xs ys al le i =
    elim (Bool-cases (ltb ((h.blocks b).size - requested) (header + 16))) [
      | inl e ↦ rw (no, e) (ys, Reshapes-refl b h xs ys i, le)
      | inr e ↦
          rw (no, e)
            (
              (b + header + requested) % 2 ^ 32 ∷ ys,
              write_split-Reshapes b requested ((b + header + requested) % 2 ^ 32) h xs ys
                  (omega (arith, IsHeap-end b h xs ys i, i.below)) al (ground arith) i,
              omega (
                arith,
                (split_kept b requested ((b + header + requested) % 2 ^ 32) h
                    (λ z. omega (arith, IsHeap-end b h xs ys i, i.below))).0,
              ),
            )
    ]
  where
    no : ltb (h.blocks b).size requested ≡ false
    no = ground arith
