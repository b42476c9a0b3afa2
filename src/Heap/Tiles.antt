-- ===== src/Heap/Tiles.antt =====
-- When the list of blocks is a heap: it is linked both ways, and its blocks tile the mapped memory.
use mathlib.Core.Path.{subst}
use meaty_skeleton.Prelude.{
  ℕ, ◌+◌, ◌%◌, ◌≤◌, ◌<◌, ◌≡◌, refl, sym, ◌∙◌, Option, List, [], ◌∷◌, ◌++◌, arith, if◌then◌else◌,
}
use meaty_skeleton.Links.{Fresh, IsQueue}
use meaty_skeleton.Heap.{
  Blocks, Heap, header, heap_block_magic, kernel_heap_start, kernel_heap_limit,
}

-- The sizes that blocks have.
abbrev pub IsPayload : ℕ → Type 0
IsPayload size = (size % 16 ≡ 0) × (16 ≤ size)

-- The blocks of the list lie one behind the other from `start` to `end`.
abbrev pub Tiles : Blocks → ℕ → ℕ → List ℕ → Type 0
Tiles blocks start end [] = start ≡ end
Tiles blocks start end (x ∷ xs) =
    (x ≡ start)
    × ((blocks x).magic ≡ heap_block_magic)
    × IsPayload (blocks x).size
    × Tiles blocks (start + header + (blocks x).size) end xs

abbrev pub Linked : Blocks → Option ℕ → Option ℕ → List ℕ → Type 0
Linked blocks first last xs =
    IsQueue (λ b. (blocks b).next) (λ b. (blocks b).previous) first last xs

pub record IsHeap {K : Type 0} (h : Heap K) (xs : List ℕ) : Type 0 where
  pub in_order : Linked h.blocks h.first h.last xs
  pub tiles : Tiles h.blocks kernel_heap_start h.mapped_end xs
  pub below : h.mapped_end ≤ kernel_heap_limit

-- The blocks in use, with their sizes, by address: what the clients of the heap own.
abbrev pub in_use : Blocks → List ℕ → List (ℕ × ℕ)
in_use blocks [] = []
in_use blocks (x ∷ xs) =
    if (blocks x).free then in_use blocks xs else (x, (blocks x).size) ∷ in_use blocks xs

pub in_use-append :
    (blocks : Blocks) (xs ys : List ℕ)
    → in_use blocks (xs ++ ys) ≡ in_use blocks xs ++ in_use blocks ys
in_use-append blocks [] ys = refl
in_use-append blocks (x ∷ xs) ys = ground (arith, in_use-append blocks xs ys)

pub Tiles-le :
    (blocks : Blocks) (start end : ℕ) (xs : List ℕ) → Tiles blocks start end xs → start ≤ end
Tiles-le blocks start end [] t = omega arith
Tiles-le blocks start end (x ∷ xs) t =
    omega (arith, Tiles-le blocks (start + header + (blocks x).size) end xs t.3)

-- What a store changes outside of the tiled memory does not matter to it.
pub Tiles-frame :
    (blocks blocks' : Blocks) (start end : ℕ) (xs : List ℕ)
    → ((y : ℕ)
        → start ≤ y
        → y < end
        → ((blocks' y).size ≡ (blocks y).size) × ((blocks' y).magic ≡ (blocks y).magic))
    → Tiles blocks start end xs
    → Tiles blocks' start end xs
Tiles-frame blocks blocks' start end [] h t = t
Tiles-frame blocks blocks' start end (x ∷ xs) h t =
    let l = Tiles-le blocks (start + header + (blocks x).size) end xs t.3 in
    let k = h x (omega arith) (omega arith) in
    (
      t.0,
      k.1 ∙ t.1,
      omega arith,
      rw (k.0) (
          Tiles-frame blocks blocks' (start + header + (blocks x).size) end xs
            (λ y p q. h y (omega arith) q) t.3),
    )

pub in_use-frame :
    (blocks blocks' : Blocks) (start end : ℕ) (xs : List ℕ)
    → ((y : ℕ)
        → start ≤ y
        → y < end
        → ((blocks' y).size ≡ (blocks y).size) × ((blocks' y).free ≡ (blocks y).free))
    → Tiles blocks start end xs
    → in_use blocks' xs ≡ in_use blocks xs
in_use-frame blocks blocks' start end [] h t = refl
in_use-frame blocks blocks' start end (x ∷ xs) h t =
    let l = Tiles-le blocks (start + header + (blocks x).size) end xs t.3 in
    let k = h x (omega arith) (omega arith) in
    ground (
      arith,
      in_use-frame blocks blocks' (start + header + (blocks x).size) end xs
          (λ y p q. h y (omega arith) q) t.3,
    )

-- An address outside of the tiled memory is no block of it.
pub Fresh-below :
    (blocks : Blocks) (start end n : ℕ) (xs : List ℕ)
    → n < start
    → Tiles blocks start end xs
    → Fresh n xs
Fresh-below blocks start end n [] h t = tt
Fresh-below blocks start end n (x ∷ xs) h t = (
  (λ e. omega arith),
  Fresh-below blocks (start + header + (blocks x).size) end n xs (omega arith) t.3,
)

pub Fresh-above :
    (blocks : Blocks) (start end n : ℕ) (xs : List ℕ)
    → end ≤ n
    → Tiles blocks start end xs
    → Fresh n xs
Fresh-above blocks start end n [] h t = tt
Fresh-above blocks start end n (x ∷ xs) h t =
    let l = Tiles-le blocks (start + header + (blocks x).size) end xs t.3 in
    ((λ e. omega arith), Fresh-above blocks (start + header + (blocks x).size) end n xs h t.3)

-- Two tiled pieces, one behind the other.
pub Tiles-append :
    (blocks : Blocks) (start mid end : ℕ) (xs ys : List ℕ)
    → Tiles blocks start mid xs
    → Tiles blocks mid end ys
    → Tiles blocks start end (xs ++ ys)
Tiles-append blocks start mid end [] ys t u = rw t u
Tiles-append blocks start mid end (x ∷ xs) ys t u =
    (t.0, t.1, t.2, Tiles-append blocks (start + header + (blocks x).size) mid end xs ys t.3 u)

-- At a block of the list, the memory is tiled before it and from it on.
pub Tiles-split :
    (blocks : Blocks) (start end b : ℕ) (xs ys : List ℕ)
    → Tiles blocks start end (xs ++ b ∷ ys)
    → Tiles blocks start b xs × Tiles blocks b end (b ∷ ys)
Tiles-split blocks start end b [] ys t = (
  sym t.0,
  (refl, t.1, t.2, subst (λ k. Tiles blocks (k + header + (blocks b).size) end ys) (sym t.0) t.3),
)
Tiles-split blocks start end b (x ∷ xs) ys t =
    let s = Tiles-split blocks (start + header + (blocks x).size) end b xs ys t.3 in
    ((t.0, t.1, t.2, s.0), s.1)
