-- ===== src/Links/Defs.antt =====
-- The nodes of a linked segment, and its ends.
use meaty_skeleton.Prelude.{ℕ, ◌≡◌, ◌≢◌, Option, none, some, List, [], ◌∷◌}

-- The first node of a segment that is followed by `e`.
abbrev pub first_or : Option ℕ → List ℕ → Option ℕ
first_or e [] = e
first_or e (x ∷ xs) = some x

-- The last node of a segment that is preceded by `b`.
abbrev pub last_or : Option ℕ → List ℕ → Option ℕ
last_or b [] = b
last_or b (x ∷ xs) = last_or (some x) xs

-- `xs` is linked both ways, with `b` before it and `e` behind it.
abbrev pub Seg : (ℕ → Option ℕ) → (ℕ → Option ℕ) → Option ℕ → Option ℕ → List ℕ → Type 0
Seg next previous b e [] = Unit {0}
Seg next previous b e (x ∷ xs) =
    (previous x ≡ b) × (next x ≡ first_or e xs) × Seg next previous (some x) e xs

abbrev pub Fresh : ℕ → List ℕ → Type 0
Fresh x [] = Unit {0}
Fresh x (y ∷ ys) = (x ≢ y) × Fresh x ys

abbrev pub Distinct : List ℕ → Type 0
Distinct [] = Unit {0}
Distinct (x ∷ xs) = Fresh x xs × Distinct xs

-- Two stores agree on the nodes of a list.
abbrev pub Agree : (ℕ → Option ℕ) → (ℕ → Option ℕ) → List ℕ → Type 0
Agree f g [] = Unit {0}
Agree f g (x ∷ xs) = (g x ≡ f x) × Agree f g xs

-- No node of the first list is in the second.
abbrev pub Apart : List ℕ → List ℕ → Type 0
Apart [] ys = Unit {0}
Apart (x ∷ xs) ys = Fresh x ys × Apart xs ys

-- A queue with its two ends, that holds the nodes `xs` in this order.
pub record IsQueue (next : ℕ → Option ℕ) (previous : ℕ → Option ℕ) (head : Option ℕ)
    (tail : Option ℕ) (xs : List ℕ) : Type 0 where
  pub distinct : Distinct xs
  pub linked : Seg next previous none none xs
  pub at_head : head ≡ first_or none xs
  pub at_tail : tail ≡ last_or none xs
