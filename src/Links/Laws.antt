-- ===== src/Links/Laws.antt =====
-- How a linked segment is split, joined, and changed at its ends.
use meaty_skeleton.Prelude.{ℕ, ◌≡◌, ◌≢◌, refl, sym, Option, none, some, List, [], ◌∷◌, ◌++◌, arith}
use meaty_skeleton.Links.Defs.{first_or, last_or, Fresh, Distinct, Agree, Apart}

pub first_or-append :
    (e : Option ℕ) (xs ys : List ℕ) → first_or e (xs ++ ys) ≡ first_or (first_or e ys) xs
first_or-append e [] ys = refl
first_or-append e (x ∷ xs) ys = refl

pub last_or-append :
    (b : Option ℕ) (xs ys : List ℕ) → last_or b (xs ++ ys) ≡ last_or (last_or b xs) ys
last_or-append b [] ys = refl
last_or-append b (x ∷ xs) ys = last_or-append (some x) xs ys

pub Fresh-append : (x : ℕ) (xs ys : List ℕ) → Fresh x xs → Fresh x ys → Fresh x (xs ++ ys)
Fresh-append x [] ys h k = k
Fresh-append x (y ∷ xs) ys h k = (h.0, Fresh-append x xs ys h.1 k)

pub Fresh-append_left : (x : ℕ) (xs ys : List ℕ) → Fresh x (xs ++ ys) → Fresh x xs
Fresh-append_left x [] ys h = tt
Fresh-append_left x (y ∷ xs) ys h = (h.0, Fresh-append_left x xs ys h.1)

pub Fresh-append_right : (x : ℕ) (xs ys : List ℕ) → Fresh x (xs ++ ys) → Fresh x ys
Fresh-append_right x [] ys h = h
Fresh-append_right x (y ∷ xs) ys h = Fresh-append_right x xs ys h.1

pub Distinct-append_left : (xs ys : List ℕ) → Distinct (xs ++ ys) → Distinct xs
Distinct-append_left [] ys d = tt
Distinct-append_left (x ∷ xs) ys d = (Fresh-append_left x xs ys d.0, Distinct-append_left xs ys d.1)

pub Distinct-append_right : (xs ys : List ℕ) → Distinct (xs ++ ys) → Distinct ys
Distinct-append_right [] ys d = d
Distinct-append_right (x ∷ xs) ys d = Distinct-append_right xs ys d.1

pub Distinct-Apart : (xs ys : List ℕ) → Distinct (xs ++ ys) → Apart xs ys
Distinct-Apart [] ys d = tt
Distinct-Apart (x ∷ xs) ys d = (Fresh-append_right x xs ys d.0, Distinct-Apart xs ys d.1)

pub Distinct-insert :
    (x : ℕ) (xs ys : List ℕ) → Distinct (xs ++ ys) → Fresh x (xs ++ ys) → Distinct (xs ++ x ∷ ys)
Distinct-insert x [] ys d f = (f, d)
Distinct-insert x (y ∷ xs) ys d f = (
  Fresh-append y xs (x ∷ ys) (Fresh-append_left y xs ys d.0)
      ((λ e. f.0 (sym e)), Fresh-append_right y xs ys d.0),
  Distinct-insert x xs ys d.1 f.1,
)

pub Distinct-remove :
    (x : ℕ) (xs ys : List ℕ) → Distinct (xs ++ x ∷ ys) → Distinct (xs ++ ys) × Fresh x (xs ++ ys)
Distinct-remove x [] ys d = (d.1, d.0)
Distinct-remove x (y ∷ xs) ys d =
    let rest = Distinct-remove x xs ys d.1 in
    let right = Fresh-append_right y xs (x ∷ ys) d.0 in
    (
      (Fresh-append y xs ys (Fresh-append_left y xs (x ∷ ys) d.0) right.1, rest.0),
      ((λ e. right.0 (sym e)), rest.1),
    )

pub Apart-tail : (y : ℕ) (xs ys : List ℕ) → Apart xs (y ∷ ys) → Apart xs ys
Apart-tail y [] ys a = tt
Apart-tail y (x ∷ xs) ys a = (a.0.1, Apart-tail y xs ys a.1)

pub Apart-Fresh : (y : ℕ) (xs ys : List ℕ) → Apart xs (y ∷ ys) → Fresh y xs
Apart-Fresh y [] ys a = tt
Apart-Fresh y (x ∷ xs) ys a = ((λ e. a.0.0 (sym e)), Apart-Fresh y xs ys a.1)

pub first_or-ne : (y : ℕ) (ys : List ℕ) → Fresh y ys → first_or none ys ≢ some y
first_or-ne y [] f = λ e. cc
first_or-ne y (x ∷ ys) f = λ e. f.0 (ground arith)

-- A node that is not in the list is not its last one.
pub last_or-ne :
    (x : ℕ) (b : Option ℕ) (xs : List ℕ) → Fresh x xs → b ≢ some x → last_or b xs ≢ some x
last_or-ne x b [] f h = h
last_or-ne x b (y ∷ xs) f h = last_or-ne x (some y) xs f.1 (λ e. f.0 (ground arith))

-- A list with a last node has a first one, and the other way round.
pub first_or_of_last :
    (e : Option ℕ) (l : ℕ) (xs : List ℕ)
    → last_or none xs ≡ some l
    → first_or e xs ≡ first_or none xs
first_or_of_last e l [] h = cc
first_or_of_last e l (x ∷ xs) h = refl

pub last_or-ne-none : (x : ℕ) (xs : List ℕ) → last_or (some x) xs ≢ none
last_or-ne-none x [] = λ e. cc
last_or-ne-none x (y ∷ xs) = last_or-ne-none y xs

pub nil_of_last : (xs : List ℕ) → last_or none xs ≡ none → xs ≡ []
nil_of_last [] h = refl
nil_of_last (x ∷ xs) h = absurd (last_or-ne-none x xs h)

module _ (f g : ℕ → Option ℕ) (x : ℕ) where
  -- A change at `x` and at the first node of `ys` alone leaves `xs` as it was.
  pub Agree-before :
      (xs ys : List ℕ)
      → Fresh x xs
      → Apart xs ys
      → ((y : ℕ) → y ≢ x → first_or none ys ≢ some y → g y ≡ f y)
      → Agree f g xs
  Agree-before [] ys h a o = tt
  Agree-before (y ∷ xs) ys h a o =
      (o y (λ e. h.0 (sym e)) (first_or-ne y ys a.0), Agree-before xs ys h.1 a.1 o)

  -- A change at `x` and at the last node of `xs` alone leaves `ys` as it was.
  pub Agree-after :
      (xs ys : List ℕ)
      → Fresh x ys
      → Apart xs ys
      → ((y : ℕ) → y ≢ x → last_or none xs ≢ some y → g y ≡ f y)
      → Agree f g ys
  Agree-after xs [] h a o = tt
  Agree-after xs (y ∷ ys) h a o = (
    o y (λ e. h.0 (sym e)) (last_or-ne y none xs (Apart-Fresh y xs ys a) (λ e. cc)),
    Agree-after xs ys h.1 (Apart-tail y xs ys a) o,
  )
