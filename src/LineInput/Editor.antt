-- ===== src/LineInput/Editor.antt =====
-- What the line editor promises: a text of printable characters that fits the buffer.
use meaty_skeleton.Prelude.{
  ℕ, ◌-◌, ◌≤◌, ◌≡◌, refl, ap, Bool, true, false, Option, none, some, List, [], ◌∷◌, ◌++◌, leb, ◌==◌,
  arith, if◌then◌else◌, length, not,
}
use meaty_skeleton.LineInput.{line_character_is_printable}

abbrev pub drop_last : List ℕ → List ℕ
drop_last [] = []
drop_last (x ∷ []) = []
drop_last (x ∷ y ∷ xs) = x ∷ drop_last (y ∷ xs)

pub drop_last-snoc : (c : ℕ) (xs : List ℕ) → drop_last (xs ++ c ∷ []) ≡ xs
drop_last-snoc c [] = refl
drop_last-snoc c (x ∷ []) = refl
drop_last-snoc c (x ∷ y ∷ xs) = ap (λ k. x ∷ k) (drop_last-snoc c (y ∷ xs))

-- One key of the user: Backspace erases the last character, a printable character is added while
-- there is room for it and the final zero, any other is ignored.
unfoldable pub type_key : ℕ → ℕ → List ℕ → List ℕ
type_key capacity c text =
    if c == 0x08
    then drop_last text
    else if not (line_character_is_printable c)
    then text
    else if leb (capacity - 1) (length text)
    then text
    else text ++ c ∷ []

-- The keys up to Enter or to a failure of the keyboard: how the line ends, and its text.
unfoldable pub type_line : ℕ → List (Option ℕ) → List ℕ → Option Bool × List ℕ
type_line capacity [] text = (none, text)
type_line capacity (none ∷ input) text = (some false, text)
type_line capacity (some c ∷ input) text =
    let rest = type_line capacity input (type_key capacity c text) in
    if c == 0x0a then (some true, text) else rest

abbrev pub AllPrintable : List ℕ → Type 0
AllPrintable [] = Unit {0}
AllPrintable (x ∷ xs) = (0x20 ≤ x) × (x ≤ 0x7e) × AllPrintable xs

AllPrintable-snoc :
    (c : ℕ) (xs : List ℕ) → AllPrintable xs → 0x20 ≤ c → c ≤ 0x7e → AllPrintable (xs ++ c ∷ [])
AllPrintable-snoc c [] a l u = (l, u, tt)
AllPrintable-snoc c (x ∷ xs) a l u = (a.0, a.1, AllPrintable-snoc c xs a.2 l u)

AllPrintable-drop_last : (xs : List ℕ) → AllPrintable xs → AllPrintable (drop_last xs)
AllPrintable-drop_last [] a = tt
AllPrintable-drop_last (x ∷ []) a = tt
AllPrintable-drop_last (x ∷ y ∷ xs) a = (a.0, a.1, AllPrintable-drop_last (y ∷ xs) a.2)

type_key-AllPrintable :
    (capacity c : ℕ) (text : List ℕ) → AllPrintable text → AllPrintable (type_key capacity c text)
unfolding type_key line_character_is_printable
type_key-AllPrintable capacity c text a =
    ground (arith, AllPrintable-drop_last text a, AllPrintable-snoc c text a)

pub type_line-AllPrintable :
    (capacity : ℕ) (input : List (Option ℕ)) (text : List ℕ)
    → AllPrintable text
    → AllPrintable (type_line capacity input text).1
unfolding type_line
type_line-AllPrintable capacity [] text a = a
type_line-AllPrintable capacity (none ∷ input) text a = a
type_line-AllPrintable capacity (some c ∷ input) text a = ground (
  arith,
  a,
  type_line-AllPrintable capacity input (type_key capacity c text)
      (type_key-AllPrintable capacity c text a),
)
