-- ===== src/UserCopy/Flags.antt =====
-- What the tests of single flags say of the binary digits of the flags of a page.
use Prim.Native.Nat.{bit_and, bit_and-bitwise, digits}
use meaty_skeleton.Prelude.{
  ℕ, zero, suc, ◌*◌, ◌/◌, ◌%◌, ◌≤◌, ◌≡◌, ◌⊎◌, refl, ◌∙◌, inl, inr, true, false, Option, none, some,
  min, ◌==◌, arith, Option-cases, Bool-cases,
}
use meaty_skeleton.UserCopy.{page_accessible}

abbrev and_digits : ℕ → ℕ → ℕ → ℕ
and_digits n a b = digits (λ b. zero) min n a b

and_0 : (n a : ℕ) → and_digits n a 0 ≡ 0
and_0 zero a = refl
and_0 (suc n) zero = refl
and_0 (suc n) (suc a) = omega (arith, and_0 n (suc a / 2))

and_1 : (n a : ℕ) → a ≤ n → and_digits n a 1 ≡ a % 2
and_1 zero a l = omega arith
and_1 (suc n) zero l = refl
and_1 (suc n) (suc a) l = omega (arith, and_0 n (suc a / 2))

and_2 : (n a : ℕ) → a ≤ n → and_digits n a 2 ≡ a / 2 % 2 * 2
and_2 zero a l = omega arith
and_2 (suc n) zero l = refl
and_2 (suc n) (suc a) l = omega (arith, and_1 n (suc a / 2) (omega arith))

and_4 : (n a : ℕ) → a ≤ n → and_digits n a 4 ≡ a / 4 % 2 * 4
and_4 zero a l = omega arith
and_4 (suc n) zero l = refl
and_4 (suc n) (suc a) l = omega (arith, and_2 n (suc a / 2) (omega arith))

and_user : (f : ℕ) → bit_and f 4 ≡ f / 4 % 2 * 4
and_user f = bit_and-bitwise f 4 ∙ and_4 f f (omega arith)

and_writable : (f : ℕ) → bit_and f 2 ≡ f / 2 % 2 * 2
and_writable f = bit_and-bitwise f 2 ∙ and_2 f f (omega arith)

-- A page that is mapped, for user programs (the third binary digit of its flags), and writable (the
-- second).
abbrev pub MayWrite : (ℕ → Option ℕ) → ℕ → Type 0
MayWrite flags page = (f : ℕ) × (flags page ≡ some f) × (f / 4 % 2 ≡ 1) × (f / 2 % 2 ≡ 1)

-- A page that is not mapped, or lacks one of the two.
abbrev pub MayNotWrite : (ℕ → Option ℕ) → ℕ → Type 0
MayNotWrite flags page =
    (flags page ≡ none) ⊎ ((f : ℕ) × (flags page ≡ some f) × ((f / 4 % 2 ≡ 0) ⊎ (f / 2 % 2 ≡ 0)))

pub MayWrite-of_accessible :
    (flags : ℕ → Option ℕ) (page : ℕ) → page_accessible flags true page ≡ true → MayWrite flags page
unfolding page_accessible
MayWrite-of_accessible flags page e = elim (Option-cases (flags page)) [
  | inl n ↦ absurd (ground arith)
  | inr (f, s) ↦
      (f, s, ground (arith, and_user f, and_writable f), ground (arith, and_user f, and_writable f))
]

pub MayNotWrite-of_accessible :
    (flags : ℕ → Option ℕ) (page : ℕ)
    → page_accessible flags true page ≡ false
    → MayNotWrite flags page
unfolding page_accessible
MayNotWrite-of_accessible flags page e = elim (Option-cases (flags page)) [
  | inl n ↦ inl n
  | inr (f, s) ↦ inr (
    f,
    s,
    elim (Bool-cases (f / 4 % 2 == 0)) [
      | inl z ↦ inl (ground arith)
      | inr z ↦ inr (ground (arith, and_user f, and_writable f))
    ],
  )
]
