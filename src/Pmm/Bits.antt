-- ===== src/Pmm/Bits.antt =====
-- One bit of a byte: the laws of the three expressions that pmm.c is made of, by evaluation at
-- every byte and every pair of bit positions.
use Prim.Native.Nat.{bit_and, bit_or}
use meaty_skeleton.Prelude.{
  ℕ, zero, suc, ◌-◌, ◌^◌, ◌<◌, ◌≡◌, refl, Bool, true, false, ◌&&◌, ◌||◌, not, arith, ltb, ◌==◌,
  ltb→lt,
}

-- The conjunction of a test over the numbers up to `bound`.
conjoin : (ℕ → Bool) → ℕ → Bool
conjoin test zero = true
conjoin test (suc bound) = conjoin test bound && test bound

conjoin_at :
    (test : ℕ → Bool) {bound : ℕ} → conjoin test bound ≡ true → (i : ℕ) → i < bound → test i ≡ true
unfolding conjoin
conjoin_at test {bound = zero} every i less = absurd (omega arith)
conjoin_at test {bound = suc bound} every i less =
    ground (arith, conjoin_at test {bound = bound} (ground arith) i)

-- Is bit `k` of the byte `b` set?
abbrev pub bit_of : ℕ → ℕ → Bool
bit_of b k = not (bit_and b (2 ^ k) == 0)

same : Bool → Bool → Bool
same true b = b
same false b = not b

same_eq : (a b : Bool) → same a b ≡ true → a ≡ b
unfolding same
same_eq a b h = ground arith

-- A property of a byte and two bit positions, at all of them.
table : (ℕ → ℕ → ℕ → Bool) → Bool
table row = conjoin (λ b. conjoin (λ k. conjoin (row b k) 8) 8) 256

table_sound :
    (row : ℕ → ℕ → ℕ → Bool) (b k j : ℕ)
    → table row ≡ true
    → b < 256
    → k < 8
    → j < 8
    → row b k j ≡ true
unfolding table
table_sound row b k j t hb hk hj =
    conjoin_at (row b k)
      (conjoin_at (λ k. conjoin (row b k) 8)
        (conjoin_at (λ b. conjoin (λ k. conjoin (row b k) 8) 8) t b hb) k hk)
      j hj

abbrev set_row : ℕ → ℕ → ℕ → Bool
set_row b k j =
    ltb (bit_or b (2 ^ k)) 256 && same (bit_of (bit_or b (2 ^ k)) j) (j == k || bit_of b j)

abbrev clear_row : ℕ → ℕ → ℕ → Bool
clear_row b k j =
    ltb (bit_and b (255 - 2 ^ k)) 256
    && same (bit_of (bit_and b (255 - 2 ^ k)) j) (not (j == k) && bit_of b j)

set_table : table set_row ≡ true
unfolding table conjoin same
set_table = refl

clear_table : table clear_row ≡ true
unfolding table conjoin same
clear_table = refl

and_left : (a b : Bool) → (a && b) ≡ true → a ≡ true
and_left true b h = refl
and_left false b h = h

and_right : (a b : Bool) → (a && b) ≡ true → b ≡ true
and_right true b h = h
and_right false b h = cc

-- Setting bit `k` gives a byte whose bit `j` is set if `j` is `k`, or if it was.
pub bit_of-set :
    (b k j : ℕ) → b < 256 → k < 8 → j < 8 → bit_of (bit_or b (2 ^ k)) j ≡ (j == k || bit_of b j)
bit_of-set b k j hb hk hj =
    same_eq _ _ (and_right _ _ (table_sound set_row b k j set_table hb hk hj))

pub set-lt : (b k : ℕ) → b < 256 → k < 8 → bit_or b (2 ^ k) < 256
set-lt b k hb hk =
    ltb→lt _ _ (and_left _ _ (table_sound set_row b k 0 set_table hb hk (omega arith)))

-- Clearing bit `k` gives a byte whose other bits are as before.
pub bit_of-clear :
    (b k j : ℕ)
    → b < 256
    → k < 8
    → j < 8
    → bit_of (bit_and b (255 - 2 ^ k)) j ≡ (not (j == k) && bit_of b j)
bit_of-clear b k j hb hk hj =
    same_eq _ _ (and_right _ _ (table_sound clear_row b k j clear_table hb hk hj))

pub clear-lt : (b k : ℕ) → b < 256 → k < 8 → bit_and b (255 - 2 ^ k) < 256
clear-lt b k hb hk =
    ltb→lt _ _ (and_left _ _ (table_sound clear_row b k 0 clear_table hb hk (omega arith)))

ones_table : conjoin (λ k. bit_of 255 k) 8 ≡ true
unfolding conjoin
ones_table = refl

pub bit_of-ones : (k : ℕ) → k < 8 → bit_of 255 k ≡ true
bit_of-ones k h = conjoin_at (λ i. bit_of 255 i) ones_table k h
