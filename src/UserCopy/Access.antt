-- ===== src/UserCopy/Access.antt =====
-- A copy reads or writes only what the user program may.
use meaty_skeleton.Prelude.{
  ℕ, ◌+◌, ◌-◌, ◌*◌, ◌^◌, ◌%◌, ◌≤◌, ◌<◌, ◌≡◌, ◌⊎◌, Bool, true, false, Option, some,
}
use meaty_skeleton.Pmm.{page_size}
use meaty_skeleton.UserCopy.Flags.{MayWrite, MayNotWrite}
use meaty_skeleton.UserCopy.{page_of, page_accessible}

-- The `n` pages behind `page`, and `page`, are accessible; or one of them is not.
abbrev Pages : (ℕ → Option ℕ) → Bool → ℕ → ℕ → Option Bool → Type 0
Pages flags writable page n r =
    ((r ≡ some true)
      × ((k : ℕ) → k ≤ n → page_accessible flags writable (page + k * page_size) ≡ true))
    ⊎ ((r ≡ some false)
        × (k : ℕ) × (k ≤ n)
        × (page_accessible flags writable (page + k * page_size) ≡ false))

-- The loop finds every byte of the range accessible.
abbrev Allowed : (ℕ → Option ℕ) → Bool → ℕ → ℕ → Type 0
Allowed flags writable a length =
    (a + length ≤ 2 ^ 32)
    × ((x : ℕ) → a ≤ x → x < a + length → page_accessible flags writable (page_of x) ≡ true)

-- The range leaves the address space, or the loop finds some byte of it not accessible.
abbrev Denied : (ℕ → Option ℕ) → Bool → ℕ → ℕ → Type 0
Denied flags writable a length =
    (2 ^ 32 < a + length)
    ⊎ ((x : ℕ) × (a ≤ x) × (x < a + length) × (page_accessible flags writable (page_of x) ≡ false))

abbrev Decides : (ℕ → Option ℕ) → Bool → ℕ → ℕ → Option Bool → Type 0
Decides flags writable a length r =
    ((r ≡ some true) × Allowed flags writable a length)
    ⊎ ((r ≡ some false) × Denied flags writable a length)

-- The bytes from `to` on are those of `source`, and all the others are as in `memory`.
abbrev pub Holds : ℕ → (ℕ → ℕ) → ℕ → (ℕ → ℕ) → (ℕ → ℕ) → Type 0
Holds to source length memory memory' =
    ((i : ℕ) → i < length → memory' (to + i) ≡ source i)
    × ((x : ℕ) → ((x < to) ⊎ (to + length ≤ x)) → memory' x ≡ memory x)

-- The range lies in the address space and each of its bytes in a page that user programs may write.
abbrev pub Writable : (ℕ → Option ℕ) → ℕ → ℕ → Type 0
Writable flags to length =
    (to + length ≤ 2 ^ 32) × ((x : ℕ) → to ≤ x → x < to + length → MayWrite flags (x - x % 4096))

-- The address is NULL, the range leaves the address space, or some byte of it lies in another page.
abbrev pub Unwritable : (ℕ → Option ℕ) → ℕ → ℕ → Type 0
Unwritable flags to length =
    (to ≡ 0)
    ⊎ ((2 ^ 32 < to + length)
        ⊎ ((x : ℕ) × (to ≤ x) × (x < to + length) × MayNotWrite flags (x - x % 4096)))

-- What a copy to a user program leads to.
abbrev pub CopiesTo : (ℕ → Option ℕ) → ℕ → (ℕ → ℕ) → ℕ → (ℕ → ℕ) → Option (Bool × (ℕ → ℕ)) → Type 0
CopiesTo flags to source length memory r =
    ((length ≡ 0) × (r ≡ some (true, memory)))
    ⊎ (((memory' : ℕ → ℕ) × (r ≡ some (true, memory'))
          × Holds to source length memory memory'
          × Writable flags to length)
        ⊎ ((r ≡ some (false, memory)) × Unwritable flags to length))
