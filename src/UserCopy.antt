-- ===== src/UserCopy.antt =====
-- kernel/kernel/memory/usercopy.c: copies between the kernel and a user program. Addresses and
-- `size_t` have 32 bits. `flags` is `paging_get_effective_flags`: the flags of a mapped page.
pub mod Flags
pub mod Access
use Prim.Native.Nat.{bit_and}
use meaty_skeleton.Prelude.{
  ℕ, zero, suc, ◌+◌, ◌-◌, ◌*◌, ◌/◌, ◌^◌, Bool, true, false, ◌&&◌, ◌||◌, not, Option, none, some,
  ltb, leb, ◌==◌, if◌then◌else◌,
}
use meaty_skeleton.Pmm.{page_size}

abbrev pub page_writable : ℕ
page_writable = 0x002

abbrev pub page_user : ℕ
page_user = 0x004

-- `address & ~(PAGE_SIZE - 1)`.
abbrev pub page_of : ℕ → ℕ
page_of address = address / page_size * page_size

-- What the loop asks of a page.
pub page_accessible : (ℕ → Option ℕ) → Bool → ℕ → Bool
page_accessible flags writable page = elim (flags page) [
  | none ↦ false
  | some f ↦ not (bit_and f page_user == 0) && (not writable || not (bit_and f page_writable == 0))
]

-- `for (;;)`, with a bound on the rounds; `none` means that the bound was met.
pub pages_from : ℕ → (ℕ → Option ℕ) → Bool → ℕ → ℕ → Option Bool
pages_from zero flags writable page last_page = none
pages_from (suc fuel) flags writable page last_page =
    let rest = pages_from fuel flags writable (page + page_size) last_page in
    if not (page_accessible flags writable page)
    then some false
    else if page == last_page
    then some true
    else if ltb (2 ^ 32 - 1 - page_size) page
    then some false
    else rest

pub user_range_accessible : ℕ → (ℕ → Option ℕ) → ℕ → ℕ → Bool → Option Bool
user_range_accessible fuel flags address length writable =
    if length == 0
    then some true
    else if ltb (2 ^ 32 - 1 - (length - 1)) address
    then some false
    else pages_from fuel flags writable (page_of address) (page_of (address + length - 1))

-- `memcpy`, from a buffer to an address and from an address to a buffer.
abbrev pub written : ℕ → ℕ → (ℕ → ℕ) → (ℕ → ℕ) → ℕ → ℕ
written to length source memory a =
    if leb to a && ltb a (to + length) then source (a - to) else memory a

abbrev pub fetched : ℕ → ℕ → (ℕ → ℕ) → (ℕ → ℕ) → ℕ → ℕ
fetched from length memory destination i = if ltb i length then memory (from + i) else destination i

-- The copy behind the check.
pub checked : {A : Type 0} → Option Bool → A → A → Option (Bool × A)
checked none copied old = none
checked (some true) copied old = some (true, copied)
checked (some false) copied old = some (false, old)

-- The result, and the user's memory. NULL is the address 0; the kernel's own pointer is not NULL.
pub copy_to_user : ℕ → (ℕ → Option ℕ) → ℕ → (ℕ → ℕ) → ℕ → (ℕ → ℕ) → Option (Bool × (ℕ → ℕ))
copy_to_user fuel flags destination source length memory =
    if length == 0
    then some (true, memory)
    else if destination == 0
    then some (false, memory)
    else checked (user_range_accessible fuel flags destination length true)
        (written destination length source memory) memory

-- The result, and the kernel's buffer.
pub copy_from_user : ℕ → (ℕ → Option ℕ) → (ℕ → ℕ) → ℕ → ℕ → (ℕ → ℕ) → Option (Bool × (ℕ → ℕ))
copy_from_user fuel flags destination source length memory =
    if length == 0
    then some (true, destination)
    else if source == 0
    then some (false, destination)
    else checked (user_range_accessible fuel flags source length false)
        (fetched source length memory destination) destination
