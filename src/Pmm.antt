-- ===== src/Pmm.antt =====
-- kernel/kernel/memory/pmm.c: the physical frame allocator, a bitmap with one bit for each 4 KiB
-- frame of the first GiB. `frame_bitmap` is a function from the index to the byte; `uintptr_t` and
-- `size_t` have 32 bits. Each function is one critical section under `pmm_lock`.
pub mod Bits
pub mod Marks
pub mod Ranges
pub mod Frames
pub mod Count
pub mod Boot
use Prim.Native.Nat.{bit_and, bit_or}
use meaty_skeleton.Prelude.{
  ℕ, zero, suc, ◌+◌, ◌-◌, ◌*◌, ◌/◌, ◌%◌, ◌^◌, Bool, true, false, ◌&&◌, ◌||◌, not, Option, none,
  some, ltb, leb, ◌==◌, if◌then◌else◌, update,
}

abbrev pub page_size : ℕ
page_size = 4096

abbrev pub max_physical_memory : ℕ
max_physical_memory = 1024 * 1024 * 1024

abbrev pub frame_count : ℕ
frame_count = max_physical_memory / page_size

-- `frame_bitmap`.
abbrev pub Bitmap : Type 0
Bitmap = ℕ → ℕ

-- The static variables of the file.
pub record Pmm : Type 0 where
  pub frame_bitmap : Bitmap
  pub total_usable_memory : ℕ

-- `value & ~(PAGE_SIZE - 1)` clears the low twelve bits.
abbrev pub align_down : ℕ → ℕ
align_down value = value / page_size * page_size

abbrev pub align_up : ℕ → ℕ
align_up value = (value + page_size - 1) % 2 ^ 32 / page_size * page_size

pub frame_mark_used : ℕ → Bitmap → Bitmap
frame_mark_used frame bitmap =
    update bitmap (frame / 8) (bit_or (bitmap (frame / 8)) (2 ^ (frame % 8)))

-- `(uint8_t)~(1u << k)` is `255 - 2 ^ k`.
pub frame_mark_free : ℕ → Bitmap → Bitmap
frame_mark_free frame bitmap =
    update bitmap (frame / 8) (bit_and (bitmap (frame / 8)) (255 - 2 ^ (frame % 8)))

unfoldable pub frame_is_used : Bitmap → ℕ → Bool
frame_is_used bitmap frame = not (bit_and (bitmap (frame / 8)) (2 ^ (frame % 8)) == 0)

-- `for (address = start; address < end; address += PAGE_SIZE) mark(address / PAGE_SIZE);`
-- The first argument bounds the rounds.
pub mark_frames : ℕ → (ℕ → Bitmap → Bitmap) → ℕ → ℕ → Bitmap → Bitmap
mark_frames zero mark address end bitmap = bitmap
mark_frames (suc rounds) mark address end bitmap = elim (ltb address end) [
  | true ↦
      mark_frames rounds mark ((address + page_size) % 2 ^ 32) end
        (mark (address / page_size) bitmap)
  | false ↦ bitmap
]

-- The end of a range that is reserved: clipped to the memory, and rounded up.
pub reserve_end : ℕ → ℕ → ℕ
reserve_end base length =
    if ltb max_physical_memory length || ltb (max_physical_memory - length) base
    then max_physical_memory
    else if ltb max_physical_memory (align_up ((base + length) % 2 ^ 32))
    then max_physical_memory
    else align_up ((base + length) % 2 ^ 32)

pub reserve_range : ℕ → ℕ → Bitmap → Bitmap
reserve_range base length bitmap =
    if length == 0
    then bitmap
    else if leb max_physical_memory base
    then bitmap
    else mark_frames frame_count frame_mark_used (align_down base) (reserve_end base length) bitmap

-- The end of a range that is released: clipped to the memory, and rounded down.
pub release_end : ℕ → ℕ → ℕ
release_end base length =
    if ltb max_physical_memory length || ltb (max_physical_memory - length) base
    then max_physical_memory
    else if ltb max_physical_memory (align_down ((base + length) % 2 ^ 32))
    then max_physical_memory
    else align_down ((base + length) % 2 ^ 32)

pub release_range : ℕ → ℕ → Bitmap → Bitmap
release_range base length bitmap =
    if length == 0
    then bitmap
    else if leb max_physical_memory base
    then bitmap
    else if leb (release_end base length) (align_up base)
    then bitmap
    else mark_frames frame_count frame_mark_free (align_up base) (release_end base length) bitmap

-- `for (frame = ...; frame < FRAME_COUNT; ++frame) if (!frame_is_used(frame)) ...`, over the
-- `rounds` frames from `frame` on: the first one that is free.
unfoldable pub find_free : ℕ → ℕ → Bitmap → Option ℕ
find_free zero frame bitmap = none
find_free (suc rounds) frame bitmap = elim (frame_is_used bitmap frame) [
  | true ↦ find_free rounds (frame + 1) bitmap
  | false ↦ some frame
]

unfoldable pub allocate_found : Option ℕ → Pmm → ℕ × Pmm
allocate_found none pmm = (0, pmm)
allocate_found (some frame) pmm =
    (frame * page_size, record pmm { frame_bitmap = frame_mark_used frame pmm.frame_bitmap })

-- The address of the frame, 0 if there is none. Frame 0 is never given.
unfoldable pub allocate_frame : Pmm → ℕ × Pmm
allocate_frame pmm = allocate_found (find_free (frame_count - 1) 1 pmm.frame_bitmap) pmm

pub free_frame : ℕ → Pmm → Pmm
free_frame address pmm =
    if not (address % page_size == 0)
    then pmm
    else if address == 0 || leb max_physical_memory address
    then pmm
    else record pmm { frame_bitmap = frame_mark_free (address / page_size) pmm.frame_bitmap }

-- The loop of `pmm_get_free_frame_count`.
pub count_free : ℕ → ℕ → Bitmap → ℕ
count_free zero frame bitmap = 0
count_free (suc rounds) frame bitmap =
    (if frame_is_used bitmap frame then 0 else 1) + count_free rounds (frame + 1) bitmap

pub get_free_frame_count : Pmm → ℕ
get_free_frame_count pmm = count_free frame_count 0 pmm.frame_bitmap

pub get_free_memory : Pmm → ℕ
get_free_memory pmm = get_free_frame_count pmm * page_size % 2 ^ 64

pub get_usable_memory : Pmm → ℕ
get_usable_memory pmm = pmm.total_usable_memory
