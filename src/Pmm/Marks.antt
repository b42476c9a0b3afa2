-- ===== src/Pmm/Marks.antt =====
-- What marking one frame does to every frame of the bitmap.
use meaty_skeleton.Prelude.{ℕ, ◌/◌, ◌%◌, ◌<◌, ◌≡◌, ◌&&◌, ◌||◌, true, not, arith, ◌==◌}
use meaty_skeleton.Pmm.{Bitmap, frame_mark_used, frame_mark_free, frame_is_used}
use meaty_skeleton.Pmm.Bits.{bit_of-set, set-lt, bit_of-clear, clear-lt, bit_of-ones}

-- Every entry of `frame_bitmap` is a `uint8_t`.
abbrev pub IsBytes : Bitmap → Type 0
IsBytes bitmap = (i : ℕ) → bitmap i < 256

pub frame_mark_used-IsBytes :
    (f : ℕ) (bitmap : Bitmap) → IsBytes bitmap → IsBytes (frame_mark_used f bitmap)
unfolding frame_mark_used
frame_mark_used-IsBytes f bitmap h i =
    ground (arith, h i, set-lt (bitmap (f / 8)) (f % 8) (h (f / 8)) (omega arith))

pub frame_mark_free-IsBytes :
    (f : ℕ) (bitmap : Bitmap) → IsBytes bitmap → IsBytes (frame_mark_free f bitmap)
unfolding frame_mark_free
frame_mark_free-IsBytes f bitmap h i =
    ground (arith, h i, clear-lt (bitmap (f / 8)) (f % 8) (h (f / 8)) (omega arith))

-- After `frame_mark_used f` frame `f` is used, and every other frame is as before.
pub is_used-mark_used :
    (f g : ℕ) (bitmap : Bitmap)
    → IsBytes bitmap
    → frame_is_used (frame_mark_used f bitmap) g ≡ (g == f || frame_is_used bitmap g)
unfolding frame_mark_used frame_is_used
is_used-mark_used f g bitmap h =
    ground
      (arith, bit_of-set (bitmap (f / 8)) (f % 8) (g % 8) (h (f / 8)) (omega arith) (omega arith))

-- After `frame_mark_free f` frame `f` is free, and every other frame is as before.
pub is_used-mark_free :
    (f g : ℕ) (bitmap : Bitmap)
    → IsBytes bitmap
    → frame_is_used (frame_mark_free f bitmap) g ≡ (not (g == f) && frame_is_used bitmap g)
unfolding frame_mark_free frame_is_used
is_used-mark_free f g bitmap h =
    ground
      (arith, bit_of-clear (bitmap (f / 8)) (f % 8) (g % 8) (h (f / 8)) (omega arith) (omega arith))

-- The `memset` to 0xFF makes every frame used.
pub is_used-ones : (g : ℕ) → frame_is_used (λ _. 255) g ≡ true
unfolding frame_is_used
is_used-ones g = bit_of-ones (g % 8) (omega arith)
