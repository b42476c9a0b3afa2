-- ===== src/Pmm/Frames.antt =====
-- The frames that `pmm_allocate_frame` gives and `pmm_free_frame` takes back, and their number.
use meaty_skeleton.Prelude.{
  ℕ, zero, suc, ◌+◌, ◌-◌, ◌*◌, ◌/◌, ◌≤◌, ◌<◌, ◌≡◌, ◌⊎◌, inl, inr, refl, true, false, ◌&&◌, ◌||◌,
  not, arith, ltb, ◌==◌, Bool-cases, Option, none, some,
}
use meaty_skeleton.Pmm.{
  Pmm, Bitmap, page_size, frame_count, frame_is_used, find_free, allocate_found, allocate_frame,
  free_frame,
}
use meaty_skeleton.Pmm.Marks.{
  IsBytes, frame_mark_used-IsBytes, frame_mark_free-IsBytes, is_used-mark_used, is_used-mark_free,
}

-- Every frame from `a` up to `b` is used.
abbrev pub AllUsed : Bitmap → ℕ → ℕ → Type 0
AllUsed bitmap a b = (g : ℕ) → a ≤ g → g < b → frame_is_used bitmap g ≡ true

-- What the search of `rounds` frames from `frame` on may find.
abbrev pub Found : Bitmap → ℕ → ℕ → Option ℕ → Type 0
Found bitmap rounds frame none = AllUsed bitmap frame (frame + rounds)
Found bitmap rounds frame (some f) =
    (frame ≤ f) × (f < frame + rounds) × (frame_is_used bitmap f ≡ false) × AllUsed bitmap frame f

AllUsed-suc :
    (bitmap : Bitmap) (a b : ℕ)
    → frame_is_used bitmap a ≡ true
    → AllUsed bitmap (a + 1) b
    → AllUsed bitmap a b
AllUsed-suc bitmap a b e h g p q = elim (Bool-cases (g == a)) [
  | inl i ↦ ground arith
  | inr n ↦ h g (ground arith) q
]

Found-suc :
    (bitmap : Bitmap) (rounds frame : ℕ) (r : Option ℕ)
    → frame_is_used bitmap frame ≡ true
    → Found bitmap rounds (frame + 1) r
    → Found bitmap (suc rounds) frame r
Found-suc bitmap rounds frame none e h = AllUsed-suc bitmap frame _ e (λ g p q. h g p (omega arith))
Found-suc bitmap rounds frame (some f) e h =
    (omega arith, omega arith, h.2, AllUsed-suc bitmap frame f e h.3)

pub find_free-Found :
    (rounds frame : ℕ) (bitmap : Bitmap) → Found bitmap rounds frame (find_free rounds frame bitmap)
unfolding find_free
find_free-Found zero frame bitmap = λ g p q. absurd (omega arith)
find_free-Found (suc rounds) frame bitmap = elim (Bool-cases (frame_is_used bitmap frame)) [
  | inl e ↦
      rw (e, find_free)
        (Found-suc bitmap rounds frame _ e (find_free-Found rounds (frame + 1) bitmap))
  | inr e ↦ rw (e, find_free) (omega arith, omega arith, e, λ g p q. absurd (omega arith))
]

-- The two ways in which an allocation may end: with no frame, or with the lowest free one.
abbrev pub Allocates : Pmm → ℕ × Pmm → Type 0
Allocates pmm (address, pmm') =
    (AllUsed pmm.frame_bitmap 1 frame_count × (address ≡ 0) × (pmm' ≡ pmm))
    ⊎ ((f : ℕ) × (address ≡ f * page_size)
        × (1 ≤ f)
        × (f < frame_count)
        × (frame_is_used pmm.frame_bitmap f ≡ false)
        × AllUsed pmm.frame_bitmap 1 f
        × ((g : ℕ)
            → frame_is_used pmm'.frame_bitmap g ≡ (g == f || frame_is_used pmm.frame_bitmap g)))

allocate_found-Allocates :
    (r : Option ℕ) (pmm : Pmm)
    → IsBytes pmm.frame_bitmap
    → Found pmm.frame_bitmap (frame_count - 1) 1 r
    → Allocates pmm (allocate_found r pmm)
unfolding allocate_found
allocate_found-Allocates none pmm h w = inl (λ g p q. w g p (omega arith), refl, refl)
allocate_found-Allocates (some f) pmm h w =
    inr (f, refl, w.0, omega arith, w.2, w.3, λ g. is_used-mark_used f g pmm.frame_bitmap h)

-- `pmm_allocate_frame`, on a bitmap of bytes: either every frame above the first is used, the
-- result is 0 and nothing changes, or the result is the address of the lowest free frame above the
-- first, which is used from then on while every other frame is as before.
pub allocate_frame-Allocates :
    (pmm : Pmm) → IsBytes pmm.frame_bitmap → Allocates pmm (allocate_frame pmm)
unfolding allocate_frame
allocate_frame-Allocates pmm h =
    allocate_found-Allocates _ pmm h (find_free-Found (frame_count - 1) 1 pmm.frame_bitmap)

pub allocate_frame-IsBytes :
    (pmm : Pmm) → IsBytes pmm.frame_bitmap → IsBytes (allocate_frame pmm).1.frame_bitmap
unfolding allocate_frame allocate_found
allocate_frame-IsBytes pmm h i =
    elim (find_free (frame_count - 1) 1 pmm.frame_bitmap)
      as (λ r. (allocate_found r pmm).1.frame_bitmap i < 256) [
        | none ↦ h i
        | some f ↦ frame_mark_used-IsBytes f pmm.frame_bitmap h i
      ]

pub free_frame-IsBytes :
    (a : ℕ) (pmm : Pmm) → IsBytes pmm.frame_bitmap → IsBytes (free_frame a pmm).frame_bitmap
unfolding free_frame
free_frame-IsBytes a pmm h i =
    ground (arith, h i, frame_mark_free-IsBytes (a / page_size) pmm.frame_bitmap h i)

-- On a bitmap of bytes, `pmm_free_frame` frees the frame at an aligned address of the managed
-- memory, frame 0 excepted, and nothing else; any other address changes nothing.
pub is_used-free_frame :
    (address g : ℕ) (pmm : Pmm)
    → IsBytes pmm.frame_bitmap
    → frame_is_used (free_frame address pmm).frame_bitmap g ≡ (
        not (g * page_size == address && ltb 0 g && ltb g frame_count)
        && frame_is_used pmm.frame_bitmap g)
unfolding free_frame
is_used-free_frame address g pmm h =
    ground (arith, is_used-mark_free (address / page_size) g pmm.frame_bitmap h)
