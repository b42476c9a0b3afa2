-- ===== src/Pmm/Count.antt =====
-- How the number of free frames follows allocation and release.
use meaty_skeleton.Prelude.{
  ℕ, zero, suc, ◌+◌, ◌≤◌, ◌<◌, ◌≡◌, ◌≢◌, inl, inr, refl, false, ◌||◌, arith, ◌==◌, Bool-cases,
}
use meaty_skeleton.Pmm.{
  Pmm, Bitmap, frame_count, frame_is_used, allocate_frame, free_frame, count_free,
  get_free_frame_count,
}
use meaty_skeleton.Pmm.Marks.{IsBytes}
use meaty_skeleton.Pmm.Frames.{allocate_frame-Allocates, allocate_frame-IsBytes, is_used-free_frame}

-- Where two bitmaps agree on the frames that are counted, so do the counts.
count_free-congr :
    (rounds a : ℕ) (x y : Bitmap)
    → ((g : ℕ) → a ≤ g → g < a + rounds → frame_is_used x g ≡ frame_is_used y g)
    → count_free rounds a x ≡ count_free rounds a y
unfolding count_free
count_free-congr zero a x y h = refl
count_free-congr (suc rounds) a x y h = ground (
  arith,
  h a (omega arith) (omega arith),
  count_free-congr rounds (a + 1) x y (λ g p q. h g (omega arith) (omega arith)),
)

-- Where they differ in one frame of those, the counts differ by one.
count_free-suc :
    (rounds a f : ℕ) (x y : Bitmap)
    → a ≤ f
    → f < a + rounds
    → frame_is_used x f ≡ false
    → ((g : ℕ) → frame_is_used y g ≡ (g == f || frame_is_used x g))
    → count_free rounds a x ≡ count_free rounds a y + 1
unfolding count_free
count_free-suc zero a f x y l u e h = absurd (omega arith)
count_free-suc (suc rounds) a f x y l u e h = elim (Bool-cases (a == f)) [
  | inl i ↦ ground (arith, h a, count_free-congr rounds (a + 1) x y (λ g p q. ground (arith, h g)))
  | inr n ↦
      ground (arith, h a, count_free-suc rounds (a + 1) f x y (ground arith) (omega arith) e h)
]

-- On a bitmap of bytes, a frame that `pmm_allocate_frame` gives makes the number of free frames
-- fall by one.
count-allocate :
    (pmm : Pmm)
    → IsBytes pmm.frame_bitmap
    → (allocate_frame pmm).0 ≢ 0
    → get_free_frame_count pmm ≡ get_free_frame_count (allocate_frame pmm).1 + 1
unfolding get_free_frame_count
count-allocate pmm h ne = elim (allocate_frame-Allocates pmm h) [
  | inl (_, e, _) ↦ absurd (ne e)
  | inr (f, _, l, u, e, _, s) ↦ count_free-suc frame_count 0 f _ _ (omega arith) u e s
]

-- On a bitmap of bytes, giving back the address that `pmm_allocate_frame` returned leaves every
-- frame as it was before the allocation, and so the number of free frames.
pub free-allocate :
    (pmm : Pmm) (g : ℕ)
    → IsBytes pmm.frame_bitmap
    → let (address, pmm') = allocate_frame pmm in
      (frame_is_used (free_frame address pmm').frame_bitmap g ≡ frame_is_used pmm.frame_bitmap g)
      × (get_free_frame_count (free_frame address pmm') ≡ get_free_frame_count pmm)
unfolding get_free_frame_count
free-allocate pmm g h = (back g, count_free-congr frame_count 0 _ _ (λ k p q. back k))
  where
    back :
        (k : ℕ)
        → frame_is_used (free_frame (allocate_frame pmm).0 (allocate_frame pmm).1).frame_bitmap k
          ≡ frame_is_used pmm.frame_bitmap k
    back k = elim (allocate_frame-Allocates pmm h) [
      | inl (_, e, s) ↦ ground (
        arith,
        is_used-free_frame (allocate_frame pmm).0 k (allocate_frame pmm).1
            (allocate_frame-IsBytes pmm h),
      )
      | inr (f, e, l, u, n, _, s) ↦ ground (
        arith,
        s k,
        is_used-free_frame (allocate_frame pmm).0 k (allocate_frame pmm).1
            (allocate_frame-IsBytes pmm h),
      )
    ]
