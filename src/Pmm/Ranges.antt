-- ===== src/Pmm/Ranges.antt =====
-- Which frames `pmm_reserve_range` and `pmm_release_range` touch.
use meaty_skeleton.Prelude.{
  ℕ, zero, suc, ◌+◌, ◌-◌, ◌*◌, ◌/◌, ◌%◌, ◌^◌, ◌≤◌, ◌<◌, ◌≡◌, inl, inr, Bool, true, false, ◌&&◌,
  ◌||◌, not, arith, ltb, leb, ◌==◌, Bool-cases, if◌then◌else◌,
}
use meaty_skeleton.Pmm.{
  Bitmap, page_size, max_physical_memory, frame_count, align_down, align_up, frame_mark_used,
  frame_mark_free, frame_is_used, mark_frames, reserve_end, reserve_range, release_end,
  release_range,
}
use meaty_skeleton.Pmm.Marks.{
  IsBytes, frame_mark_used-IsBytes, frame_mark_free-IsBytes, is_used-mark_used, is_used-mark_free,
}

-- A way to mark a frame with `v`.
record Marks (v : Bool) (mark : ℕ → Bitmap → Bitmap) : Type 0 where
  bytes : (f : ℕ) (bitmap : Bitmap) → IsBytes bitmap → IsBytes (mark f bitmap)
  sets :
      (f g : ℕ) (bitmap : Bitmap)
      → IsBytes bitmap
      → frame_is_used (mark f bitmap) g ≡ (if g == f then v else frame_is_used bitmap g)

used-Marks : Marks true frame_mark_used
used-Marks = record {
  bytes = frame_mark_used-IsBytes;
  sets = λ f g bitmap h. ground (arith, is_used-mark_used f g bitmap h);
}

free-Marks : Marks false frame_mark_free
free-Marks = record {
  bytes = frame_mark_free-IsBytes;
  sets = λ f g bitmap h. ground (arith, is_used-mark_free f g bitmap h);
}

mark_frames-IsBytes :
    (v : Bool) (mark : ℕ → Bitmap → Bitmap) (m : Marks v mark) (rounds address end : ℕ)
    (bitmap : Bitmap)
    → IsBytes bitmap
    → IsBytes (mark_frames rounds mark address end bitmap)
unfolding mark_frames
mark_frames-IsBytes v mark m zero address end bitmap h = h
mark_frames-IsBytes v mark m (suc rounds) address end bitmap h =
    elim (Bool-cases (ltb address end)) [
      | inl e ↦ λ i. ground (
        arith,
        mark_frames-IsBytes v mark m rounds ((address + page_size) % 2 ^ 32) end
            (mark (address / page_size) bitmap) (m.bytes (address / page_size) bitmap h) i,
      )
      | inr e ↦ λ i. ground (arith, h i)
    ]

-- The loop marks the frames from `a` to the end, and enough rounds are given when the rounds reach
-- the end.
mark_frames-is_used :
    (v : Bool) (mark : ℕ → Bitmap → Bitmap) (m : Marks v mark) (rounds a end g : ℕ)
    (bitmap : Bitmap)
    → end ≤ max_physical_memory
    → end ≤ (a + rounds) * page_size
    → IsBytes bitmap
    → frame_is_used (mark_frames rounds mark (a * page_size) end bitmap) g
      ≡ (if leb a g && ltb (g * page_size) end then v else frame_is_used bitmap g)
unfolding mark_frames
mark_frames-is_used v mark m zero a end g bitmap he hr h = ground arith
mark_frames-is_used v mark m (suc rounds) a end g bitmap he hr h =
    elim (Bool-cases (ltb (a * page_size) end)) [
      | inl e ↦ ground (
        arith,
        next e,
        m.sets a g bitmap h,
        mark_frames-is_used v mark m rounds (suc a) end g (mark a bitmap) he (omega arith)
            (m.bytes a bitmap h),
      )
      | inr e ↦ ground arith
    ]
  where
    next :
        ltb (a * page_size) end ≡ true
        → ((a * page_size + page_size) % 2 ^ 32 ≡ suc a * page_size)
          × (a * page_size / page_size ≡ a)
    next e = ground arith

-- Does frame `g` share an address with the `length` bytes from `base` on?
abbrev pub overlaps : ℕ → ℕ → ℕ → Bool
overlaps base length g =
    ltb 0 length
    && ltb g frame_count
    && ltb base (g * page_size + page_size)
    && ltb (g * page_size) (base + length)

-- Does frame `g` lie inside the `length` bytes from `base` on?
abbrev pub within : ℕ → ℕ → ℕ → Bool
within base length g =
    ltb g frame_count && leb base (g * page_size) && leb (g * page_size + page_size) (base + length)

reserve_end-bounds : (base length : ℕ) → reserve_end base length ≤ max_physical_memory
unfolding reserve_end
reserve_end-bounds base length = ground arith

release_end-bounds : (base length : ℕ) → release_end base length ≤ max_physical_memory
unfolding release_end
release_end-bounds base length = ground arith

-- The frames between the rounded ends are those that the range overlaps.
reserve_end-overlaps :
    (base length g : ℕ)
    → 0 < length
    → base < max_physical_memory
    → (leb (base / page_size) g && ltb (g * page_size) (reserve_end base length))
      ≡ overlaps base length g
unfolding reserve_end
reserve_end-overlaps base length g hl hb = ground arith

release_end-within :
    (base length g : ℕ)
    → base < max_physical_memory
    → (leb ((base + page_size - 1) / page_size) g && ltb (g * page_size) (release_end base length))
      ≡ within base length g
unfolding release_end
release_end-within base length g hb = ground arith

-- On a bitmap of bytes, `pmm_reserve_range` makes used exactly the frames that the range overlaps,
-- in whole or in part, inside the managed memory, whatever its ends; every other frame is as
-- before.
pub is_used-reserve_range :
    (base length g : ℕ) (bitmap : Bitmap)
    → IsBytes bitmap
    → frame_is_used (reserve_range base length bitmap) g
      ≡ (overlaps base length g || frame_is_used bitmap g)
unfolding reserve_range
is_used-reserve_range base length g bitmap h = ground (
  arith,
  mark_frames-is_used true frame_mark_used used-Marks frame_count (base / page_size)
      (reserve_end base length) g bitmap (reserve_end-bounds base length)
      (omega (arith, reserve_end-bounds base length)) h,
  reserve_end-overlaps base length g,
)

-- On a bitmap of bytes, `pmm_release_range` makes free exactly the frames that lie wholly inside
-- the range and the managed memory; every other frame is as before.
pub is_used-release_range :
    (base length g : ℕ) (bitmap : Bitmap)
    → IsBytes bitmap
    → frame_is_used (release_range base length bitmap) g
      ≡ (not (within base length g) && frame_is_used bitmap g)
unfolding release_range
is_used-release_range base length g bitmap h = ground (
  arith,
  mark_frames-is_used false frame_mark_free free-Marks frame_count
      ((base + page_size - 1) / page_size) (release_end base length) g bitmap
      (release_end-bounds base length) (omega (arith, release_end-bounds base length)) h,
  release_end-within base length g,
)

pub reserve_range-IsBytes :
    (base length : ℕ) (bitmap : Bitmap)
    → IsBytes bitmap
    → IsBytes (reserve_range base length bitmap)
unfolding reserve_range
reserve_range-IsBytes base length bitmap h i = ground (
  arith,
  h i,
  mark_frames-IsBytes true frame_mark_used used-Marks frame_count (align_down base)
      (reserve_end base length) bitmap h i,
)

pub release_range-IsBytes :
    (base length : ℕ) (bitmap : Bitmap)
    → IsBytes bitmap
    → IsBytes (release_range base length bitmap)
unfolding release_range
release_range-IsBytes base length bitmap h i = ground (
  arith,
  h i,
  mark_frames-IsBytes false frame_mark_free free-Marks frame_count (align_up base)
      (release_end base length) bitmap h i,
)
