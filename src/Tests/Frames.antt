-- ===== src/Tests/Frames.antt =====
-- The frame allocator on a memory with all its frames free, and at a boot with an area of 8 MiB and a reserved one.
use meaty_skeleton.Prelude.{
  ℕ, ◌*◌, ◌≡◌, ◌≢◌, false, ◌&&◌, ◌||◌, not, some, ltb, ◌==◌, if◌then◌else◌, arith,
}
use meaty_skeleton.Pmm.{
  Pmm, page_size, frame_count, frame_is_used, reserve_range, release_range, allocate_frame,
  free_frame, get_free_frame_count, find_free, allocate_found,
}
use meaty_skeleton.Pmm.Marks.{IsBytes}
use meaty_skeleton.Pmm.Ranges.{overlaps, within, is_used-reserve_range, is_used-release_range}
use meaty_skeleton.Pmm.Frames.{Allocates, allocate_frame-Allocates, is_used-free_frame}
use meaty_skeleton.Pmm.Count.{free-allocate}
use meaty_skeleton.Pmm.Boot.{BootMemory, pmm_initialize}
use meaty_skeleton.Pmm.Boot.Safety.{IsEntry-below, Available, NotReserved, pmm_initialize-safe}

abbrev all_free : Pmm
all_free = record { frame_bitmap = λ i. 0; total_usable_memory = 0 }

all_free-IsBytes : IsBytes all_free.frame_bitmap
all_free-IsBytes i = omega arith

abbrev boot : BootMemory
boot = record {
  mbi_at = λ a. record { flags = 64; mmap_addr = 0x9000; mmap_lengh = 48 };
  entry_at = λ a.
      if a == 0x9000
      then record { size = 20; address = 0; length = 0x800000; kind = 1 }
      else record { size = 20; address = 0x800000; length = 0x100000; kind = 2 };
  kernel_start = 0x100000;
  kernel_end = 0x200000;
}

boot_example :
    (pmm : Pmm) × (pmm_initialize 13 boot 0x8000 ≡ some pmm)
    × ((g : ℕ)
        → frame_is_used pmm.frame_bitmap g ≡ false
        → Available boot.entry_at 0x9000 0x9030 g × NotReserved boot 0x8000 g)
boot_example =
    pmm_initialize-safe boot 0x8000 13 (omega arith)
      (λ a i. ground (arith, IsEntry-below boot.entry_at 0x9000 0x9030 a i))

allocate_example : Allocates all_free (allocate_frame all_free)
allocate_example = allocate_frame-Allocates all_free all_free-IsBytes

free_example : frame_is_used (free_frame 8192 all_free).frame_bitmap 2 ≡ (
    not (2 * page_size == 8192 && ltb 0 2 && ltb 2 frame_count)
    && frame_is_used all_free.frame_bitmap 2)
free_example = is_used-free_frame 8192 2 all_free all_free-IsBytes

free_allocated_example :
    (frame_is_used
        (free_frame (allocate_frame all_free).0 (allocate_frame all_free).1).frame_bitmap
        1
      ≡ frame_is_used all_free.frame_bitmap 1)
    × (get_free_frame_count (free_frame (allocate_frame all_free).0 (allocate_frame all_free).1)
        ≡ get_free_frame_count all_free)
free_allocated_example = free-allocate all_free 1 all_free-IsBytes

allocated-address : (allocate_frame all_free).0 ≢ 0
unfolding allocate_frame find_free frame_is_used allocate_found
allocated-address e = omega arith

reserve_example :
    frame_is_used (reserve_range 4100 4096 all_free.frame_bitmap) 2
    ≡ (overlaps 4100 4096 2 || frame_is_used all_free.frame_bitmap 2)
reserve_example = is_used-reserve_range 4100 4096 2 all_free.frame_bitmap all_free-IsBytes

release_example :
    frame_is_used (release_range 4096 8192 all_free.frame_bitmap) 2
    ≡ (not (within 4096 8192 2) && frame_is_used all_free.frame_bitmap 2)
release_example = is_used-release_range 4096 8192 2 all_free.frame_bitmap all_free-IsBytes
