-- ===== src/Pmm/Boot.antt =====
-- `pmm_initialize` of kernel/kernel/memory/pmm.c, with the structures of
-- kernel/include/kernel/multiboot.h that it reads.
pub mod Safety
use Prim.Native.Nat.{bit_and}
use meaty_skeleton.Prelude.{
  ℕ, zero, suc, ◌+◌, ◌-◌, ◌*◌, ◌/◌, ◌%◌, ◌^◌, Bool, true, false, ◌&&◌, ◌||◌, not, Option, none,
  some, ltb, leb, ◌==◌, if◌then◌else◌, update,
}
use meaty_skeleton.Pmm.{Pmm, Bitmap, max_physical_memory, reserve_range, release_range}

-- What `pmm_initialize` reads of the memory that the boot loader filled.
pub record MmapEntry : Type 0 where
  pub size : ℕ
  pub address : ℕ
  pub length : ℕ
  pub kind : ℕ  -- `type`

pub record MultibootInfo : Type 0 where
  pub flags : ℕ
  pub mmap_addr : ℕ
  pub mmap_lengh : ℕ

-- The memory of the boot loader, and the addresses that the linker gives the kernel's image.
pub record BootMemory : Type 0 where
  pub mbi_at : ℕ → MultibootInfo
  pub entry_at : ℕ → MmapEntry
  pub kernel_start : ℕ
  pub kernel_end : ℕ

abbrev pub multiboot_info_memory_map : ℕ
multiboot_info_memory_map = 2 ^ 6

abbrev pub multiboot_memory_available : ℕ
multiboot_memory_available = 1

-- `sizeof(struct multiboot_info)`: 110 bytes up to the colour data, and its 8.
abbrev pub sizeof_multiboot_info : ℕ
sizeof_multiboot_info = 118

-- `region_end`, after the clipping. The source reads it only under `region_base < MAX_PHYSICAL_MEMORY`.
abbrev pub region_end : MmapEntry → ℕ
region_end entry =
    if ltb max_physical_memory ((entry.address + entry.length) % 2 ^ 64)
    then max_physical_memory
    else (entry.address + entry.length) % 2 ^ 64

-- The three tests that guard the release of an entry's memory.
abbrev pub is_released : MmapEntry → Bool
is_released entry =
    entry.kind == multiboot_memory_available
    && ltb entry.address max_physical_memory
    && ltb entry.address (region_end entry)

-- The body of the loop over the memory map.
pub release_entry : MmapEntry → Pmm → Pmm
release_entry entry pmm =
    if is_released entry
    then record pmm {
      frame_bitmap =
          release_range (entry.address % 2 ^ 32) ((region_end entry - entry.address) % 2 ^ 32)
            pmm.frame_bitmap;
      total_usable_memory = (pmm.total_usable_memory + (region_end entry - entry.address)) % 2 ^ 64;
    }
    else pmm

-- `while (current < end)`, with a bound on the rounds; `none` means that the bound was met.
pub release_map : ℕ → (ℕ → MmapEntry) → ℕ → ℕ → Pmm → Option Pmm
release_map zero entry_at current end pmm = none
release_map (suc fuel) entry_at current end pmm = elim (ltb current end) [
  | true ↦
      release_map fuel entry_at ((current + ((entry_at current).size + 4) % 2 ^ 32) % 2 ^ 32) end
        (release_entry (entry_at current) pmm)
  | false ↦ some pmm
]

-- The four reservations that end `pmm_initialize`.
pub reserve_boot : BootMemory → ℕ → Bitmap → Bitmap
reserve_boot memory mbi bitmap =
    reserve_range (memory.mbi_at mbi).mmap_addr (memory.mbi_at mbi).mmap_lengh (
      reserve_range mbi sizeof_multiboot_info (
        reserve_range memory.kernel_start
          ((memory.kernel_end + 2 ^ 32 - memory.kernel_start) % 2 ^ 32)
          (reserve_range 0 0x100000 bitmap)))

-- The state after the `memset`: every frame is reserved.
abbrev pub all_reserved : Pmm
all_reserved = record { frame_bitmap = λ _. 255; total_usable_memory = 0 }

pub finish_boot : BootMemory → ℕ → Option Pmm → Option Pmm
finish_boot memory mbi none = none
finish_boot memory mbi (some pmm) =
    some (record pmm { frame_bitmap = reserve_boot memory mbi pmm.frame_bitmap })

pub pmm_initialize : ℕ → BootMemory → ℕ → Option Pmm
pmm_initialize fuel memory mbi =
    if bit_and (memory.mbi_at mbi).flags multiboot_info_memory_map == 0
    then some all_reserved
    else finish_boot memory mbi (
        release_map fuel memory.entry_at (memory.mbi_at mbi).mmap_addr
          (((memory.mbi_at mbi).mmap_addr + (memory.mbi_at mbi).mmap_lengh) % 2 ^ 32) all_reserved)
