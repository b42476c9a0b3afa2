-- ===== src/Lib.antt =====
-- A model of the core of the kernel: physical memory, the heap, the scheduler, the primitives on
-- which tasks block and sleep, the copies to and from user programs, the partitions of a disk, the
-- descriptors of files, and the line editor of the keyboard. Paths are from the root of the
-- repository.
--
-- The parts, from the bottom up:
--
-- - Pmm: kernel/kernel/memory/pmm.c, the allocator of physical frames. `frame_bitmap` is a function
--   from indices to bytes, and each function of the source is one under its name less `pmm_`.
--   Pmm/Boot is `pmm_initialize`, with the Multiboot structures as a function from addresses to
--   records. Bits, Marks, Ranges, Frames, Count and Boot/Safety hold the proofs.
-- - Task: the fields of `task_t` (kernel/include/kernel/task.h) that queues and the scheduler keep. A
--   task is named by its address, so that the queues' links through the tasks are the links of the
--   source: a store from addresses to tasks is passed through every operation.
-- - Links: segments linked both ways in such a store, with the lemmas on inserting and removing a
--   node that the run queues, the wait queues, the sleep queue and the heap share.
-- - RoundRobin: kernel/kernel/scheduler/round_robin.c, the run queue of one policy. Defs holds the
--   functions, Refine relates them to a list, Quantum is about the ticks.
-- - Scheduler: kernel/kernel/scheduler/scheduler.c as one CPU runs it. Queues states which tasks
--   stand in which run queue (`Runs`). The idle tasks, which start with `idle_thread`, stand in none,
--   also when they are READY, as kernel/kernel/task/task.c leaves them; Slots, Ready, Pick, Wake and Remove are about it; Switch is
--   the hand-over of the CPU, Policy the change of a policy and the tick of the timer.
-- - WaitQueue: kernel/kernel/task/wait_queue.c, tasks that wait in order, on the scheduler's
--   `scheduler_wake` and `scheduler_block_current_wait`. Mutex (kernel/kernel/task/mutex.c) and
--   Semaphore (kernel/kernel/task/semaphore.c) stand on it; Exclusion and Permits follow every
--   sequence of calls, Calls what one call does to the tasks.
-- - SleepQueue: kernel/kernel/task/sleep_queue.c and kernel/kernel/timer/timer.c. Order states when
--   the links through the tasks are a list that rises by deadline, Linking and Insert are about
--   putting a task into it, Expiry is the tick, Sleep the call `task_sleep`, which gives up the CPU
--   like the other blocking calls, Deadline the arithmetic.
-- - Heap: kernel/kernel/memory/heap.c. The headers of the blocks are a store from addresses to
--   records, the bytes between them another. Tiles says when blocks and memory agree (`IsHeap`),
--   Split, Merge and Free are about the list of blocks; Alloc holds the functions that map pages and
--   give memory, Take, Grow, Expand, Give and Start what they do.
-- - UserCopy: kernel/kernel/memory/usercopy.c. Flags says what the flags of a
--   page allow, Access which bytes a copy may touch.
-- - Block (kernel/kernel/fs/block_device.c) and Partition (kernel/kernel/fs/partition.c): the checked
--   calls of a driver, the partitions as devices on it, and the tables on a disk that name them.
--   Isolation is about reads and writes through partitions; Partition/Gpt holds the readers of the
--   tables, with Fits, Crc and Scan on what they find.
-- - Fd: kernel/kernel/fs/fd.c, the table of descriptors, on vfs.c as the interface `Vfs`. Open is about
--   opening and closing.
-- - LineInput: kernel/kernel/input/keyboard_line.c, `keyboard_read_line` on a list of the results of
--   `keyboard_wait_character`. Editor says what an editor of lines promises, Refine relates the two.
-- - Prelude: numbers, tests, lists, and the store with one write.
-- - Tests: the theorems on a small kernel.
--
-- Concurrency. A critical section under a spin lock is one step of the model. A blocking call is a
-- sequence of rounds: a round of `mutex_lock` or `semaphore_wait` returns or leaves the task in the
-- queue, and other tasks' calls come between two rounds (`Step` and `Reach`). Where a function takes a
-- waiter out under the lock of the queue and calls `scheduler_wake` behind it, the two are one step.
-- A call that gives up the CPU ends in an `Outcome`: it returned, another task runs, or the CPU halts.
--
-- Numbers. `uintptr_t`, `size_t` and `uint32_t` have 32 bits, ticks, sectors and the
-- arithmetic on them 64, with the wrap-around written out.
--
-- Bounds and fuel. The frame loops run over at most `frame_count` frames, which is every frame below
-- the end of the memory. The walk over the memory map has fuel: an entry is at least four bytes
-- long, so a quarter of the map's length and one is enough.
-- The scan and the tick of the sleep queue need one round more than there are sleepers, a search of
-- the heap one more than there are blocks, of which an expansion adds at most one.
-- A copy to a user program checks the pages of its range: two more than its length has whole ones.
-- `wake_all` needs one round more than there are waiters. `mutex_lock` and `semaphore_wait` have
-- fuel for the rounds that follow a refused wait at once; the theorems are about a round.
--
-- Parameters: the contents of the boot loader's memory, the linker's addresses of the image, and
-- `installs`, whether the kernel stack and the address space of a task can be installed, which
-- kernel/arch/i386 and address_space.c do (the kernel halts where they cannot); and `Pager`, what the
-- heap calls of pmm.c and paging.c, on a state of its own: nothing is assumed of its answers. A disk
-- driver is the read and write functions of a `BlockDevice`, on a state of the disk that reads do not
-- change. `Vfs` is what fd.c calls of vfs.c, and `flags` of UserCopy the flags that paging.c gives
-- for a page.
--
-- Not modelled: the other CPUs (the interrupt that asks them to reschedule), the cleanup of a task
-- that was left, the log, `NULL` passed for a queue, a lock or a task, and the rest of the kernel:
-- file systems, processes and address spaces, devices, the graphical desktop, libc and user programs.
pub mod Prelude
pub mod Links
pub mod Pmm
pub mod Heap
pub mod Block
pub mod Partition
pub mod Fd
pub mod UserCopy
pub mod Task
pub mod RoundRobin
pub mod Scheduler
pub mod WaitQueue
pub mod Mutex
pub mod Semaphore
pub mod SleepQueue
pub mod LineInput
pub mod Tests
