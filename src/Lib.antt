-- ===== src/Lib.antt =====
-- rv-mini-os: a small operating system for RISC-V, and what its kernel's core does.
--
-- The parts and their files (paths from the root of the repository):
-- * Clist models src/lib/clist.c, the intrusive circular lists that all queues of the kernel are
--   made of: one array for each field of a node, one write for each assignment. Its children:
--   Ring (the list a sentinel stands for), Insert, Push, Remove, Search, Sorted, Walk.
-- * Task models the state and the queues of a task: src/kernel/core/task/task.c, with
--   src/include/kernel/task.h, and the globals of the scheduler. Here a list is the list of its
--   owners; the theorems on Clist are the reason that this is the same.
-- * Sched models src/kernel/core/sched/scheduler.c, function by function. Its children: Highest
--   (the tracked priority), Switch (giving up the processor), Block, Sleep, Wake and Pass.
-- * Sync models src/kernel/core/sync: spinlocks, wait queues, mutexes and semaphores, which call the
--   scheduler. MutexSpec and SemSpec say what they promise; MutexLaws, MutexUnlock, SemLaws and
--   SemPost refine it, by way of Unlock, Blocking and Waking.
-- * Arith models src/lib/stdfct.c, multiplication and division by shifts, for 32 and 64 bits.
-- * Fs models the file system. Its children: Bcache (src/kernel/core/fs/bcache.c), Bitmap
--   (src/lib/bitmap.c), Balloc (src/kernel/core/fs/balloc.c), Layout (the bytes of an inode, from
--   src/include/kernel/fs_layout.h), Inode, Blocks and ReadWrite (src/kernel/core/fs/inode.c), Paths
--   (src/kernel/core/fs/fs.c). Each calls the ones before it. Contents says what a block cache shows
--   of its disk, and Used which data blocks the bitmaps say are in use; ReadBack, Kept, Transparent,
--   Writes, Synced, Bits, FirstZero, Allocated, Freed, BlockGiven, Invalid and Amount have the proofs.
-- * Pages models src/kernel/core/memory/pages.c, the allocation of pages by reference counts; its
--   child Counts has the proofs.
-- * Vpages models src/kernel/core/memory/vpages.c, the page tables; its child Copy has the copies to
--   and from users and of whole address spaces. Tree says when tables form an Sv39 tree; Reach,
--   Grow, GrowTree, NewTable, Alloc, Write and OffTree have the proofs, by which Map, Range,
--   Unmap, Cow, Dangling and SamePage say what the calls do.
-- * Mmap models src/kernel/core/memory/mmap.c, the maps of the kernel and of a task;
--   Mmap.Fresh has the proofs.
-- * Elf models src/kernel/core/memory/elf.c, the loader.
-- * Files models src/kernel/core/fs/file.c, open files, on Fs; Files.Errors has the proofs.
-- * Fds models the file descriptors at the end of src/kernel/core/task/task.c; Fds.Give has the
--   proofs.
-- * Uart models the ring of received characters in src/kernel/drivers/uart/ns16550.c, and its child
--   Input the daemon that fills it and the reader, on Sync; Queue and Received have the proofs.
-- * Console models the callbacks of the console file in src/kernel/drivers/console/bochs.c, on Display,
--   Uart and Vpages; Console.Reads has the proofs.
-- * Blk models src/kernel/drivers/blk/virtio_blk.c, the queue shared with the disk, with virtio.h of the
--   same folder; its child Requests has the calls that wait, and Setup, Chains, Submit, Release and
--   Complete have the proofs.
-- * Display models the text console of src/kernel/drivers/console/bochs.c; its children Glyph, Cursor,
--   Text and Scroll have the proofs.
-- * Proc models the life of a task, the rest of src/kernel/core/task/task.c: a World has the kernel of
--   the scheduler, the pages, the open files and the task table. Its children: Start, Clone,
--   Exec, Wait (src/kernel/core/syscall/sys_sync.c), and Group, which has the proofs.
-- * Syscalls models src/kernel/core/syscall/sys_io.c and sys_proc.c, on Proc.
--   Its child Dispatch has the table of syscall.c.
-- * Trap models src/arch/trap.c: a Machine has a World, what the interrupts work on, and the frames of
--   tasks; usertrap calls Syscalls, Vpages, Proc, Plic, Time, Uart and Blk. Trap.Faults has the proofs.
-- * Time models the timer's interrupt and the tick daemon of src/kernel/core/time/time.c, on Sync.
-- * Plic models src/arch/plic.c, the registers of the interrupt controller.
-- * Shell models src/user/src/parser.c, the command lines of the user's shell, and Shell.Line has the
--   proofs.
-- * Err has the results and the error numbers of src/include/lib/err.h.
-- * Prelude has the shared names, Boolean tests and lemmas on lists.
--
-- A task, a lock or a node is named by its address, a number, and NULL is 0. A loop over a list in
-- the store runs on fuel, and fuel greater than the length of the list is enough; the loops of Arith
-- run on the width of a word. A call that switches to another task ends there, with the state that
-- the other task meets, and what follows in the source runs when the caller is resumed. Interrupt
-- masking is not modelled: a function that masks interrupts is one step. A fault, such as a switch
-- to an empty queue or a second lock of a spinlock on the one hart, is `none`.
-- In Fs one task runs, so `none` is also the wait for a mutex that is held; the disk is a table of
-- the blocks from each sector on, with a test that says for which sector a request fails. The count
-- of a semaphore is an `int`, whose overflow is a fault. A walk over a wait queue that a switch stops
-- before its end is outside of the model. The memory behind the display is taken to be writable.
--
-- The buffer of a read or a write is an interface, Fs.ReadWrite.Buffer, with a buffer of the kernel,
-- one of a user's address space and, in Elf, a page as its implementations. The loops over the bytes
-- of a file run on as much fuel as there are bytes, and each round does one at least. The callbacks
-- of devices, the font and the symbols of the linker are parameters. The interrupt of the disk runs on
-- fuel for the 2^16 values of its index.
--
-- Not modelled: names of tasks and what is written in their frames but by a system call's return, the
-- start of the kernel, the registers of devices, the assembly, the other user programs, and the
-- vendored libraries (string.c from klibc, strtoul.c, doprnt.c, tinyalloc.c, Unity).
pub mod Arith
pub mod Blk
pub mod Clist
pub mod Console
pub mod Display
pub mod Elf
pub mod Err
pub mod Fds
pub mod Files
pub mod Fs
pub mod Mmap
pub mod Pages
pub mod Plic
pub mod Prelude
pub mod Proc
pub mod Sched
pub mod Shell
pub mod Sync
pub mod Syscalls
pub mod Task
pub mod Time
pub mod Trap
pub mod Uart
pub mod Vpages
