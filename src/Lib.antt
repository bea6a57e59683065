-- ===== src/Lib.antt =====
-- The kernel of this repository (kernel/) as executable definitions, with what they guarantee.
--
-- The kernel runs user programs from an ext2 disk. A program enters it by a system call
-- (kernel/syscall.cc) or by a page fault (kernel/vmm.cc). Both rest on the record keeping of the
-- virtual memory manager, which reads files by way of the block reads of kernel/block_io.cc, and
-- all of them share objects by the reference counts of kernel/shared.h.
--
-- * Vmm (kernel/vmm.cc). Vme has the mapping records (struct VME) and what a list of them says of
--   an address; Mmap is VMM::mmap, with its search for a gap; Munmap is VMM::munmap, with the loop
--   that cuts records; PageIn is ensureMappedPage and mapPageFromVme; UserRange is
--   VMM::is_user_range_mapped; HeapBreak is the heap of a program, with the system call brk; Fork
--   is the snapshot of the mappings and the page tables, and what a child installs of it. Fini
--   is fini_thread, with which a thread gives its mappings and tables up. To PageIn the page tables
--   are an interface (Entries): the present bit, and the entry for a new frame.
-- * Vmm.PageTable (kernel/vmm.cc): the page tables themselves, as frames of 512 words: leafPte, map,
--   unmapPage, map_range and unmapRange; Whole has the copy for a fork, the release, and the top
--   tables of init_thread and fini_thread. Placed has what makes the frames a tree; Mapped and
--   Unmapped are about one page that comes or goes, Enough about the frames that this takes. Below
--   Whole, Copied says what a copy of a tree of tables is, Cloned and Subtree follow the loops, and
--   Snapshot and Forked are about the tables of a child.
-- * BlockIo (kernel/block_io.cc): BlockIO::read and read_all over a device, which is its block
--   size, its size and its read_block. Slice has a device that holds a list of bytes.
-- * Syscall (kernel/syscall.cc). Sem is semget, semop and semctl; Process is the process table and
--   what fork, exit and waitpid do with it; UserBuffer is is_valid_user_buffer,
--   copy_user_cstring and write; Fd is the descriptor table with read, open, close and lseek, over
--   interfaces for user memory and the mounted file system.
--   Fork is the whole of fork, over the snapshot of Vmm.Fork, with the start of the child:
--   fork_child_entry, and the switch to it and the return to the user of kernel/machine.S.
--   Dispatch is syscallHandler with what is around these; Exit is about whole calls. A
--   call that comes round again stands for the next round of its loop.
-- * Ext2 (kernel/ext2.cc, kernel/ext2.h): mounting, get_node and find; Inode is class Node, with
--   its blocks, its directory entries, and Contents, where it fills the interfaces of BlockIo and
--   of the descriptors.
-- * PhysMem (kernel/physmem.cc): the frame allocator.
-- * RamDisk (kernel/ramdisk.cc): a disk in memory as a device of BlockIo.
-- * Elf (kernel/elf.cc): the loader, over a device and over a memory with map_range and stores;
--   Program says what a file describes, and Load compares the two.
-- * Sync (kernel/condition.h): condition variables over a variable with a test and operations; Gates
--   are the semaphore, the lock, the latch, the barrier and the future (kernel/semaphore.h,
--   kernel/blocking_lock.h, kernel/count_down_latch.h, kernel/barrier.h, kernel/future.h). A
--   critical section under the spin lock is one step, and so are the release of the lock in wait,
--   the switch to another thread and the test of the epoch in post_switch. SpinLock is that lock
--   (kernel/spin_lock.cc), where other cores can come between the two parts of unlock.
-- * Threads (kernel/thread.cc): any number of cores, each with the thread that it runs and the one
--   that it has left and not yet put away, and the queues that they share. Whether a waiting thread
--   finds its epoch is here part of the step, and for Sync to say.
-- * KernelHeap (kernel/heap.cc): the heap of the kernel as an array of words, with init, malloc and
--   free; FreeList and BestFit are about its list of available blocks and the search in it.
-- * Queue (kernel/queue.h): the linked queue, and Fifo, that it represents a list.
-- * RefCount (kernel/shared.h): Middle, StrongRef and WeakRef over a store of middles; Counted is
--   the invariant that the counts are those of the variables. Unique has UniqueRef and a program as
--   a list of the operations of all three; Owned says where an object is, and Once is about every
--   state that a program reaches. An object is known by a number that no other object has had,
--   and holds no references itself: what a destructor would do to other references is not modelled.
-- * Print (kernel/print.h): the arguments of print and xprint, in Decimal and Hex with a reader for
--   what is put out, and the formats. What putch is called with is a list. The digits recurse on a
--   proof that numbers do not fall for ever, so that they need no fuel. -value of the least signed
--   number of 32 or 64 bits, which overflows, is read as wrapping around.
-- * Prelude has the numbers, tests and lists that the others share.
--
-- State is passed explicitly, and a lock makes one step of what it covers: a round of semop or of
-- waitpid is a function from the table to a result or to "come again", and the theorems about
-- them speak of any sequence of rounds by any callers. The outer `none` of an Option is the stop
-- of the kernel: a failed assertion, or no frame left. Machine words are natural numbers with the
-- wrap-around written out; a negative int is its bit pattern.
--
-- Loops over lists recurse on the list. Others take fuel: map_range and unmapRange have a round for
-- each page of the range and one for the last test of the loop, and give nothing out of rounds; read_all has one
-- round more than the bytes asked for, since each round but the last reads a byte; allocate_pid has
-- the 1024 rounds of the source; is_user_range_mapped has a round for each page of the range;
-- copy_user_cstring has the places of its buffer; the walk of a directory has one round more than
-- the directory has bytes, which is enough unless an entry says that its size is 0, where the source
-- loops for ever, or the 32-bit offset wraps; malloc has one round more than the heap has words,
-- since no block is met twice.
--
-- Not modelled: the assembly but for the start of a child, the drivers (PIT, PCI, APIC, serial
-- port), start-up, the lock of KPRINT, and limine/ and the user programs, which are not the kernel's
-- own logic. A core sees a change of the page tables at once: the translation caches, and invlpg,
-- are not modelled. Frames that were freed are not cleared when they are handed out again, as in
-- kernel/physmem.cc; so map and map_range are looked at where such frames hold no present entry.
pub mod Prelude
pub mod Vmm
pub mod BlockIo
pub mod RamDisk
pub mod Elf
pub mod Sync
pub mod Threads
pub mod Syscall
pub mod PhysMem
pub mod RefCount
pub mod Ext2
pub mod Queue
pub mod KernelHeap
pub mod Print
