-- ===== src/Lib.antt =====
-- The core of the xv6 kernel of this repository: its redo log and buffer cache, the bitmap and inodes
-- of its file system, page allocator, pipes, process table, page tables, spin locks and string functions,
-- and the program grep.
--
-- Parts and how they interact. File system calls bracket their changes of the disk by `begin_op` and
-- `end_op` and announce each changed block to the log (kernel/log.c), which writes the blocks of all
-- running calls to the disk together, so that a power failure leaves all of them or none. The log
-- reaches the disk through the buffer cache (kernel/bio.c). The file system (kernel/fs.c) finds blocks in
-- a bitmap and files by inodes, which it changes on the disk as blocks of the log. Pages of memory come from kernel/kalloc.c;
-- a pipe (kernel/pipe.c) is one such page, shared by a reading and a writing end. Processes
-- (kernel/proc.c) sleep on a channel until `wakeup` finds them there, and end in `kexit`, which
-- leaves a zombie for `kwait` of the parent.
--
-- Files:
--   Base      shared names, lists over the native numbers, panics as values, 32- and 64-bit wrap-around
--   Block     the bytes of a block and the 32-bit numbers of `struct logheader` in them
--   Storage   blocks as the log sees them through kernel/bio.c: the disk, the cached contents, the
--             number of pins, and the writes that the power lasts for; a call ends `done`, by a power
--             failure that leaves a disk, or by a panic. Storage/Ensures reasons about both endings
--   Bio       kernel/bio.c: the buffers, with the linked list as a list of their numbers; `find_cached` and
--             `find_unused` are the two loops of `bget`, `got`, `waiting` and a panic its outcomes.
--             Bio/Refine relates it to Storage, with `held` for the references of the callers of `bread`;
--             whoever gives back the last reference to a buffer must have left in it what is on the disk
--   Log       kernel/log.c, function by function (`install_loop`, `read_blocks`, `write_blocks`,
--             `write_loop` and `find_block` are the loops of `install_trans`, `read_head`,
--             `write_head`, `write_log` and `log_write`)
--   Fs        kernel/fs.c over the blocks as the running transaction sees them: `balloc` and `bfree` with
--             the bits of the bitmap; `balloc_loop` and `find_free` are the two loops of `balloc`
--   Fs/Inode  `iget`, `idup`, `ilock`, `iunlock` and `iupdate` of kernel/fs.c, with the 64 bytes of
--             `struct dinode` in a block
--   Fs/File   `bmap` of kernel/fs.c; `slot` looks up one of `ip->addrs` and `entry` one of the numbers
--             in the indirect block
--   Fs/Write  `writei` of kernel/fs.c; `write_round` is a round of its loop after `bmap`, `after_writing`
--             what follows the loop. `either_copyin` is the number of bytes that it can read
--   Fs/Read   `readi` of kernel/fs.c, in the same way; Fs/RoundTrip has it after `writei`
--   Fs/Trunc  `itrunc` of kernel/fs.c; `free_direct` and `free_entries` are its loops
--   Fs/Path   `skipelem` of kernel/fs.c on the list of the characters before the 0 of the string
--   Kalloc    kernel/kalloc.c; the free list is linked through a memory of 64-bit words
--   Vm        kernel/vm.c with the page-table macros of kernel/riscv.h, over the memory of Kalloc:
--             `walk` (`walk_level` is a round of its loop), `walkaddr`, `ismapped`, `mappages`, `uvmcreate` and
--             `uvmunmap`
--   Ftable    `filealloc`, `filedup` and `fileclose` of kernel/file.c; that `fileclose` closes the pipe or puts
--             the inode is in its result
--   Console   kernel/console.c: `consoleintr`, which edits the line that is typed, and `consoleread`; a call
--             that sleeps stops as in Pipe
--   Print     kernel/printf.c (Print/Kernel) and user/printf.c (Print/User), with `atoi` of user/ulib.c;
--             Print/Pieces says what a format means
--   Pipe      kernel/pipe.c; `write_loop` and `read_loop` are the loops that move bytes; a call that
--             sleeps stops with `asleep` and is entered again when it is woken
--   Proc      kernel/proc.c; a table of 64 processes (NPROC without LAB_FS). `fork_child` is the part of
--             `kfork` after `allocproc`; `kexit` is modelled without the closing of files; `kwait` is
--             one scan with what follows it; `dispatch`, `yield_`, `go_to_sleep` and `tidy_up` are the
--             changes of state in `scheduler`, `yield` and `sleep`
--   Sleep     `sleep` and `wakeup` of kernel/proc.c again, one lock operation at a time: a process in the
--             loop `while(!condition) sleep(chan, lk);`, one that makes the condition true and wakes it,
--             and the scheduler
--   Spinlock  kernel/spinlock.c: the locks, and the nesting of disabled interrupts, on one CPU
--   Strings   kernel/string.c without `strlen`, over a memory of bytes; `move_down` and `move_up` are the
--             two loops of `memmove`, `pad` and `safe_loop` those of `strncpy` and `safestrcpy`
--   Grep      user/grep.c: `match` with `matchhere` and `matchstar`, and `grep` as a function from the reads
--             that its buffer is filled by to the lines it writes; `scan` is the loop over the lines of
--             the buffer
-- Child modules are named for what they prove, and each part has its tests in a module Tests.
--
-- Bounds and fuel. Counters wrap as in C: 32 bits in the pipe and the log's header on the disk, 64 in
-- `pgroundup`. Loops over a count or a table are structural. The loop of `freerange` has the fuel
-- `pa_end / pgsize + 1`, more than there are pages below `pa_end`; that it never runs out is part of
-- the theorem on `kinit`. The loop of `balloc` has the fuel `size / BPB + 1`, one more than the bitmap
-- has full blocks, and those of `writei` and `readi` have `n + 1`, since each round but the last moves a
-- byte. `matchstar`, which may not return, has a fuel and is `none` when it runs out; a fuel above the
-- length of the text is enough where it returns. The loops of both `printint` have a fuel of 64 and 32,
-- one for each bit of the number, and each round takes off more than one bit. `grep` takes a list of read
-- sizes.
--
-- Assumptions. A lock makes the section that it guards one step, except in Sleep and Spinlock. Writing a
-- block to the disk happens at once or not at all. There is one device. `end_op` is called once for
-- each `begin_op` that was admitted. A process is killed, for a call on a pipe, only at the points
-- where it sleeps. Neither the numbers of processes nor the depth of sections overflow. In Fs a block is
-- read and changed in one step, without the wait for its buffer, and `log_write` marks the block; `writei`,
-- which may fill the log, checks for space in its own calls of `log_write`, one of which follows every call
-- of `bmap`. In Log the calls that `commit` makes without the lock are steps of their own.
--
-- Not modelled: `ialloc`, `iput`, directories and `namex` of the file system, reads and writes of open
-- files, the growing, copying and freeing of user memory and the copies between user and kernel in
-- kernel/vm.c, system calls and traps, the output of the console, the drivers, start-up code, user programs
-- but grep, and mkfs. Of kernel/printf.c the lock and `panic` are left out. The main function of grep,
-- which opens files, is left out. Of a process the saved context,
-- kernel stack, files and name are left out.
pub mod Base
pub mod Bio
pub mod Block
pub mod Console
pub mod Fs
pub mod Ftable
pub mod Grep
pub mod Kalloc
pub mod Log
pub mod Pipe
pub mod Print
pub mod Proc
pub mod Sleep
pub mod Spinlock
pub mod Storage
pub mod Strings
pub mod Vm
