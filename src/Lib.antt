-- ===== src/Lib.antt =====
-- HaoudOS, a small i386 kernel in C, modelled function by function. The parts modelled, and the files
-- that model them (paths of the C code from the repository's root):
--   Base       C arrays, `unsigned int` arithmetic with its wrap-around, what stops the kernel
--   Stdlib     lib/stdlib.c, lib/string.c, include/lib/ctype.h: memory and texts
--   Stdlib/Print   lib/vsnprintf.c: formatted output
--   Mm/Phys    core/mm/phys.c: the reference counts of the page frames
--   Mm/Heap    core/mm/heap.c: the kernel heap, a list of chunks that SetupHeap makes of 16 KB,
--              kmalloc_no_security cuts and kfree marks as free
--   Mm/Area    core/mm/area.c: virtual regions for the kernel; their descriptors come from the heap
--   Mm/Brk     core/mm/brk.c: the end of the heap of a process
--   Process/Task       the process table, include/core/process/process.h
--   Process/Schedule   core/process/schedule.c: wake-up by signals, choice, switch
--   Process/Signal     core/process/signal.c and core/syscall/sys_kill.c
--   Process/Sleep      core/process/wait.c and core/process/sleep.c
--   Process/Semaphore  lib/semaphore.c
--   Time/Timer core/time/timer.c: the list of timers
--   Time/Clock arch/i386/i8254.c: the clock interrupt, which drives the timers and the scheduler
--   Time/Calendar core/time/time.c: the date of the clock chip in seconds since 1970
--   Fs/Pipe    core/fs/pipe.c: a page as a ring of bytes between readers and writers
--   Fs/File    core/fs/file.c and the system calls on descriptors: tables, references, inodes
--   Fs/Vfs     core/fs/inode.c: inodes in memory, their references, the search of a path, new inodes
--   Fs/Mount   core/fs/super.c: the drive letters of mounted super blocks
--   Fs/Ramdisk core/fs/ramdisk/ramdisk.c: contents of files, directories, the life of inodes
--   Dev/Block  core/dev/block/block.c: the registry, reads and writes of byte ranges by whole blocks, and
--              the operations on an opened device
--   Dev/Tty    core/dev/char/tty.c: the rings of a terminal, typed characters, reads in both modes
--   Dev/Urandom core/dev/char/urandom.c: pseudo-random bytes
-- The parts meet as in the kernel: regions take their descriptors from the heap; a sleep puts an entry
-- in a wait queue and may add a timer; the clock runs the timers, whose callback makes a process ready,
-- and then the scheduler.
-- A function of the source is a function of the same name in snake case, from the state before to the
-- result and the state after. A panic and a CPU exception are results of their own (Base/Outcome).
-- Circular lists are lists from their head on. A function that calls `schedule` or `sleep_on` is cut
-- there: one function for what comes before, one for what comes after.
-- Loops over a list or an array are recursion on it. Some loops have a bound on their rounds: that of
-- update_timers, of which two rounds are shown to be all; a read from or a write to a block device,
-- which copies a byte a round at least and has a round more than bytes; the digits of a number, at
-- most 32; the loops of vsnprintf and of lookup_inode, which take
-- a character of the format or the path a round; and the walk over the
-- siblings in sys_kill, which has 12 rounds for a table of 10 processes.
-- Not modelled: port input and output, interrupt descriptors, the FPU, console messages; paging, so
-- that memory counts as mapped; what a function pointer leads to, which is an argument; and the parts
-- of the kernel named in no file above.
mod Base
pub mod Stdlib
pub mod Mm
pub mod Process
pub mod Time
pub mod Fs
pub mod Dev
