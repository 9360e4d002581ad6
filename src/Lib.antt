-- ===== src/Lib.antt =====
-- Vampire OS, a hobby x86_64 kernel: what its scheduler, its two allocators and its FAT12 file system promise.
--
-- The kernel runs up to 16 tasks with eight descriptors each. kernel/sched.c holds them: the slots, the
-- pipes, the choice of the next task, sleeping, waiting, signals, fork and exit. It gets frames from
-- kernel/pmm.c, page tables from kernel/vmm.c, ticks from kernel/idt.c, keyboard input from kernel/kbd.c,
-- and the working directory of a new task from kernel/fs.c. kernel/user.c dispatches the system calls to
-- it; every call takes the interrupt frame and may leave another task's registers in it. kernel/heap.c
-- hands out parts of two frames to the rest of the kernel. kernel/fs.c keeps one directory of a FAT12
-- volume in its statics, with the allocation table, and reads and writes sectors through kernel/bio.c,
-- which adds the partition's start and calls the first registered driver. kernel/rtc.c turns the clock's
-- registers into a date, and kernel/elf.c takes a program's file apart and makes its image.
--
-- The files, with the code that each is about:
--   Prelude          numbers, arrays, searches and loops of C, shared by the rest.
--   Pmm              kernel/pmm.c. The bitmap is taken as its bits, one for each frame. Count holds the
--                    invariant of the free count, Init, Alloc and Span the operations.
--   Heap             kernel/heap.c. Tiles holds the row of blocks, Steps, Take and Alloc
--                    are about kmalloc, Release about kfree.
--   Bio              kernel/bio.c. Range is about the test of a range of sectors, Names about bdev_list.
--   Elf              kernel/elf.c. Parse is about the segments that are taken, Load about the image.
--   Rtc              kernel/rtc.c. Calendar numbers the days and seconds.
--   Fs               kernel/fs.c, with these parts:
--   Fs.Fat           the allocation table: its entries (Entry), allocation (Alloc), chains (Chain), and
--                    fat_resize (Grow, Cut, Resize).
--   Fs.Name, Fs.Lfn  short names, and long names in two entries.
--   Fs.Path          the text of the working directory and the parts of a path: Parts holds the words,
--                    Stack the stack of names that a text is, Apply path_apply.
--   Fs.Disk, Fs.File the disk that fs.c sees, and a file's bytes along its chain. Fs.Disk.Partition is about
--                    the disk that kernel/bio.c makes of a driver and a partition.
--   Fs.Dir           the entries of the loaded directory: free runs, aliases, links.
--   Fs.Action        the statics as the record Volume, and a function that may return -1 as an action.
--   Fs.Dirs, Fs.Scan, Fs.Walk, Fs.Create, Fs.Edit, Fs.Look   the functions that work on the statics:
--                    loading and storing a directory, the scan, going to another one, new names, changes
--                    of a file or a name, and the calls that read, rename, copy and mount.
--   Fs.Safe          the buffers of fixed size: the rules for actions, then what each function keeps (Table,
--                    Path, Dirs, Walk, Edit, Calls), and Reach for the calls of fs.h in any order.
--   Sched            kernel/sched.c, with these parts:
--   Sched.Types      the structs (fd_entry, pipe, task), the statics as the record Sched, sched_init, the
--                    string copies, and Outcome, what a call on a frame ends in.
--   Sched.Kernel     what sched.c calls elsewhere, as operations on a state M of the rest of the machine.
--   Sched.Pipe       the pipe table and the writes to descriptors (drop_fd, clear_fds, inherit_fds,
--                    alloc_pipe, free_pipe). Count, Refs, Drop, Attach and Inherit hold the invariant that
--                    the counts of a pipe are the numbers of its open ends; Rest, what these writes leave.
--   Sched.Fd         the descriptor calls (open, close, dup2, lseek, pipe, bind).
--   Sched.Ring       pipe_read and pipe_write on the ring, the queue that the ring is, and who is woken.
--   Sched.Switch     pick_next, the switch, sleeping and waking, the tick.
--   Sched.Exit       kill_task, the zombies and sched_exit.
--   Sched.Signal     signal_at, deliver_pending, sigaction and kill. Push is about the bytes that a handler's
--                    return address takes on the stack.
--   Sched.Block      block_pipe, block_kbd, sleep and wait: Wait is about sched_wait, Parked about a task
--                    that sleeps or waits for a pipe.
--   Sched.Spawn      add_user, fork and reset_current.
--   Sched.Current    the reads and writes of the current slot, the slot listing, the foreground task.
--   Sched.Reach      the calls and the interrupts as a relation between states, and what holds in all that
--                    they reach.
--   Sched.Tests, Pmm.Tests, Heap.Tests, Fs.Tests, Bio.Tests, Elf.Tests, Rtc.Tests   concrete states, and the
--                    theorems at them.
--
-- The state is passed explicitly. An `int` that may be -1 is an integer, and its guard `i < 0 || i >= n` is
-- `index?`; counters of 32 and 64 bits keep their modulus. A frame pointer that may be 0 is an Option. A
-- call's function carries the source's name less `sched_` where that reads well: `fork_task` is
-- sched_fork, `exit_now` sched_exit, `wait_child` sched_wait, `kill_call` sched_kill, `signal_at`
-- sched_signal_at, `make_pipe` sched_pipe, `yield_now` sched_yield. Loops run over their index by
-- structural recursion. The walk of `kmalloc` is given one step for each 16 bytes and one more, which is
-- enough as a block has a header of 16 bytes. In `idle_until_ready` the source idles in `hlt` for as long
-- as nothing is ready, and the model is given the list of what the interrupts do meanwhile; it ends as
-- `idle` where the list is used up. A halted kernel is the outcome `halted`.
--
-- In Fs an action keeps what it has changed when it fails, as the source does; `or_undo` is what the source
-- puts back by hand. The disk and the pages of page_buf and drop_page are a record of functions on a state M
-- of the rest of the machine (Machine); `disk_of` makes the disk out of kernel/bio.c. A name or a text is the
-- list of its bytes without the NUL. A directory's offset is 32 times the number of an entry. A file's page
-- is the bytes of the file in it. Loops along a chain run over CHAIN_MAX hops as in the source; the loops
-- over a path are given a step for each byte and one more, which is enough as each part takes a byte; the
-- loop of add_seconds is given a round for each day. The sums of a cluster or sector number in Fs do not
-- wrap: a cluster number is read from two bytes or from twelve bits, so they stay far below 2 ^ 32. The
-- directory's buffer has the 4096 bytes of its page.
--
-- Not modelled: the stores to the screen and the page tables behind the Kernel record, the data of a
-- task's memory but for the eight bytes that a signal handler's frame pushes, the disabling of interrupts
-- inside a call, pmm_print, kheap_print, what a task or the kernel writes over a block's header, pointers
-- given to kfree that lie between two multiples of 16, page_buf and drop_page of kernel/fs.c (a frame of
-- kernel/pmm.c at its mapped address), what a page holds behind a file's bytes, the null pointers that
-- the calls of kernel/fs.h and kernel/bio.h refuse, the polling of the clock's registers, and the other
-- files of the kernel and the user programs.
pub mod Prelude
pub mod Bio
pub mod Elf
pub mod Fs
pub mod Heap
pub mod Pmm
pub mod Rtc
pub mod Sched
