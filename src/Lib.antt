-- ===== src/Lib.antt =====
-- Verification of the kernel in ver05/, a study copy of Linux 0.12.
--
-- The kernel is one program of C and assembly. Tasks (ver05/include/linux/sched.h) take turns under
-- the scheduler; the clock interrupt runs the kernel timers and takes time from the running task;
-- signals wake and stop tasks. Memory management gives out pages, shares them between the tables of
-- parent and child until one writes, and moves pages to the swap device by requests to a block device.
-- Files are reached through descriptors, a table of open files and, for pipes, a page that is a ring
-- buffer. Each part is a tree of modules here:
--
-- Task       the task structure, the array `task`, the clock (ver05/include/linux/sched.h)
-- Sched      `schedule`, `wake_up`, `sleep_on` and `do_timer` (ver05/kernel/sched.c): Pick is the search for
--            the task with the largest counter, Choice the whole decision, Wake the checks before it;
--            Sleep is `sleep_on` cut at `schedule` and the steps of tasks that take turns, Queue the
--            invariant of the queue, Calm, Weight, Drain and Ends what follows on `wake_up`; Ticks is
--            `do_timer` and the clock interrupt (ver05/kernel/sys_call.s), Kept what it asks of the functions
--            that it calls, Slice and Preempt the time of a task that computes
-- Timer      `add_timer` and the timers' part of `do_timer` (ver05/kernel/sched.c): Queue is the list
--            of timers in the array, Insert and Expiry what adding one does to their times, Tick the
--            course of time
-- Mktime     `kernel_mktime` and `time_init` (ver05/kernel/mktime.c): Calendar, Clock
-- Signals    sending signals (ver05/kernel/exit.c): Post for one task, Group for `kill_pg`, Orphans
-- Handlers   signal masks and handlers (ver05/kernel/signal.c), and their delivery on the return to a
--            program (ver05/kernel/sys_call.s): Escape, Frame for the stack of a handler
-- Ids        credentials, groups and limits (ver05/kernel/sys.c): Uids, Groups
-- Mm         pages, page tables and swapping (ver05/mm/memory.c, ver05/mm/swap.c): State, Pages, Swap
--            and Tables hold the code; Free, Counts, Restore, Cow, Slots and Ends the proofs
-- Files      file descriptors (ver05/fs/fcntl.c, `sys_close` of ver05/fs/open.c): Dup
-- Pipe       `read_pipe` and `write_pipe` (ver05/fs/pipe.c): Contents, Read, Write
-- Requests   the queue of a block device (ver05/kernel/blk_drv/ll_rw_blk.c): Insert
-- Tty        terminals (ver05/kernel/chr_drv/tty_io.c, ver05/include/linux/tty.h): Cooked is
--            `copy_to_cooked`, Transfer `tty_read` and `tty_write`; Ring is the queue as a list, Edit the
--            editing of lines, Step and Loop the proof that the code edits so, Send what is written
-- Console    ver05/kernel/chr_drv/console.c: Memory for the string instructions, Place and Chars for where
--            the cursor is and what is written, Scroll for the text, Start for `con_init`
-- Fork       the family of a task (ver05/kernel/fork.c, ver05/kernel/exit.c): Codes and Pids for the
--            search of a number, Siblings for the list of children
-- Buffers    the buffer cache (ver05/fs/buffer.c): Runs is code that may sleep or panic, Blocks holds
--            `getblk` and the others; Chains and Getblk the proofs
-- Zones      the bit maps of zones and inodes (ver05/fs/bitmap.c): Search, First, Numbers
-- Bmap       the blocks of a file (ver05/fs/inode.c): Contract for what is asked of `new_block`, Steps and
--            Full for a zone or an entry, Create for `create_block` and `bmap`; Device and Agree join it
--            with Zones
-- Strings    the string routines (ver05/lib/string.c): Text, Append, Blocks
-- Printf     `number` and `vsprintf` (ver05/kernel/vsprintf.c): Convert, Digits, Width
-- Base       tests, lists, 32-bit words and bits, shared by all
--
-- A function has the name it has in C, and so do fields and constants; a loop or a branch with a name
-- of its own is a helper, and its comment quotes the loop. State is passed and returned explicitly. A
-- pointer to a task, a timer, a request or an open file is the number of its slot, and NULL is `none`.
-- A 32-bit `int` or `unsigned int` is its bit pattern, a number below 2 ^ 32; `word`, `word_sub`,
-- `int_lt` and `int_le` wrap around and compare as the machine does. Memory is a map from addresses to
-- words (Mm), bytes (Strings) or cells (Console). What does not return (`panic`) is a value of its own.
--
-- Loops over an array recurse on the slots that are left. Loops on fuel: the search of `add_timer` and
-- the timers run by a tick have `time_requests` rounds, the length of the array that the chain lives
-- in; `choose` needs two rounds; the loops of `swap_out` have one round more than their counter allows;
-- `get_free_page` is given a round for each page; `find_place` one for each request; `digits` 32, the
-- bits of a number; `copy_to_cooked`, its kill loop and the inner loop of `tty_write` have a round for
-- each place in a queue; the search for a new pid needs at most 259 rounds, 129 up to the wrap-around
-- and 129 behind it; the loop over the children has a round for each task and one more. The string
-- routines and the pipe loops take their fuel as an argument, and the theorems ask for more than the
-- length at hand. So do `tty_read`, `tty_write`, `sys_waitpid` and the code of Buffers and Zones that
-- sleeps: how long it does depends on others.
--
-- Not modelled: other tasks that run while a call sleeps, but for a parameter of Pipe, Tty, Fork and
-- Buffers; `do_exit`; the counts of inodes, super blocks, directories and `exec`; `truncate`; the drivers
-- for the serial line and the hard disk, the trap handlers and the rest of the assembly, which deal with
-- the machine; the boot code, the tools and the shell.
pub mod Base
pub mod Tty
pub mod Console
pub mod Fork
pub mod Buffers
pub mod Zones
pub mod Bmap
pub mod Mm
pub mod Timer
pub mod Mktime
pub mod Task
pub mod Sched
pub mod Ids
pub mod Strings
pub mod Signals
pub mod Pipe
pub mod Files
pub mod Requests
pub mod Printf
pub mod Handlers
