-- ===== src/Lib.antt =====
-- A model of the kernel of MASS OS, a bare-metal x86-64 kernel with preemptive scheduling, named
-- semaphores, pipes and two memory managers, and of parts of its userland.
--
-- One record, `Kernel` of Kernel.antt, holds what the C files keep in static variables: the process
-- table, the run queue, the tables of semaphores, pipes and descriptors, the clock, the quadwords of
-- the stacks, and the allocator's state as a type parameter. A pointer into a table is its index, and
-- NULL is `none`; a table is a function of the index. An operation is a function to the new state and
-- the call's result. The kernel runs on one core, and system calls and interrupt handlers run with
-- interrupts off, so each operation is one step.
--
-- Parts and files:
-- - Kernel/c/scheduler/scheduler.c is Scheduler.antt: the run queue (the first `queue_size` entries
--   of the array as a list), `scheduler_add`, `scheduler_remove`, `scheduler_next_ready`,
--   `scheduler_tick`, `scheduler_yield_impl`, `scheduler_start`. Its children are about the order of
--   the queue (Order), the place of the cursor (Cursor), the choice (Choice, NextReady), the context
--   switch (Switch) and the reach of aging (Starvation).
-- - Kernel/c/process/process.c is Process.antt (lookup, blocking, `ps`) and Process/Lifecycle.antt
--   (creation, exit, kill, priority, waiting); Process/Frame.antt says what blocking changes,
--   Process/Waking.antt whom unblocking wakes, and Process/Priority.antt is about `process_nice` and
--   the queue. The children of Lifecycle are about creation (Creation), PIDs (Pids, Numbering,
--   Distinct) and the killing of idle (Idle). The modules named Background carry a view of the
--   kernel that small steps leave alone, the interface `IsBackground`, through the clean-ups of
--   semaphores, pipes, descriptors and processes.
-- - Kernel/c/kernel/kernel.c is Boot.antt: `initializeKernelBinary` loads the modules (Image), clears the
--   variables, and creates idle and the shell (Starting).
-- - Kernel/c/semaphore/semaphore.c is Semaphore.antt, with its queues of PIDs in WaitQueue.antt.
-- - Kernel/c/pipe/pipe.c is Pipe.antt (its buffer, the transfers, the waking and the end of the readers'
--   wait, opening, and a write that nobody waits for are in Buffer, Transfer, Waking, Closing, Opening and
--   Delivery).
--   Kernel/c/pipe/fd.c is Fd.antt (the table; Creating is about `fd_create_pipe`) and Terminal.antt
--   (`fd_read` and `fd_write`).
-- - Kernel/c/drivers/keyboardDriver.c is Keyboard.antt: the ring of characters (Keys), line editing,
--   scan codes, the snapshot of the registers. `Machine` is the kernel, the driver and the list of the
--   characters printed. Terminal's children are about the edited line (Line), the bounds of the
--   buffers (Bounds) and reading what was written to a pipe (Pipes).
-- - Kernel/c/drivers/videoDriver.c is Video.antt, on a memory that is a function of the address: the
--   bytes of pixels (Pixels), rectangles and scrolling (Rows), what the text calls write (Frame), where
--   the cursor stands (Cursor), and the last line (Bottom). `Mode` is what the driver reads of the VBE
--   mode block.
-- - Kernel/c/lib/lib.c is Copying.antt (Effect), and Modules.antt is Toolchain/ModulePacker/main.c, which
--   writes the image (Packing), with Kernel/c/lib/moduleLoader.c, which takes it apart (Loading).
-- - Kernel/c/syscall/syscallDispatcher.c is Syscalls.antt, and Syscalls/Pipes.antt is about `sys_pipe`.
-- - Digits.antt has the conversions between numbers and texts: `num_to_str` of
--   Userland/c/shell/userlib.c, `satoi` of Userland/c/tests/test_util.c, `uintToBase` of
--   Kernel/c/lib/naiveConsole.c and `intToHexa` of the keyboard driver. Text.antt turns characters
--   into their codes.
-- - Shell.antt is the command line of Userland/c/shell/userlib.c: `strcmp`, `parse_args`, `parse_pipe`,
--   `handle_pipe` and `processLine` as the list of the calls they make, given what the calls answer.
--   Its children are Parsing and, on the descriptors of `handle_pipe`, Pipelines.
-- - Reader.antt is `shellReadLine` of Userland/c/shell/shell.c (Lines) and the redraw buffer of userlib.c
--   (Redraw): what `sys_read` and `sys_ticks` answer is a list of events, the calls are listed.
-- - Dates.antt is `adjustHour`, `printTimeAndDate` and the date of `printDate` in
--   Userland/c/shell/userlib.c (Local).
-- - Commands.antt is `cat`, `filter` and `wc` of Userland/c/commands, given what their reads return
--   (Streams, Counting; Words.antt takes a text apart). Mvar.antt is Userland/c/commands/mvar.c: its
--   table, and `user_mvar_put` and `user_mvar_take` as the steps, and the deaths, of participants that
--   share one MVar, with its semaphores as counters (Protocol).
-- - Process/Lifecycle/Waiting.antt is about the process that waits for the keyboard.
-- - Kernel/c/memoryManager/memoryManagerFF.c is FirstFit.antt, and memoryManagerBuddy.c beside it is
--   Buddy.antt; Memory.antt has the report they share. A build links one of the two, and the rest of
--   the kernel takes a memory manager as the record `MemoryManager` of Kernel.antt. Buddy's children
--   are about orders and the addresses of buddies (Orders), the splitting and the merging loop (Split,
--   Merge), the two after each other (Restore, RoundTrip), and the walk over the headers (Status).
-- - Ring.antt has the circular arrays that wait queues and pipes share, Prelude.antt the helpers, and
--   Fixtures.antt the state on which the tests run.
--
-- Calls between the parts: processes call the scheduler to queue and remove, and on death semaphores,
-- pipes and descriptors to clean up; semaphores and pipes call `process_block` and `process_unblock`;
-- descriptors tell their pipe of each reference, and read the terminal from the keyboard driver, which
-- wakes the process that waits and kills the one in the foreground; the scheduler reaps a
-- ZOMBIE when it switches.
--
-- Bounds: unsigned fields that wrap (`wait_ticks`, `next_pid`, `ticks`, sizes) are reduced modulo
-- their width; counters that only count live references are plain numbers. `int` indices and counts
-- that the code keeps at 0 or more are plain numbers, and the value of a semaphore is an integer
-- whose increment and decrement wrap in 64 bits. The index of `shellReadLine`, 32 bits wide, is a
-- plain number: its only caller passes a buffer of 100 bytes. The text cursor's coordinates are
-- plain numbers, and the differences that the code takes in 64 bits are written out. No loop runs
-- out of rounds: each recurs on a list or on the number of rounds, 64 processes, 32 semaphores or
-- pipes, 130 descriptors, 20 orders of blocks; waking all waiters makes as many rounds as there are
-- waiters, the walk of the buddy allocator's `mm_status` at most one for each byte of the heap, a
-- conversion 64 digits, the packer one for each byte of a file and one more, `readKeyBuff` as many
-- as there are characters. `satoi` wraps in 64 bits.
--
-- Not modelled: hardware access, the bitmaps of Kernel/include/font.h (an argument), the table of system
-- calls and those that only call the clock, the speaker, the video driver or the memory manager, the
-- other commands, the boot loader and the packer's parsing of its options. The spin of `sem_lock` on a
-- taken lock is not modelled; the lock word is written as the code writes it. The bytes of the copy of
-- `argv` are a field of the process. `process_pipe_setup` takes descriptor numbers of 0 or more. The
-- start takes what `mm_init` leaves, and the addresses of the linker, as arguments.
pub mod Prelude
pub mod Ring
pub mod WaitQueue
pub mod Kernel
pub mod Process
pub mod Scheduler
pub mod Semaphore
pub mod Pipe
pub mod Fd
pub mod Text
pub mod Words
pub mod Commands
pub mod Shell
pub mod Mvar
pub mod Dates
pub mod Boot
pub mod Copying
pub mod Modules
pub mod Video
pub mod Digits
pub mod Keyboard
pub mod Reader
pub mod Terminal
pub mod Syscalls
pub mod Memory
pub mod FirstFit
pub mod Buddy
pub mod Fixtures
