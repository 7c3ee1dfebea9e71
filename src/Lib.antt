-- ===== src/Lib.antt =====
-- LightOS, a 32-bit kernel in C, as functions and step relations, with theorems on them.
--
-- The kernel's state is in globals; each file here keeps the globals of one C file in a record, and
-- each function of the C file is a function from the state to the state after the call. A panic or a
-- failed `assert` is the `none` of an `Option`: behind it the machine stands still. Words of the C code
-- are native numbers with their wrap-around written out where a computation can wrap.
--
-- Which file models what (paths from the repository's root):
-- - Base: lists, bits of a byte, tests, and the `Option` of a kernel that may panic.
-- - Bitmap: src/lib/bitmap.c, function by function (`bitmap_test` is `test`). The buffer is a list.
-- - Kfifo: src/lib/kfifo.c. The loop of `kfifo_put` runs on fuel; two rounds are enough on a ring with
--   room for a byte, as its theorem says.
-- - Lock: src/lib/mutex.c, as steps of any number of threads that interleave in any order. An atomic
--   instruction is one step; what runs with the interrupts off is one step.
-- - Memory: src/kernel/memory.c. `mem_map` counts the references of each physical page, and
--   `kernel_map`, a bitmap of Bitmap, tells which kernel pages are taken. Memory.Zones has the search
--   for the largest zone, Memory.Init the first state, Memory.Kmap the temporary mappings,
--   Memory.Space the pages of a process.
-- - Linked: src/lib/list.c, on a heap of nodes, of which Linked.Loops and Linked.Refine give the list of
--   their addresses. Each loop runs on fuel; one round more than the list has nodes is enough.
-- - Console: src/kernel/console.c. The screen is a part of a memory with a byte at every address;
--   Console.Csi has the control sequences. The loops of `insert_line` and `delete_line` run on fuel, and 102 rounds,
--   the rows of the screen's memory, are enough.
-- - Keyboard: src/kernel/keyboard.c; Keyboard.Keymap is its table of keys, Keyboard.Tty the part of
--   src/kernel/tty.c that sees a character first. The queue is Kfifo's.
-- - Blocks: src/fs/bmap.c, on the contents of the blocks. Its maps are bitmaps of Bitmap. Blocks.Read is
--   `inode_read` of src/fs/namei.c; its loop runs on fuel, and more rounds than bytes are enough.
-- - Timers: src/kernel/timer.c, on the sequence of the timers. `timer_wakeup` runs on fuel, and one
--   round more than there are timers is enough.
-- - Arena: src/lib/arena.c. The search of `kmalloc` runs on fuel; two rounds are enough for the sizes
--   for which it ends at all. The merging of `kfree` has as many rounds as it is given.
-- - Pipe: src/fs/pipe.c, a reader and a writer as steps in any order, on the queue of Kfifo.
-- - Stdlib: src/lib/stdlib.c. A string is the list of its bytes before the final zero.
-- - Strings: src/lib/string.c. A pointer is the list of bytes up to the end of its buffer, and an access
--   behind it is `none`.
-- - Tasks: src/kernel/task.c, src/kernel/schedule.c and the end of clock_handler in src/kernel/clock.c; Tasks.Signal is
--   src/kernel/signal.c, and Tasks.Process the end of a task and `sys_waitpid`. The list of tasks has
--   an optional task in each of its 64 slots, and the current task is a slot.
-- - Files: the open files and descriptors of src/fs/file.c. Other tasks' descriptors are a parameter of
--   the invariant, and the calls of `iput` are recorded in order.
-- - Calendar: src/lib/time.c, on unsigned words, with the months from 1, as the code has them; Calendar.Alarm: the conversions of src/kernel/time.c
--   and src/kernel/rtc.c.
-- - Devices: src/kernel/device.c, with the queue of a disk as a list of requests in order.
-- - Inodes: src/fs/inode.c. An inode is the index of its slot; the state has the table, the super blocks,
--   and of each device its maps, descriptors and bytes. Inodes.Counts says what a call holds.
-- - Cache: src/kernel/cache.c, buffers as indexes, with the chains of the hash table and the free list as
--   lists of them. A task that has to wait for a buffer gets none. The lock of a buffer and the list of
--   the tasks that wait are left out.
-- - Paths: src/fs/namei.c, from access rights and names to the calls on them: Paths.Entries for the
--   entries of a directory, Paths.Walk for the walk along a path, Paths.Open and Paths.Calls for the
--   calls. The walk runs on fuel; one round more than the path has bytes is enough.
--
-- Memory stands on Bitmap and Stdlib as the C code does, Blocks on Bitmap, Inodes on Blocks, Paths on
-- Inodes, Keyboard and Pipe on Kfifo,
-- the terminal of Keyboard and the signals on the list of tasks, and Paths on Strings; the others stand
-- alone. A loop that ends when its data say so runs on fuel, as said above; every other loop is
-- structural recursion on its rounds or on a list.
--
-- Not modelled: interrupt entry and the registers of a context switch, written in assembler; drivers,
-- whose state is in devices; page faults and the copy of page tables, which need the processor's view
-- of memory; the super blocks; user programs; src/lib/vsprintf.c, which
-- is taken over from Linux.
pub mod Arena
pub mod Base
pub mod Bitmap
pub mod Blocks
pub mod Cache
pub mod Calendar
pub mod Console
pub mod Devices
pub mod Files
pub mod Inodes
pub mod Keyboard
pub mod Kfifo
pub mod Linked
pub mod Lock
pub mod Memory
pub mod Paths
pub mod Pipe
pub mod Stdlib
pub mod Strings
pub mod Tasks
pub mod Timers
