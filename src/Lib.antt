-- ===== src/Lib.antt =====
-- QSOE/L: the parts of the task manager (taskman/) and of the kernel seam of the C library (libc/)
-- that keep the state of the system.
--
-- Resource database (taskman/sys/rsrcdb.c): Rsrcdb. `Rsrcdb.Entry` has the entries and the walks
-- over one class list (`find_fit`, `list_insert`, `merge_neighbours`), `Rsrcdb.Db` the pool and the
-- lists of all classes (`pool_alloc`, `carve`), `Rsrcdb.Calls` the operations behind the wire
-- requests. A pointer to an entry is its index in the pool. `RSRCDBMGR_*` of <sys/rsrcdbmgr.h> is
-- not in this repository and is the parameter `Abi`. The payload in the IPC buffer is a list of
-- requests. The loop of `tm_rsrc_release_pid` runs on fuel: one more than the entries that the
-- process owns in a class is enough;
-- `Rsrcdb.Seed` has `tm_rsrc_seed_from_syscfg`, on fuel: the number of bytes of the blob.
--
-- System configuration page (taskman/sys/syscfg.c): Syscfg. `Syscfg.Blob` has the blob of tags with
-- `emit` and `tm_syscfg_find`, `Syscfg.Build` `tm_syscfg_build`, as the list of the tags that it
-- emits. The constants of <qsoe/syscfg.h> and the queries of the device tree (taskman/sys/fdt.c,
-- record `Fdt`) are parameters. A node of the tree is its offset, a pointer to a payload the bytes
-- from there on. The walk of `tm_syscfg_find` runs on fuel: the number of bytes is enough.
--
-- Device tree reader (taskman/sys/fdt.c): Devtree. `Devtree.Walk` has the tokens and the walk that
-- `find_child_node` and `tm_fdt_prop` share, `Devtree.Query` the queries, and with `fdt` the record that
-- Syscfg asks. The walks run on fuel, one more than the bytes of the blob. A walk that comes to
-- a token outside the blob answers `left`: the code has no bound there and reads what is in memory,
-- which is not modelled. The queries of `Devtree.Query` take that, and a walk without end, for a failure.
--
-- File system over the embedded archive (taskman/path/cpiofs.c): Cpiofs. `Cpiofs.Scan` has the scan and
-- the lookup, `Cpiofs.File` reads and seeks; the offset and the size of an open file are in the context
-- words of its connection in Chan. The layout of `struct cpio_header` of <cpio.h> is the parameter
-- `Layout`. The scan runs on fuel, one more than the bytes of the archive; the
-- difference of its two pointers wraps as in C. `Cpiofs.Dir` has
-- `tm_cpiofs_open`, `tm_cpiofs_close` and `tm_cpiofs_stat` with the table of open directories; what
-- `cpio_info` and `cpio_get_entry` of <cpio.h> answer is the parameter `Listing`. `tm_cpiofs_readdir` is
-- not modelled.
--
-- Memory manager (taskman/mem/mmap.c, the memory fields of tm_process_t in taskman/proc/proc.h): Mem.
-- `Mem.Space` has what a process has mapped, `Mem.Anonymous` the anonymous mappings, `Mem.Unmap`
-- `tm_munmap_serve`, `Mem.Device` the registry of device regions with the carving of untyped memory,
-- `Mem.Physical` MAP_PHYS and `tm_mmap_serve`, `Mem.Protect` `tm_mprotect_serve`. What the kernel and
-- the allocators of taskman/proc/process.c answer is the record `Kernel`, operations on a state of
-- theirs; the limits of <tm_limits.h> are parameters. An array with its count is the list of its
-- entries. Words of 64 bits wrap as in C, the counts of frames as `int` do not. The walk to a device
-- region runs on fuel, the offset of the region, and the walk over a protected range on its length.
--
-- Wait/wake table (libc/qsoe/sync.c): Sync. `Sync.Entry` has one entry with its array of waiters,
-- `Sync.Table` the table and the calls: `wait_begin` and `wait_end` are the critical sections of
-- `sync_wait_impl` before and after the thread blocks, `wake` is `sync_wake_impl` with the list of
-- the Notifications that it signals. The lock makes each of these one step; `Sync.Reach` has their
-- interleavings. A `max_n` is not negative, as in all calls. What an address has in the table, the
-- credit, the generation and the queue, is `Sync.Slots.view`. The loops run over the array, or as
-- often as there are threads to wake, and need no fuel. The owner and count words of the mutex and
-- the semaphore are not modelled.
--
-- Channels, connections, pulses (taskman/proc/channel.c, connect.c, pulse.c, records of proc.h):
-- Chan. `Chan.State` has the two registries and the searches, `Chan.Pulse` `tm_pulse_send` and
-- `tm_pulse_fetch`, `Chan.Connect` the operations on connections that do not call the kernel. The
-- sizes TM_MAX_CHANNELS and TM_MAX_CONNECTIONS are the lengths of the lists, and
-- QSOE_IS_GLOBAL_CHANNEL of a header that is not in this repository is the parameter `is_global`.
-- The order of the registries is `Chan.Wired.Wired`. The operations that call the kernel are in Proc;
-- `forget_channel` is the end of a destroy.
--
-- Timers (taskman/proc/timer.c): Timer. `Timer.Ticks` has the conversions, `Timer.Sweep` the two
-- tables, `tm_nanosleep`, `tm_setitimer` and the two loops of `tm_timer_sweep`. The clock and the
-- answer of `tm_reply_park` are arguments, the timer fields of `tm_process_t` a record of their own,
-- and TM_MAX_PROCESSES and TM_MAX_SLEEPERS the number of turns and the length of the list. An alarm
-- goes into the registries of Chan. The old values that `tm_setitimer` hands back are not modelled.
--
-- Allocators (taskman/proc/process.c): Alloc. `tm_pid_alloc` and `taskman_alloc_empty_slot` with
-- what gives back, on one record; TM_MAX_PROCESSES and QSOE_PID_TASKMAN are arguments. What spawn
-- takes from `s_next_slot` directly counts up in the same way.
--
-- Processes and threads (taskman/proc/process.c, thread.c, the kernel part of channel.c and connect.c,
-- `tm_pipe_create` of taskman/path/io.c): Proc. `Proc.State` has the globals as the record `System`,
-- with the registries of Chan, the numbers of Alloc and the memory of Mem, and the invocations of the
-- kernel as the parameter `Kernel`, operations on a state `K` of its own. A C function is a step of
-- `Proc.Monad` on the whole system; what it wrote before an early return stays written. `Proc.Slots` has
-- the slots, the untyped blocks and the objects, `Proc.Table` the table of processes, `Proc.Threads`
-- `tm_thread_alloc`, `Proc.Channels` the channels and connections, `Proc.Terminate` the exit. The
-- two `name` fields are left out. `process_terminate` and `process_detach` write the record at once
-- where the code writes field by field: no call in between reads it. What tm_pathmgr_resolve, which is
-- not in this repository, answers for /dev/pipe is an argument of `pipe_create`. A status is the
-- unsigned word that is replied. The loops run over the tables and need no fuel.
--
-- Servers inside the task manager (taskman/path/pmdir.c, sysfs.c, procfs.c, taskman/sys/console.c,
-- devnull.c, devzero.c): Pmdir has the directories of the path manager with their table, Synth the
-- trees of /sys and /proc and the devices. The state of a connection to one of them is the context
-- of its record in Chan. tm_pathmgr_child_at, <tm_sysfs.h> and <tm_procfs.h> are not in this
-- repository and are the parameters `child_at`, `Tree` and `ProcTree`. The loops of clients,
-- `list_names` and `sysfs_read_loop`, run on fuel: one more than the children, or the bytes left. A
-- read of more than the 928 bytes of the payload, which writes behind the IPC buffer, has no answer. An
-- offset of a seek is the word of the `long`; a sum that overflows wraps.
--
-- IO requests (taskman/path/io.c): Path. `Path.Io` has `tm_io_open`, `tm_io_close`, `tm_io_read`,
-- `tm_io_write` and `tm_lseek` over the system of Proc, the two tables of open directories and the
-- servers, `Path.Files` `tm_unlink`, `tm_access` and `tm_readlink`; the path manager of
-- <tm_pathmgr.h> is the parameter `Names`, tm_cpio_find_file of <tm_cpio.h> another one.
--
-- Not modelled: spawn and the image, fstat and readdir of taskman/path/io.c, the path manager itself, the
-- dispatcher of requests and the client stubs of the C library.
pub mod Base
pub mod Rsrcdb
pub mod Sync
pub mod Chan
pub mod Timer
pub mod Alloc
pub mod Syscfg
pub mod Mem
pub mod Proc
pub mod Devtree
pub mod Cpiofs
pub mod Pmdir
pub mod Synth
pub mod Path
