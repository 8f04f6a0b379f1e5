-- ===== src/Lib.antt =====
-- A model of the kernel of the phone operating system: its tasks and scheduler, and what is built
-- on them. All paths are from the root of the repository.
--
-- Task.antt models kernel/task.c with include/task.h and include/cpu.h: the table `tasks[MAX_TASKS]`
-- is a function from slots to records, a `struct task *` is a slot, NULL is `none`. The calls
-- task_create, task_create_deferred, task_launch, task_exit, task_yield, msleep, wait_sleep_when and
-- wait_wake_all are functions of the same names from a kernel to a kernel; a call that parks gives
-- the kernel at the moment it enters sched_park. A panic is `none`. Its children: Task.Create on the
-- search for a free slot, Task.Queue on chains of links, Task.Wake on the wake-up.
--
-- Sched.antt models kernel/sched.c: pick_next, the dispatch of sched_run and what it does when the
-- task comes back (`dispatch`, `landed`), sched_tick and sched_post_irq; and timer_tick of kernel/time.c,
-- which counts jiffies before it calls sched_tick. Sched.Pick, Sched.Keys and
-- Sched.Tick are about the choice, the round robin and the tick.
--
-- Smp.antt composes the two on several cpus. Everything that runs under task_state_lock is one step;
-- so is timer_tick, which counts jiffies by an atomic instruction before sched_tick takes the lock;
-- the lock is handed to the scheduler across the switch (sched_park), so parking and the scheduler's
-- `parked = true` are one step. `executing` says which cpus have their current task's context loaded;
-- `queues` names the members of each wait queue. A cpu may take any step that its guards allow, in
-- any order, and a task may be killed on any cpu at any time, as mark_zombie of kernel/proc.c does.
--
-- Sync.antt models kernel/sync.c with include/sync.h on top of Task: kmutex_init, kmutex_try,
-- kmutex_lock (one turn of its loop is `lock_turn`), kmutex_unlock, ksem_init, ksem_wait (`ksem_turn`),
-- ksem_trywait, ksem_post, the wake-up wake_batch and the detector would_deadlock (`walk`). Each is
-- the stretch under sync_lock; Sync.Deadlock composes them in any order as steps.
--
-- Ring.antt models include/ipc_ring.h, the byte ring of the stream endpoints: ipc_ring_pull and
-- ipc_ring_push with their segment loops and the wrap-around of `unsigned`.
--
-- Ipc.antt models a part of kernel/ipc.c: ipc_park, ipc_wake, ipc_wake_pollers, ipc_poll_park and the
-- message queues (mq_open, mq_close_id, mq_try_free, mq_send_id, mq_receive_id; one turn of a loop is
-- `mq_send_turn` or `mq_receive_turn`). A message is copied as a segment of bytes, as in Ring. Ipc.Pipe models
-- the pipes of the same file, pipe_copy_out, pipe_copy_in, pipe_read, pipe_write, pipe_poll and
-- pipe_destroy, with the pipe at hand as an argument and a result.
--
-- Pmm.antt models mm/pmm.c: the list of free frames that is threaded through the frames themselves,
-- pmm_init, pmm_alloc, pmm_free and the scan of pmm_alloc_contig for a run of neighbours. An address
-- is a number, `mem` gives the first word of each frame.
--
-- Text.antt models lib/string.c in part: memset, memcpy, memmove, strlen and kstrlcpy, in one memory
-- that maps addresses to bytes. The fuel of strlen is enough if it exceeds the length of the string.
--
-- Vmm.antt models the per-process part of mm/vmm.c: the descriptors and the walks of vmm_probe,
-- vmm_map_at and vmm_unmap_at. The tables are words of the frames that Pmm hands out. Vmm.Grow says what
-- a tree of tables is, Vmm.Map and Vmm.Unmap prove the walks against one another.
--
-- Uaccess.antt models kernel/uaccess.c on top of Vmm: the checks of a range, uacc_copy_in, uacc_copy_out
-- and uacc_strnlen_user. The pages of a process are taken not to be its tables. The loops run on as many
-- turns as there are bytes, since every turn moves at least one.
--
-- Signal.antt models kernel/signal.c on top of Uaccess, with sys_sigaction (kernel/syscall.c) and the
-- end of proc_do_kill (kernel/proc.c). Signal.Lives is about the handlers through the life of a process.
-- The delivery runs on 33 turns, one for each flag and one.
--
-- Block.antt models the request path of drivers/block.c: the cache of sectors, block_submit for reads and
-- for writes, block_read and block_write. The driver of a device is the interface `Driver`, whose laws say
-- what a read that succeeds gives, what a write that succeeds does, and that no write touches a sector that
-- it was not asked to write; a transfer that fails may have done a part of its work. Block.Failed is about such
-- transfers. Each loop runs on as many turns as there are sectors.
--
-- AbTable.antt and Abmgr.antt model kernel/abmgr.c on top of Block: the table with its checksum as the 80
-- bytes that the device sees, and the operations of the slot manager. Abmgr.Stored is about the write of
-- the table and the next abmgr_attach, Abmgr.Survives about the operations, Abmgr.Restart about restarts,
-- after which the cache of sectors is empty (`cold`), and rollbacks. The checksum of a payload runs on as many turns as the payload has sectors.
--
-- Elf.antt models kernel/elf.c on top of Pmm and Vmm. A byte of the image has an offset of 64 bits from its
-- start, whether it belongs to the image or not. Elf.Page is about the fill of one page, Elf.Load about
-- what an image has passed that is accepted. The loops run on as many turns as there are headers and pages.
--
-- Kheap.antt models mm/kheap.c on top of Pmm: the classes with their lists of chunks, the spans of pages,
-- the headers and the canaries. Kheap.Cycle follows a chunk through kmalloc and kfree, Kheap.Span is about
-- the spans. The loops run on as many turns as there are classes, chunks and pages.
--
-- Numbers are natural numbers; counters and products that are uint64_t or unsigned wrap where they
-- are computed (`% 2 ^ 64`, `% 2 ^ 32`). Loops over linked queues run on MAX_TASKS + 1 turns of fuel,
-- which is enough for a queue of distinct tasks; the detector runs on 130 turns, which is enough
-- because it stops itself after 128 hops; a ring copy runs on as many turns as it has bytes to move,
-- since every turn moves at least one; the scan of the free list runs on free_frames turns, one for
-- each node; the loop of pmm_init runs on one turn for each page of the memory.
--
-- Not modelled: the switch itself and the exception entry (assembly), the spin locks (a locked
-- stretch is one step), the console output, unix sockets, the
-- creation of processes and their threads, the file systems, the network stack, the modem with calls and
-- messages, terminal and input, the device tree, interrupts, time and log, permissions, power, the drivers
-- and user space, which come later or are hardware.
pub mod Prelude
pub mod Task
pub mod Sched
pub mod Smp
pub mod Sync
pub mod Ring
pub mod Ipc
pub mod Pmm
pub mod Text
pub mod Vmm
pub mod Uaccess
pub mod Signal
pub mod Block
pub mod AbTable
pub mod Abmgr
pub mod Elf
pub mod Kheap
