-- ===== src/Lib.antt =====
-- avros, a message-passing microkernel for AVR microcontrollers.
--
-- The kernel (kernel/kernel.c) schedules tasks by priority and passes messages between them by
-- rendez-vous; the servers and drivers are tasks that wait in `receive` and answer requests. All
-- of them keep their data in the doubly linked queues of lib/queue.c.
--
-- Which file models what:
-- - Queue: lib/queue.c and lib/queue.h, on a memory of `next`, `prev`, `head` and `tail` cells.
--   `q_init`, `q_front`, `q_end`, `q_remv` and `q_forall` have the names of the source.
--   Queue/Chain says which list of items a queue stands for. All other parts use queues as
--   lists of item addresses: Q_FRONT is a cons, Q_END an append, Q_REMV `erase`.
-- - Kernel: kernel/kernel.c. Kernel/State has `task_t` (`Task`), the globals (`Kernel`) and the
--   call codes (`KCall`); Kernel/Calls the helpers, from `newtask` to `scheduler`, under their
--   names; Kernel/Loop the body of `kernel`: `dispatch` is the switch on the call code, one
--   clause for each case, `handle_event` the branch before it, `reenter` the whole from the
--   re-entry point on, and `load_call` the wrappers that put the arguments into the registers.
--   `Runs` stands for the switch to a task and back: a task may change its own registers and
--   the memory, and comes back by a call or by an interrupt. Kernel/Reach composes the passes.
-- - Servers/Memory: `kmalloc` and `kfree` as the servers see them. `kernel_memory` is what the
--   kernel's `dispatch` does for the two calls; the servers take any `Memory`.
-- - Servers/Sema: servers/sema.c. The helpers have the names of the source, `semasrv` is one pass
--   of the loop: it takes the client and the message and returns the reply, if one is sent, and
--   the server's state. `sema_request` has the messages of the client calls.
-- - Servers/Ts: servers/ts.c, in the same way: `ts` is one pass of the loop and returns the
--   tasks that it woke besides. A `char` is its byte and an `int` its 16-bit word.
-- - Servers/Ex: servers/ex.c, the registry of programs: `ex` is one pass of the loop.
-- - Servers/Pm: servers/pm.c, the process manager. Pm/State has its three queues with the items by
--   address, `Pm`, what it calls, `PmBus`, and the callbacks on the queues; Pm/Launch new tasks,
--   programs and the memory of tasks; Pm/Exit exit and wait; Pm/Loop `pm`, one pass of the loop,
--   `pm_start`, what comes before it, and the messages of the client calls. Pm/Family is about
--   parents and children.
--   The calls of `PmBus` for the argument vector are the functions of Servers/Args.
-- - Servers/Args: the argument vectors of servers/pm.c (`argc`, `pm_argstack_size` and
--   `cook_argstack`).
-- - Drivers/Message has the commands and the messages of servers/vfs.h, Drivers/Pipe the pipe
--   device of drivers/pipe.c: `pipedev` is one pass of the loop, on the table of nodes, and
--   returns the requests that it releases and the answer. Drivers/Ramdisk is drivers/ramdisk.c
--   in the same way: `memfile` is one pass of the loop, on the bytes of the nodes.
-- - Drivers/Tty: drivers/tty.c, the terminal: `tty_usart0` is one pass of the loop with the byte
--   in UDR0; it returns the messages that release reads, the answer and the state, which has the
--   bytes written to UDR0. A write behind the line buffer has no result.
-- - Servers/Vfs: servers/vfs.c, the file server. Vfs/State has its tables, `Vfs`, and the kernel
--   calls that it makes, `Bus`; Vfs/Files the calls on descriptors, Vfs/Names the ways from a
--   name to a node, Vfs/Loop the tasks, the devices and `vfs`, one pass of the loop, Vfs/Calls
--   the messages of the client calls. A handler takes the state with the message in it, and has
--   no result where the code leaves its tables, reads through a null client or waits for ever.
--   Vfs/Talk and Vfs/Pipes put the pipe device behind the server; Vfs/Descriptors has
--   the descriptors of a client as a table of slots.
-- - Malloc: misc/malloc.c, on the list of chunks: `do_malloc`, `do_free` and `chunklist_init`.
-- - Usr/Print: the printing of numbers of usr/lib/mstdlib.c, as the characters that are written;
--   Usr/Line: `getcmd` of usr/sh.c.
-- - Usr/Words, Usr/Shell, Usr/Exec and Usr/Jobs: the rest of the shell, usr/sh.c. `parse_args` works
--   on a memory of characters, in which a place stands for a pointer; `exec_job`, `builtin` and
--   `execute` take the text of the job and the system, of which `Shell` has the calls that they
--   make; `sh_round` is one pass of the loop of `sh`, with the macros JOB_INIT, JOB_PIPE and
--   JOB_NOPIPE as functions.
--   A word behind the table of nine has no result.
-- - Base: the names that all parts share, lists and tests on numbers.
--
-- Bounds and fuel: numbers are natural numbers, with the wrap-around of 16-bit registers and
-- 8-bit fields written out. `scheduler` tries the five priorities; `q_forall` on the memory
-- takes the number of rounds as an argument, and one more than the queue has items is enough. A
-- 16-bit number has five decimal and four hexadecimal digits, the calls that printing is given.
--
-- The file server takes the number of messages that a device may send to one request as `fuel`;
-- a pipe sends at most one before its answer. The state of an `int` that is read before it is
-- written is the argument `garbage`.
--
-- The loops of the shell over a line and over a job take one more than the characters as fuel.
--
-- Parameters: malloc and free of avr-libc, what unwritten memory holds, and the address of
-- `exittask` are the fields of `Platform`. `atoi` of avr-libc is an argument of `vfs_request`.
-- The calls of the servers that the shell makes are the fields of `Shell`.
--
-- Not modelled: the rest of usr/, which is getopt and the messages of mstdlib.c and the programs
-- of apps.c, and the exit code of the command `exit`; usart0_event of drivers/tty.c and the timer
-- task of servers/ts.c and kernel/hal.c, which write registers, with the register switch in
-- assembly and the definitions of misc/iom1284p.h; main.c and usr/init.c, which call the parts
-- above in order.
pub mod Base
pub mod Drivers
pub mod Kernel
pub mod Malloc
pub mod Queue
pub mod Servers
pub mod Usr
