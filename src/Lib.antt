-- ===== src/Lib.antt =====
-- A model of async_coro, a library of coroutines in C (acoro.c, acoro.h and bsdqueue.h in the
-- folder src of the repository).
--
-- One manager thread runs the coroutines, each a task item with a stack of its own. A coroutine that
-- calls a slow operation writes the request into its task, pushes the task to the doing queue, sends
-- a byte down the pipe of a background worker, and switches to the manager. The worker takes the task
-- and either makes the blocking call, or starts a watcher of libev whose callback ends the operation;
-- then the task goes to the todo queue, the manager's semaphore is posted, and the manager resumes the
-- coroutine, which reads the result from its task. Semaphores and yields go to the todo queue at once.
--
-- Which file models what:
--   Queue and the files below it: the list and STAILQ macros of src/bsdqueue.h, over a memory with
--     one link for each item (Mem, Ops). Rep says which list a queue stands for; the rest shows what
--     each macro does to that list, and Refine that runs of them do what lists do.
--   Task: enum action_t, the argument structs and the task item of src/acoro.c, crt_channel_s of
--     src/acoro.h.
--   World: struct coroutine_env_s and the memory that the threads share (State), and the calls to the
--     kernel, the C library and libev (Calls). Samples has small states for the tests.
--   Notify: Push, Unshift, Shift, coroutine_notify_manager and coroutine_notify_background_worker.
--   Manager: the body of the loop of new_manager.
--   Worker: do_disk_open, do_disk_read, do_disk_write and do_bg_run (Disk); do_sock_read,
--     do_sock_write and their callbacks (Sock); the two ways to connect (Connect); do_msleep,
--     do_tcp_accept, do_task and new_event_handler (Events).
--   Api: crt_create, crt_sched_yield, crt_msleep, crt_bg_run, crt_tcp_accept and crt_disk_open of
--     src/acoro.c and the macros of src/acoro.h. Transfer, SockCall, Sleep and Accept follow whole calls
--     from the coroutine through the manager, the worker and its callbacks back to the coroutine.
--   Flags, Socket, Semaphore: crt_set_nonblock and crt_set_block; crt_tcp_prepare_sock; the functions
--     whose names begin with crt_sem.
--   Setup: init_coroutine_env, destroy_coroutine_env and new_background_worker of src/acoro.c.
--   System: the threads together. Owed and Steps have every single act of a thread on a queue, a pipe or
--     the manager's semaphore as a step of its own, in any order; Keeps and Rules are about whole
--     functions, Callbacks about those of the workers, Calls about the interface, Round about a round of the
--     manager, and Moves about runs of all of these as whole moves in any order.
--   Example: the programs of example. Tcp is the part of the interface that they use, as a record of
--     operations; tcp_of fills it with the functions of src/acoro.c, and Replies with any answers. Buffer has
--     their buffers, in which an access outside is a fault. Echo is echo_server.c, Echo2 is
--     echo_server2.c, Chat is chat_server.c, Connector is echo_client.c and infinite_connector.c, Pingpong
--     is sem_pingpong.c; Servers has the loops that accept connections, coro_in_coro.c and bg_worker.c.
--   Base: names, tests, lists, signed integers, and commands that return or stop for a reason.
--
-- How state is modelled. A command takes the state and returns a value and a state, or stops: at a
-- fault, at abort() or an assertion that fails, at a wait, or without fuel. Above Queue a queue is the
-- list that Queue shows it to stand for; an item has one link, so that pushing an item that is in a
-- queue already is a fault there. Tasks and semaphores are in memory by address, `none` where nothing
-- is allocated. In System.Steps the threads interleave at every operation on a queue under its lock, at
-- every post and wait, and at every byte; in System.Moves a handler, a callback and a round of the
-- manager are each one move. The union of arguments is tagged with the member that was written last, and
-- reading another is a fault. An ssize_t and an int are signed integers, and to_int is the conversion;
-- 64-bit counters wrap.
--
-- What is not under src of the repository is a parameter. The kernel, the C library and libev are
-- `Os`: an answer for each call after each history of calls, where a read or a write returns at most
-- what was asked for, or -1 with errno set. swapcontext is the parameter `swap` of a call of the
-- interface, and `resume` of the manager: whatever happens until control comes back. In the theorems on
-- whole calls `swap` is the worker's part, and then the manager's round up to its switch (wakes), which
-- aborts unless the action of the task is one that resumes it.
--
-- Fuel. The loops over a queue have one round for each item, and the theorems ask for more fuel than
-- items. The loop of a socket transfer has fuel for the bytes that are left and for the signals that
-- can still come: each round moves a byte or is interrupted. The loop of crt_sem_wait has two rounds in
-- the theorems, one before and one after it is suspended. The loops of the example programs have a
-- round for each byte of the buffer, and those that go on for ever have any number of rounds.
--
-- Not modelled: call_wrapper and coroutine_get_context, which serve makecontext and swapcontext; the
-- vendored libev; the locks, whose effect is that a step on a queue is one step; what the example
-- programs print, and their main functions.
mod Base
pub mod Queue
pub mod Task
pub mod Manager
pub mod Notify
pub mod Worker
pub mod Api
pub mod Semaphore
pub mod Socket
pub mod World
pub mod System
pub mod Flags
pub mod Setup
pub mod Example
