-- ===== src/Task.antt =====
-- src/acoro.c and src/acoro.h: actions, the arguments of a task, and the task items of the queues.
use async_coro.Base.{ℕ, ℤ, Bool, true, false, Option}
use async_coro.Queue.Mem.{Ptr}

-- `enum action_t`.
pub data Action : Type 0 where
  new_coroutine finished_coroutine sched_yield : Action
  disk_open disk_read disk_write : Action
  sock_read sock_write sock_done : Action
  disk_open_done disk_read_done disk_write_done : Action
  tcp_blocked_connect tcp_blocked_connect_done : Action
  tcp_timeout_connect tcp_timeout_connect_done : Action
  msleep msleep_done : Action
  bg_run bg_run_done : Action
  tcp_accept tcp_accept_done : Action
  sem_activation : Action

pub Action-discrete : Discrete Action
Action-discrete = hlevel

-- `act == act_finished_coroutine`, and the like.
abbrev pub is_finished : Action → Bool
is_finished finished_coroutine = true
is_finished _ = false

abbrev pub is_sock_read : Action → Bool
is_sock_read sock_read = true
is_sock_read _ = false

abbrev pub is_sock_write : Action → Bool
is_sock_write sock_write = true
is_sock_write _ = false

abbrev pub is_tcp_accept : Action → Bool
is_tcp_accept tcp_accept = true
is_tcp_accept _ = false

-- Functions, arguments and paths are the addresses of what they point to.
pub record InitArg : Type 0 where
  pub func : Ptr
  pub stack_size : ℕ
  pub func_arg : Ptr

pub record OpenArg : Type 0 where
  pub pathname : Ptr
  pub flags : ℕ
  pub mode : ℕ

-- `timeout_ms` is `none` where the bytes were never written as a timeout.
pub record IoArg : Type 0 where
  pub timeout_ms : Option ℤ
  pub fd : ℤ
  pub buf : Ptr
  pub count : ℕ

-- `fd` is `none` until `do_tcp_timeout_connect` writes it.
pub record ConnectArg : Type 0 where
  pub timeout_ms : ℤ
  pub ip : ℕ
  pub port : ℕ
  pub fd : Option ℤ

pub record RoutineArg : Type 0 where
  pub func : Ptr
  pub arg : Ptr
  pub result : Ptr

pub record TcpAcceptArg : Type 0 where
  pub sockfd : ℤ
  pub addr : Ptr
  pub addrlen : Ptr

-- `union args_u`, with the member that was written last. Of `general_arg` the code uses `u64`.
pub data Args : Type 0 where
  init_arg : InitArg → Args
  open_arg : OpenArg → Args
  io_arg : IoArg → Args
  connect_arg : ConnectArg → Args
  general_arg : (u64 : ℕ) → Args
  routine_arg : RoutineArg → Args
  tcp_accept_arg : TcpAcceptArg → Args

-- `ret` of a task.
pub record Ret : Type 0 where
  pub val : ℤ
  pub err_code : ℕ

-- The counters of `struct ev_controller_s`; its watchers belong to libev.
pub record EvController : Type 0 where
  pub have_io : ℕ
  pub need_io : ℕ

-- `struct list_item_name(task_queue)`, less `task_context`, which belongs to the C library, and
-- the link, which belongs to the queue.
pub record Task : Type 0 where
  pub action : Action
  pub args : Args
  pub ret : Ret
  pub stack_ptr : Ptr
  pub ec : EvController

-- `struct crt_channel_s`, the representation of `crt_sem_t`.
pub record Sem : Type 0 where
  pub value : ℤ  -- int
  pub task_ptr : Ptr
  pub buf_capacity : ℕ
  pub buf_offset : ℕ
  pub buf : Ptr
