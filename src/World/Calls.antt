-- ===== src/World/Calls.antt =====
-- What src/acoro.c asks of the kernel, the C library and libev, and what it relies on. The answers
-- are a parameter: a function of the calls made before and of the call.
use async_coro.Base.{
  ℕ, ◌+◌, ◌-◌, not, if◌then◌else◌, ◌/◌, ◌%◌, ◌^◌, ◌≤◌, ◌≡◌, ◌≢◌, ◌⊎◌, ℤ, pos, negsuc, minus_one,
  Bool, Option, some, List, ◌==◌,
}
use async_coro.Queue.Mem.{Ptr}

-- The bits of libev's event masks that the code tests.
pub record Event : Type 0 where
  pub readable : Bool
  pub writable : Bool
  pub timeout : Bool
  pub error : Bool

-- The callbacks that are handed to libev.
pub data IoCallback : Type 0 where
  ev_sock_read ev_sock_write ev_sock_connect ev_tcp_accept : IoCallback

pub data TimerCallback : Type 0 where
  ev_sock_timeout ev_sock_connect_timeout timer_timeout : TimerCallback

-- Worker threads by number, buffers and routines by address. A timer's delay is in milliseconds.
pub data Call : Type 0 where
  open_file : (pathname flags : ℕ) → (mode : Option ℕ) → Call
  read_fd : (fd : ℤ) (buf offset count : ℕ) → Call
  write_fd : (fd : ℤ) (buf offset count : ℕ) → Call
  socket : Call
  setsockopt : (fd : ℤ) → Call
  connect : (fd : ℤ) (ip port : ℕ) → Call
  getsockopt : (fd : ℤ) → Call
  bind : (fd : ℤ) (ip port : ℕ) → Call
  listen : (fd : ℤ) → Call
  accept : (fd : ℤ) (addr addrlen : Ptr) → Call
  close : (fd : ℤ) → Call
  getfl : (fd : ℤ) → Call
  setfl : (fd : ℤ) (flags : ℤ) → Call
  write_pipe : (worker : ℕ) → Call
  malloc_task : Call
  malloc : (size : ℕ) → Call
  free : (block : Ptr) → Call
  run_routine : (func arg result : Ptr) → Call
  io_start : (worker : ℕ) (task : Ptr) (cb : IoCallback) (fd : ℤ) → Call
  io_stop : (worker : ℕ) (task : Ptr) → Call
  timer_start : (worker : ℕ) (task : Ptr) (cb : TimerCallback) (msec : ℤ) → Call
  timer_stop : (worker : ℕ) (task : Ptr) → Call
  pipe : (worker : ℕ) → Call
  start_manager cancel_manager join_manager destroy_manager_sem yield_cpu : Call
  start_worker cancel_worker join_worker : (worker : ℕ) → Call
  loop_new loop_run loop_destroy : (worker : ℕ) → Call
  watch_pipe : (worker : ℕ) (fd : ℤ) → Call
  unwatch_pipe : (worker : ℕ) → Call

-- What a call returns, the `errno` that it sets, and the numbers that it stores for the caller: only
-- `pipe` stores a second one.
pub record Answer : Type 0 where
  pub ret : ℤ
  pub errno : Option ℕ
  pub out : ℕ
  pub out2 : ℕ

abbrev pub eintr : ℕ
eintr = 4

-- `EAGAIN` and `EWOULDBLOCK` are one number.
abbrev pub eagain : ℕ
eagain = 11

abbrev pub enodev : ℕ
enodev = 19

abbrev pub einprogress : ℕ
einprogress = 115

-- The numbers of the bits `O_CREAT` and `O_NONBLOCK`.
abbrev pub creat_bit : ℕ
creat_bit = 6

abbrev pub nonblock_bit : ℕ
nonblock_bit = 11

-- Bit `k` of a signed number in two's complement, the number with it set, and with it cleared.
abbrev pub bit_at : ℕ → ℕ → Bool
bit_at k n = n / 2 ^ k % 2 == 1

abbrev pub has_bit : ℕ → ℤ → Bool
has_bit k (pos n) = bit_at k n
has_bit k (negsuc n) = not (bit_at k n)

abbrev pub set_bit : ℕ → ℤ → ℤ
set_bit k (pos n) = if bit_at k n then pos n else pos (n + 2 ^ k)
set_bit k (negsuc n) = if bit_at k n then negsuc (n - 2 ^ k) else negsuc n

abbrev pub clear_bit : ℕ → ℤ → ℤ
clear_bit k (pos n) = if bit_at k n then pos (n - 2 ^ k) else pos n
clear_bit k (negsuc n) = if bit_at k n then negsuc n else negsuc (n + 2 ^ k)

-- A transfer returns at most what was asked for, or -1 with `errno` set.
abbrev pub IsTransfer : ℕ → Answer → Type 0
IsTransfer n a =
    ((k : ℕ) × (a.ret ≡ pos k) × (k ≤ n))
    ⊎ ((e : ℕ) × (a.ret ≡ minus_one) × (a.errno ≡ some e) × (e ≢ 0))

pub record Os : Type 0 where
  pub answer : List Call → Call → Answer
  pub read_law :
      (h : List Call) (fd : ℤ) (buf offset count : ℕ)
      → IsTransfer count (answer h (read_fd fd buf offset count))
  pub write_law :
      (h : List Call) (fd : ℤ) (buf offset count : ℕ)
      → IsTransfer count (answer h (write_fd fd buf offset count))
