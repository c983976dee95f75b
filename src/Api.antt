-- ===== src/Api.antt =====
-- `crt_create`, `crt_sched_yield`, `crt_exit` and the calls that a coroutine makes and waits for:
-- the public interface of src/acoro.c and src/acoro.h. A call that is not slow is in `Socket`.
pub mod RoundTrip
pub mod Transfer
pub mod SockCall
pub mod Sleep
pub mod Accept
pub mod Create
pub mod Tests
use async_coro.Base.{
  ℕ, get, ◌*◌, ◌+◌, ℤ, pos, negsuc, minus_one, to_int, Bool, false, Option, none, some, ◌==◌,
  if◌then◌else◌, ok, stop, Stop, pure, ◌>>=◌, ◌>>◌, modify,
}
use async_coro.Queue.Mem.{Ptr, null, update}
use async_coro.Task.{
  Action, new_coroutine, finished_coroutine, sched_yield, disk_open, disk_read, disk_write,
  sock_read, sock_write, tcp_blocked_connect, tcp_timeout_connect, Args, init_arg, open_arg, io_arg,
  connect_arg, general_arg, routine_arg, tcp_accept_arg, Task,
}
use async_coro.World.Calls.{Call, Os, creat_bit, bit_at}
use async_coro.World.State.{Co, u64, load, change, curr, sys}
use async_coro.Notify.{with_env, push_todo, sem_post, coroutine_notify_background_worker}
use async_coro.Manager.{to_ptr}

-- `COROUTINE_STACK_SIZE`.
abbrev pub default_stack : ℕ
default_stack = 1024 * 32

-- The action and the arguments of the current task.
abbrev pub set_request : Action → (Args → Args) → Co (Unit {0})
set_request act f = do p ← curr; change p (λ t. record t { action = act; args = f t.args })

unfoldable pub coroutine_set_finished_coroutine : Co (Unit {0})
coroutine_set_finished_coroutine = do
  p ← curr
  change p (λ t. record t { action = finished_coroutine })

unfoldable pub coroutine_set_disk_open : (pathname flags mode : ℕ) → Co (Unit {0})
coroutine_set_disk_open pathname flags mode = set_request disk_open λ _. open_arg (record {
  pathname = pathname;
  flags = flags;
  mode = if bit_at creat_bit flags then mode else 0;
})

-- The disk calls leave `timeout_ms` as it is.
abbrev pub old_timeout : Args → Option ℤ
old_timeout (io_arg a) = a.timeout_ms
old_timeout _ = none

abbrev pub with_io : Option ℤ → (fd : ℤ) → (buf count : ℕ) → Args
with_io ms fd buf count = io_arg (record { timeout_ms = ms; fd = fd; buf = buf; count = count })

unfoldable pub coroutine_set_disk_read : (fd : ℤ) → (buf count : ℕ) → Co (Unit {0})
coroutine_set_disk_read fd buf count =
    set_request disk_read λ a. with_io (old_timeout a) fd buf count

unfoldable pub coroutine_set_disk_write : (fd : ℤ) → (buf count : ℕ) → Co (Unit {0})
coroutine_set_disk_write fd buf count =
    set_request disk_write λ a. with_io (old_timeout a) fd buf count

unfoldable pub coroutine_set_sock_read : (fd : ℤ) → (buf count : ℕ) → (msec : ℤ) → Co (Unit {0})
coroutine_set_sock_read fd buf count msec =
    set_request sock_read λ _. with_io (some msec) fd buf count

unfoldable pub coroutine_set_sock_write : (fd : ℤ) → (buf count : ℕ) → (msec : ℤ) → Co (Unit {0})
coroutine_set_sock_write fd buf count msec =
    set_request sock_write λ _. with_io (some msec) fd buf count

abbrev pub is_minus_one : ℤ → Bool
is_minus_one (pos n) = false
is_minus_one (negsuc n) = n == 0

unfoldable pub coroutine_set_sock_connect : (ip port : ℕ) → (msec : ℤ) → Co (Unit {0})
coroutine_set_sock_connect ip port msec =
    set_request (if is_minus_one msec then tcp_blocked_connect else tcp_timeout_connect)
      λ _. connect_arg (record { timeout_ms = msec; ip = ip; port = port; fd = none })

-- `return NULL` from the routine, which ends the coroutine, is what `resume` of the manager stands for.
unfoldable pub crt_exit : Co (Unit {0})
crt_exit = coroutine_set_finished_coroutine

-- The result is an `int`, the field an `ssize_t`.
unfoldable pub coroutine_get_retval : Co ℤ
coroutine_get_retval = do p ← curr; t ← load p; pure (to_int t.ret.val)

unfoldable pub crt_get_err_code : Co ℕ
crt_get_err_code = do p ← curr; t ← load p; pure t.ret.err_code

abbrev pub stack_for : Option ℕ → ℕ
stack_for none = default_stack
stack_for (some n) = if n == 0 then default_stack else n

-- An attribute holds the stack size that was set last.
abbrev pub crt_attr_setstacksize : Option ℕ → (stacksize : ℕ) → Option ℕ
crt_attr_setstacksize attr stacksize = some stacksize

-- `list_item_new` of a task: `raw` is what the bytes of the new item happen to hold.
abbrev pub put_task : Ptr → Task → Co (Unit {0})
put_task p t w =
    if p == null then stop Stop.fault else ok tt (record w { tasks = update w.tasks p (some t) })

-- `attr` is the stack size asked for. The result is what `*cid` is set to.
unfoldable pub crt_create : Os → (raw : Task) → (attr : Option ℕ) → (func arg : Ptr) → Co ℕ
crt_create os raw attr func arg = do
  r ← sys os Call.malloc_task
  modify (with_env (λ e. record e { cid = u64 (e.cid + 1) }))
  w ← get
  put_task (to_ptr r) (record raw {
    action = new_coroutine;
    args = init_arg (record { func = func; func_arg = arg; stack_size = stack_for attr });
  })
  push_todo (to_ptr r)
  sem_post
  pure w.cid

-- `swap` is `swapcontext` to the manager: all that happens until the coroutine is resumed.
module _ (os : Os) (swap : Co (Unit {0})) where
  unfoldable pub crt_sched_yield : Co (Unit {0})
  crt_sched_yield = do
    p ← curr
    change p (λ t. record t { action = sched_yield })
    p' ← curr
    push_todo p'
    sem_post
    swap

  -- The part that all slow calls share.
  unfoldable pub await : Co ℤ
  await = do coroutine_notify_background_worker os; swap; coroutine_get_retval

  unfoldable pub crt_msleep : ℕ → Co ℤ
  crt_msleep msec =
      if msec == 0
      then pure minus_one
      else do set_request Action.msleep λ _. general_arg msec; await

  unfoldable pub crt_bg_run : (func arg result : Ptr) → Co ℤ
  crt_bg_run func arg result = do
    set_request Action.bg_run λ _. routine_arg (record { func = func; arg = arg; result = result })
    await

  unfoldable pub crt_tcp_accept : (sockfd : ℤ) → (addr addrlen : Ptr) → Co ℤ
  crt_tcp_accept sockfd addr addrlen = do
    set_request Action.tcp_accept
        λ _. tcp_accept_arg (record { sockfd = sockfd; addr = addr; addrlen = addrlen })
    await

  unfoldable pub crt_disk_open : (pathname flags mode : ℕ) → Co ℤ
  crt_disk_open pathname flags mode = do coroutine_set_disk_open pathname flags mode; await

  unfoldable pub crt_disk_read : (fd : ℤ) → (buf count : ℕ) → Co ℤ
  crt_disk_read fd buf count = do coroutine_set_disk_read fd buf count; await

  unfoldable pub crt_disk_write : (fd : ℤ) → (buf count : ℕ) → Co ℤ
  crt_disk_write fd buf count = do coroutine_set_disk_write fd buf count; await

  unfoldable pub crt_tcp_read_to : (fd : ℤ) → (buf count : ℕ) → (msec : ℤ) → Co ℤ
  crt_tcp_read_to fd buf count msec = do coroutine_set_sock_read fd buf count msec; await

  unfoldable pub crt_tcp_read : (fd : ℤ) → (buf count : ℕ) → Co ℤ
  crt_tcp_read fd buf count = do coroutine_set_sock_read fd buf count (pos 0); await

  unfoldable pub crt_tcp_write_to : (fd : ℤ) → (buf count : ℕ) → (msec : ℤ) → Co ℤ
  crt_tcp_write_to fd buf count msec = do coroutine_set_sock_write fd buf count msec; await

  unfoldable pub crt_tcp_write : (fd : ℤ) → (buf count : ℕ) → Co ℤ
  crt_tcp_write fd buf count = do coroutine_set_sock_write fd buf count (pos 0); await

  unfoldable pub crt_tcp_blocked_connect : (ip port : ℕ) → Co ℤ
  crt_tcp_blocked_connect ip port = do coroutine_set_sock_connect ip port minus_one; await

  unfoldable pub crt_tcp_timeout_connect : (ip port : ℕ) → (msec : ℤ) → Co ℤ
  crt_tcp_timeout_connect ip port msec = do coroutine_set_sock_connect ip port msec; await
