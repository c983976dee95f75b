-- ===== src/Worker/Events.antt =====
-- `do_msleep`, `do_tcp_accept`, their callbacks, `do_task` and `new_event_handler` of src/acoro.c.
use async_coro.Base.{
  ℕ, ℤ, Bool, false, negsuc, pos, is_neg, not, ◌&&◌, ◌||◌, ◌==◌, if◌then◌else◌, Stop, pure, halt,
  ◌>>=◌, ◌>>◌, assert,
}
use async_coro.Queue.Mem.{Ptr}
use async_coro.Task.{
  Action, disk_open, disk_read, disk_write, sock_read, sock_write, tcp_blocked_connect,
  tcp_timeout_connect, msleep, msleep_done, bg_run, tcp_accept, tcp_accept_done, is_tcp_accept,
  Args, general_arg, tcp_accept_arg, TcpAcceptArg,
}
use async_coro.World.Calls.{Event, IoCallback, TimerCallback, Call, Os}
use async_coro.World.State.{Co, load, change, get_errno, sys, tell}
unfoldable pub use async_coro.Notify.{read_pipe}
use async_coro.Notify.{shift_doing, coroutine_notify_manager, wake_byte}
use async_coro.Flags.{crt_set_nonblock}
use async_coro.Worker.Disk.{do_disk_open, do_disk_read, do_disk_write, do_bg_run}
use async_coro.Worker.Sock.{do_sock_read, do_sock_write}
use async_coro.Worker.Connect.{do_tcp_blocked_connect, do_tcp_timeout_connect}

abbrev pub as_general : Args → Co ℕ
as_general (general_arg n) = pure n
as_general _ = halt Stop.fault

abbrev pub as_accept : Args → Co TcpAcceptArg
as_accept (tcp_accept_arg a) = pure a
as_accept _ = halt Stop.fault

abbrev pub is_minus_one : ℤ → Bool
is_minus_one (pos n) = false
is_minus_one (negsuc n) = n == 0

module _ (os : Os) (me : ℕ) where
  unfoldable pub timer_timeout : Ptr → Event → Co (Unit {0})
  timer_timeout p ev = do
    assert (ev.timeout && not (ev.readable || ev.writable || ev.error))
    tell (Call.timer_stop me p)
    change p (λ t. record t { ret = record { val = pos 0; err_code = 0 }; action = msleep_done })
    coroutine_notify_manager p

  unfoldable pub do_msleep : Ptr → Co (Unit {0})
  do_msleep p = do
    t ← load p
    ms ← as_general t.args
    tell (Call.timer_start me p TimerCallback.timer_timeout (pos ms))

  -- On an error event `task_ptr` is never set, and the code writes through it.
  unfoldable pub ev_tcp_accept : Ptr → Event → Co (Unit {0})
  ev_tcp_accept p ev = do
    assert (ev.readable || ev.error)
    if ev.error then halt Stop.fault else do
      t ← load p
      a ← as_accept t.args
      assert (is_tcp_accept t.action)
      fd ← sys os (Call.accept a.sockfd a.addr a.addrlen)
      tell (Call.io_stop me p)
      change p (λ t. record t {
        action = tcp_accept_done;
        ret = record { val = fd; err_code = t.ret.err_code };
      })
      if is_neg fd
          then (do
            assert (is_minus_one fd)
            e ← get_errno
            change p (λ t. record t { ret = record { val = t.ret.val; err_code = e } }))
          else (do
            crt_set_nonblock os fd
            change p (λ t. record t { ret = record { val = t.ret.val; err_code = 0 } }))
      coroutine_notify_manager p

  unfoldable pub do_tcp_accept : Ptr → Co (Unit {0})
  do_tcp_accept p = do
    t ← load p
    assert (is_tcp_accept t.action)
    a ← as_accept t.args
    tell (Call.io_start me p IoCallback.ev_tcp_accept a.sockfd)

  -- 0 for an operation that is finished, 1 for one that a callback will finish.
  unfoldable pub do_task_for : Ptr → Action → Co ℕ
  do_task_for p disk_open = do do_disk_open os p; pure 0
  do_task_for p disk_read = do do_disk_read os p; pure 0
  do_task_for p disk_write = do do_disk_write os p; pure 0
  do_task_for p sock_read = do do_sock_read os me p; pure 1
  do_task_for p sock_write = do do_sock_write os me p; pure 1
  do_task_for p tcp_blocked_connect = do do_tcp_blocked_connect os p; pure 0
  do_task_for p tcp_timeout_connect = do do_tcp_timeout_connect os me p; pure 1
  do_task_for p msleep = do do_msleep p; pure 1
  do_task_for p bg_run = do do_bg_run os p; pure 0
  do_task_for p tcp_accept = do do_tcp_accept p; pure 1
  do_task_for p _ = halt Stop.aborted

  unfoldable pub do_task : Ptr → Co ℕ
  do_task p = do t ← load p; do_task_for p t.action

  unfoldable pub new_event_handler : Event → Co (Unit {0})
  new_event_handler ev =
      if ev.readable && not (ev.writable || ev.timeout || ev.error)
      then (do
        c ← read_pipe me
        assert (c == wake_byte)
        p ← shift_doing
        ret ← do_task p
        if ret == 0
            then coroutine_notify_manager p
            else if ret == 1
            then pure tt
            else halt Stop.aborted)
      else halt Stop.aborted
