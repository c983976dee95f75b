-- ===== src/Worker/Connect.antt =====
-- `do_tcp_blocked_connect`, `do_tcp_timeout_connect` and the callbacks of the latter in src/acoro.c.
pub mod Laws
pub mod Blocked
pub mod Answer
pub mod Timed
use async_coro.Base.{
  ℕ, ℤ, minus_one, is_neg, is_zero, to_int, not, ◌||◌, some, ◌==◌, if◌then◌else◌, Stop, pure, halt,
  ◌>>=◌, ◌>>◌, assert,
}
use async_coro.Queue.Mem.{Ptr}
use async_coro.Task.{
  Action, tcp_blocked_connect_done, tcp_timeout_connect, tcp_timeout_connect_done, Args,
  connect_arg,
}
use async_coro.World.Calls.{Event, IoCallback, TimerCallback, Call, Os, eagain, enodev, einprogress}
use async_coro.World.State.{Co, load, change, as_connect, known, get_errno, ask, sys, tell}
use async_coro.Notify.{coroutine_notify_manager}
use async_coro.Flags.{crt_set_nonblock}

-- `ret` and `action` of a task, as the branches write them.
abbrev pub set_result : Ptr → ℤ → ℕ → Co (Unit {0})
set_result p val err = change p (λ t. record t { ret = record { val = val; err_code = err } })

abbrev pub set_action : Ptr → Action → Co (Unit {0})
set_action p act = change p (λ t. record t { action = act })

module _ (os : Os) where
  -- `close(fd)`, and then a result with the `errno` of that moment.
  unfoldable pub close_and_fail : Ptr → (fd ret : ℤ) → Co (Unit {0})
  close_and_fail p fd ret = do sys os (Call.close fd); e ← get_errno; set_result p ret e

  unfoldable pub do_tcp_blocked_connect : Ptr → Co (Unit {0})
  do_tcp_blocked_connect p = do
    t ← load p
    a ← as_connect t.args
    fd ← sys os Call.socket
    if is_neg fd
        then (do e ← get_errno; set_result p fd e; set_action p tcp_blocked_connect_done)
        else do
          r ← sys os (Call.setsockopt fd)
          if is_neg r then (do close_and_fail p fd r; set_action p tcp_blocked_connect_done) else do
            c ← sys os (Call.connect fd a.ip a.port)
            if is_zero c
                then (do
                  set_result p fd 0
                  crt_set_nonblock os fd
                  set_action p tcp_blocked_connect_done)
                else do close_and_fail p fd c; set_action p tcp_blocked_connect_done

  -- The label `done`.
  unfoldable pub connect_done : Ptr → Co (Unit {0})
  connect_done p = do set_action p tcp_timeout_connect_done; coroutine_notify_manager p

module _ (os : Os) (me : ℕ) where
  unfoldable pub ev_sock_connect_stop : Ptr → ℤ → ℕ → Co (Unit {0})
  ev_sock_connect_stop p retval err = do
    tell (Call.io_stop me p)
    t ← load p
    a ← as_connect t.args
    if is_zero a.timeout_ms then pure tt else tell (Call.timer_stop me p)
    change p (λ t. record t {
      ret = record { val = to_int retval; err_code = err };
      action = tcp_timeout_connect_done;
    })
    coroutine_notify_manager p

  unfoldable pub ev_sock_connect_timeout : Ptr → Event → Co (Unit {0})
  ev_sock_connect_timeout p ev = do
    assert (ev.timeout || ev.error)
    ev_sock_connect_stop p minus_one (if ev.error then enodev else eagain)

  unfoldable pub ev_sock_connect : Ptr → Event → Co (Unit {0})
  ev_sock_connect p ev = do
    assert (ev.readable || ev.writable || ev.error)
    t ← load p
    a ← as_connect t.args
    fd ← known a.fd
    if ev.error then (do sys os (Call.close fd); ev_sock_connect_stop p minus_one enodev) else do
      -- The `assert` holds an assignment.
      set_action p tcp_timeout_connect
      r ← ask os (Call.getsockopt fd)
      if is_neg r.ret || not (r.out == 0)
          then (do sys os (Call.close fd); e ← get_errno; ev_sock_connect_stop p minus_one e)
          else ev_sock_connect_stop p fd 0

  abbrev pub set_fd : ℤ → Args → Args
  set_fd fd (connect_arg a) = connect_arg (record a { fd = some fd })
  set_fd fd a = a

  -- The label `connecting`.
  unfoldable pub start_connecting : Ptr → ℤ → Co (Unit {0})
  start_connecting p fd = do
    change p (λ t. record t { args = set_fd fd t.args })
    t ← load p
    a ← as_connect t.args
    tell (Call.io_start me p IoCallback.ev_sock_connect fd)
    if is_zero a.timeout_ms
        then pure tt
        else tell (Call.timer_start me p TimerCallback.ev_sock_connect_timeout a.timeout_ms)

  unfoldable pub do_tcp_timeout_connect : Ptr → Co (Unit {0})
  do_tcp_timeout_connect p = do
    t ← load p
    a ← as_connect t.args
    fd ← sys os Call.socket
    if is_neg fd
        then (do
          e ← get_errno
          set_result p fd e
          set_action p tcp_timeout_connect_done
          connect_done os p)
        else do
          r ← sys os (Call.setsockopt fd)
          if is_neg r
              then (do
                close_and_fail os p fd r
                set_action p tcp_timeout_connect_done
                connect_done os p)
              else do
                crt_set_nonblock os fd
                c ← sys os (Call.connect fd a.ip a.port)
                e ← get_errno
                if is_neg c
                    then (if e == einprogress
                        then start_connecting p fd
                        else (do close_and_fail os p fd c; connect_done os p))
                    else if is_zero c
                    then (do set_result p fd 0; connect_done os p)
                    else halt Stop.aborted
