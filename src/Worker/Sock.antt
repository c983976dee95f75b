-- ===== src/Worker/Sock.antt =====
-- `do_sock_read`, `do_sock_write` and the callbacks that libev makes for them in src/acoro.c.
pub mod Deliver
pub mod Start
pub mod Tests
pub mod Loop
pub mod Serve
pub mod Transfer
use async_coro.Base.{
  ℕ, zero, suc, ◌+◌, ◌-◌, ℤ, pos, negsuc, minus_one, is_zero, to_int, Bool, not, ◌||◌, ◌==◌, ltb,
  if◌then◌else◌, Stop, pure, halt, ◌>>=◌, ◌>>◌, assert,
}
use async_coro.Queue.Mem.{Ptr}
use async_coro.Task.{Action, sock_read, sock_write, sock_done, is_sock_read, is_sock_write, Task}
use async_coro.World.Calls.{
  Event, IoCallback, TimerCallback, Call, Os, eintr, eagain, enodev, nonblock_bit, has_bit,
}
use async_coro.World.State.{Co, load, change, as_io, known, get_errno, set_errno, sys, tell}
use async_coro.Notify.{coroutine_notify_manager}

-- The two directions share their code but for the call, the event and the action.
pub data Dir : Type 0 where
  reading writing : Dir

abbrev pub io_call : Dir → (fd : ℤ) → (buf offset count : ℕ) → Call
io_call reading = Call.read_fd
io_call writing = Call.write_fd

abbrev pub io_event : Dir → Event → Bool
io_event reading e = e.readable
io_event writing e = e.writable

abbrev pub io_action : Dir → Action
io_action reading = sock_read
io_action writing = sock_write

abbrev pub is_io_action : Dir → Action → Bool
is_io_action reading = is_sock_read
is_io_action writing = is_sock_write

abbrev pub io_callback : Dir → IoCallback
io_callback reading = IoCallback.ev_sock_read
io_callback writing = IoCallback.ev_sock_write

-- What a round of the `go:` loop leads to.
pub data Next : Type 0 where
  done again later : Next

abbrev pub advance : ℕ → Task → Task
advance n t = record t { ec = record { have_io = t.ec.have_io + n; need_io = t.ec.need_io - n } }

-- `errno` after a transfer of 0 bytes that counts as the end of the stream.
abbrev pub is_quiet : ℕ → Bool
is_quiet e = e == eagain || e == 0

module _ (os : Os) (me : ℕ) where
  unfoldable pub ev_sock_stop : Ptr → ℤ → ℕ → Co (Unit {0})
  ev_sock_stop p retval err = do
    tell (Call.io_stop me p)
    t ← load p
    a ← as_io t.args
    ms ← known a.timeout_ms
    if is_zero ms then pure tt else tell (Call.timer_stop me p)
    change p
        (λ t. record t { ret = record { val = to_int retval; err_code = err }; action = sock_done })

  unfoldable pub ev_sock_timeout : Ptr → Event → Co (Unit {0})
  ev_sock_timeout p ev = do
    assert (ev.timeout || ev.error)
    if ev.error then (do ev_sock_stop p minus_one enodev; coroutine_notify_manager p) else do
      t ← load p
      if t.ec.have_io == 0
          then ev_sock_stop p minus_one eagain
          else ev_sock_stop p (pos t.ec.have_io) 0
      coroutine_notify_manager p

  -- The chain of tests on `io_bytes`.
  unfoldable pub after_transfer : Ptr → ℤ → Co Next
  after_transfer p (pos n) = do
    t ← load p
    if n == t.ec.need_io
        then (do change p (advance n); t' ← load p; ev_sock_stop p (pos t'.ec.have_io) 0; pure done)
        else if ltb 0 n
        then (do change p (advance n); pure again)
        else do
          e ← get_errno
          if is_quiet e then ev_sock_stop p (pos t.ec.have_io) e else ev_sock_stop p minus_one e
          pure done
  after_transfer p (negsuc zero) = do
    e ← get_errno
    if e == eintr
        then pure again
        else if not (e == eagain)
        then (do ev_sock_stop p minus_one e; pure done)
        else pure later
  after_transfer p (negsuc (suc _)) = halt Stop.aborted

  -- The `go:` loop, on fuel.
  unfoldable pub transfer : Dir → ℕ → Ptr → Co Next
  transfer d zero p = halt Stop.out_of_fuel
  transfer d (suc k) p = do
    set_errno 0
    t ← load p
    a ← as_io t.args
    n ← sys os (io_call d a.fd a.buf t.ec.have_io t.ec.need_io)
    next ← after_transfer p n
    elim next [ done ↦ pure done | again ↦ transfer d k p | later ↦ pure later ]

  -- `ev_sock_read` and `ev_sock_write`.
  unfoldable pub ev_sock_io : Dir → (fuel : ℕ) → Ptr → Event → Co (Unit {0})
  ev_sock_io d fuel p ev = do
    assert (io_event d ev || ev.error)
    if ev.error then (do ev_sock_stop p minus_one enodev; coroutine_notify_manager p) else do
      t ← load p
      a ← as_io t.args
      fl ← sys os (Call.getfl a.fd)
      assert (has_bit nonblock_bit fl)
      assert (is_io_action d t.action)
      if t.ec.need_io == 0
          then (do ev_sock_stop p (pos t.ec.have_io) 0; coroutine_notify_manager p)
          else do
            next ← transfer d fuel p
            elim next [
              | done ↦ coroutine_notify_manager p
              | again ↦ halt Stop.out_of_fuel
              | later ↦ pure tt
            ]

  unfoldable pub ev_sock_read : (fuel : ℕ) → Ptr → Event → Co (Unit {0})
  ev_sock_read = ev_sock_io reading

  unfoldable pub ev_sock_write : (fuel : ℕ) → Ptr → Event → Co (Unit {0})
  ev_sock_write = ev_sock_io writing

  -- `do_sock_read` and `do_sock_write`.
  unfoldable pub do_sock_io : Dir → Ptr → Co (Unit {0})
  do_sock_io d p = do
    t ← load p
    a ← as_io t.args
    tell (Call.io_start me p (io_callback d) a.fd)
    ms ← known a.timeout_ms
    if is_zero ms then pure tt else tell (Call.timer_start me p TimerCallback.ev_sock_timeout ms)
    change p (λ t. record t { ec = record { have_io = 0; need_io = a.count } })

  unfoldable pub do_sock_read : Ptr → Co (Unit {0})
  do_sock_read = do_sock_io reading

  unfoldable pub do_sock_write : Ptr → Co (Unit {0})
  do_sock_write = do_sock_io writing
