-- ===== src/Worker/Connect/Timed.antt =====
-- `do_tcp_timeout_connect` of src/acoro.c: every way in which it ends.
use async_coro.Base.{
  ℕ, ◌≡◌, ◌⊎◌, ℤ, is_neg, is_zero, true, false, some, List, ◌∷◌, if◌then◌else◌, ◌==◌, ◌>>=◌, ok,
}
use async_coro.Queue.Mem.{Ptr}
use async_coro.Task.{ConnectArg, Task}
use async_coro.World.Calls.{Call, IoCallback, TimerCallback, Os, einprogress}
use async_coro.World.State.{World}
use async_coro.Notify.{linked}
use async_coro.Notify.Laws.{ready}
use async_coro.Flags.{crt_set_nonblock}
use async_coro.Worker.Handle.{asked}
use async_coro.Worker.Sock.Transfer.{Frame}
use async_coro.Worker.Connect.Laws.{connecting}
use async_coro.Worker.Connect.Answer.{given}

module _ (os : Os) (me : ℕ) (p : Ptr) (a : ConnectArg) (t : Task) (w : World)
    (out : linked p w ≡ false) where
  abbrev new_fd : ℤ
  new_fd = (os.answer w.calls Call.socket).ret

  abbrev opened : World
  opened = asked os Call.socket w

  -- The calls that start the watchers.
  abbrev watching : List Call → List Call
  watching cs =
      let io = Call.io_start me p IoCallback.ev_sock_connect new_fd ∷ cs in
      if is_zero a.timeout_ms
      then io
      else Call.timer_start me p TimerCallback.ev_sock_connect_timeout a.timeout_ms ∷ io

  abbrev optioned : World
  optioned = asked os (Call.setsockopt new_fd) opened

  abbrev option_ret : ℤ
  option_ret = (os.answer opened.calls (Call.setsockopt new_fd)).ret

  -- What `connect` returns when it is called in the state `v`, and the state after it.
  abbrev connect_ret : World → ℤ
  connect_ret v = (os.answer v.calls (Call.connect new_fd a.ip a.port)).ret

  abbrev tried : World → World
  tried v = asked os (Call.connect new_fd a.ip a.port) v

  -- The option of the socket is set, and `v` is the state that making it non-blocking leaves.
  abbrev Readied : World → Type 0
  Readied v =
      (is_neg option_ret ≡ false) × ((e : ℕ) × (crt_set_nonblock os new_fd optioned ≡ ok e v))

  -- In the state `u` a call on the socket has failed with the result `r`.
  abbrev FailedAt : ℤ → World → Type 0
  FailedAt r u =
      ((u ≡ optioned) × (r ≡ option_ret))
      ⊎ ((v : World) × Readied v
          × (u ≡ tried v)
          × (r ≡ connect_ret v)
          × ((u.errno == einprogress) ≡ false))

  -- Either the task is given to the manager with its result, or the connection is on its way.
  pub data TimedOutcome (w' : World) : Type 0 where
    connected :
        (v : World)
        → Readied v
        → is_zero (connect_ret v) ≡ true
        → w'.calls ≡ (tried v).calls
        → Frame p (ready p w) w'
        → is_neg new_fd ≡ false
        → w'.tasks p ≡ some (given os p a t w out new_fd 0)
        → TimedOutcome w'
    no_socket :
        Frame p (ready p w) w'
        → is_neg new_fd ≡ true
        → w'.calls ≡ opened.calls
        → w'.tasks p ≡ some (given os p a t w out new_fd opened.errno)
        → TimedOutcome w'
    closed :
        (r : ℤ) (u : World)
        → FailedAt r u
        → is_neg r ≡ true
        → Frame p (ready p w) w'
        → w'.calls ≡ Call.close new_fd ∷ u.calls
        → w'.tasks p ≡ some (given os p a t w out r (asked os (Call.close new_fd) u).errno)
        → TimedOutcome w'
    pending :
        (v : World)
        → Readied v
        → is_neg (connect_ret v) ≡ true
        → ((tried v).errno == einprogress) ≡ true
        → Frame p w w'
        → w'.calls ≡ watching (tried v).calls
        → w'.tasks p ≡ some (connecting a.ip a.port a.timeout_ms new_fd t)
        → TimedOutcome w'

  -- The answers of `connect`: 0, or a negative number.
  abbrev pub ConnectAnswers : Type 0
  ConnectAnswers =
      (h : List Call)
      → let r = (os.answer h (Call.connect new_fd a.ip a.port)).ret in
        (is_neg r ≡ true) ⊎ ((is_neg r ≡ false) × (is_zero r ≡ true))
