-- ===== src/Worker/Connect/Laws.antt =====
-- `ev_sock_connect` and `ev_sock_connect_timeout` of src/acoro.c: how a connection that is on its way
-- ends.
use async_coro.Base.{
  ℕ, ◌≡◌, inl, inr, ℤ, minus_one, is_neg, is_zero, to_int, true, false, not, ◌||◌, some, List, ◌∷◌,
  ◌==◌, if◌then◌else◌, Bool-cases, ok,
}
use async_coro.Queue.Mem.{Ptr}
use async_coro.Task.{tcp_timeout_connect, tcp_timeout_connect_done, connect_arg, Task}
use async_coro.World.Calls.{Event, Call, Answer, Os, eagain}
use async_coro.World.State.{World, with_task, load-ok, change-ok, with_task-here}
use async_coro.Notify.{linked, coroutine_notify_manager}
use async_coro.Notify.Laws.{ready, notify_manager_lem}
use async_coro.Worker.Handle.{asked}
use async_coro.Worker.Connect.{ev_sock_connect_stop, ev_sock_connect_timeout, ev_sock_connect}

-- A task that connects with a timeout on descriptor `fd`.
abbrev pub connecting : (ip port : ℕ) (ms fd : ℤ) → Task → Task
connecting ip port ms fd t = record t {
  args = connect_arg (record { timeout_ms = ms; ip = ip; port = port; fd = some fd });
}

module _ (os : Os) (me : ℕ) (p : Ptr) (ip port : ℕ) (ms fd : ℤ) where
  abbrev pub watches_gone : List Call → List Call
  watches_gone cs =
      if is_zero ms then Call.io_stop me p ∷ cs else Call.timer_stop me p ∷ Call.io_stop me p ∷ cs

  -- The state with the watchers stopped, and the task ready with its result.
  abbrev pub ended : ℤ → ℕ → Task → World → World
  ended val err t w = ready p (
      with_task p
        (record (connecting ip port ms fd t) {
          ret = record { val = to_int val; err_code = err };
          action = tcp_timeout_connect_done;
        })
        (record w { calls = watches_gone w.calls }))

  pub connect_stop_lem :
      (val : ℤ) (err : ℕ) (t : Task) (w : World)
      → w.tasks p ≡ some (connecting ip port ms fd t)
      → linked p w ≡ false
      → ev_sock_connect_stop os me p val err w ≡ ok tt (ended val err t w)
  unfolding ev_sock_connect_stop linked
  connect_stop_lem val err t w e out = elim (Bool-cases (is_zero ms)) [
    | inl z ↦
        rw (load-ok (stopped_io w) p e, z, change-ok (stopped_io w) p told e)
          (give (stopped_io w) out)
    | inr z ↦
        rw (load-ok (stopped_io w) p e, z, change-ok (stopped_timer w) p told e)
          (give (stopped_timer w) out)
  ]
    where
      told : Task → Task
      told t = record t {
        ret = record { val = to_int val; err_code = err };
        action = tcp_timeout_connect_done;
      }

      stopped_io : World → World
      stopped_io w = record w { calls = Call.io_stop me p ∷ w.calls }

      stopped_timer : World → World
      stopped_timer w = record w { calls = Call.timer_stop me p ∷ Call.io_stop me p ∷ w.calls }

      give :
          (v : World)
          → linked p v ≡ false
          → coroutine_notify_manager p (with_task p (told (connecting ip port ms fd t)) v)
            ≡ ok tt (ready p (with_task p (told (connecting ip port ms fd t)) v))
      give v out' =
          notify_manager_lem p (with_task p (told (connecting ip port ms fd t)) v)
            (with_task-here v p (told (connecting ip port ms fd t))) out'

  -- When the timer of a connection fires without an error, the task, if it is in no queue, gets -1 and `EWOULDBLOCK`, and the only calls are
  -- those that stop the watchers: the socket stays open.
  pub connect_timeout_lem :
      (ev : Event) (t : Task) (w : World)
      → w.tasks p ≡ some (connecting ip port ms fd t)
      → linked p w ≡ false
      → ev.timeout ≡ true
      → ev.error ≡ false
      → ev_sock_connect_timeout os me p ev w ≡ ok tt (ended minus_one eagain t w)
  unfolding ev_sock_connect_timeout
  connect_timeout_lem ev t w e out fired fine =
      rw (fired, fine) (connect_stop_lem minus_one eagain t w e out)

  -- The state after the call that asks for the socket's error.
  abbrev pub checked : Task → World → World
  checked t w =
      asked os (Call.getsockopt fd)
        (with_task p (record (connecting ip port ms fd t) { action = tcp_timeout_connect }) w)

  abbrev pub check : World → Answer
  check w = os.answer w.calls (Call.getsockopt fd)

  -- When the socket is reported ready without an error event, the task, if it is in no queue, gets
  -- the descriptor if the socket has no error.
  -- Otherwise the socket is closed and the task gets -1 with the `errno` of the thread after that,
  -- which nothing relates to the error that the socket reported.
  pub connect_event_lem :
      (ev : Event) (t : Task) (w : World)
      → w.tasks p ≡ some (connecting ip port ms fd t)
      → linked p w ≡ false
      → (ev.readable || ev.writable || ev.error) ≡ true
      → ev.error ≡ false
      → ev_sock_connect os me p ev w ≡ (
          if is_neg (check w).ret || not ((check w).out == 0)
          then ok tt (
              ended minus_one
                (asked os (Call.close fd) (checked t w)).errno
                t
                (asked os (Call.close fd) (checked t w)))
          else ok tt (ended fd 0 t (checked t w)))
  unfolding ev_sock_connect linked
  connect_event_lem ev t w e out came fine =
      rw
        (
          came,
          fine,
          load-ok w p e,
          change-ok w p (λ t. record t { action = tcp_timeout_connect }) e,
        )
        (elim (Bool-cases (is_neg (check w).ret || not ((check w).out == 0))) [
          | inl bad ↦ rw bad (
              connect_stop_lem minus_one (asked os (Call.close fd) (checked t w)).errno t'
                (asked os (Call.close fd) (checked t w)) here out)
          | inr good ↦ rw good (connect_stop_lem fd 0 t' (checked t w) here out)
        ])
    where
      t' : Task
      t' = record t { action = tcp_timeout_connect }

      here : (checked t w).tasks p ≡ some (connecting ip port ms fd t')
      here = with_task-here w p (connecting ip port ms fd t')
