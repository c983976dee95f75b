-- ===== src/Worker/Sock/Start.antt =====
-- `do_sock_read`, `do_sock_write` and `ev_sock_timeout` of src/acoro.c: how a transfer starts, and how
-- its timer ends it.
use async_coro.Base.{
  ℕ, ◌≡◌, inl, inr, refl, arith, ℤ, pos, minus_one, is_zero, true, false, some, List, ◌∷◌, ◌==◌,
  if◌then◌else◌, Bool-cases, eq→==, ok, and_then, Returns,
}
use async_coro.Queue.Mem.{Ptr}
use async_coro.Task.{Ret}
use async_coro.World.Calls.{Event, TimerCallback, Call, Os, eagain}
use async_coro.World.State.{World, load-ok, change-ok, with_task-here}
use async_coro.Notify.{linked, coroutine_notify_manager}
use async_coro.Notify.Laws.{ready, notify_manager_lem}
use async_coro.Worker.Sock.{ev_sock_stop, Dir, io_action, io_callback, do_sock_io, ev_sock_timeout}
use async_coro.Worker.Sock.Transfer.{
  bytes_moved, Since, one_more, InBuffer, io_task, Frame, Pending, stopped, stop_calls,
  ev_sock_stop_lem,
}

-- What a worker has asked libev for when a transfer starts.
abbrev pub started_calls : (me : ℕ) → Dir → Ptr → (ms fd : ℤ) → List Call → List Call
started_calls me d p ms fd cs =
    if is_zero ms
    then Call.io_start me p (io_callback d) fd ∷ cs
    else Call.timer_start me p TimerCallback.ev_sock_timeout ms
      ∷ Call.io_start me p (io_callback d) fd
      ∷ cs

module _ (os : Os) (me : ℕ) (d : Dir) (p : Ptr) (ms fd : ℤ) (buf count : ℕ) (old : List Call)
    (r : Ret) (stack : Ptr) where
  -- Starting a transfer watches the descriptor, sets a timer exactly if a timeout was given, and
  -- leaves the task with nothing moved and all `count` bytes to move, whatever it counted before.
  pub do_sock_io_lem :
      (have need : ℕ) (w : World)
      → w.tasks p ≡ some (io_task (io_action d) ms fd buf count r stack have need)
      → bytes_moved os w.calls ≡ bytes_moved os old
      → Since (InBuffer buf count) old w.calls
      → Returns
          (λ _ w'.
            Pending os d p ms fd buf count old r stack 0 count w'
            × Frame p w w'
            × (w'.calls ≡ started_calls me d p ms fd w.calls))
          (do_sock_io os me d p w)
  unfolding do_sock_io
  do_sock_io_lem have need w e tally all = rw (load-ok w p e) (elim (Bool-cases (is_zero ms)) [
    | inl z ↦
        rw
          (
            z,
            change-ok (record w { calls = Call.io_start me p (io_callback d) fd ∷ w.calls }) p
                (λ t. record t { ec = record { have_io = 0; need_io = count } }) e,
          )
          (
            record {
              here = rw (eq→== p p refl);
              sum = omega arith;
              moved = omega (arith, tally);
              inside = one_more tt all;
            },
            record { env = refl; sems = refl; others = λ q ne. rw ne },
            refl,
          )
    | inr z ↦
        rw
          (
            z,
            change-ok
                (record w {
                  calls =
                      Call.timer_start me p TimerCallback.ev_sock_timeout ms
                      ∷ Call.io_start me p (io_callback d) fd
                      ∷ w.calls;
                })
                p (λ t. record t { ec = record { have_io = 0; need_io = count } }) e,
          )
          (
            record {
              here = rw (eq→== p p refl);
              sum = omega arith;
              moved = omega (arith, tally);
              inside = one_more tt (one_more tt all);
            },
            record { env = refl; sems = refl; others = λ q ne. rw ne },
            refl,
          )
  ])

  -- A timeout, without an error, of a transfer that is going on hands the task, if it is in no queue,
  -- to the manager with the bytes moved so far, or with -1 and
  -- `EWOULDBLOCK` if there are none.
  pub ev_sock_timeout_lem :
      (have need : ℕ) (ev : Event) (w : World)
      → Pending os d p ms fd buf count old r stack have need w
      → linked p w ≡ false
      → ev.timeout ≡ true
      → ev.error ≡ false
      → ev_sock_timeout os me p ev w
        ≡ ok tt (
            ready p (
              stopped me p ms
                (if have == 0 then minus_one else pos have)
                (if have == 0 then eagain else 0)
                (io_task (io_action d) ms fd buf count r stack have need)
                w))
  unfolding ev_sock_timeout linked
  ev_sock_timeout_lem have need ev w pend out fired fine =
      rw (fired, fine, load-ok w p pend.here)
        (elim (Bool-cases (have == 0)) [
          | inl none_yet ↦ rw none_yet (give minus_one eagain)
          | inr some_moved ↦ rw some_moved (give (pos have) 0)
        ])
    where
      give :
          (val : ℤ) (err : ℕ)
          → and_then (ev_sock_stop os me p val err w) (λ _. coroutine_notify_manager p)
            ≡ ok tt (
                ready p (
                  stopped me p ms val err
                    (io_task (io_action d) ms fd buf count r stack have need)
                    w))
      give val err =
          rw
            (ev_sock_stop_lem os me p val err ms fd buf count (io_action d) r stack have need w
              pend.here)
            (notify_manager_lem p
              (stopped me p ms val err (io_task (io_action d) ms fd buf count r stack have need) w)
              (with_task-here (record w { calls = stop_calls me p ms w.calls }) p _) out)
