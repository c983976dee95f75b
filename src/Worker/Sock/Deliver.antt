-- ===== src/Worker/Sock/Deliver.antt =====
-- One event of a socket read or write in src/acoro.c, as libev delivers it: the task is handed to
-- the manager with its result, or it stays and waits for the next event.
use async_coro.Base.{
  ℕ, ◌+◌, ◌<◌, ◌≡◌, ◌≢◌, ◌⊎◌, inl, inr, refl, ap, ◌∙◌, arith, ℤ, pos, to_int-minus_one, minus_one,
  to_int, true, false, ◌||◌, some, ◌∷◌, has, ◌==◌, Bool-cases, ==→ne, Stop, pure, halt, ◌>>◌,
  and_then, Returns, Returns-bind, Returns-mono, List,
}
use async_coro.Queue.Mem.{Ptr}
use async_coro.Task.{Action, Ret}
use async_coro.World.Calls.{Event, Call, Os, enodev, nonblock_bit, has_bit}
use async_coro.World.State.{Env, World, Co, errno_after, load-ok}
use async_coro.Notify.{linked, coroutine_notify_manager}
use async_coro.Notify.Laws.{ready, notify_manager_lem}
use async_coro.Worker.Sock.{
  Dir, reading, writing, io_action, is_io_action, io_event, Next, done, again, later, ev_sock_stop,
  transfer, ev_sock_io,
}
use async_coro.Worker.Sock.Transfer.{
  bytes_moved, Since, one_more, InBuffer, io_task, Frame, Frame-trans, Ended, Pending, stop-Ended,
}
use async_coro.Worker.Sock.Loop.{IsCalm, Settled, transfer_lem}

is_io_action-io_action : (d : Dir) → is_io_action d (io_action d) ≡ true
is_io_action-io_action reading = refl
is_io_action-io_action writing = refl

-- The task has its result and is ready, and nothing else of the shared state has changed.
pub record Delivered (os : Os) (p : Ptr) (ms fd : ℤ) (buf count : ℕ) (old : List Call) (stack : Ptr)
    (w w' : World) : Type 0 where
  pub before : World
  pub ended : Ended os p ms fd buf count old stack before
  pub frame : Frame p w before
  pub handed : w' ≡ ready p before

-- The task waits for the next event, with bytes left to move, and nothing else has changed.
pub record Waiting (os : Os) (d : Dir) (p : Ptr) (ms fd : ℤ) (buf count : ℕ) (old : List Call)
    (r : Ret) (stack : Ptr) (w w' : World) : Type 0 where
  pub have : ℕ
  pub need : ℕ
  pub pending : Pending os d p ms fd buf count old r stack have need w'
  pub left : 0 < need
  pub frame : Frame p w w'

module _ (os : Os) (me : ℕ) (d : Dir) (p : Ptr) (ms fd : ℤ) (buf count : ℕ) (old : List Call)
    (r : Ret) (stack : Ptr) where
  deliver :
      (w v : World)
      → linked p w ≡ false
      → Ended os p ms fd buf count old stack v
      → Frame p w v
      → Returns (λ _. Delivered os p ms fd buf count old stack w) (coroutine_notify_manager p v)
  unfolding linked
  deliver w v out en fr =
      rw (notify_manager_lem p v en.here (same_links fr.env))
        (record { before = v; ended = en; frame = fr; handed = refl })
    where
      same_links : v.env ≡ w.env → linked p v ≡ false
      same_links e = ap (λ (u : Env). has p u.todo || has p u.doing) e ∙ out

  stop_and_deliver :
      (act : Action) (val : ℤ) (err have need : ℕ) (w v : World)
      → linked p w ≡ false
      → Frame p w v
      → v.tasks p ≡ some (io_task act ms fd buf count r stack have need)
      → have + need ≡ count
      → bytes_moved os v.calls ≡ bytes_moved os old + have
      → Since (InBuffer buf count) old v.calls
      → (to_int val ≡ to_int (pos have)) ⊎ ((to_int val ≡ minus_one) × (err ≢ 0))
      → Returns
          (λ _. Delivered os p ms fd buf count old stack w)
          (and_then (ev_sock_stop os me p val err v) (λ _. coroutine_notify_manager p))
  stop_and_deliver act val err have need w v out fr e sum tally all res =
      Returns-bind (λ _ u. Ended os p ms fd buf count old stack u × Frame p v u) _
        (ev_sock_stop os me p val err v) _
        (stop-Ended os me d p ms fd buf count old r stack act val err have need v e sum tally all
          res)
        (λ _ u (en, fr'). deliver w u out en (Frame-trans p w v u fr fr'))

  abbrev pub Outcome : World → World → Type 0
  Outcome w w' =
      Delivered os p ms fd buf count old stack w w'
      ⊎ Waiting os d p ms fd buf count old r stack w w'

  delivered :
      (w : World) (v : World) (run : Co (Unit {0}))
      → Returns (λ _. Delivered os p ms fd buf count old stack w) (run v)
      → Returns (λ _. Outcome w) (run v)
  delivered w v run dl =
      Returns-mono (λ _. Delivered os p ms fd buf count old stack w) (λ _. Outcome w) (run v) dl
        (λ _ w' e. inl e)

  -- An event of the transfer's direction, or an error event, for a task that is in no queue and whose
  -- transfer is going on, on a descriptor that does not block. If no signal comes after `quiet_from`
  -- calls, and the fuel is more than the bytes left and `quiet_from`, the event is handled in full,
  -- whatever the kernel answers: the task is delivered with its result, or waits with bytes left.
  pub ev_sock_io_lem :
      (quiet_from : ℕ)
      → IsCalm os quiet_from
      → (fuel have need : ℕ) (ev : Event) (w : World)
      → Pending os d p ms fd buf count old r stack have need w
      → linked p w ≡ false
      → (io_event d ev || ev.error) ≡ true
      → has_bit nonblock_bit (os.answer w.calls (Call.getfl fd)).ret ≡ true
      → need + quiet_from < fuel
      → Returns (λ _. Outcome w) (ev_sock_io os me d fuel p ev w)
  unfolding ev_sock_io
  ev_sock_io_lem quiet_from calm fuel have need ev w pend out event nb enough =
      rw event (elim (Bool-cases ev.error) [
        | inl bad ↦ rw bad (
            delivered w w (ev_sock_stop os me p minus_one enodev >> coroutine_notify_manager p) (
              stop_and_deliver (io_action d) minus_one enodev have need w w out fr0 pend.here
                pend.sum pend.moved pend.inside (inr (to_int-minus_one, omega arith))))
        | inr fine ↦
            rw (fine, load-ok w p pend.here, nb, is_io_action-io_action d)
              (elim (Bool-cases (need == 0)) [
                | inl nothing ↦ rw nothing (
                    delivered w w1 (ev_sock_stop os me p (pos have) 0 >> coroutine_notify_manager p)
                      (stop_and_deliver (io_action d) (pos have) 0 have need w w1 out fr1 pend.here
                        pend.sum pend.moved (one_more tt pend.inside) (inl refl)))
                | inr something ↦ rw something (
                    Returns-bind (Settled os d p ms fd buf count old r stack w1) _
                      (transfer os me d fuel p w1) _
                      (transfer_lem os me d p ms fd buf count old r stack quiet_from calm fuel have
                        need w1 pend1 (omega (arith, ==→ne need 0 something)) (omega arith))
                      after_loop)
              ])
      ])
    where
      fr0 : Frame p w w
      fr0 = record { env = refl; sems = refl; others = λ q o. refl }

      w1 : World
      w1 = record w {
        calls = Call.getfl fd ∷ w.calls;
        errno = errno_after (os.answer w.calls (Call.getfl fd)).errno w.errno;
      }

      fr1 : Frame p w w1
      fr1 = record { env = refl; sems = refl; others = λ q o. refl }

      pend1 : Pending os d p ms fd buf count old r stack have need w1
      pend1 = record {
        here = pend.here;
        sum = pend.sum;
        moved = pend.moved;
        inside = one_more tt pend.inside;
      }

      after_loop :
          (next : Next) (v : World)
          → Settled os d p ms fd buf count old r stack w1 next v
          → Returns
              (λ _. Outcome w)
              ((elim next as (λ _. Co (Unit {0})) [
                | done ↦ coroutine_notify_manager p
                | again ↦ halt Stop.out_of_fuel
                | later ↦ pure tt
              ])
                v)
      after_loop done v (en, fr) =
          delivered w v (coroutine_notify_manager p)
            (deliver w v out en (Frame-trans p w w1 v fr1 fr))
      after_loop again v s = absurd s
      after_loop later v (e, fr, (h, n, pend', left)) = inr (record {
        have = h;
        need = n;
        pending = pend';
        left = left;
        frame = Frame-trans p w w1 v fr1 fr;
      })
