-- ===== src/System/Callbacks.antt =====
-- The operations and the callbacks of the workers of src/acoro.c keep the queues, the pipes and the
-- semaphore in step.
use async_coro.Base.{
  ℕ, zero, suc, ◌<◌, ◌≡◌, inl, inr, refl, ap, arith, ℤ, pos, negsuc, Bool, true, not, ◌&&◌, ◌||◌,
  List, [], ◌∷◌, length, ◌==◌, if◌then◌else◌, Bool-cases, Stop, pure, halt, ◌>>=◌,
}
use async_coro.Queue.Mem.{Ptr}
use async_coro.Task.{
  Action, disk_open, disk_read, disk_write, sock_read, sock_write, tcp_blocked_connect,
  tcp_timeout_connect, msleep, bg_run, tcp_accept,
}
use async_coro.World.Calls.{Event, Os}
use async_coro.World.State.{World, Co}
use async_coro.Notify.{shift_doing, wake_byte, coroutine_notify_manager}
use async_coro.Flags.{crt_set_nonblock, crt_set_block}
use async_coro.Worker.Disk.{do_disk_open, do_disk_read, do_disk_write, do_bg_run}
use async_coro.Worker.Connect.{
  close_and_fail, do_tcp_blocked_connect, connect_done, ev_sock_connect_stop,
  ev_sock_connect_timeout, ev_sock_connect, start_connecting, do_tcp_timeout_connect,
}
use async_coro.Worker.Sock.{
  Dir, reading, writing, Next, done, again, later, ev_sock_stop, ev_sock_timeout, after_transfer,
  transfer, ev_sock_io, do_sock_io, do_sock_read, do_sock_write,
}
use async_coro.Worker.Events.{
  timer_timeout, do_msleep, ev_tcp_accept, do_tcp_accept, do_task_for, do_task, read_pipe,
  new_event_handler,
}
use async_coro.System.Count.{total-update}
use async_coro.Worker.Handle.{received}
use async_coro.System.Keeps.{Inv, Leaves}
use async_coro.System.Rules.{
  Keeps, then-Keeps, pure-Keeps, halt-Keeps, notify_manager-Keeps, keeping,
}

-- The three ways to go on in the loop of a transfer.
next-Keeps :
    {A : Type 0} (n : Next) (m a l : Co A)
    → Keeps m
    → Keeps a
    → Keeps l
    → Keeps (elim n as (λ _. Co A) [ done ↦ m | again ↦ a | later ↦ l ])
next-Keeps done m a l km ka kl = km
next-Keeps again m a l km ka kl = ka
next-Keeps later m a l km ka kl = kl

module _ (os : Os) where
  pub set_nonblock-Keeps : (fd : ℤ) → Keeps (crt_set_nonblock os fd)
  unfolding crt_set_nonblock
  set_nonblock-Keeps fd = search keeping depth 24

  pub set_block-Keeps : (fd : ℤ) → Keeps (crt_set_block os fd)
  unfolding crt_set_block
  set_block-Keeps fd = search keeping depth 24

  disk_open-Keeps : (p : Ptr) → Keeps (do_disk_open os p)
  unfolding do_disk_open
  disk_open-Keeps p = search keeping depth 24

  disk_read-Keeps : (p : Ptr) → Keeps (do_disk_read os p)
  unfolding do_disk_read
  disk_read-Keeps p = search keeping depth 24

  disk_write-Keeps : (p : Ptr) → Keeps (do_disk_write os p)
  unfolding do_disk_write
  disk_write-Keeps p = search keeping depth 24

  bg_run-Keeps : (p : Ptr) → Keeps (do_bg_run os p)
  unfolding do_bg_run
  bg_run-Keeps p = search keeping depth 24

  fail-Keeps : (p : Ptr) (fd r : ℤ) → Keeps (close_and_fail os p fd r)
  unfolding close_and_fail
  fail-Keeps p fd r = search keeping depth 24

  blocked_connect-Keeps : (p : Ptr) → Keeps (do_tcp_blocked_connect os p)
  unfolding do_tcp_blocked_connect
  blocked_connect-Keeps p = search (keeping, fail-Keeps, set_nonblock-Keeps) depth 24

  connect_done-Keeps : (p : Ptr) → Keeps (connect_done os p)
  unfolding connect_done
  connect_done-Keeps p = search keeping depth 24

module _ (os : Os) (me : ℕ) where
  connect_stop-Keeps : (p : Ptr) (r : ℤ) (e : ℕ) → Keeps (ev_sock_connect_stop os me p r e)
  unfolding ev_sock_connect_stop
  connect_stop-Keeps p r e = search keeping depth 24

  pub connect_timeout-Keeps : (p : Ptr) (ev : Event) → Keeps (ev_sock_connect_timeout os me p ev)
  unfolding ev_sock_connect_timeout
  connect_timeout-Keeps p ev = search (keeping, connect_stop-Keeps) depth 24

  pub connect_event-Keeps : (p : Ptr) (ev : Event) → Keeps (ev_sock_connect os me p ev)
  unfolding ev_sock_connect
  connect_event-Keeps p ev = search (keeping, connect_stop-Keeps) depth 24

  connecting-Keeps : (p : Ptr) (fd : ℤ) → Keeps (start_connecting os me p fd)
  unfolding start_connecting
  connecting-Keeps p fd = search keeping depth 24

  timeout_connect-Keeps : (p : Ptr) → Keeps (do_tcp_timeout_connect os me p)
  unfolding do_tcp_timeout_connect
  timeout_connect-Keeps p =
      search
        (keeping, fail-Keeps os, set_nonblock-Keeps os, connecting-Keeps, connect_done-Keeps os)
        depth 24

  sock_stop-Keeps : (p : Ptr) (r : ℤ) (e : ℕ) → Keeps (ev_sock_stop os me p r e)
  unfolding ev_sock_stop
  sock_stop-Keeps p r e = search keeping depth 24

  pub sock_timeout-Keeps : (p : Ptr) (ev : Event) → Keeps (ev_sock_timeout os me p ev)
  unfolding ev_sock_timeout
  sock_timeout-Keeps p ev = search (keeping, sock_stop-Keeps) depth 24

  after_transfer-Keeps : (p : Ptr) (r : ℤ) → Keeps (after_transfer os me p r)
  unfolding after_transfer
  after_transfer-Keeps p (pos n) = search (keeping, sock_stop-Keeps) depth 24
  after_transfer-Keeps p (negsuc zero) = search (keeping, sock_stop-Keeps) depth 24
  after_transfer-Keeps p (negsuc (suc n)) = halt-Keeps _

  transfer-Keeps : (d : Dir) (k : ℕ) (p : Ptr) → Keeps (transfer os me d k p)
  unfolding transfer
  transfer-Keeps d zero p = halt-Keeps _
  transfer-Keeps d (suc k) p =
      search
        (
          keeping,
          after_transfer-Keeps,
          λ (n : Next).
              next-Keeps n (pure done) (transfer os me d k p) (pure later) (pure-Keeps _)
                (transfer-Keeps d k p) (pure-Keeps _),
        )
        depth 24

  pub sock_io-Keeps :
      (d : Dir) (fuel : ℕ) (p : Ptr) (ev : Event) → Keeps (ev_sock_io os me d fuel p ev)
  unfolding ev_sock_io
  sock_io-Keeps d fuel p ev =
      search
        (
          keeping,
          sock_stop-Keeps,
          transfer-Keeps,
          λ (n : Next).
              next-Keeps n (coroutine_notify_manager p) (halt Stop.out_of_fuel) (pure tt)
                (notify_manager-Keeps p) (halt-Keeps _) (pure-Keeps _),
        )
        depth 24

  start_io-Keeps : (d : Dir) (p : Ptr) → Keeps (do_sock_io os me d p)
  unfolding do_sock_io
  start_io-Keeps d p = search keeping depth 24

  pub timer-Keeps : (p : Ptr) (ev : Event) → Keeps (timer_timeout os me p ev)
  unfolding timer_timeout
  timer-Keeps p ev = search keeping depth 24

  msleep-Keeps : (p : Ptr) → Keeps (do_msleep os me p)
  unfolding do_msleep
  msleep-Keeps p = search keeping depth 24

  pub accept_event-Keeps : (p : Ptr) (ev : Event) → Keeps (ev_tcp_accept os me p ev)
  unfolding ev_tcp_accept
  accept_event-Keeps p ev = search (keeping, set_nonblock-Keeps os) depth 24

  accept-Keeps : (p : Ptr) → Keeps (do_tcp_accept os me p)
  unfolding do_tcp_accept
  accept-Keeps p = search keeping depth 24

  serve-Keeps : (p : Ptr) (a : Action) → Keeps (do_task_for os me p a)
  unfolding do_task_for do_sock_read do_sock_write
  serve-Keeps p disk_open = then-Keeps _ _ (disk_open-Keeps os p) (pure-Keeps _)
  serve-Keeps p disk_read = then-Keeps _ _ (disk_read-Keeps os p) (pure-Keeps _)
  serve-Keeps p disk_write = then-Keeps _ _ (disk_write-Keeps os p) (pure-Keeps _)
  serve-Keeps p sock_read = then-Keeps _ _ (start_io-Keeps reading p) (pure-Keeps _)
  serve-Keeps p sock_write = then-Keeps _ _ (start_io-Keeps writing p) (pure-Keeps _)
  serve-Keeps p tcp_blocked_connect = then-Keeps _ _ (blocked_connect-Keeps os p) (pure-Keeps _)
  serve-Keeps p tcp_timeout_connect = then-Keeps _ _ (timeout_connect-Keeps p) (pure-Keeps _)
  serve-Keeps p msleep = then-Keeps _ _ (msleep-Keeps p) (pure-Keeps _)
  serve-Keeps p bg_run = then-Keeps _ _ (bg_run-Keeps os p) (pure-Keeps _)
  serve-Keeps p tcp_accept = then-Keeps _ _ (accept-Keeps p) (pure-Keeps _)
  serve-Keeps p _ = halt-Keeps _

  -- The task that a worker takes, and what it does with it.
  taken-Keeps :
      (p : Ptr)
      → Keeps (do
        ret ← do_task os me p
        if ret == 0
            then coroutine_notify_manager p
            else if ret == 1
            then pure tt
            else halt Stop.aborted)
  unfolding do_task
  taken-Keeps p = search (keeping, serve-Keeps) depth 24

  pub handler-Leaves :
      (ev : Event) (w : World)
      → me < w.worker_count
      → Inv w
      → Leaves Inv (new_event_handler os me ev w)
  unfolding new_event_handler read_pipe shift_doing
  handler-Leaves ev w lt inv =
      elim (Bool-cases (ev.readable && not (ev.writable || ev.timeout || ev.error))) [
        | inr other ↦ rw other tt
        | inl byte ↦ from_pipe byte (w.pipe me) refl
      ]
    where
      is_byte : Bool
      is_byte = ev.readable && not (ev.writable || ev.timeout || ev.error)

      from_pipe :
          is_byte ≡ true → (q : List ℕ) → w.pipe me ≡ q → Leaves Inv (new_event_handler os me ev w)
      from_pipe byte [] e = rw (byte, e) tt
      from_pipe byte (c ∷ cs) e = elim (Bool-cases (c == wake_byte)) [
        | inr wrong ↦ rw (byte, e, wrong) tt
        | inl right ↦ from_doing right w.doing refl
      ]
        where
          from_doing :
              (c == wake_byte) ≡ true
              → (q : List Ptr) → w.doing ≡ q
              → Leaves Inv (new_event_handler os me ev w)
          from_doing right [] e' = rw (byte, e, right, e') tt
          from_doing right (p ∷ ps) e' =
              rw (byte, e, right, e')
                ((taken-Keeps p).run (received me cs ps w) (record {
                  posts = inv.posts;
                  bytes = omega (
                    arith,
                    total-update w.pipe me cs w.worker_count lt,
                    ap length e,
                    ap length e',
                    inv.bytes,
                  );
                  workers = inv.workers;
                }))
