-- ===== src/Api/SockCall.antt =====
-- A whole call of crt_tcp_read_to or crt_tcp_write_to of src/acoro.h, and what it returns.
use async_coro.Base.{
  to_int-minus_one, to_int-to_int, ℕ, ◌+◌, ◌%◌, ◌<◌, ◌≤◌, ◌≡◌, ◌⊎◌, inl, inr, refl, ap, ◌∙◌, arith,
  ℤ, pos, minus_one, is_zero, to_int, true, false, ◌||◌, some, List, [], eq→==, ok, Returns,
  Returns-bind,
}
use async_coro.Queue.Mem.{Ptr}
use async_coro.Task.{sock_read, sock_write, io_arg, Ret, Task}
use async_coro.World.Calls.{Event, Call, Os, nonblock_bit, has_bit}
use async_coro.World.State.{World, Co, with_task, load-ok, change-ok, with_task-here}
use async_coro.Notify.{linked}
use async_coro.Notify.Laws.{submitted, notify_worker_lem}
use async_coro.Worker.Handle.{received, byte_came}
use async_coro.Worker.Events.{new_event_handler}
use async_coro.Worker.Sock.{Dir, reading, writing, io_action, io_event, ev_sock_io}
use async_coro.Worker.Sock.Transfer.{
  bytes_moved, Since, no_calls, one_more, InBuffer, sock_arg, io_task, Ended,
}
use async_coro.Worker.Sock.Loop.{IsCalm}
use async_coro.Worker.Sock.Deliver.{ev_sock_io_lem}
use async_coro.Api.{
  await, coroutine_get_retval, coroutine_set_sock_read, coroutine_set_sock_write, crt_tcp_read_to,
  crt_tcp_write_to,
}
use async_coro.Api.RoundTrip.{IsIdle}
use async_coro.Api.Transfer.{moving, FiredOnly, Resumed, started_lem, IsIdle-same, after_event}

pub get_retval-ok :
    (v : World) {t : Task}
    → v.tasks v.curr_task ≡ some t
    → coroutine_get_retval v ≡ ok (to_int t.ret.val) v
unfolding coroutine_get_retval
get_retval-ok v e = rw (load-ok v v.curr_task e) refl

-- What a transfer of at most `count` bytes returns: the number of bytes that the kernel has moved
-- between the histories `old` and `cs`, or -1.
abbrev pub Moved : Os → (count : ℕ) (old cs : List Call) → ℤ → Type 0
Moved os count old cs z =
    ((n : ℕ) × (n ≤ count) × (bytes_moved os cs ≡ bytes_moved os old + n) × (z ≡ to_int (pos n)))
    ⊎ (z ≡ minus_one)

abbrev pub turn : World → ℕ
turn w = w.bg_worker_id % w.worker_count

module _ (os : Os) (quiet_from : ℕ) (calm : IsCalm os quiet_from) (d : Dir) (ms fd : ℤ)
    (buf count : ℕ) (fuel : ℕ) (enough : count + quiet_from < fuel) (ev fired : Event) (w : World)
    (nonblocking : (h : List Call) → has_bit nonblock_bit (os.answer h (Call.getfl fd)).ret ≡ true)
    (event : (io_event d ev || ev.error) ≡ true) (fires : FiredOnly fired) where
  module _ (idle : IsIdle (turn w) w) (r : Ret) (stack : Ptr) (have need : ℕ)
      (alloc : w.tasks w.curr_task
        ≡ some (io_task (io_action d) ms fd buf count r stack have need)) where
    abbrev sent : World
    sent = submitted os w

    abbrev begun : World
    begun = received (turn w) [] [] sent

    begun-IsIdle : IsIdle (turn w) begun
    begun-IsIdle = record {
      nothing_todo = idle.nothing_todo;
      nothing_doing = refl;
      no_posts = idle.no_posts;
      no_byte = rw (eq→== (turn w) (turn w) refl) refl;
    }

    moving_lem :
        Returns
          (λ _. Resumed os (turn w) d w.curr_task ms fd buf count w.calls r stack fuel ev fired)
          (moving os (turn w) d fuel ev fired sent)
    unfolding moving linked
    moving_lem =
        Returns-bind _ _ (new_event_handler os (turn w) byte_came sent) _
          (started_lem os (turn w) d w.curr_task ms fd buf count w.calls r stack fuel ev fired have
            need sent (rw (eq→== (turn w) (turn w) refl, idle.no_byte) refl)
            (rw idle.nothing_doing refl) alloc refl (one_more tt no_calls))
          (λ _ v (pend, frame).
            let quiet : IsIdle (turn w) v =
              IsIdle-same os (turn w) d w.curr_task ms fd buf count w.calls r stack fuel ev fired
                begun v frame.env begun-IsIdle in
            Returns-bind _ _ (ev_sock_io os (turn w) d fuel w.curr_task ev v) _
              (ev_sock_io_lem os (turn w) d w.curr_task ms fd buf count w.calls r stack quiet_from
                calm fuel 0 count ev v pend (rw (quiet.nothing_todo, quiet.nothing_doing) refl)
                event (nonblocking v.calls) enough)
              (λ _ u outcome.
                after_event os (turn w) d w.curr_task ms fd buf count w.calls r stack fuel ev fired
                  v u quiet fires outcome))

    awaited :
        (os.answer w.calls (Call.write_pipe (turn w))).ret ≡ pos 1
        → Returns
            (λ z w'.
              Moved os count w.calls w'.calls z
              × IsIdle (turn w) w'
              × (w'.curr_task ≡ w.curr_task)
              × Since (InBuffer buf count) w.calls w'.calls)
            (await os (moving os (turn w) d fuel ev fired) w)
    unfolding await linked
    awaited taken =
        rw (notify_worker_lem os w alloc (rw (idle.nothing_todo, idle.nothing_doing) refl) taken) (
          Returns-bind _ _ (moving os (turn w) d fuel ev fired sent) _ moving_lem (λ _ v back.
            rw (get_retval-ok v (ap v.tasks back.current ∙ back.ended.here))
              (number back.ended, back.idle, back.current, back.ended.inside)))
      where
        number :
            {v : World} (en : Ended os w.curr_task ms fd buf count w.calls stack v)
            → Moved os count w.calls v.calls (to_int en.val)
        number en = elim en.result [
          | inl moved ↦ inl (
            en.have,
            omega (arith, en.sum),
            en.moved,
            ap to_int moved ∙ to_int-to_int (pos en.have),
          )
          | inr (failed, _) ↦ inr (ap to_int failed ∙ to_int-minus_one)
        ]

-- `crt_tcp_read_to` and `crt_tcp_write_to`.
abbrev pub sock_call : Os → (swap : Co (Unit {0})) → Dir → (fd : ℤ) (buf count : ℕ) (ms : ℤ) → Co ℤ
sock_call os swap reading fd buf count ms = crt_tcp_read_to os swap fd buf count ms
sock_call os swap writing fd buf count ms = crt_tcp_write_to os swap fd buf count ms

set_and_await :
    (os : Os) (swap : Co (Unit {0})) (d : Dir) (fd : ℤ) (buf count : ℕ) (ms : ℤ) (w : World)
    (t : Task)
    → w.tasks w.curr_task ≡ some t
    → sock_call os swap d fd buf count ms w
      ≡ await os swap (
          with_task w.curr_task
            (io_task (io_action d) ms fd buf count t.ret t.stack_ptr t.ec.have_io t.ec.need_io)
            w)
unfolding crt_tcp_read_to crt_tcp_write_to coroutine_set_sock_read coroutine_set_sock_write
set_and_await os swap reading fd buf count ms w t alloc =
    rw
      (change-ok w w.curr_task
        (λ t. record t { action = sock_read; args = io_arg (sock_arg ms fd buf count) }) alloc)
      refl
set_and_await os swap writing fd buf count ms w t alloc =
    rw
      (change-ok w w.curr_task
        (λ t. record t { action = sock_write; args = io_arg (sock_arg ms fd buf count) }) alloc)
      refl

-- `crt_tcp_read_to` and `crt_tcp_write_to` with a timeout, called by the only coroutine on a descriptor that does not block, if
-- the kernel takes the byte for the worker and signals stop some time: with one event for the descriptor and, if that does not end the transfer,
-- its timer, the call returns, whatever the kernel answers to the transfers: the number of bytes that the kernel has moved, at most `count`, as an
-- `int`, or -1. All transfers were inside the buffer, nothing is left queued, and the coroutine is current.
pub sock_call_lem :
    (os : Os) (quiet_from : ℕ) (d : Dir) (fd : ℤ) (buf count : ℕ) (ms : ℤ) (fuel : ℕ)
    (ev fired : Event) (w : World) (t : Task)
    → IsCalm os quiet_from
    → count + quiet_from < fuel
    → ((h : List Call) → has_bit nonblock_bit (os.answer h (Call.getfl fd)).ret ≡ true)
    → (io_event d ev || ev.error) ≡ true
    → FiredOnly fired
    → is_zero ms ≡ false
    → IsIdle (turn w) w
    → w.tasks w.curr_task ≡ some t
    → (os.answer w.calls (Call.write_pipe (turn w))).ret ≡ pos 1
    → Returns
        (λ z w'.
          Moved os count w.calls w'.calls z
          × IsIdle (turn w) w'
          × (w'.curr_task ≡ w.curr_task)
          × Since (InBuffer buf count) w.calls w'.calls)
        (sock_call os (moving os (turn w) d fuel ev fired) d fd buf count ms w)
sock_call_lem os quiet_from d fd buf count ms fuel ev fired w t calm enough nonblocking event fires
      timed idle alloc taken =
    rw (set_and_await os (moving os (turn w) d fuel ev fired) d fd buf count ms w t alloc) (
      awaited os quiet_from calm d ms fd buf count fuel enough ev fired asked_for nonblocking event
        fires
        (record {
          nothing_todo = idle.nothing_todo;
          nothing_doing = idle.nothing_doing;
          no_posts = idle.no_posts;
          no_byte = idle.no_byte;
        })
        t.ret t.stack_ptr t.ec.have_io t.ec.need_io (with_task-here w w.curr_task _) taken)
  where
    asked_for : World
    asked_for =
        with_task w.curr_task
          (io_task (io_action d) ms fd buf count t.ret t.stack_ptr t.ec.have_io t.ec.need_io) w
