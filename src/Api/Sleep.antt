-- ===== src/Api/Sleep.antt =====
-- `crt_msleep` and `crt_tcp_accept` of src/acoro.c from the call to its result.
use async_coro.Base.{
  to_int-zero, ℕ, ◌≡◌, ◌≢◌, refl, arith, pos, true, false, some, [], ◌∷◌, eq→==, ne→==, ok, ◌>>=◌,
  ◌>>◌, Returns,
}
use async_coro.Queue.Mem.{Ptr}
use async_coro.Task.{Action, msleep_done, general_arg, Task}
use async_coro.World.Calls.{Event, TimerCallback, Call, Os}
use async_coro.World.State.{World, Co, curr, with_task, load-ok, change-ok, with_task-here}
use async_coro.Notify.{linked, with_env, wake_byte, shift_doing}
use async_coro.Notify.Laws.{ready, submitted, notify_worker_lem, notify_manager_lem}
use async_coro.Manager.{wakes, resumes}
use async_coro.Manager.Rounds.{wakes-ok}
use async_coro.Worker.Handle.{received, byte_came}
use async_coro.Worker.Events.{
  new_event_handler, read_pipe, do_task, do_task_for, do_msleep, timer_timeout,
}
use async_coro.Api.{await, crt_msleep}
use async_coro.Api.RoundTrip.{IsIdle}
use async_coro.Api.SockCall.{turn, get_retval-ok}

-- The events of a timer and of a descriptor that can be read.
abbrev pub timer_came : Event
timer_came = record { readable = false; writable = false; timeout = true; error = false }

module _ (os : Os) (me : ℕ) where
  -- What happens while the only coroutine sleeps: worker `me` has its byte, the timer fires, and the manager resumes it.
  unfoldable pub sleeping : Co (Unit {0})
  sleeping = do p ← curr; new_event_handler os me byte_came; timer_timeout os me p timer_came; wakes

pub resumed-ok :
    (p : Ptr) (w : World) (t : Task)
    → w.manager_sem ≡ 0
    → w.todo ≡ []
    → w.tasks p ≡ some t
    → resumes t.action ≡ true
    → wakes (ready p w)
      ≡ ok tt (with_env (λ e. record e { curr_task = p; todo = []; manager_sem = 0 }) w)
resumed-ok p w t posts todo e awake =
    wakes-ok 0 p [] (ready p w) t (omega (arith, posts)) (rw todo refl) e awake

-- A task that asks for a sleep, and the same when it is over.
abbrev pub sleeper : ℕ → Task → Task
sleeper n t = record t { action = Action.msleep; args = general_arg n }

abbrev rested : Task → Task
rested t = record t { ret = record { val = pos 0; err_code = 0 }; action = msleep_done }

module _ (os : Os) (me : ℕ) (p : Ptr) where
  abbrev timed : ℕ → World → World
  timed n w =
      let v = received me [] [] w in
      record v { calls = Call.timer_start me p TimerCallback.timer_timeout (pos n) ∷ v.calls }

  sleep-starts :
      (n : ℕ) (t : Task) (w : World)
      → w.pipe me ≡ wake_byte ∷ []
      → w.doing ≡ p ∷ []
      → w.tasks p ≡ some (sleeper n t)
      → new_event_handler os me byte_came w ≡ ok tt (timed n w)
  unfolding new_event_handler read_pipe shift_doing do_task do_task_for do_msleep
  sleep-starts n t w byte front alloc =
      rw (byte, front, load-ok (received me [] [] w) p alloc, load-ok (received me [] [] w) p alloc)
        refl

  abbrev over : Task → World → World
  over t w = with_task p (rested t) (record w { calls = Call.timer_stop me p ∷ w.calls })

  sleep-ends :
      (t : Task) (w : World)
      → w.tasks p ≡ some t
      → linked p w ≡ false
      → timer_timeout os me p timer_came w ≡ ok tt (ready p (over t w))
  unfolding timer_timeout linked
  sleep-ends t w alloc out =
      rw (change-ok (record w { calls = Call.timer_stop me p ∷ w.calls }) p rested alloc) (
        notify_manager_lem p (over t w)
          (with_task-here (record w { calls = Call.timer_stop me p ∷ w.calls }) p (rested t)) out)

-- `crt_msleep`, called by the only coroutine with a time that is not 0, if the kernel takes the byte for the worker: it sets
-- a timer for that time, returns 0 when the timer has fired, and leaves nothing queued and the coroutine current.
pub sleep_lem :
    (os : Os) (n : ℕ) (w : World) (t : Task)
    → n ≢ 0
    → IsIdle (turn w) w
    → w.tasks w.curr_task ≡ some t
    → (os.answer w.calls (Call.write_pipe (turn w))).ret ≡ pos 1
    → Returns
        (λ z w'.
          (z ≡ pos 0)
          × IsIdle (turn w) w'
          × (w'.curr_task ≡ w.curr_task)
          × (w'.calls
              ≡ Call.timer_stop (turn w) w.curr_task
                ∷ Call.timer_start (turn w) w.curr_task TimerCallback.timer_timeout (pos n)
                ∷ Call.write_pipe (turn w)
                ∷ w.calls))
        (crt_msleep os (sleeping os (turn w)) n w)
unfolding crt_msleep await sleeping linked
sleep_lem os n w t some_time idle alloc taken =
    rw
      (
        ne→== n 0 some_time,
        change-ok w w.curr_task (sleeper n) alloc,
        notify_worker_lem os asleep (with_task-here w w.curr_task (sleeper n t)) out taken,
        sleep-starts os (turn w) w.curr_task n t sent
            (rw (eq→== (turn w) (turn w) refl, idle.no_byte) refl) (rw idle.nothing_doing refl)
            (with_task-here w w.curr_task (sleeper n t)),
        sleep-ends os (turn w) w.curr_task (sleeper n t) begun
            (with_task-here w w.curr_task (sleeper n t)) (rw idle.nothing_todo refl),
        resumed-ok w.curr_task (over os (turn w) w.curr_task (sleeper n t) begun)
            (rested (sleeper n t)) idle.no_posts idle.nothing_todo
            (with_task-here
              (record begun { calls = Call.timer_stop (turn w) w.curr_task ∷ begun.calls })
              w.curr_task (rested (sleeper n t)))
            refl,
        get_retval-ok back (with_task-here begun w.curr_task (rested (sleeper n t))),
      )
      (
        to_int-zero,
        record {
          nothing_todo = refl;
          nothing_doing = refl;
          no_posts = refl;
          no_byte = rw (eq→== (turn w) (turn w) refl) refl;
        },
        refl,
        refl,
      )
  where
    asleep : World
    asleep = with_task w.curr_task (sleeper n t) w

    out : linked w.curr_task asleep ≡ false
    out = rw (idle.nothing_todo, idle.nothing_doing) refl

    sent : World
    sent = submitted os asleep

    begun : World
    begun = timed os (turn w) w.curr_task n sent

    back : World
    back =
        with_env (λ e. record e { curr_task = w.curr_task; todo = []; manager_sem = 0 })
          (over os (turn w) w.curr_task (sleeper n t) begun)
