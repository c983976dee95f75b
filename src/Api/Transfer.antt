-- ===== src/Api/Transfer.antt =====
-- A socket transfer of src/acoro.c from its call to its result: the coroutine asks, a worker starts the
-- transfer, an event and perhaps the timer end it, and the manager resumes the coroutine.
use async_coro.Base.{
  to_int-minus_one, subst, ℕ, ◌+◌, ◌≡◌, ◌≢◌, ◌⊎◌, inl, inr, refl, ap, ◌∙◌, arith, ℤ, pos, minus_one,
  to_int, true, false, some, List, [], ◌∷◌, ◌==◌, if◌then◌else◌, Bool-cases, eq→==, ne→==, pure,
  ◌>>=◌, ◌>>◌, Returns, Returns-bind, Returns-mono,
}
use async_coro.Queue.Mem.{Ptr}
use async_coro.Task.{sock_done, Ret, Task}
use async_coro.World.Calls.{Event, Call, Os, eagain}
use async_coro.World.State.{Env, World, Co, curr, load-ok}
use async_coro.Notify.{linked, wake_byte, shift_doing}
use async_coro.Notify.Laws.{ready}
use async_coro.Manager.{wakes}
use async_coro.Manager.Rounds.{wakes-ok}
use async_coro.Worker.Handle.{received, byte_came}
use async_coro.Worker.Events.{new_event_handler, read_pipe, do_task, do_task_for}
use async_coro.Worker.Sock.{
  Dir, reading, writing, io_action, do_sock_io, do_sock_read, do_sock_write, ev_sock_io,
  ev_sock_timeout,
}
use async_coro.Worker.Sock.Transfer.{
  bytes_moved, Since, InBuffer, io_task, Frame, Ended, Pending, stopped, ev_sock_stop_lem,
  stop-Ended,
}
use async_coro.Worker.Sock.Start.{do_sock_io_lem, ev_sock_timeout_lem}
use async_coro.Worker.Sock.Deliver.{Outcome}
use async_coro.Api.RoundTrip.{IsIdle}

module _ (os : Os) (me : ℕ) (d : Dir) (fuel : ℕ) (ev fired : Event) where
  -- The timer of a transfer that has not ended.
  unfoldable pub timer_if_waiting : Ptr → Co (Unit {0})
  timer_if_waiting p w = (if w.manager_sem == 0 then ev_sock_timeout os me p fired else pure tt) w

  -- What happens while the only coroutine is suspended: worker `me` has its byte, the event `ev` comes, then the timer if
  -- the transfer has not ended, and the manager resumes the coroutine that is ready.
  unfoldable pub moving : Co (Unit {0})
  unfolding timer_if_waiting
  moving = do
    p ← curr
    new_event_handler os me byte_came
    ev_sock_io os me d fuel p ev
    timer_if_waiting p
    wakes

-- The event of a timer.
abbrev pub FiredOnly : Event → Type 0
FiredOnly e = (e.timeout ≡ true) × (e.error ≡ false)

do_task-io :
    (os : Os) (me : ℕ) (d : Dir) (P : World → Type 0) (p : Ptr) (w : World) {t : Task}
    → w.tasks p ≡ some t
    → t.action ≡ io_action d
    → Returns (λ _. P) (do_sock_io os me d p w)
    → Returns (λ n v. (n ≡ 1) × P v) (do_task os me p w)
unfolding do_task do_task_for do_sock_read do_sock_write
do_task-io os me reading P p w e act starts =
    rw (load-ok w p e, act)
      (Returns-bind _ _ (do_sock_io os me reading p w) _ starts (λ _ v h. (refl, h)))
do_task-io os me writing P p w e act starts =
    rw (load-ok w p e, act)
      (Returns-bind _ _ (do_sock_io os me writing p w) _ starts (λ _ v h. (refl, h)))

module _ (os : Os) (me : ℕ) (d : Dir) (p : Ptr) (ms fd : ℤ) (buf count : ℕ) (old : List Call)
    (r : Ret) (stack : Ptr) (fuel : ℕ) (ev fired : Event) where
  -- The coroutine is resumed with its result, and nothing is queued.
  pub record Resumed (w : World) : Type 0 where
    pub ended : Ended os p ms fd buf count old stack w
    pub idle : IsIdle me w
    pub current : w.curr_task ≡ p

  -- Nothing is queued but a task that has its result.
  resume_lem :
      (w : World)
      → Ended os p ms fd buf count old stack w
      → IsIdle me w
      → Returns (λ _. Resumed) (wakes (ready p w))
  resume_lem w en idle =
      rw
        (wakes-ok 0 p [] (ready p w)
          (io_task sock_done ms fd buf count (record { val = en.val; err_code = en.err }) stack
            en.have en.need)
          (omega (arith, idle.no_posts)) (rw idle.nothing_todo refl) en.here refl)
        (record {
          ended = record {
            have = en.have;
            need = en.need;
            err = en.err;
            val = en.val;
            here = en.here;
            sum = en.sum;
            moved = en.moved;
            result = en.result;
            inside = en.inside;
          };
          idle = record {
            nothing_todo = refl;
            nothing_doing = idle.nothing_doing;
            no_posts = refl;
            no_byte = idle.no_byte;
          };
          current = refl;
        })

  -- A worker that has its byte starts the transfer.
  pub started_lem :
      (have need : ℕ) (w : World)
      → w.pipe me ≡ wake_byte ∷ []
      → w.doing ≡ p ∷ []
      → w.tasks p ≡ some (io_task (io_action d) ms fd buf count r stack have need)
      → bytes_moved os w.calls ≡ bytes_moved os old
      → Since (InBuffer buf count) old w.calls
      → Returns
          (λ _ v.
            Pending os d p ms fd buf count old r stack 0 count v × Frame p (received me [] [] w) v)
          (new_event_handler os me byte_came w)
  unfolding new_event_handler read_pipe shift_doing
  started_lem have need w byte front alloc tally all =
      rw (byte, front)
        (Returns-bind _ _ (do_task os me p (received me [] [] w)) _
          (do_task-io os me d
            (λ v.
              Pending os d p ms fd buf count old r stack 0 count v
              × Frame p (received me [] [] w) v)
            p (received me [] [] w) alloc refl
            (Returns-mono _ _ (do_sock_io os me d p (received me [] [] w))
              (do_sock_io_lem os me d p ms fd buf count old r stack have need (received me [] [] w)
                alloc tally all)
              (λ _ v (pend, frame, _). (pend, frame))))
          (λ n v (one, begun). rw one begun))

  -- A timer that fires ends a transfer that is going on.
  timed_out :
      (have need : ℕ) (w : World)
      → Pending os d p ms fd buf count old r stack have need w
      → IsIdle me w
      → FiredOnly fired
      → Returns (λ _. Resumed) ((timer_if_waiting os me d fuel ev fired p >> wakes) w)
  unfolding timer_if_waiting linked
  timed_out have need w pend idle (fires, fine) =
      rw
        (
          eq→== w.manager_sem 0 idle.no_posts,
          ev_sock_timeout_lem os me d p ms fd buf count old r stack have need fired w pend
              (rw (idle.nothing_todo, idle.nothing_doing) refl) fires fine,
        )
        (resume_lem
          (given (if have == 0 then minus_one else pos have) (if have == 0 then eagain else 0))
          (ends (Bool-cases (have == 0)))
          (record {
            nothing_todo = idle.nothing_todo;
            nothing_doing = idle.nothing_doing;
            no_posts = idle.no_posts;
            no_byte = idle.no_byte;
          }))
    where
      given : ℤ → ℕ → World
      given val err =
          stopped me p ms val err (io_task (io_action d) ms fd buf count r stack have need) w

      stops :
          (val : ℤ) (err : ℕ)
          → (to_int val ≡ to_int (pos have)) ⊎ ((to_int val ≡ minus_one) × (err ≢ 0))
          → Ended os p ms fd buf count old stack (given val err)
      stops val err res =
          (subst (Returns (λ _ v. Ended os p ms fd buf count old stack v × Frame p w v))
            (ev_sock_stop_lem os me p val err ms fd buf count (io_action d) r stack have need w
              pend.here)
            (stop-Ended os me d p ms fd buf count old r stack (io_action d) val err have need w
              pend.here pend.sum pend.moved pend.inside res)).0

      ends :
          (have == 0 ≡ true) ⊎ (have == 0 ≡ false)
          → Ended os p ms fd buf count old stack
              (given (if have == 0 then minus_one else pos have) (if have == 0 then eagain else 0))
      ends (inl nothing) = rw nothing (stops minus_one eagain (inr (to_int-minus_one, omega arith)))
      ends (inr some_moved) = rw some_moved (stops (pos have) 0 (inl refl))

  pub IsIdle-same : (w v : World) → v.env ≡ w.env → IsIdle me w → IsIdle me v
  IsIdle-same w v e idle = record {
    nothing_todo = ap (λ (x : Env). x.todo) e ∙ idle.nothing_todo;
    nothing_doing = ap (λ (x : Env). x.doing) e ∙ idle.nothing_doing;
    no_posts = ap (λ (x : Env). x.manager_sem) e ∙ idle.no_posts;
    no_byte = ap (λ (x : Env). x.pipe me) e ∙ idle.no_byte;
  }

  -- After an event the coroutine is resumed, by the event or by the timer.
  pub after_event :
      (w v : World)
      → IsIdle me w
      → FiredOnly fired
      → Outcome os me d p ms fd buf count old r stack w v
      → Returns (λ _. Resumed) ((timer_if_waiting os me d fuel ev fired p >> wakes) v)
  unfolding timer_if_waiting
  after_event w v idle fires (inl dl) =
      rw (dl.handed, ne→== (dl.before.manager_sem + 1) 0 (omega arith))
        (resume_lem dl.before dl.ended (IsIdle-same w dl.before dl.frame.env idle))
  after_event w v idle fires (inr wt) =
      timed_out wt.have wt.need v wt.pending (IsIdle-same w v wt.frame.env idle) fires
