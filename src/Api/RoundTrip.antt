-- ===== src/Api/RoundTrip.antt =====
-- A disk or background call of src/acoro.c from its start to its result: the coroutine asks, a worker
-- serves it, and the manager resumes it.
use async_coro.Base.{
  to_int-to_int, ℕ, ◌%◌, ◌≡◌, inl, inr, refl, arith, ℤ, pos, to_int, true, false, some, [], ◌∷◌,
  if◌then◌else◌, Bool-cases, eq→==, ◌>>◌, Returns,
}
use async_coro.Queue.Mem.{Ptr}
use async_coro.Task.{Task}
use async_coro.World.Calls.{Call, Os, creat_bit, bit_at}
use async_coro.World.State.{World, Co, with_task, load-ok, change-ok, with_task-here}
use async_coro.Notify.{linked, with_env, wake_byte}
use async_coro.Notify.Laws.{ready, submitted, notify_worker_lem}
use async_coro.Manager.{wakes, resumes}
use async_coro.Manager.Rounds.{wakes-ok}
use async_coro.Worker.Handle.{
  Work, opens, reads, writes, runs, asking, told, call_of, asked, received, byte_came, handler_lem,
}
use async_coro.Worker.Events.{new_event_handler}
use async_coro.Api.{
  await, coroutine_get_retval, crt_disk_open, crt_disk_read, crt_disk_write, crt_bg_run,
  coroutine_set_disk_open, coroutine_set_disk_read, coroutine_set_disk_write, old_timeout,
}

module _ (os : Os) where
  -- What happens while the only coroutine is suspended: worker `me` has its byte, and the manager
  -- resumes the coroutine that is ready.
  unfoldable pub suspended : (me : ℕ) → Co (Unit {0})
  suspended me = do new_event_handler os me byte_came; wakes

-- Nothing is queued, and no byte is on its way to worker `me`.
pub record IsIdle (me : ℕ) (w : World) : Type 0 where
  pub nothing_todo : w.todo ≡ []
  pub nothing_doing : w.doing ≡ []
  pub no_posts : w.manager_sem ≡ 0
  pub no_byte : w.pipe me ≡ []

abbrev turn : World → ℕ
turn w = w.bg_worker_id % w.worker_count

told-val :
    (os : Os) (q : Work) (w : World) (t : Task)
    → to_int (told os q w t).ret.val ≡ to_int (os.answer w.calls (call_of q)).ret
told-val os (opens a) w t = refl
told-val os (reads a) w t = refl
told-val os (writes a) w t = refl
told-val os (runs a) w t = to_int-to_int (os.answer w.calls (call_of (runs a))).ret

told-resumes :
    (os : Os) (q : Work) (w : World) (t : Task) → resumes (told os q w (asking q t)).action ≡ true
told-resumes os (opens a) w t = refl
told-resumes os (reads a) w t = refl
told-resumes os (writes a) w t = refl
told-resumes os (runs a) w t = refl

module _ (os : Os) (q : Work) (t : Task) (w : World) where
  -- A call that blocks a worker, made by the only coroutine: it returns what the worker's call gave,
  -- as an `int`, and leaves nothing queued.
  pub await_lem :
      w.tasks w.curr_task ≡ some (asking q t)
      → IsIdle (turn w) w
      → (os.answer w.calls (Call.write_pipe (turn w))).ret ≡ pos 1
      → Returns
          (λ r w'.
            (r ≡ to_int (os.answer (Call.write_pipe (turn w) ∷ w.calls) (call_of q)).ret)
            × IsIdle (turn w) w'
            × (w'.curr_task ≡ w.curr_task)
            × (w'.calls ≡ call_of q ∷ Call.write_pipe (turn w) ∷ w.calls))
          (await os (suspended os (turn w)) w)
  unfolding await suspended coroutine_get_retval linked
  await_lem alloc idle taken =
      rw
        (
          notify_worker_lem os w alloc out taken,
          handler_lem os (turn w) p q t [] [] sent byte front alloc out',
          wakes-ok 0 p [] back (told os q (received (turn w) [] [] sent) (asking q t))
              (omega (arith, idle.no_posts)) only
              (with_task-here (asked os (call_of q) (received (turn w) [] [] sent)) p _)
              (told-resumes os q (received (turn w) [] [] sent) t),
          load-ok resumed p
              (with_task-here (asked os (call_of q) (received (turn w) [] [] sent)) p _),
        )
        (
          told-val os q (received (turn w) [] [] sent) (asking q t),
          record {
            nothing_todo = refl;
            nothing_doing = refl;
            no_posts = refl;
            no_byte = rw (eq→== (turn w) (turn w) refl);
          },
          refl,
          refl,
        )
    where
      p : Ptr
      p = w.curr_task

      out : linked p w ≡ false
      out = rw (idle.nothing_todo, idle.nothing_doing)

      sent : World
      sent = submitted os w

      byte : sent.pipe (turn w) ≡ wake_byte ∷ []
      byte = rw (eq→== (turn w) (turn w) refl, idle.no_byte)

      front : sent.doing ≡ p ∷ []
      front = rw idle.nothing_doing

      out' : linked p (received (turn w) [] [] sent) ≡ false
      out' = rw idle.nothing_todo

      back : World
      back = ready p (
          with_task p (told os q (received (turn w) [] [] sent) (asking q t))
            (asked os (call_of q) (received (turn w) [] [] sent)))

      only : back.todo ≡ p ∷ []
      only = rw idle.nothing_todo

      resumed : World
      resumed = with_env (λ e. record e { curr_task = p; todo = []; manager_sem = 0 }) back

-- The function of the interface that asks for each.
abbrev pub api_call : Os → (swap : Co (Unit {0})) → Work → Co ℤ
api_call os swap (opens a) = crt_disk_open os swap a.pathname a.flags a.mode
api_call os swap (reads a) = crt_disk_read os swap a.fd a.buf a.count
api_call os swap (writes a) = crt_disk_write os swap a.fd a.buf a.count
api_call os swap (runs a) = crt_bg_run os swap a.func a.arg a.result

-- What the task holds of it: the mode only with `O_CREAT`, and the old timeout.
abbrev stored : Task → Work → Work
stored t (opens a) = opens (record a { mode = if bit_at creat_bit a.flags then a.mode else 0 })
stored t (reads a) = reads (record a { timeout_ms = old_timeout t.args })
stored t (writes a) = writes (record a { timeout_ms = old_timeout t.args })
stored t (runs a) = runs a

call_of-stored : (t : Task) (q : Work) → call_of (stored t q) ≡ call_of q
call_of-stored t (opens a) = elim (Bool-cases (bit_at creat_bit a.flags)) [
  | inl creates ↦ rw creates
  | inr opens_only ↦ rw opens_only
]
call_of-stored t (reads a) = refl
call_of-stored t (writes a) = refl
call_of-stored t (runs a) = refl

module _ (os : Os) (swap : Co (Unit {0})) (t : Task) (w : World)
    (alloc : w.tasks w.curr_task ≡ some t) where
  set_and_await :
      (q : Work)
      → api_call os swap q w ≡ await os swap (with_task w.curr_task (asking (stored t q) t) w)
  unfolding crt_disk_open crt_disk_read crt_disk_write crt_bg_run coroutine_set_disk_open
      coroutine_set_disk_read coroutine_set_disk_write
  set_and_await (opens a) =
      rw (change-ok w w.curr_task (λ t. asking (stored t (opens a)) t) alloc) refl
  set_and_await (reads a) =
      rw (change-ok w w.curr_task (λ t. asking (stored t (reads a)) t) alloc) refl
  set_and_await (writes a) =
      rw (change-ok w w.curr_task (λ t. asking (stored t (writes a)) t) alloc) refl
  set_and_await (runs a) =
      rw (change-ok w w.curr_task (λ t. asking (stored t (runs a)) t) alloc) refl

module _ (os : Os) (q : Work) (t : Task) (w : World) where
  -- `crt_disk_open`, `crt_disk_read`, `crt_disk_write` and `crt_bg_run`, called by the only coroutine,
  -- when the kernel takes the byte for the worker: each makes exactly one call, with the arguments given, returns its result as an `int`, and leaves
  -- nothing queued and the coroutine current.
  pub api_call_lem :
      w.tasks w.curr_task ≡ some t
      → IsIdle (turn w) w
      → (os.answer w.calls (Call.write_pipe (turn w))).ret ≡ pos 1
      → Returns
          (λ r w'.
            (r ≡ to_int (os.answer (Call.write_pipe (turn w) ∷ w.calls) (call_of q)).ret)
            × IsIdle (turn w) w'
            × (w'.curr_task ≡ w.curr_task)
            × (w'.calls ≡ call_of q ∷ Call.write_pipe (turn w) ∷ w.calls))
          (api_call os (suspended os (turn w)) q w)
  api_call_lem alloc idle taken =
      rw (set_and_await os (suspended os (turn w)) t w alloc q, ← call_of-stored t q)
        (await_lem os (stored t q) t asked_for (with_task-here w w.curr_task _) idle' taken)
    where
      asked_for : World
      asked_for = with_task w.curr_task (asking (stored t q) t) w

      idle' : IsIdle (turn w) asked_for
      idle' = record {
        nothing_todo = idle.nothing_todo;
        nothing_doing = idle.nothing_doing;
        no_posts = idle.no_posts;
        no_byte = idle.no_byte;
      }
