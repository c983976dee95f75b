-- ===== src/Notify/Laws.antt =====
-- What the hand-overs between the manager and the workers do to the shared state.
use async_coro.Base.{◌+◌, ◌%◌, ◌≡◌, pos, false, some, [], ◌∷◌, ◌++◌, ok}
use async_coro.Queue.Mem.{Ptr, update}
use async_coro.Task.{Task}
use async_coro.World.Calls.{Call, Os}
use async_coro.World.State.{World, u64, errno_after, load-ok}
use async_coro.Notify.{
  linked, with_env, push_todo, push_doing, coroutine_notify_manager,
  coroutine_notify_background_worker, write_pipe, wake_byte,
}

-- The state in which `p` is ready to run, and one more round of the manager is due.
abbrev pub ready : Ptr → World → World
ready p w = with_env (λ e. record e { todo = e.todo ++ p ∷ []; manager_sem = e.manager_sem + 1 }) w

-- Notifying the manager of an allocated task that is in no queue puts it at the back of the todo
-- queue and posts the semaphore once, and does nothing else.
pub notify_manager_lem :
    (p : Ptr) (w : World) {t : Task}
    → w.tasks p ≡ some t
    → linked p w ≡ false
    → coroutine_notify_manager p w ≡ ok tt (ready p w)
unfolding coroutine_notify_manager push_todo
notify_manager_lem p w e out = rw (load-ok w p e, out)

abbrev pub submitted : Os → World → World
submitted os w =
    let worker = w.bg_worker_id % w.worker_count in
    record w {
      env = record w.env {
        doing = w.doing ++ w.curr_task ∷ [];
        bg_worker_id = u64 (w.bg_worker_id + 1);
        pipe = update w.pipe worker (w.pipe worker ++ wake_byte ∷ []);
      };
      calls = Call.write_pipe worker ∷ w.calls;
      errno = errno_after (os.answer w.calls (Call.write_pipe worker)).errno w.errno;
    }

-- Notifying a worker of the current task, which is allocated and in no queue, puts it at the back
-- of the doing queue and sends one byte to the worker whose turn it is, and does nothing else, if
-- the kernel takes the byte.
pub notify_worker_lem :
    (os : Os) (w : World) {t : Task}
    → w.tasks w.curr_task ≡ some t
    → linked w.curr_task w ≡ false
    → (os.answer w.calls (Call.write_pipe (w.bg_worker_id % w.worker_count))).ret ≡ pos 1
    → coroutine_notify_background_worker os w ≡ ok tt (submitted os w)
unfolding coroutine_notify_background_worker push_doing write_pipe
notify_worker_lem os w e out taken = rw (load-ok w w.curr_task e, out, taken)
