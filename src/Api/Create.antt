-- ===== src/Api/Create.antt =====
-- `crt_create` of src/acoro.c, and the round of the manager that starts the new coroutine.
use async_coro.Base.{
  ℕ, suc, ◌+◌, ◌≡◌, arith, pos, false, Option, some, [], ◌∷◌, if◌then◌else◌, ne→==, ok, pure, ◌>>=◌,
  ◌>>◌,
}
use async_coro.Queue.Mem.{Ptr, null}
use async_coro.Task.{new_coroutine, is_finished, init_arg, Task}
use async_coro.World.Calls.{Call, Os}
use async_coro.World.State.{World, Co, u64, load, with_task, load-ok, change-ok, with_task-here}
use async_coro.Notify.{linked, with_env, push_todo}
use async_coro.Notify.Laws.{ready}
use async_coro.Manager.{finish, manager_round, start_task, switch_to, dispatch, to_ptr}
use async_coro.Manager.Rounds.{round_takes, taken}
use async_coro.Worker.Handle.{asked}
use async_coro.Api.{crt_create, stack_for}

module _ (os : Os) (raw : Task) (attr : Option ℕ) (func arg : Ptr) (k : ℕ) (w : World) where
  -- The task of a new coroutine, in the block that `malloc` gave.
  abbrev pub fresh : Task
  fresh = record raw {
    action = new_coroutine;
    args = init_arg (record { func = func; func_arg = arg; stack_size = stack_for attr });
  }

  abbrev pub created : World
  created = ready (suc k) (
      with_task (suc k) fresh
        (with_env (λ e. record e { cid = u64 (e.cid + 1) }) (asked os Call.malloc_task w)))

  -- Creating a coroutine, when `malloc` gives a block that is in no queue, returns the next number,
  -- and makes ready a task with the routine, its argument and the stack size to use.
  pub create_lem :
      (os.answer w.calls Call.malloc_task).ret ≡ pos (suc k)
      → linked (suc k) w ≡ false
      → crt_create os raw attr func arg w ≡ ok (u64 (w.cid + 1)) created
  unfolding crt_create push_todo linked
  create_lem given out = rw (
    given,
    ne→== (suc k) null (omega arith),
    load-ok unqueued (suc k) (with_task-here before (suc k) fresh),
    out,
  )
    where
      before : World
      before = with_env (λ e. record e { cid = u64 (e.cid + 1) }) (asked os Call.malloc_task w)

      unqueued : World
      unqueued = with_task (suc k) fresh before

  -- The coroutine is about to run for the first time, on a stack of its own.
  abbrev pub launched : World
  launched =
      with_env (λ e. record e { curr_task = suc k; todo = []; manager_sem = 0 })
        (with_task (suc k)
          (record fresh {
            stack_ptr = to_ptr (os.answer created.calls (Call.malloc (stack_for attr))).ret;
          })
          (asked os (Call.malloc (stack_for attr)) created))

  -- When `malloc` gives a block that is in no queue and there is nothing else to do, the round of the
  -- manager after the creation of a coroutine allocates a stack of the size asked for,
  -- or of the default size if none was, runs the new coroutine on it, and frees the coroutine if it
  -- comes back finished.
  pub create-manager_round :
      (resume : Ptr → Co (Unit {0}))
      → (os.answer w.calls Call.malloc_task).ret ≡ pos (suc k)
      → linked (suc k) w ≡ false
      → w.todo ≡ []
      → w.manager_sem ≡ 0
      → (crt_create os raw attr func arg >> manager_round os resume) w
        ≡ (do resume (suc k); t ← load (suc k); if is_finished t.action then finish else pure tt)
            launched
  unfolding dispatch start_task switch_to
  create-manager_round resume given out empty idle = rw (
    create_lem given out,
    round_takes os resume 0 (suc k) [] created fresh (omega (arith, idle)) queue here,
    load-ok (taken 0 [] created) (suc k) here,
    change-ok (asked os (Call.malloc (stack_for attr)) (taken 0 [] created)) (suc k)
        (λ t. record t {
          stack_ptr = to_ptr (os.answer created.calls (Call.malloc (stack_for attr))).ret;
        })
        here,
  )
    where
      queue : created.todo ≡ suc k ∷ []
      queue = rw empty

      here : created.tasks (suc k) ≡ some fresh
      here =
          with_task-here
            (with_env (λ e. record e { cid = u64 (e.cid + 1) }) (asked os Call.malloc_task w))
            (suc k) fresh
