-- ===== src/Setup.antt =====
-- `init_coroutine_env`, `destroy_coroutine_env` and `new_background_worker` of src/acoro.c. Starting
-- and ending a thread or a loop of libev is a recorded call. The one manager thread is number 0.
pub mod Init
pub mod Closing
pub mod Destroy
pub mod Tests
use async_coro.Base.{
  ◌>>=◌, ◌>>◌, ◌*◌, get, ℕ, zero, suc, ◌+◌, ℤ, pos, is_neg, is_zero, not, none, some, List, [], ◌∷◌,
  ◌==◌, if◌then◌else◌, pure, modify, assert,
}
use async_coro.Queue.Mem.{Ptr, null, update}
use async_coro.World.Calls.{Call, Os, nonblock_bit, set_bit}
use async_coro.World.State.{Env, World, Co, u64, known, ask, sys, tell}
use async_coro.Notify.{with_env}
use async_coro.Manager.{free_task}

-- `BACKGROUND_WORKER_CNT`.
abbrev pub default_workers : ℕ
default_workers = 4

-- `memset(&coroutine_env, 0, sizeof coroutine_env)`: the queues are NULL, which the model shows as
-- empty, and no descriptor is stored.
abbrev pub blank_env : Env
blank_env = record {
  worker_count = 0;
  manager_sem = 0;
  pipe = λ _. [];
  pipe_channel = λ _. none;
  cid = 0;
  ran = 0;
  bg_worker_id = 0;
  curr_task = null;
  todo = [];
  doing = [];
}

abbrev pub set_channel : (k : ℕ) → ℤ → World → World
set_channel k fd = with_env (λ e. record e { pipe_channel = update e.pipe_channel k (some fd) })

-- `coroutine_env.pipe_channel[k]`.
unfoldable pub channel : (k : ℕ) → Co ℤ
channel k w = known (w.pipe_channel k) w

-- `list_destroy` on a queue of tasks frees them.
unfoldable pub free_tasks : List Ptr → Co (Unit {0})
free_tasks [] = pure tt
free_tasks (p ∷ ps) = free_task p >> free_tasks ps

unfoldable pub cancel_workers : (count i : ℕ) → Co (Unit {0})
cancel_workers zero i = pure tt
cancel_workers (suc n) i = do
  tell (Call.cancel_worker i)
  tell (Call.join_worker i)
  cancel_workers n (i + 1)

unfoldable pub destroy_loops : (count i : ℕ) → Co (Unit {0})
destroy_loops zero i = pure tt
destroy_loops (suc n) i = do
  tell (Call.unwatch_pipe i)
  tell (Call.loop_destroy i)
  destroy_loops n (i + 1)

module _ (os : Os) where
  -- `pipe(&pipe_channel[i * 2])`, whose result nothing reads.
  unfoldable pub make_pipe : (i : ℕ) → Co (Unit {0})
  make_pipe i = do
    a ← ask os (Call.pipe i)
    if is_zero a.ret
        then (modify (set_channel (2 * i) (pos a.out))
            >> modify (set_channel (2 * i + 1) (pos a.out2)))
        else pure tt

  -- The flags of one end of a pipe.
  unfoldable pub nonblock_end : (k : ℕ) → Co (Unit {0})
  unfolding channel
  nonblock_end k = do
    fd ← channel k
    flag ← sys os (Call.getfl fd)
    assert (not (is_neg flag))
    fd' ← channel k
    ret ← sys os (Call.setfl fd' (set_bit nonblock_bit flag))
    assert (is_zero ret)

  unfoldable pub start_worker : (i : ℕ) → Co (Unit {0})
  unfolding make_pipe nonblock_end
  start_worker i = do
    make_pipe i
    nonblock_end (2 * i)
    nonblock_end (2 * i + 1)
    tell (Call.start_worker i)
    tell Call.yield_cpu

  -- The loop over the workers, from worker `i` on.
  unfoldable pub start_workers : (count i : ℕ) → Co (Unit {0})
  unfolding start_worker
  start_workers zero i = pure tt
  start_workers (suc n) i = start_worker i >> start_workers n (i + 1)

  -- The three arrays are of `pthread_t`, of `int` and of watchers of libev, whose size is `ev_size`.
  unfoldable pub init_coroutine_env : (ev_size worker_count : ℕ) → Co ℤ
  unfolding start_workers
  init_coroutine_env ev_size worker_count = do
    modify (λ w. record w { env = blank_env })
    modify (
        with_env (λ e. record e {
          worker_count = if worker_count == 0 then default_workers else worker_count;
        }))
    modify (with_env (λ e. record e { todo = [] }))
    modify (with_env (λ e. record e { doing = [] }))
    w ← get
    sys os (Call.malloc (u64 (w.worker_count * 8)))
    sys os (Call.malloc (u64 (2 * w.worker_count * 4)))
    sys os (Call.malloc (u64 (w.worker_count * ev_size)))
    modify (with_env (λ e. record e { manager_sem = 0 }))
    tell Call.start_manager
    tell Call.yield_cpu
    start_workers w.worker_count 0
    pure (pos 0)

  -- The body of worker thread `me`: its loop runs until the thread is cancelled.
  unfoldable pub new_background_worker : (me : ℕ) → Co (Unit {0})
  unfolding channel
  new_background_worker me = do
    loop ← sys os (Call.loop_new me)
    assert (not (is_zero loop))
    fd ← channel (me * 2)
    tell (Call.watch_pipe me fd)
    tell (Call.loop_run me)

  unfoldable pub close_ends : (count k : ℕ) → Co (Unit {0})
  unfolding channel
  close_ends zero k = pure tt
  close_ends (suc n) k = do fd ← channel k; sys os (Call.close fd); close_ends n (k + 1)

  -- Its part after the queues.
  unfoldable pub end_threads : (count : ℕ) → Co ℤ
  unfolding cancel_workers close_ends destroy_loops
  end_threads count = do
    tell Call.cancel_manager
    tell Call.destroy_manager_sem
    tell Call.join_manager
    cancel_workers count 0
    close_ends (count * 2) 0
    destroy_loops count 0
    pure (pos 0)

  unfoldable pub destroy_coroutine_env : Co ℤ
  unfolding free_tasks end_threads
  destroy_coroutine_env = do
    w ← get
    free_tasks w.todo
    modify (with_env (λ e. record e { todo = [] }))
    free_tasks w.doing
    modify (with_env (λ e. record e { doing = [] }))
    end_threads w.worker_count
