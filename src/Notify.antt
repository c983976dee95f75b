-- ===== src/Notify.antt =====
-- `coroutine_notify_manager` and `coroutine_notify_background_worker` of src/acoro.c, and the
-- queue operations under their locks (`Push`, `Unshift` and `Shift`).
pub mod Laws
pub mod Tests
use async_coro.Base.{
  ◌>>=◌, ◌>>◌, ℕ, ◌+◌, ◌-◌, ◌%◌, ℤ, pos, negsuc, Bool, true, false, ◌||◌, List, [], ◌∷◌, ◌++◌, has,
  ◌==◌, if◌then◌else◌, ok, stop, Stop, pure, modify, assert,
}
use async_coro.Queue.Mem.{Ptr, update}
use async_coro.World.Calls.{Call, Os}
use async_coro.World.State.{Env, World, Co, u64, load, curr, sys}

-- An item has one link: pushed while it is in a queue it breaks that queue (`Queue.Twice`), which
-- is a fault here. So is a push of an item that is not allocated.
unfoldable pub linked : Ptr → World → Bool
linked p w = has p w.todo || has p w.doing

abbrev pub unlinked : Ptr → Co (Unit {0})
unlinked p w = if linked p w then stop Stop.fault else ok tt w

abbrev pub with_env : (Env → Env) → World → World
with_env f w = record w { env = f w.env }

abbrev pub with_todo : List Ptr → World → World
with_todo q = with_env (λ e. record e { todo = q })

abbrev pub with_doing : List Ptr → World → World
with_doing q = with_env (λ e. record e { doing = q })

-- `Push(todo_queue, p)`, `Unshift(todo_queue, p)` and `Push(doing_queue, p)`.
unfoldable pub push_todo : Ptr → Co (Unit {0})
unfolding linked
push_todo p = do load p; unlinked p; modify (λ w. with_todo (w.todo ++ p ∷ []) w)

unfoldable pub unshift_todo : Ptr → Co (Unit {0})
unfolding linked
unshift_todo p = do load p; unlinked p; modify (λ w. with_todo (p ∷ w.todo) w)

unfoldable pub push_doing : Ptr → Co (Unit {0})
unfolding linked
push_doing p = do load p; unlinked p; modify (λ w. with_doing (w.doing ++ p ∷ []) w)

-- `Shift(todo_queue, p)` and `Shift(doing_queue, p)`. On an empty queue `list_shift` reads
-- through NULL.
shift_from : List Ptr → (List Ptr → World → World) → Co Ptr
shift_from [] put w = stop Stop.fault
shift_from (p ∷ ps) put w = ok p (put ps w)

unfoldable pub shift_todo : Co Ptr
unfolding shift_from
shift_todo w = shift_from w.todo with_todo w

unfoldable pub shift_doing : Co Ptr
unfolding shift_from
shift_doing w = shift_from w.doing with_doing w

-- `sem_post` and `sem_wait` on `manager_sem`.
abbrev pub sem_post : Co (Unit {0})
sem_post = modify (with_env (λ e. record e { manager_sem = e.manager_sem + 1 }))

unfoldable pub sem_wait : Co (Unit {0})
sem_wait w =
    if w.manager_sem == 0
    then stop Stop.blocked
    else ok tt (with_env (λ e. record e { manager_sem = e.manager_sem - 1 }) w)

-- The byte that announces a task.
abbrev pub wake_byte : ℕ
wake_byte = 0xee

abbrev pub is_one : ℤ → Bool
is_one (pos n) = n == 1
is_one (negsuc n) = false

module _ (os : Os) where
  -- `write(pipe_channel[w * 2 + 1], &c, 1)`: a byte that the kernel takes is on its way to `w`.
  unfoldable pub write_pipe : ℕ → ℕ → Co Bool
  write_pipe w c = do
    r ← sys os (Call.write_pipe w)
    if is_one r
        then (modify (with_env (λ e. record e { pipe = update e.pipe w (e.pipe w ++ c ∷ []) }))
            >> pure true)
        else pure false

  abbrev pub next_worker : Co ℕ
  next_worker w =
      ok (w.bg_worker_id % w.worker_count)
        (with_env (λ e. record e { bg_worker_id = u64 (e.bg_worker_id + 1) }) w)

-- `read` of one byte from the pipe of worker `me`. The pipe does not block: with no byte in it
-- the read returns -1, and the `assert` behind it fails.
read_pipe_from : ℕ → List ℕ → Co ℕ
read_pipe_from me [] w = stop Stop.aborted
read_pipe_from me (c ∷ cs) w = ok c (with_env (λ e. record e { pipe = update e.pipe me cs }) w)

unfoldable pub read_pipe : ℕ → Co ℕ
unfolding read_pipe_from
read_pipe me w = read_pipe_from me (w.pipe me) w

-- What a thread does to the shared queues, pipes and semaphore in one step: `Push`, `Unshift` and
-- `Shift` under their locks, `sem_post` and `sem_wait`, and the write and the read of a byte. Only the manager
-- takes the next number of a worker, right before it writes.
pub data Act : Type 0 where
  todo_push : Ptr → Act
  todo_unshift : Ptr → Act
  manager_post : Act
  manager_wait : Act
  todo_shift : Act
  doing_push : Act
  byte_write : Os → Act
  byte_read : ℕ → Act
  doing_shift : Act

unfoldable pub perform : Act → Co (Unit {0})
perform (todo_push p) = push_todo p
perform (todo_unshift p) = unshift_todo p
perform manager_post = sem_post
perform manager_wait = sem_wait
perform todo_shift = do shift_todo; pure tt
perform doing_push = do p ← curr; push_doing p
perform (byte_write os) = do
  worker ← next_worker os
  written ← write_pipe os worker wake_byte
  assert written
perform (byte_read me) = do read_pipe me; pure tt
perform doing_shift = do shift_doing; pure tt

-- One act after the other.
unfoldable pub each : List Act → Co (Unit {0})
unfolding perform
each [] = pure tt
each (a ∷ rest) = perform a >> each rest

-- With one manager thread `cid % MANAGER_CNT` is 0.
unfoldable pub notify_manager_acts : Ptr → List Act
notify_manager_acts p = todo_push p ∷ manager_post ∷ []

unfoldable pub coroutine_notify_manager : Ptr → Co (Unit {0})
unfolding each notify_manager_acts
coroutine_notify_manager p = each (notify_manager_acts p)

unfoldable pub notify_worker_acts : Os → List Act
notify_worker_acts os = doing_push ∷ byte_write os ∷ []

unfoldable pub coroutine_notify_background_worker : Os → Co (Unit {0})
unfolding each notify_worker_acts
coroutine_notify_background_worker os = each (notify_worker_acts os)
