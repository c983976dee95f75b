-- ===== src/Manager.antt =====
-- `new_manager` of src/acoro.c: the thread that runs the coroutines.
pub mod Rounds
pub mod Turns
pub mod Yields
pub mod Tests
use async_coro.Base.{
  ℕ, ◌+◌, ℤ, pos, negsuc, Bool, true, false, none, if◌then◌else◌, Stop, pure, halt, ◌>>=◌, ◌>>◌,
  modify,
}
use async_coro.Queue.Mem.{Ptr, null, update}
use async_coro.Task.{
  Action, new_coroutine, finished_coroutine, sched_yield, sock_done, disk_open_done, disk_read_done,
  disk_write_done, tcp_blocked_connect_done, tcp_timeout_connect_done, msleep_done, bg_run_done,
  tcp_accept_done, sem_activation, is_finished, Args, init_arg,
}
use async_coro.World.Calls.{Call, Os}
use async_coro.World.State.{Co, u64, load, change, curr, sys, tell}
use async_coro.Notify.{with_env, shift_todo, sem_wait}

abbrev pub to_ptr : ℤ → Ptr
to_ptr (pos n) = n
to_ptr (negsuc n) = null

-- `acoro_free` of a task.
unfoldable pub free_task : Ptr → Co (Unit {0})
free_task p = do
  load p
  tell (Call.free p)
  modify (λ w. record w { tasks = update w.tasks p none })

-- The case `act_finished_coroutine`.
unfoldable pub finish : Co (Unit {0})
finish = do
  c ← curr
  t ← load c
  tell (Call.free t.stack_ptr)
  c' ← curr
  free_task c'
  modify (with_env (λ e. record e { ran = u64 (e.ran + 1) }))

abbrev pub set_curr : Ptr → Co (Unit {0})
set_curr p = modify (with_env (λ e. record e { curr_task = p }))

abbrev pub stack_size_of : Args → Co ℕ
stack_size_of (init_arg a) = pure a.stack_size
stack_size_of _ = halt Stop.fault

-- The actions that wake a coroutine.
abbrev pub resumes : Action → Bool
resumes sched_yield = true
resumes disk_open_done = true
resumes disk_read_done = true
resumes disk_write_done = true
resumes sock_done = true
resumes tcp_blocked_connect_done = true
resumes tcp_timeout_connect_done = true
resumes msleep_done = true
resumes bg_run_done = true
resumes tcp_accept_done = true
resumes sem_activation = true
resumes _ = false

-- A round of the manager up to `swapcontext` to a coroutine that was suspended. With another action the
-- round would be another one, which the theorems on whole calls rule out.
unfoldable pub wakes : Co (Unit {0})
wakes = do
  sem_wait
  p ← shift_todo
  t ← load p
  if resumes t.action then set_curr p else halt Stop.aborted

-- `resume p` is what the coroutine of `p` does from `swapcontext` to it until it swaps back.
module _ (os : Os) (resume : Ptr → Co (Unit {0})) where
  -- `swapcontext` to the task, and what follows it.
  unfoldable pub switch_to : Ptr → Co (Unit {0})
  switch_to p = do
    set_curr p
    resume p
    t ← load p
    if is_finished t.action then finish else pure tt

  unfoldable pub start_task : Ptr → Co (Unit {0})
  start_task p = do
    t ← load p
    n ← stack_size_of t.args
    r ← sys os (Call.malloc n)
    change p (λ t. record t { stack_ptr = to_ptr r })
    switch_to p

  -- The `switch` on the action.
  unfoldable pub dispatch : Ptr → Action → Co (Unit {0})
  dispatch p new_coroutine = start_task p
  dispatch p finished_coroutine = finish
  dispatch p a = if resumes a then switch_to p else halt Stop.aborted

  -- One round of the loop.
  unfoldable pub manager_round : Co (Unit {0})
  manager_round = do sem_wait; p ← shift_todo; t ← load p; dispatch p t.action
