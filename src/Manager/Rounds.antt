-- ===== src/Manager/Rounds.antt =====
-- Rounds of `new_manager` of src/acoro.c: coroutines that yield take turns, and one that exits is
-- freed.
use async_coro.Base.{
  ℕ, suc, ◌+◌, ◌-◌, ◌≡◌, refl, ap, arith, true, false, none, some, List, ◌∷◌, ne→==, ok, pure, ◌>>◌,
  ◌>>=◌,
}
use async_coro.Queue.Mem.{Ptr, update}
use async_coro.Task.{
  Action, new_coroutine, finished_coroutine, sched_yield, disk_open, disk_read, disk_write,
  sock_read, sock_write, sock_done, disk_open_done, disk_read_done, disk_write_done,
  tcp_blocked_connect, tcp_blocked_connect_done, tcp_timeout_connect, tcp_timeout_connect_done,
  msleep, msleep_done, bg_run, bg_run_done, tcp_accept, tcp_accept_done, sem_activation, Task,
}
use async_coro.World.Calls.{Call, Os}
use async_coro.World.State.{World, Co, u64, with_task, load-ok, change-ok, with_task-here}
use async_coro.Notify.Laws.{ready}
use async_coro.Notify.{linked, with_env, push_todo, shift_todo, sem_wait}
use async_coro.Manager.{wakes, finish, free_task, switch_to, dispatch, manager_round, resumes}
use async_coro.Api.{crt_exit, crt_sched_yield, coroutine_set_finished_coroutine}

-- The state after the manager has taken `p` from the todo queue.
abbrev pub taken : (n : ℕ) (ps : List Ptr) → World → World
taken n ps = with_env (λ e. record e { manager_sem = n; todo = ps })

pub sem_wait-ok :
    (n : ℕ) (w : World)
    → w.manager_sem ≡ suc n
    → sem_wait w ≡ ok tt (with_env (λ e. record e { manager_sem = n }) w)
unfolding sem_wait
sem_wait-ok n w posts =
    rw (ne→== w.manager_sem 0 (omega arith))
      (ap (λ k. ok tt (with_env (λ e. record e { manager_sem = k }) w)) less)
  where
    less : w.manager_sem - 1 ≡ n
    less = omega arith

pub shift_todo-ok :
    (p : Ptr) (ps : List Ptr) (w : World)
    → w.todo ≡ p ∷ ps
    → shift_todo w ≡ ok p (with_env (λ e. record e { todo = ps }) w)
unfolding shift_todo
shift_todo-ok p ps w q = rw (q, shift_todo)

module _ (os : Os) (resume : Ptr → Co (Unit {0})) where
  pub round_takes :
      (n : ℕ) (p : Ptr) (ps : List Ptr) (w : World) (t : Task)
      → w.manager_sem ≡ suc n
      → w.todo ≡ p ∷ ps
      → w.tasks p ≡ some t
      → manager_round os resume w ≡ dispatch os resume p t.action (taken n ps w)
  unfolding manager_round
  round_takes n p ps w t posts q e = rw (
    sem_wait-ok n w posts,
    shift_todo-ok p ps (with_env (λ e. record e { manager_sem = n }) w) q,
    load-ok (taken n ps w) p e,
  )

  -- The dispatch of an action that wakes a coroutine is the switch to it.
  pub dispatch-resumes :
      (p : Ptr) (a : Action) → resumes a ≡ true → dispatch os resume p a ≡ switch_to os resume p
  unfolding dispatch
  dispatch-resumes p new_coroutine e = ground arith
  dispatch-resumes p finished_coroutine e = ground arith
  dispatch-resumes p sched_yield e = refl
  dispatch-resumes p disk_open e = ground arith
  dispatch-resumes p disk_read e = ground arith
  dispatch-resumes p disk_write e = ground arith
  dispatch-resumes p sock_read e = ground arith
  dispatch-resumes p sock_write e = ground arith
  dispatch-resumes p sock_done e = refl
  dispatch-resumes p disk_open_done e = refl
  dispatch-resumes p disk_read_done e = refl
  dispatch-resumes p disk_write_done e = refl
  dispatch-resumes p tcp_blocked_connect e = ground arith
  dispatch-resumes p tcp_blocked_connect_done e = refl
  dispatch-resumes p tcp_timeout_connect e = ground arith
  dispatch-resumes p tcp_timeout_connect_done e = refl
  dispatch-resumes p msleep e = ground arith
  dispatch-resumes p msleep_done e = refl
  dispatch-resumes p bg_run e = ground arith
  dispatch-resumes p bg_run_done e = refl
  dispatch-resumes p tcp_accept e = ground arith
  dispatch-resumes p tcp_accept_done e = refl
  dispatch-resumes p sem_activation e = refl

-- The state in which the coroutine of `p` runs.
abbrev pub running : (n : ℕ) (p : Ptr) (ps : List Ptr) → World → World
running n p ps w = with_env (λ e. record e { curr_task = p }) (taken n ps w)

pub wakes-ok :
    (n : ℕ) (p : Ptr) (ps : List Ptr) (w : World) (t : Task)
    → w.manager_sem ≡ suc n
    → w.todo ≡ p ∷ ps
    → w.tasks p ≡ some t
    → resumes t.action ≡ true
    → wakes w ≡ ok tt (running n p ps w)
unfolding wakes
wakes-ok n p ps w t posts q e awake =
    rw
      (
        sem_wait-ok n w posts,
        shift_todo-ok p ps (with_env (λ e. record e { manager_sem = n }) w) q,
        load-ok (taken n ps w) p e,
        awake,
      )
      refl

module _ (os : Os) (n : ℕ) (p : Ptr) (ps : List Ptr) (w : World) (t : Task)
    (posts : w.manager_sem ≡ suc n) (front : w.todo ≡ p ∷ ps) (alloc : w.tasks p ≡ some t)
    (awake : resumes t.action ≡ true) where
  -- A coroutine that is woken, is queued once, and yields goes from the front of the todo queue to its
  -- back: the others keep their order and the semaphore its value.
  pub round_yields :
      linked p (taken n ps w) ≡ false
      → manager_round os (λ _. crt_sched_yield os (pure tt)) w
        ≡ ok tt (ready p (with_task p (record t { action = sched_yield }) (running n p ps w)))
  unfolding crt_sched_yield push_todo switch_to linked
  round_yields out = rw (
    round_takes os (λ _. crt_sched_yield os (pure tt)) n p ps w t posts front alloc,
    dispatch-resumes os (λ _. crt_sched_yield os (pure tt)) p t.action awake,
    change-ok (running n p ps w) p (λ t. record t { action = sched_yield }) alloc,
    load-ok yielded p here,
    out,
    load-ok (ready p yielded) p here,
  )
    where
      yielded : World
      yielded = with_task p (record t { action = sched_yield }) (running n p ps w)

      here : yielded.tasks p ≡ some (record t { action = sched_yield })
      here = with_task-here (running n p ps w) p (record t { action = sched_yield })

  -- A coroutine that is woken and exits is freed with its stack, once each, and counted in `ran`.
  pub round_exits :
      manager_round os (λ _. crt_exit) w
      ≡ ok tt (record w {
        env = record w.env { manager_sem = n; todo = ps; curr_task = p; ran = u64 (w.ran + 1) };
        tasks = update (update w.tasks p (some (record t { action = finished_coroutine }))) p none;
        calls = Call.free p ∷ Call.free t.stack_ptr ∷ w.calls;
      })
  unfolding crt_exit coroutine_set_finished_coroutine switch_to finish free_task
  round_exits = rw (
    round_takes os (λ _. crt_exit) n p ps w t posts front alloc,
    dispatch-resumes os (λ _. crt_exit) p t.action awake,
    change-ok (running n p ps w) p (λ t. record t { action = finished_coroutine }) alloc,
    load-ok finished p here,
    load-ok finished p here,
    load-ok (record finished { calls = Call.free t.stack_ptr ∷ w.calls }) p here,
  )
    where
      finished : World
      finished = with_task p (record t { action = finished_coroutine }) (running n p ps w)

      here : finished.tasks p ≡ some (record t { action = finished_coroutine })
      here = with_task-here (running n p ps w) p (record t { action = finished_coroutine })
