-- ===== src/Example/Pingpong/Last.antt =====
-- The last round of example/sem_pingpong.c.
use async_coro.Base.{
  ◌+◌, ◌≡◌, ◌≢◌, refl, ap, sym, ◌∙◌, arith, pos, none, some, [], ◌∷◌, eq→==, ne→==, ok, ◌>>◌,
  Returns,
}
use async_coro.Queue.Mem.{Ptr, null, update}
use async_coro.Task.{finished_coroutine, sem_activation, Task}
use async_coro.World.Calls.{Call, Os}
use async_coro.World.State.{
  World, u64, errno_after, sys, with_task, with_sem, load-ok, change-ok, with_task-here,
}
use async_coro.Notify.Laws.{ready}
use async_coro.Manager.{finish, free_task, switch_to}
use async_coro.Manager.Rounds.{wakes-ok, dispatch-resumes, taken, running, round_takes}
use async_coro.Semaphore.{crt_sem_post, crt_sem_wait}
use async_coro.Semaphore.Post.{sem, posted}
use async_coro.Semaphore.Wait.{wait_suspends}
use async_coro.Api.{crt_exit, coroutine_set_finished_coroutine}
use async_coro.Example.Pingpong.{slave_last, slave_ends}
use async_coro.Example.Pingpong.Rounds.{IsBetween, post_wakes-one, try_wait-takes}

-- `master` is about to end and `slave` is freed, with nobody at the semaphores, and nothing queued.
pub record IsOver (s0 s1 master slave : Ptr) (w : World) : Type 0 where
  pub first : w.sems s0 ≡ some (sem (pos 0) null)
  pub second : w.sems s1 ≡ some (sem (pos 0) null)
  pub master_ends : (t : Task) × (w.tasks master ≡ some (record t { action = finished_coroutine }))
  pub slave_freed : w.tasks slave ≡ none
  pub nothing_todo : w.todo ≡ []
  pub nothing_doing : w.doing ≡ []
  pub no_posts : w.manager_sem ≡ 0

module _ (os : Os) (s0 s1 : Ptr) (master slave : Ptr) (two_sems : s0 ≢ s1)
    (two_tasks : master ≢ slave) (master_valid : master ≢ null) (slave_valid : slave ≢ null)
    (w : World) (b : IsBetween s0 s1 master slave w) where
  abbrev slaves_task : Task
  slaves_task = record b.slaves.0 { action = sem_activation }

  abbrev masters_task : Task
  masters_task = b.masters.0

  abbrev one_posted : World
  one_posted = ready slave (posted s0 0 slave b.slaves.0 w)

  abbrev waiting : World
  waiting = with_sem s1 (sem (pos 0) w.curr_task) one_posted

  abbrev taken_over : World
  taken_over = with_sem s0 (sem (pos 0) null) (running 0 slave [] waiting)

  abbrev woken : World
  woken = ready w.curr_task (posted s1 0 w.curr_task masters_task taken_over)

  abbrev ended : World
  ended = with_task slave (record slaves_task { action = finished_coroutine }) woken

  current_valid : w.curr_task ≢ null
  current_valid e = master_valid (sym b.current ∙ e)

  apart : slave ≢ w.curr_task
  apart e = two_tasks (sym b.current ∙ sym e)

  sems_apart : s1 ≢ s0
  sems_apart e = two_sems (sym e)

  master_waits : taken_over.tasks w.curr_task ≡ some masters_task
  master_waits = rw (ne→== slave w.curr_task apart, update) (ap w.tasks b.current ∙ b.masters.1)

  slave_waits : (taken 0 [] waiting).tasks slave ≡ some slaves_task
  slave_waits = rw (eq→== slave slave refl) refl

  slave_runs : woken.tasks slave ≡ some slaves_task
  slave_runs = rw (ne→== w.curr_task slave (λ e. apart (sym e)), eq→== slave slave refl) refl

  slave_ended : ended.tasks slave ≡ some (record slaves_task { action = finished_coroutine })
  slave_ended = with_task-here woken slave (record slaves_task { action = finished_coroutine })

  last-ok : slave_last s0 s1 (running 0 slave [] waiting) ≡ ok tt ended
  unfolding slave_last crt_exit coroutine_set_finished_coroutine
  last-ok =
      rw
        (
          try_wait-takes s0 s1 master slave two_sems two_tasks master_valid slave_valid s0 slave
              (running 0 slave [] waiting) (rw (ne→== s1 s0 sems_apart, eq→== s0 s0 refl) refl),
          post_wakes-one s0 s1 master slave two_sems two_tasks master_valid slave_valid s1
              w.curr_task taken_over masters_task current_valid
              (rw (ne→== s0 s1 two_sems, eq→== s1 s1 refl) refl) master_waits refl b.nothing_doing,
          change-ok woken slave (λ t. record t { action = finished_coroutine }) slave_runs,
        )
        refl

  abbrev freed : World
  freed = record ended {
    env = record ended.env { ran = u64 (w.ran + 1) };
    tasks = update ended.tasks slave none;
    calls = Call.free slave ∷ Call.free b.slaves.0.stack_ptr ∷ w.calls;
  }

  abbrev pub over : World
  over = with_sem s1 (sem (pos 0) null) (running 0 w.curr_task [] freed)

  slave_ends-ok : slave_ends s0 s1 os waiting ≡ ok tt (running 0 w.curr_task [] freed)
  unfolding slave_ends switch_to finish free_task
  slave_ends-ok =
      rw
        (
          round_takes os (λ _. slave_last s0 s1) 0 slave [] waiting slaves_task
              (omega (arith, b.no_posts)) (rw b.nothing_todo refl) slave_waits,
          dispatch-resumes os (λ _. slave_last s0 s1) slave sem_activation refl,
          last-ok,
          load-ok ended slave slave_ended,
          load-ok ended slave slave_ended,
          load-ok (record ended { calls = Call.free b.slaves.0.stack_ptr ∷ w.calls }) slave
              slave_ended,
          wakes-ok 0 w.curr_task [] freed (record masters_task { action = sem_activation }) refl
              refl (rw (ne→== slave w.curr_task apart, eq→== w.curr_task w.curr_task refl) refl)
              refl,
        )
        refl

  pub post-ok : crt_sem_post s0 w ≡ ok tt one_posted
  post-ok =
      post_wakes-one s0 s1 master slave two_sems two_tasks master_valid slave_valid s0 slave w
        b.slaves.0 slave_valid b.first b.slaves.1 b.nothing_todo b.nothing_doing

  pub wait-ok : crt_sem_wait (slave_ends s0 s1 os) 2 s1 one_posted ≡ ok tt over
  wait-ok =
      wait_suspends s1 one_posted 0 null w.curr_task 0 (slave_ends s0 s1 os)
        (running 0 w.curr_task [] freed) (rw (ne→== s0 s1 two_sems, update) b.second) slave_ends-ok
        (rw (ne→== s0 s1 two_sems, eq→== s1 s1 refl) refl)

  master_runs : over.tasks w.curr_task ≡ some (record masters_task { action = sem_activation })
  master_runs = rw (ne→== slave w.curr_task apart, eq→== w.curr_task w.curr_task refl) refl

  abbrev told : Call → World
  told c = record over {
    calls = c ∷ over.calls;
    errno = errno_after (os.answer over.calls c).errno over.errno;
  }

  pub exit-IsOver :
      (c : Call) → Returns (λ _. IsOver s0 s1 master slave) ((sys os c >> crt_exit) over)
  unfolding crt_exit coroutine_set_finished_coroutine
  exit-IsOver c =
      rw
        (change-ok (told c) w.curr_task (λ t. record t { action = finished_coroutine }) master_runs)
        (record {
          first = rw (ne→== s1 s0 sems_apart, eq→== s0 s0 refl) refl;
          second = rw (eq→== s1 s1 refl) refl;
          master_ends = (
            record masters_task { action = sem_activation },
            rw (b.current, eq→== master master refl) refl,
          );
          slave_freed =
              rw (ne→== w.curr_task slave (λ e. apart (sym e)), eq→== slave slave refl) refl;
          nothing_todo = refl;
          nothing_doing = b.nothing_doing;
          no_posts = refl;
        })
