-- ===== src/Example/Pingpong/Master.antt =====
-- `master` of example/sem_pingpong.c from its start to its end: the first round, in which the manager starts the slave, those of
-- Rounds, and the one of Last.
use async_coro.Base.{
  to_int-zero, ℕ, suc, ◌≡◌, ◌≢◌, refl, sym, arith, ℤ, pos, none, some, [], ◌∷◌, eq→==, ne→==, ok,
  ◌>>◌, Returns, Returns-bind,
}
use async_coro.Queue.Mem.{Ptr, null, update}
use async_coro.Task.{sem_activation, Sem, Task}
use async_coro.World.Calls.{Call, Os}
use async_coro.World.State.{
  World, errno_after, sys, with_task, with_sem, load-ok, change-ok, store_sem-ok,
}
use async_coro.Notify.{linked, with_env}
use async_coro.Notify.Laws.{ready}
use async_coro.Manager.{dispatch, start_task, switch_to, to_ptr}
use async_coro.Manager.Rounds.{wakes-ok, taken, running, round_takes}
use async_coro.Semaphore.{crt_sem_init, crt_sem_post, crt_sem_wait}
use async_coro.Semaphore.Post.{sem, posted, post_alone}
use async_coro.Semaphore.Wait.{wait_suspends}
use async_coro.Api.{crt_exit, default_stack}
use async_coro.Api.Create.{fresh, created, create_lem}
use async_coro.Example.Pingpong.{slave_ends, slave_turn, set_up, slave_runs, master_rounds, master}
use async_coro.Example.Pingpong.Last.{IsOver, exit-IsOver}
use async_coro.Example.Pingpong.Last
use async_coro.Example.Pingpong.Rounds.{
  IsBetween, post_wakes-one, try_wait-takes, try_wait-registers, master_rounds-IsBetween,
}

store_new :
    (s : Ptr) (w : World) (d : Sem)
    → w.sems s ≡ some d
    → crt_sem_init s 0 w ≡ ok tt (with_sem s (sem (pos 0) null) w)
unfolding crt_sem_init
store_new s w d e = rw (to_int-zero, store_sem-ok w s (sem (pos 0) null) e) refl

module _ (os : Os) (raw : Task) (func : Ptr) (s0 s1 : Ptr) (two_sems : s0 ≢ s1) (k : ℕ) (w : World)
    (t : Task) (valid : w.curr_task ≢ null) (two_tasks : w.curr_task ≢ suc k)
    (alloc : w.tasks w.curr_task ≡ some t) (todo : w.todo ≡ []) (doing : w.doing ≡ [])
    (posts : w.manager_sem ≡ 0)
    (given : (os.answer w.calls Call.malloc_task).ret ≡ pos (suc k)) where
  abbrev sems_ready : World
  sems_ready = with_sem s1 (sem (pos 0) null) (with_sem s0 (sem (pos 0) null) w)

  abbrev slave_made : World
  slave_made = created os raw none func s0 k sems_ready

  abbrev one_posted : World
  one_posted = with_sem s0 (sem (pos 1) null) slave_made

  abbrev waiting : World
  waiting = with_sem s1 (sem (pos 0) w.curr_task) one_posted

  set_up-ok :
      (d0 d1 : Sem)
      → w.sems s0 ≡ some d0
      → w.sems s1 ≡ some d1
      → set_up s0 s1 os raw func w ≡ ok tt slave_made
  unfolding set_up linked
  set_up-ok d0 d1 e0 e1 =
      rw
        (
          store_new s0 w d0 e0,
          store_new s1 (with_sem s0 (sem (pos 0) null) w) d1 (rw (ne→== s0 s1 two_sems, update) e1),
          create_lem os raw none func s0 k sems_ready given (rw (todo, doing) refl),
        )
        refl

  post-ok : crt_sem_post s0 slave_made ≡ ok tt one_posted
  post-ok =
      post_alone s0 0 slave_made (omega arith)
        (rw (ne→== s1 s0 (λ e. two_sems (sym e)), eq→== s0 s0 refl) refl)

  -- The slave on its new stack.
  abbrev begins : World
  begins =
      let v = taken 0 [] waiting in
      with_env (λ e. record e { curr_task = suc k })
        (with_task (suc k)
          (record (fresh os raw none func s0 k sems_ready) {
            stack_ptr = to_ptr (os.answer v.calls (Call.malloc default_stack)).ret;
          })
          (record v {
            calls = Call.malloc default_stack ∷ v.calls;
            errno = errno_after (os.answer v.calls (Call.malloc default_stack)).errno v.errno;
          }))

  abbrev woken : World
  woken = ready w.curr_task (posted s1 0 w.curr_task t (with_sem s0 (sem (pos 0) null) begins))

  abbrev registered : World
  registered = with_sem s0 (sem (pos 0) (suc k)) woken

  apart : s1 ≢ s0
  apart e = two_sems (sym e)

  slave_valid : suc k ≢ null
  slave_valid e = absurd (omega (arith, e))

  master_waits : begins.tasks w.curr_task ≡ some t
  master_waits = rw (ne→== (suc k) w.curr_task (λ e. two_tasks (sym e)), update) alloc

  turn-ok : slave_turn s0 s1 begins ≡ ok tt registered
  unfolding slave_turn
  turn-ok =
      rw
        (
          try_wait-takes s0 s1 w.curr_task (suc k) two_sems two_tasks valid slave_valid s0 null
              begins (rw (ne→== s1 s0 apart, eq→== s0 s0 refl) refl),
          post_wakes-one s0 s1 w.curr_task (suc k) two_sems two_tasks valid slave_valid s1
              w.curr_task (with_sem s0 (sem (pos 0) null) begins) t valid
              (rw (ne→== s0 s1 two_sems, eq→== s1 s1 refl) refl) master_waits refl doing,
          try_wait-registers s0 s1 w.curr_task (suc k) two_sems two_tasks valid slave_valid s0 null
              woken (rw (ne→== s1 s0 apart, eq→== s0 s0 refl) refl),
        )
        refl

  slave_task :
      registered.tasks (suc k)
      ≡ some (record (fresh os raw none func s0 k sems_ready) {
        stack_ptr = to_ptr (os.answer (taken 0 [] waiting).calls (Call.malloc default_stack)).ret;
      })
  slave_task = rw (ne→== w.curr_task (suc k) two_tasks, eq→== (suc k) (suc k) refl) refl

  resumed : World
  resumed = running 0 w.curr_task [] registered

  made_task : (taken 0 [] waiting).tasks (suc k) ≡ some (fresh os raw none func s0 k sems_ready)
  made_task = rw (eq→== (suc k) (suc k) refl) refl

  slave_runs-ok : slave_runs s0 s1 os waiting ≡ ok tt (running 0 w.curr_task [] registered)
  unfolding slave_runs dispatch start_task switch_to
  slave_runs-ok =
      rw
        (
          round_takes os (λ _. slave_turn s0 s1) 0 (suc k) [] waiting
              (fresh os raw none func s0 k sems_ready) (omega (arith, posts)) (rw todo refl)
              made_task,
          load-ok (taken 0 [] waiting) (suc k) made_task,
          change-ok
              (record (taken 0 [] waiting) {
                calls = Call.malloc default_stack ∷ waiting.calls;
                errno =
                    errno_after
                      (os.answer (taken 0 [] waiting).calls (Call.malloc default_stack)).errno
                      waiting.errno;
              })
              (suc k)
              (λ t. record t {
                stack_ptr =
                    to_ptr (os.answer (taken 0 [] waiting).calls (Call.malloc default_stack)).ret;
              })
              made_task,
          turn-ok,
          load-ok registered (suc k) slave_task,
          wakes-ok 0 w.curr_task [] registered (record t { action = sem_activation }) refl refl
              (rw (eq→== w.curr_task w.curr_task refl) refl) refl,
        )
        refl

  wait-ok :
      crt_sem_wait (slave_runs s0 s1 os) 2 s1 one_posted
      ≡ ok tt (with_sem s1 (sem (pos 0) null) (running 0 w.curr_task [] registered))
  wait-ok =
      wait_suspends s1 one_posted 0 null w.curr_task 0 (slave_runs s0 s1 os)
        (running 0 w.curr_task [] registered) (rw (ne→== s0 s1 two_sems, eq→== s1 s1 refl) refl)
        slave_runs-ok (rw (ne→== s0 s1 two_sems, eq→== s1 s1 refl) refl)

  first_round-IsBetween :
      IsBetween s0 s1 w.curr_task
        (suc k)
        (with_sem s1 (sem (pos 0) null) (running 0 w.curr_task [] registered))
  first_round-IsBetween = record {
    first = rw (ne→== s1 s0 apart, eq→== s0 s0 refl) refl;
    second = rw (eq→== s1 s1 refl) refl;
    current = refl;
    masters = (record t { action = sem_activation }, rw (eq→== w.curr_task w.curr_task refl) refl);
    slaves = (
      record (fresh os raw none func s0 k sems_ready) {
        stack_ptr = to_ptr (os.answer (taken 0 [] waiting).calls (Call.malloc default_stack)).ret;
      },
      slave_task,
    );
    nothing_todo = refl;
    nothing_doing = doing;
    no_posts = refl;
  }

  -- With two semaphores that differ, a running task that is allocated and not NULL, nothing queued and no posts, and a block from malloc for the slave that is not the running task, `master` returns however many rounds it makes, from two on: then it has exited, the slave is freed, both semaphores are 0 with nobody registered, and nothing is queued.
  pub master-IsOver :
      (n : ℕ) (pipefd : ℤ) (buf : ℕ) (d0 d1 : Sem)
      → w.sems s0 ≡ some d0
      → w.sems s1 ≡ some d1
      → Returns (λ _. IsOver s0 s1 w.curr_task (suc k)) (master s0 s1 os raw func n pipefd buf w)
  unfolding master
  master-IsOver n pipefd buf d0 d1 e0 e1 =
      rw (set_up-ok d0 d1 e0 e1, post-ok, wait-ok)
        (Returns-bind (λ _. IsBetween s0 s1 w.curr_task (suc k))
          (λ _. IsOver s0 s1 w.curr_task (suc k))
          (master_rounds s0 s1 os n
            (with_sem s1 (sem (pos 0) null) (running 0 w.curr_task [] registered)))
          (λ _. do
            crt_sem_post s0
            crt_sem_wait (slave_ends s0 s1 os) 2 s1
            sys os (Call.write_fd pipefd buf 0 1)
            crt_exit)
          (master_rounds-IsBetween s0 s1 w.curr_task (suc k) two_sems two_tasks valid slave_valid os
            n (with_sem s1 (sem (pos 0) null) (running 0 w.curr_task [] registered))
            first_round-IsBetween)
          (λ _ w' b.
            rw
              (
                Last.post-ok os s0 s1 w.curr_task (suc k) two_sems two_tasks valid slave_valid w' b,
                Last.wait-ok os s0 s1 w.curr_task (suc k) two_sems two_tasks valid slave_valid w' b,
              )
              (exit-IsOver os s0 s1 w.curr_task (suc k) two_sems two_tasks valid slave_valid w' b
                (Call.write_fd pipefd buf 0 1))))
