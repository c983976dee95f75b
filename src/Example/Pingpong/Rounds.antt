-- ===== src/Example/Pingpong/Rounds.antt =====
-- The rounds of example/sem_pingpong.c.
use async_coro.Base.{
  ℕ, zero, suc, ◌≡◌, ◌≢◌, refl, ap, sym, ◌∙◌, arith, pos, true, false, some, [], eq→==, ne→==, ok,
  Returns,
}
use async_coro.Queue.Mem.{Ptr, null, update}
use async_coro.Task.{sem_activation, Task}
use async_coro.World.State.{World, load-ok, with_sem, load_sem-ok, store_sem-ok}
use async_coro.Notify.{linked}
use async_coro.Notify.Laws.{ready}
use async_coro.Manager.Rounds.{running, round_takes, dispatch-resumes, wakes-ok}
use async_coro.Semaphore.{crt_sem_post, crt_sem_priority_post, try_wait, crt_sem_wait}
use async_coro.Semaphore.Post.{sem, posted, post_wakes}
use async_coro.Semaphore.Wait.{wait_suspends}
use async_coro.Manager.{switch_to}
use async_coro.World.Calls.{Os}
use async_coro.Example.Pingpong.{slave_turn, slave_runs, master_rounds}

module _ (s0 s1 master slave : Ptr) where
  -- `slave` waits on `sem[0]`, `master` runs, and nothing is queued.
  pub record IsBetween (w : World) : Type 0 where
    pub first : w.sems s0 ≡ some (sem (pos 0) slave)
    pub second : w.sems s1 ≡ some (sem (pos 0) null)
    pub current : w.curr_task ≡ master
    pub masters : (t : Task) × (w.tasks master ≡ some t)
    pub slaves : (t : Task) × (w.tasks slave ≡ some t)
    pub nothing_todo : w.todo ≡ []
    pub nothing_doing : w.doing ≡ []
    pub no_posts : w.manager_sem ≡ 0

  module _ (two_sems : s0 ≢ s1) (two_tasks : master ≢ slave) (master_valid : master ≢ null)
      (slave_valid : slave ≢ null) where
    pub post_wakes-one :
        (s p : Ptr) (w : World) (t : Task)
        → p ≢ null
        → w.sems s ≡ some (sem (pos 0) p)
        → w.tasks p ≡ some t
        → w.todo ≡ []
        → w.doing ≡ []
        → crt_sem_post s w ≡ ok tt (ready p (posted s 0 p t w))
    unfolding crt_sem_priority_post linked
    post_wakes-one s p w t valid e alloc todo doing =
        (post_wakes s 0 w (omega arith) p t valid e alloc (rw (todo, doing) refl)).0

    pub try_wait-takes :
        (s p : Ptr) (w : World)
        → w.sems s ≡ some (sem (pos 1) p)
        → try_wait s w ≡ ok true (with_sem s (sem (pos 0) null) w)
    unfolding try_wait
    try_wait-takes s p w e = rw (load_sem-ok w s e, store_sem-ok w s (sem (pos 0) null) e) refl

    pub try_wait-registers :
        (s p : Ptr) (w : World)
        → w.sems s ≡ some (sem (pos 0) p)
        → try_wait s w ≡ ok false (with_sem s (sem (pos 0) w.curr_task) w)
    unfolding try_wait
    try_wait-registers s p w e =
        rw (load_sem-ok w s e, store_sem-ok w s (sem (pos 0) w.curr_task) e) refl

    module _ (os : Os) (w : World) (b : IsBetween w) where
      abbrev w1 : World
      w1 = ready slave (posted s0 0 slave b.slaves.0 w)

      abbrev w2 : World
      w2 = with_sem s1 (sem (pos 0) w.curr_task) w1

      abbrev w3 : World
      w3 = running 0 slave [] w2

      abbrev w4 : World
      w4 = with_sem s0 (sem (pos 0) null) w3

      abbrev w5 : World
      w5 = ready w.curr_task (posted s1 0 w.curr_task b.masters.0 w4)

      abbrev w6 : World
      w6 = with_sem s0 (sem (pos 0) slave) w5

      abbrev w7 : World
      w7 = running 0 w.curr_task [] w6

      abbrev w8 : World
      w8 = with_sem s1 (sem (pos 0) null) w7

      current_valid : w.curr_task ≢ null
      current_valid e = master_valid (sym b.current ∙ e)

      apart : slave ≢ w.curr_task
      apart e = two_tasks (sym b.current ∙ sym e)

      waits : w4.tasks w.curr_task ≡ some b.masters.0
      waits = rw (ne→== slave w.curr_task apart, update) (ap w.tasks b.current ∙ b.masters.1)

      abbrev slaves_task : Task
      slaves_task = record b.slaves.0 { action = sem_activation }

      slave_waits : w2.tasks slave ≡ some slaves_task
      slave_waits = rw (eq→== slave slave refl) refl

      slave_back : w6.tasks slave ≡ some slaves_task
      slave_back = rw (ne→== w.curr_task slave (λ e. apart (sym e)), eq→== slave slave refl) refl

      slave_runs-ok : slave_runs s0 s1 os w2 ≡ ok tt w7
      unfolding slave_runs slave_turn switch_to
      slave_runs-ok =
          rw
            (
              round_takes os (λ _. slave_turn s0 s1) 0 slave [] w2 slaves_task
                  (omega (arith, b.no_posts)) (rw b.nothing_todo refl) slave_waits,
              dispatch-resumes os (λ _. slave_turn s0 s1) slave sem_activation refl,
              try_wait-takes s0 slave w3
                  (rw (ne→== s1 s0 (λ e. two_sems (sym e)), eq→== s0 s0 refl) refl),
              post_wakes-one s1 w.curr_task w4 b.masters.0 current_valid
                  (rw (ne→== s0 s1 two_sems, eq→== s1 s1 refl) refl) waits refl b.nothing_doing,
              try_wait-registers s0 null w5
                  (rw (ne→== s1 s0 (λ e. two_sems (sym e)), eq→== s0 s0 refl) refl),
              load-ok w6 slave slave_back,
              wakes-ok 0 w.curr_task [] w6 (record b.masters.0 { action = sem_activation }) refl
                  refl (rw (eq→== w.curr_task w.curr_task refl) refl) refl,
            )
            refl

      post-ok : crt_sem_post s0 w ≡ ok tt w1
      post-ok =
          post_wakes-one s0 slave w b.slaves.0 slave_valid b.first b.slaves.1 b.nothing_todo
            b.nothing_doing

      wait-ok : crt_sem_wait (slave_runs s0 s1 os) 2 s1 w1 ≡ ok tt w8
      wait-ok =
          wait_suspends s1 w1 0 null w.curr_task 0 (slave_runs s0 s1 os) w7
            (rw (ne→== s0 s1 two_sems, update) b.second) slave_runs-ok
            (rw (ne→== s0 s1 two_sems, eq→== s1 s1 refl) refl)

      round-IsBetween : IsBetween w8
      round-IsBetween = record {
        first = rw (ne→== s1 s0 (λ e. two_sems (sym e)), eq→== s0 s0 refl) refl;
        second = rw (eq→== s1 s1 refl) refl;
        current = b.current;
        masters = (
          record b.masters.0 { action = sem_activation },
          rw (b.current, eq→== master master refl) refl,
        );
        slaves = (
          record b.slaves.0 { action = sem_activation },
          rw (ne→== w.curr_task slave (λ e. apart (sym e)), eq→== slave slave refl) refl,
        );
        nothing_todo = refl;
        nothing_doing = b.nothing_doing;
        no_posts = refl;
      }

    -- With two semaphores and two tasks that differ and are not NULL, from a state in which the slave waits on the first
    -- semaphore and the master runs, with nothing queued, any number of rounds of the master returns, and leaves such
    -- a state.
    pub master_rounds-IsBetween :
        (os : Os) (n : ℕ) (w : World)
        → IsBetween w
        → Returns (λ _. IsBetween) (master_rounds s0 s1 os n w)
    unfolding master_rounds
    master_rounds-IsBetween os zero w b = b
    master_rounds-IsBetween os (suc n) w b =
        rw (post-ok os w b, wait-ok os w b)
          (master_rounds-IsBetween os n (w8 os w b) (round-IsBetween os w b))
