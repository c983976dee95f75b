-- ===== src/Semaphore/Wait.antt =====
-- `crt_sem_wait` of src/acoro.c: it takes one from the value, or waits until a post has come.
use async_coro.Base.{ℕ, suc, ◌≡◌, ◌≢◌, arith, pos, false, some, ok}
use async_coro.Queue.Mem.{Ptr, null}
use async_coro.Task.{Task}
use async_coro.World.State.{World, Co, with_sem, load_sem-ok, store_sem-ok, with_sem-here}
use async_coro.Notify.{linked}
use async_coro.Notify.Laws.{ready}
use async_coro.Semaphore.{try_wait, crt_sem_wait, crt_sem_post, crt_sem_priority_post}
use async_coro.Semaphore.Post.{sem, posted, post_wakes}

module _ (s : Ptr) (w : World) where
  -- With a positive value a wait takes one, leaves nobody registered, and does not suspend.
  pub wait_at_once :
      (v p k : ℕ) (swap : Co (Unit {0}))
      → w.sems s ≡ some (sem (pos (suc v)) p)
      → crt_sem_wait swap (suc k) s w ≡ ok tt (with_sem s (sem (pos v) null) w)
  unfolding crt_sem_wait try_wait
  wait_at_once v p k swap e = rw (load_sem-ok w s e, store_sem-ok w s (sem (pos v) null) e)

  -- With the value 0 a wait registers the current task, suspends, and takes one if the value is
  -- positive when the coroutine is resumed.
  pub wait_suspends :
      (v p q k : ℕ) (swap : Co (Unit {0})) (w' : World)
      → w.sems s ≡ some (sem (pos 0) p)
      → swap (with_sem s (sem (pos 0) w.curr_task) w) ≡ ok tt w'
      → w'.sems s ≡ some (sem (pos (suc v)) q)
      → crt_sem_wait swap (suc (suc k)) s w ≡ ok tt (with_sem s (sem (pos v) null) w')
  unfolding crt_sem_wait try_wait
  wait_suspends v p q k swap w' e run e' = rw (
    load_sem-ok w s e,
    store_sem-ok w s (sem (pos 0) w.curr_task) e,
    run,
    load_sem-ok w' s e',
    store_sem-ok w' s (sem (pos v) null) e',
  )

  -- A wait on a semaphore with the value 0, by a task that is allocated and in no queue, and one post
  -- while it is suspended: the wait ends, the value is 0 again, nobody is registered, and the post has made the waiting task ready.
  pub wait-post :
      (k : ℕ) {t : Task} (p : Ptr)
      → w.sems s ≡ some (sem (pos 0) p)
      → w.curr_task ≢ null
      → w.tasks w.curr_task ≡ some t
      → linked w.curr_task w ≡ false
      → crt_sem_wait (crt_sem_post s) (suc (suc k)) s w
        ≡ ok tt (
            with_sem s (sem (pos 0) null) (
              ready w.curr_task
                (posted s 0 w.curr_task t (with_sem s (sem (pos 0) w.curr_task) w))))
  unfolding linked crt_sem_post crt_sem_priority_post
  wait-post k {t} p e valid alloc out =
      wait_suspends 0 p w.curr_task k (crt_sem_post s) w2 e run
        (with_sem-here w1 s (sem (pos 1) w.curr_task))
    where
      w1 : World
      w1 = with_sem s (sem (pos 0) w.curr_task) w

      w2 : World
      w2 = ready w.curr_task (posted s 0 w.curr_task t w1)

      run : crt_sem_post s w1 ≡ ok tt w2
      run =
          (post_wakes s 0 w1 (omega arith) w.curr_task t valid
            (with_sem-here w s (sem (pos 0) w.curr_task)) alloc out).0
