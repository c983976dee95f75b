-- ===== src/Semaphore/Tests.antt =====
-- The semaphores of src/acoro.c with sample values.
use async_coro.Base.{ℕ, ◌≡◌, refl, arith, pos, false, ok, stop, Stop, pure, ◌>>◌}
use async_coro.Queue.Mem.{Ptr, null}
use async_coro.World.State.{World, Co, with_sem}
use async_coro.World.Samples.{sample_task, alone}
use async_coro.Notify.{linked}
use async_coro.Notify.Laws.{ready}
use async_coro.Semaphore.{
  crt_sem_post, crt_sem_priority_post, crt_sem_wait, normal_priority, critical_priority,
}
use async_coro.Semaphore.Post.{sem, posted, ready_first, post_alone, post_wakes, post_twice}
use async_coro.Semaphore.Wait.{wait_at_once, wait_suspends, wait-post}

-- Semaphore 5 with the value `v`, on which task `p` is registered; task 3 runs.
abbrev with_value : ℕ → Ptr → World
with_value v p = with_sem 5 (sem (pos v) p) (alone sample_task)

free_to_go : linked 3 (with_value 0 3) ≡ false
unfolding linked
free_to_go = refl

post_alone_example :
    crt_sem_post 5 (with_value 2 null) ≡ ok tt (with_sem 5 (sem (pos 3) null) (with_value 2 null))
post_alone_example = post_alone 5 2 (with_value 2 null) (omega arith) refl

post_wakes_example :
    (crt_sem_priority_post 5 normal_priority (with_value 0 3)
      ≡ ok tt (ready 3 (posted 5 0 3 sample_task (with_value 0 3))))
    × (crt_sem_priority_post 5 critical_priority (with_value 0 3)
        ≡ ok tt (ready_first 3 (posted 5 0 3 sample_task (with_value 0 3))))
post_wakes_example =
    post_wakes 5 0 (with_value 0 3) (omega arith) 3 sample_task (omega arith) refl refl free_to_go

post_twice_example : (crt_sem_post 5 >> crt_sem_post 5) (with_value 0 3) ≡ stop Stop.fault
post_twice_example =
    post_twice 5 3 0 (with_value 0 3) sample_task (omega arith) (omega arith) refl refl free_to_go

wait_at_once_example :
    crt_sem_wait (pure tt) 1 5 (with_value 2 null)
    ≡ ok tt (with_sem 5 (sem (pos 1) null) (with_value 2 null))
wait_at_once_example = wait_at_once 5 (with_value 2 null) 1 null 0 (pure tt) refl

-- While the coroutine is suspended others post twice.
abbrev two_posts : Co (Unit {0})
two_posts w = ok tt (with_sem 5 (sem (pos 2) 3) w)

wait_suspends_example :
    crt_sem_wait two_posts 2 5 (with_value 0 null)
    ≡ ok tt (
        with_sem 5
          (sem (pos 1) null)
          (with_sem 5 (sem (pos 2) 3) (with_sem 5 (sem (pos 0) 3) (with_value 0 null))))
wait_suspends_example =
    wait_suspends 5 (with_value 0 null) 1 null 3 0 two_posts
      (with_sem 5 (sem (pos 2) 3) (with_sem 5 (sem (pos 0) 3) (with_value 0 null))) refl refl refl

free_to_wait : linked 3 (with_value 0 null) ≡ false
unfolding linked
free_to_wait = refl

wait-post_example :
    crt_sem_wait (crt_sem_post 5) 2 5 (with_value 0 null)
    ≡ ok tt (
        with_sem 5
          (sem (pos 0) null)
          (ready 3 (posted 5 0 3 sample_task (with_sem 5 (sem (pos 0) 3) (with_value 0 null)))))
wait-post_example = wait-post 5 (with_value 0 null) 0 null refl (omega arith) refl free_to_wait
