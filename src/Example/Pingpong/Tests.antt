-- ===== src/Example/Pingpong/Tests.antt =====
-- A run of example/sem_pingpong.c: task 3 is the master, and the slave gets the block 20.
use async_coro.Base.{refl, arith, pos, Returns}
use async_coro.Queue.Mem.{null}
use async_coro.World.State.{World, with_sem}
use async_coro.World.Samples.{alone, sample_task, kernel}
use async_coro.Semaphore.Post.{sem}
use async_coro.Example.Pingpong.{master}
use async_coro.Example.Pingpong.Last.{IsOver}
use async_coro.Example.Pingpong.Master.{master-IsOver}

-- What `sem[2]` on the master's stack holds at first does not matter.
abbrev at_start : World
at_start = with_sem 6 (sem (pos 9) 8) (with_sem 5 (sem (pos 7) null) (alone sample_task))

master-IsOver_example :
    Returns (λ _. IsOver 5 6 3 20) (master 5 6 kernel sample_task 70 999998 (pos 4) 80 at_start)
master-IsOver_example =
    master-IsOver kernel sample_task 70 5 6 (λ e. absurd (omega (arith, e))) 19 at_start sample_task
      (λ e. absurd (omega (arith, e))) (λ e. absurd (omega (arith, e))) refl refl refl refl refl
      999998 (pos 4) 80 (sem (pos 7) null) (sem (pos 9) 8) refl refl
