-- ===== src/Example/Pingpong.antt =====
-- `master` and `slave` of example/sem_pingpong.c: two coroutines that wait for each other's posts.
pub mod Rounds
pub mod Last
pub mod Master
pub mod Tests
use async_coro.Base.{ℤ, none, ◌>>=◌, ◌>>◌, ℕ, zero, suc, not, pure, assert}
use async_coro.Queue.Mem.{Ptr}
use async_coro.World.State.{Co}
use async_coro.Manager.{wakes, manager_round}
use async_coro.Task.{Task}
use async_coro.World.Calls.{Call, Os}
use async_coro.World.State.{sys}
use async_coro.Api.{crt_create, crt_exit}
use async_coro.Semaphore.{crt_sem_init, crt_sem_post, try_wait, crt_sem_wait}

-- `sem[0]` is at `s0`, and `sem[1]` at `s1`.
module _ (s0 s1 : Ptr) where
  -- The loop of `slave` from one `swapcontext` back to it to the next one away from it: the wait that was suspended ends, the
  -- post follows, and the wait of the next round suspends. A wait that went otherwise would be another turn, and the last
  -- round is `slave_last`.
  unfoldable pub slave_turn : Co (Unit {0})
  slave_turn = do
    over ← try_wait s0
    assert over
    crt_sem_post s1
    over' ← try_wait s0
    assert (not over')

  -- What happens while `master` is suspended, with no other coroutine: a round of the manager with the slave's turn
  -- in it, and the next round up to the switch to `master`.
  unfoldable pub slave_runs : Os → Co (Unit {0})
  unfolding slave_turn
  slave_runs os = manager_round os (λ _. slave_turn) >> wakes

  -- `n` rounds of the loop of `master`; a wait takes two rounds of its own loop at most.
  unfoldable pub master_rounds : Os → (n : ℕ) → Co (Unit {0})
  unfolding slave_runs
  master_rounds os zero = pure tt
  master_rounds os (suc n) = do
    crt_sem_post s0
    crt_sem_wait (slave_runs os) 2 s1
    master_rounds os n

  -- What `master` does before its loop. In the first round the slave has not run yet, and
  -- the manager starts it, on a new stack; `slave_runs` is that round too.
  unfoldable pub set_up : Os → (raw : Task) (func : Ptr) → Co (Unit {0})
  set_up os raw func = do
    crt_sem_init s0 0
    crt_sem_init s1 0
    crt_create os raw none func s0
    pure tt

  -- In the last round the slave leaves its loop after the post, and the manager frees it.
  unfoldable pub slave_last : Co (Unit {0})
  slave_last = do over ← try_wait s0; assert over; crt_sem_post s1; crt_exit

  unfoldable pub slave_ends : Os → Co (Unit {0})
  unfolding slave_last
  slave_ends os = manager_round os (λ _. slave_last) >> wakes

  -- The whole of `master`, with `n + 2` for `NUM`. `write(*pipefd, "c", 1)` tells the main thread.
  unfoldable pub master :
      Os → (raw : Task) (func : Ptr) (n : ℕ) (pipefd : ℤ) (buf : ℕ) → Co (Unit {0})
  unfolding set_up slave_runs master_rounds slave_ends
  master os raw func n pipefd buf = do
    set_up os raw func
    crt_sem_post s0
    crt_sem_wait (slave_runs os) 2 s1
    master_rounds os n
    crt_sem_post s0
    crt_sem_wait (slave_ends os) 2 s1
    sys os (Call.write_fd pipefd buf 0 1)
    crt_exit
