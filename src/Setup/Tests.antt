-- ===== src/Setup/Tests.antt =====
-- Setting up and tearing down the environment of src/acoro.c with three workers.
use async_coro.Base.{
  ◌*◌, ℕ, zero, suc, ◌+◌, ◌<◌, ◌≡◌, inl, inr, refl, arith, ℤ, pos, minus_one, true, none, some, [],
  has, ◌==◌, Bool-cases, stop, Stop, ◌>>◌, Returns,
}
use async_coro.Queue.Mem.{Ptr}
use async_coro.Task.{Task}
use async_coro.World.Calls.{Call, Os}
use async_coro.World.State.{World}
use async_coro.World.Samples.{alone, handed_over, sample_task, at_most, at_most_le}
use async_coro.Setup.{init_coroutine_env, destroy_coroutine_env, set_channel}
use async_coro.Setup.Init.{IsGenerous, IsOpen, init_coroutine_env_lem, init_coroutine_env-no_pipe}
use async_coro.Setup.Closing.{IsShut}
use async_coro.Setup.Destroy.{IsOwned, IsDestroyed, destroy_coroutine_env_lem, init-destroy}
use async_coro.System.Keeps.{Inv}

-- A kernel that gives each pipe the descriptors 10 and 11 and then 12 and 13, and so on.
abbrev ret_of : ℤ → Call → ℤ
ret_of piped (Call.pipe i) = piped
ret_of piped (Call.read_fd fd buf offset count) = pos (at_most 3 count)
ret_of piped (Call.write_fd fd buf offset count) = pos (at_most 3 count)
ret_of piped (Call.getfl fd) = pos 2
ret_of piped (Call.loop_new me) = pos 600
ret_of piped _ = pos 0

abbrev out_of : Call → ℕ
out_of (Call.pipe i) = 10 + 2 * i
out_of _ = 0

abbrev kernel_with : ℤ → Os
kernel_with piped = record {
  answer =
      λ h c. record { ret = ret_of piped c; errno = none; out = out_of c; out2 = out_of c + 1 };
  read_law = λ h fd buf offset count. inl (at_most 3 count, refl, at_most_le 3 count);
  write_law = λ h fd buf offset count. inl (at_most 3 count, refl, at_most_le 3 count);
}

abbrev pub roomy : Os
roomy = kernel_with (pos 0)

pub roomy-IsGenerous : IsGenerous roomy
roomy-IsGenerous = record {
  pipes = λ h i. refl;
  gets_flags = λ h fd. refl;
  sets_flags = λ h fd z. refl;
}

init_coroutine_env_lem_example :
    Returns
      (λ r w'.
        (r ≡ pos 0)
        × (w'.worker_count ≡ 3)
        × (w'.todo ≡ [])
        × (w'.doing ≡ [])
        × Inv w'
        × ((k : ℕ) → k < 6 → IsOpen k w'))
      (init_coroutine_env roomy 100 3 (alone sample_task))
init_coroutine_env_lem_example =
    init_coroutine_env_lem roomy 100 3 (alone sample_task) roomy-IsGenerous

init_coroutine_env-no_pipe_example :
    init_coroutine_env (kernel_with minus_one) 100 3 (alone sample_task) ≡ stop Stop.fault
init_coroutine_env-no_pipe_example =
    init_coroutine_env-no_pipe (kernel_with minus_one) 100 3 (alone sample_task) (λ h. refl)

init-destroy_example :
    Returns
      (λ r w'. (r ≡ pos 0) × ((k : ℕ) → k < 6 → IsShut k w'))
      ((init_coroutine_env roomy 100 3 >> destroy_coroutine_env roomy) (alone sample_task))
init-destroy_example = init-destroy roomy 100 3 (alone sample_task) roomy-IsGenerous

-- Two tasks wait for a worker; the ends of two pipes are stored.
abbrev busy : World
busy = set_channel 3 (pos 13) (
    set_channel 2 (pos 12)
      (set_channel 1 (pos 11) (set_channel 0 (pos 10) (handed_over sample_task))))

two_tasks : (p : Ptr) → has p busy.doing ≡ true → (t : Task) × (busy.tasks p ≡ some t)
two_tasks p h = elim (Bool-cases (4 == p)) [
  | inl four ↦ (sample_task, rw four refl)
  | inr other ↦ elim (Bool-cases (3 == p)) [
    | inl three ↦ (sample_task, rw (other, three) refl)
    | inr neither ↦ absurd (ground (arith, h, other, neither))
  ]
]

busy-IsOwned : IsOwned busy
busy-IsOwned = record {
  once_todo = refl;
  once_doing = refl;
  apart = λ p h. refl;
  in_todo = λ p h. absurd (ground (arith, h));
  in_doing = two_tasks;
}

four_ends : (k : ℕ) → k < 4 → (fd : ℤ) × (busy.pipe_channel k ≡ some fd)
four_ends zero lt = (pos 10, refl)
four_ends (suc zero) lt = (pos 11, refl)
four_ends (suc (suc zero)) lt = (pos 12, refl)
four_ends (suc (suc (suc zero))) lt = (pos 13, refl)
four_ends (suc (suc (suc (suc k)))) lt = absurd (omega arith)

destroy_coroutine_env_lem_example :
    Returns (λ r w'. (r ≡ pos 0) × IsDestroyed busy w') (destroy_coroutine_env roomy busy)
destroy_coroutine_env_lem_example = destroy_coroutine_env_lem roomy busy busy-IsOwned four_ends
