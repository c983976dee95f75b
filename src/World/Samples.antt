-- ===== src/World/Samples.antt =====
-- A small kernel and small states, on which the theorems about src/acoro.c are tried.
use async_coro.Base.{
  ℕ, ◌≤◌, inl, refl, arith, ℤ, pos, none, some, List, [], ◌∷◌, leb, if◌then◌else◌,
}
use async_coro.Queue.Mem.{update}
use async_coro.Task.{sched_yield, general_arg, Task}
use async_coro.World.Calls.{Call, Answer, Os}
use async_coro.World.State.{Env, World}

-- The flags that were set last, or 2.
abbrev last_flags : List Call → ℤ
last_flags [] = pos 2
last_flags (Call.setfl fd z ∷ h) = z
last_flags (_ ∷ h) = last_flags h

abbrev pub at_most : ℕ → ℕ → ℕ
at_most k n = if leb k n then k else n

-- Reads and writes move three bytes at most, and every other call succeeds.
abbrev result_of : List Call → Call → ℤ
result_of h (Call.open_file pathname flags mode) = pos 6
result_of h (Call.read_fd fd buf offset count) = pos (at_most 3 count)
result_of h (Call.write_fd fd buf offset count) = pos (at_most 3 count)
result_of h Call.socket = pos 7
result_of h (Call.accept fd addr addrlen) = pos 8
result_of h (Call.getfl fd) = last_flags h
result_of h (Call.write_pipe worker) = pos 1
result_of h Call.malloc_task = pos 20
result_of h (Call.malloc size) = pos 900
result_of h (Call.run_routine func arg result) = pos 5
result_of h _ = pos 0

-- Every socket that is asked reports the error 111.
abbrev answer_of : List Call → Call → Answer
answer_of h c = record { ret = result_of h c; errno = none; out = 111; out2 = 112 }

pub at_most_le : (k n : ℕ) → at_most k n ≤ n
at_most_le k n = ground arith

abbrev pub kernel : Os
kernel = record {
  answer = answer_of;
  read_law = λ h fd buf offset count. inl (at_most 3 count, refl, at_most_le 3 count);
  write_law = λ h fd buf offset count. inl (at_most 3 count, refl, at_most_le 3 count);
}

abbrev pub sample_env : Env
sample_env = record {
  worker_count = 2;
  manager_sem = 0;
  pipe = λ _. [];
  pipe_channel = λ _. none;
  cid = 41;
  ran = 40;
  bg_worker_id = 5;
  curr_task = 3;
  todo = [];
  doing = [];
}

abbrev pub sample_task : Task
sample_task = record {
  action = sched_yield;
  args = general_arg 0;
  ret = record { val = pos 0; err_code = 0 };
  stack_ptr = 300;
  ec = record { have_io = 0; need_io = 0 };
}

-- The task 3 is current, `t` is its state, and nothing is queued.
abbrev pub alone : Task → World
alone t = record {
  env = sample_env;
  tasks = update (λ _. none) 3 (some t);
  sems = λ _. none;
  calls = [];
  errno = 0;
}

-- `t` is task 4; it waits on worker 1, which has its byte, behind it waits task 3.
abbrev pub handed_over : Task → World
handed_over t = record {
  env = record sample_env { doing = 4 ∷ 3 ∷ []; pipe = update (λ _. []) 1 (0xee ∷ 0xee ∷ []) };
  tasks = update (update (λ _. none) 3 (some sample_task)) 4 (some t);
  sems = λ _. none;
  calls = [];
  errno = 0;
}

-- Task 4 runs and task 3 is ready, or both are ready.
abbrev pub both_ready : Task → World
both_ready t = record (handed_over t) {
  env = record sample_env { todo = 4 ∷ 3 ∷ []; manager_sem = 2 };
}
