-- ===== src/System/Tests.antt =====
-- A coroutine of src/acoro.c that has asked a worker for something.
use async_coro.Base.{Option-cases, ◌≡◌, inl, inr, refl, arith, false, none, [], stop, Stop, Returns}
use async_coro.World.State.{load, World, change, change-ok}
use async_coro.Task.{finished_coroutine, Task}
use async_coro.World.Samples.{both_ready, kernel, sample_task, alone}
use async_coro.Notify.{linked, sem_wait, shift_todo, shift_doing, wake_byte}
use async_coro.Notify.Laws.{ready}
use async_coro.Queue.Mem.{Ptr}
use async_coro.System.Keeps.{Inv, Leaves}
use async_coro.System.Round.{manager_round-Inv}
use async_coro.Manager.{manager_round}
use async_coro.Api.{crt_exit, coroutine_set_finished_coroutine}
use async_coro.System.Moves.{Last, yields, Move, manager, Moves, Quick, segment, end_by, Moves-Inv}
use async_coro.System.Moves as M
use async_coro.Base.{List, ◌∷◌, false}
use async_coro.World.State.{with_task}
use async_coro.Manager.Rounds.{taken, running, round_yields}
use async_coro.World.Calls.{Call}
use async_coro.Base.{ok}
use async_coro.Queue.Mem.{update}
use async_coro.Notify.{
  with_env, with_todo, with_doing, push_todo, push_doing, write_pipe, read_pipe, perform,
  notify_worker_acts, notify_manager_acts, todo_push, manager_post, manager_wait, todo_shift,
  doing_push, byte_write, byte_read, doing_shift,
}
use async_coro.System.Steps.{
  IsSound, idle, asks, hands, resumes, takes, begins, acts, Reach, start, next, manager_finds_task,
  worker_finds_task,
}

begin-Inv : Inv (alone sample_task)
begin-Inv = record { posts = refl; bytes = refl; workers = omega arith }

free_to_go : linked 3 (alone sample_task) ≡ false
unfolding linked
free_to_go = refl

abbrev begun : World
begun = alone sample_task

-- The coroutine is in the doing queue, and no byte is written yet.
abbrev queued : World
queued = with_doing (3 ∷ []) begun

queues : perform doing_push begun ≡ ok tt queued
unfolding perform push_doing linked load
queues = refl

-- Worker 1 has its byte.
abbrev announced : World
announced = record queued {
  env = record queued.env { pipe = update queued.pipe 1 (wake_byte ∷ []); bg_worker_id = 6 };
  calls = Call.write_pipe 1 ∷ [];
}

announces : perform (byte_write kernel) queued ≡ ok tt announced
unfolding perform write_pipe
announces = refl

abbrev heard : World
heard = with_env (λ e. record e { pipe = update e.pipe 1 [] }) announced

hears : perform (byte_read 1) announced ≡ ok tt heard
unfolding perform read_pipe
hears = refl

-- The worker begins its part before the byte is there.
served : Reach (idle begun) (record { world = heard; under_way = (doing_shift ∷ []) ∷ [] ∷ [] })
unfolding notify_worker_acts
served =
    next
      (next
        (next
          (next (next start (begins (asks kernel) refl))
            (acts [] [] doing_push (byte_write kernel ∷ []) queued refl tt queues refl))
          (begins (takes 1) refl))
        (acts ((byte_read 1 ∷ doing_shift ∷ []) ∷ []) [] (byte_write kernel) [] announced refl tt
          announces refl))
      (acts [] ([] ∷ []) (byte_read 1) (doing_shift ∷ []) heard refl (omega arith) hears refl)

worker_finds_task_example :
    Returns (λ _ w'. IsSound (record { world = w'; under_way = [] ∷ [] ∷ [] })) (shift_doing heard)
worker_finds_task_example =
    worker_finds_task begun (record { world = heard; under_way = (doing_shift ∷ []) ∷ [] ∷ [] })
      begin-Inv served [] ([] ∷ []) [] refl

-- The same coroutine, had it been handed to the manager.
abbrev handed : World
handed = with_todo (3 ∷ []) begun

hands_over : perform (todo_push 3) begun ≡ ok tt handed
unfolding perform push_todo linked load
hands_over = refl

abbrev posted : World
posted = with_env (λ e. record e { manager_sem = 1 }) handed

posts : perform manager_post handed ≡ ok tt posted
unfolding perform
posts = refl

abbrev woken : World
woken = with_env (λ e. record e { manager_sem = 0 }) posted

wakes_up : perform manager_wait posted ≡ ok tt woken
unfolding perform sem_wait
wakes_up = refl

given : Reach (idle begun) (record { world = woken; under_way = (todo_shift ∷ []) ∷ [] ∷ [] })
unfolding notify_manager_acts
given =
    next
      (next
        (next
          (next (next start (begins (hands 3) refl))
            (acts [] [] (todo_push 3) (manager_post ∷ []) handed refl tt hands_over refl))
          (begins resumes refl))
        (acts ((manager_wait ∷ todo_shift ∷ []) ∷ []) [] manager_post [] posted refl tt posts refl))
      (acts [] ([] ∷ []) manager_wait (todo_shift ∷ []) woken refl tt wakes_up refl)

manager_finds_task_example :
    Returns (λ _ w'. IsSound (record { world = w'; under_way = [] ∷ [] ∷ [] })) (shift_todo woken)
manager_finds_task_example =
    manager_finds_task begun (record { world = woken; under_way = (todo_shift ∷ []) ∷ [] ∷ [] })
      begin-Inv given [] ([] ∷ []) [] refl

change-missing :
    (w : World) (p : Ptr) (f : Task → Task) → w.tasks p ≡ none → change p f w ≡ stop Stop.fault
unfolding change
change-missing w p f e = rw (e, change)

-- A coroutine that exits when it runs.
exit-Inv : (p : Ptr) (w : World) → Inv w → Leaves Inv (crt_exit w)
unfolding crt_exit coroutine_set_finished_coroutine
exit-Inv p w inv = elim (Option-cases (w.tasks w.curr_task)) [
  | inl missing ↦
      rw (change-missing w w.curr_task (λ t. record t { action = finished_coroutine }) missing) tt
  | inr (t, there) ↦
      rw (change-ok w w.curr_task (λ t. record t { action = finished_coroutine }) there)
        (record { posts = inv.posts; bytes = inv.bytes; workers = inv.workers })
]

both-Inv : Inv (both_ready sample_task)
both-Inv = record { posts = refl; bytes = refl; workers = omega arith }

manager_round-Inv_example :
    Leaves Inv (manager_round kernel (λ _. crt_exit) (both_ready sample_task))
manager_round-Inv_example =
    manager_round-Inv kernel (λ _. crt_exit) exit-Inv (both_ready sample_task) both-Inv

-- Both coroutines yield, one after the other.
abbrev each_yields : Ptr → List Quick × Last
each_yields _ = ([], yields)

abbrev one_yielded : World
one_yielded = ready 4 (with_task 4 sample_task (running 1 4 (3 ∷ []) (both_ready sample_task)))

free_to_yield : linked 4 (taken 1 (3 ∷ []) (both_ready sample_task)) ≡ false
unfolding linked
free_to_yield = refl

yields_first : Move kernel (both_ready sample_task) one_yielded
unfolding segment end_by
yields_first = manager each_yields (
    round_yields kernel 1 4 (3 ∷ []) (both_ready sample_task) sample_task refl refl refl refl
      free_to_yield)

Moves-Inv_example : Inv one_yielded
Moves-Inv_example =
    Moves-Inv kernel (both_ready sample_task) one_yielded both-Inv (M.next M.start yields_first)
