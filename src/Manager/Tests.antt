-- ===== src/Manager/Tests.antt =====
-- Rounds of `new_manager` of src/acoro.c with two coroutines.
use async_coro.Base.{◌>>=◌, ◌>>◌, ◌≡◌, refl, false, none, some, [], ◌∷◌, ok, pure}
use async_coro.Queue.Mem.{update}
use async_coro.Task.{finished_coroutine}
use async_coro.World.Calls.{Call}
use async_coro.World.State.{World, with_task}
use async_coro.World.Samples.{kernel, sample_task, both_ready}
use async_coro.Notify.{linked}
use async_coro.Notify.Laws.{ready}
use async_coro.Manager.{manager_round}
use async_coro.Base.{◌∷◌, inl, inr, ◌≢◌, Bool-cases, ◌==◌, true, has, arith, Returns}
use async_coro.World.State.{Co}
use async_coro.Queue.Mem.{Ptr}
use async_coro.Task.{Task}
use async_coro.Manager.Turns.{Fair, Later, Live, woken, rounds, rounds_reach}
use async_coro.Manager.Yields.{yield-IsPolite}
use async_coro.Manager.Rounds.{taken, running, round_yields, round_exits}
use async_coro.Api.{crt_sched_yield, crt_exit}

abbrev two : World
two = both_ready sample_task

free_to_go : linked 4 (taken 1 (3 ∷ []) two) ≡ false
unfolding linked
free_to_go = refl

round_yields_example :
    manager_round kernel (λ _. crt_sched_yield kernel (pure tt)) two
    ≡ ok tt (ready 4 (with_task 4 sample_task (running 1 4 (3 ∷ []) two)))
round_yields_example =
    round_yields kernel 1 4 (3 ∷ []) two sample_task refl refl refl refl free_to_go

round_exits_example :
    manager_round kernel (λ _. crt_exit) two
    ≡ ok tt (record two {
      env = record two.env { manager_sem = 1; todo = 3 ∷ []; curr_task = 4; ran = 41 };
      tasks =
          update
            (update two.tasks 4 (some (record sample_task { action = finished_coroutine })))
            4
            none;
      calls = Call.free 4 ∷ Call.free 300 ∷ [];
    })
round_exits_example = round_exits kernel 1 4 (3 ∷ []) two sample_task refl refl refl refl

abbrev yielding : Ptr → Co (Unit {0})
yielding _ = crt_sched_yield kernel (pure tt)

two_ready : (q : Ptr) → has q two.todo ≡ true → (t : Task) × (two.tasks q ≡ some t) × Live t
two_ready q h = elim (Bool-cases (4 == q)) [
  | inl four ↦ (sample_task, rw four refl, woken refl)
  | inr other ↦ elim (Bool-cases (3 == q)) [
    | inl three ↦ (sample_task, rw (other, three) refl, woken refl)
    | inr neither ↦ absurd (ground (arith, h, other, neither))
  ]
]

two-Fair : Fair two
two-Fair = record { posts = refl; once = refl; apart = λ q h. refl; live = two_ready }

-- Task 3 has its turn in the second round.
rounds_reach_example :
    Returns
      (λ _ w'.
        Later (3 ∷ []) w'
        × (w'.manager_sem ≢ 0)
        × Returns (λ _. Later []) (manager_round kernel yielding w'))
      (rounds kernel yielding 1 two)
rounds_reach_example =
    rounds_reach kernel yielding (yield-IsPolite kernel) (4 ∷ []) 3 [] two two-Fair refl
