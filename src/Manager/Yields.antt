-- ===== src/Manager/Yields.antt =====
-- Coroutines of src/acoro.c that do nothing but `crt_sched_yield` are polite.
use async_coro.Base.{
  length-append, ==→ne, ==→eq, has-append, distinct-snoc, ◌≡◌, inl, inr, refl, sym, arith, true,
  false, some, [], ◌∷◌, ◌++◌, has, ◌==◌, Bool-cases, pure, Returns,
}
use async_coro.Queue.Mem.{Ptr, update}
use async_coro.Task.{sched_yield, is_finished, Task}
use async_coro.World.Calls.{Os}
use async_coro.World.State.{World, with_task, load-ok, change-ok, with_task-here}
use async_coro.Manager.Turns.{Fair, IsPolite, Live, woken, Later}
use async_coro.Notify.{linked, push_todo}
use async_coro.Notify.Laws.{ready}
use async_coro.Api.{crt_sched_yield}

-- A coroutine that is woken or can start, and is nowhere, is made ready.
pub ready-Fair :
    (p : Ptr) (t : Task) (w : World)
    → Fair w
    → linked p w ≡ false
    → Live t
    → Fair (ready p (with_task p t w))
unfolding linked
ready-Fair p t w f out alive = record {
  posts = omega (arith, f.posts, length-append w.todo (p ∷ []));
  once = distinct-snoc w.todo p f.once (ground (arith, out));
  apart = λ q h. elim (Bool-cases (p == q)) [
    | inl here ↦ rw (sym (==→eq p q here)) (ground (arith, out))
    | inr there ↦ f.apart q (before q h there)
  ];
  live = λ q h. elim (Bool-cases (p == q)) [
    | inl here ↦ (t, rw here, alive)
    | inr there ↦ rw (there, update) (f.live q (before q h there))
  ];
}
  where
    before : (q : Ptr) → has q (w.todo ++ p ∷ []) ≡ true → p == q ≡ false → has q w.todo ≡ true
    before q h there = ground (arith, has-append q w.todo (p ∷ []), h, ==→ne p q there)

pub yield-IsPolite : (os : Os) → IsPolite (λ _. crt_sched_yield os (pure tt))
unfolding crt_sched_yield push_todo linked
yield-IsPolite os = record { back = yields }
  where
    yielded : Task → Task
    yielded t = record t { action = sched_yield }

    yields :
        (w : World) (t : Task)
        → Fair w
        → linked w.curr_task w ≡ false
        → w.tasks w.curr_task ≡ some t
        → Returns
            (λ _ w'.
              Later w.todo w'
              × (w'.curr_task ≡ w.curr_task)
              × ((t' : Task) × (w'.tasks w.curr_task ≡ some t')
                  × (is_finished t'.action ≡ true → has w.curr_task w'.todo ≡ false)))
            (crt_sched_yield os (pure tt) w)
    yields w t f out e =
        rw
          (
            change-ok w w.curr_task yielded e,
            load-ok (with_task w.curr_task (yielded t) w) w.curr_task
                (with_task-here w w.curr_task (yielded t)),
            out,
          )
          (
            (ready-Fair w.curr_task (yielded t) w f out (woken refl), (w.curr_task ∷ [], refl)),
            refl,
            (
              yielded t,
              with_task-here w w.curr_task (yielded t),
              λ over. absurd (ground (arith, over)),
            ),
          )
