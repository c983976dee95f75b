-- ===== src/Setup/Destroy.antt =====
-- `destroy_coroutine_env` of src/acoro.c gives back what `init_coroutine_env` and the coroutines took.
use async_coro.Base.{
  subst, has-cons, ==→eq, distinct, ◌*◌, ℕ, ◌<◌, ◌≡◌, ◌≢◌, ◌⊎◌, inl, inr, refl, ap, sym, ◌∙◌, arith,
  ℤ, pos, true, false, ◌||◌, none, some, List, [], ◌∷◌, has, Bool-cases, eq→==, ne→==, ◌>>◌,
  Returns, Returns-bind, Returns-mono,
}
use async_coro.Queue.Mem.{Ptr, update}
use async_coro.Task.{Task}
use async_coro.World.Calls.{Call, Os}
use async_coro.World.State.{World, load-ok}
use async_coro.Notify.{with_env}
use async_coro.Manager.{free_task}
use async_coro.Setup.{free_tasks, end_threads, destroy_coroutine_env, init_coroutine_env}
use async_coro.Setup.Init.{IsGenerous, chosen, init_coroutine_env_lem}
use async_coro.Setup.Closing.{IsShut, Shut, threads_end}

-- The tasks of a queue are gone, and all others are as they were.
record Freed (q : List Ptr) (w w' : World) : Type 0 where
  gone : (p : Ptr) → has p q ≡ true → w'.tasks p ≡ none
  kept : (p : Ptr) → has p q ≡ false → w'.tasks p ≡ w.tasks p
  channels : w'.pipe_channel ≡ w.pipe_channel
  workers : w'.worker_count ≡ w.worker_count
  doing : w'.doing ≡ w.doing

freed_task : Ptr → World → World
freed_task p w = record w { calls = Call.free p ∷ w.calls; tasks = update w.tasks p none }

free_tasks-Freed :
    (q : List Ptr) (w : World)
    → distinct q ≡ true
    → ((p : Ptr) → has p q ≡ true → (t : Task) × (w.tasks p ≡ some t))
    → Returns (λ _. Freed q w) (free_tasks q w)
unfolding free_tasks free_task freed_task
free_tasks-Freed [] w once alloc = record {
  gone = λ p h. absurd (ground (arith, h));
  kept = λ p h. refl;
  channels = refl;
  workers = refl;
  doing = refl;
}
free_tasks-Freed (p ∷ q) w once alloc =
    rw (load-ok w p (alloc p (ground (arith, eq→== p p refl))).1) (
      Returns-mono _ _ (free_tasks q (freed_task p w))
        (free_tasks-Freed q (freed_task p w) (ground (arith, once)) still)
        (λ _ w' f. record {
          gone = λ r h. drop r h (Bool-cases (has r q)) w' f;
          kept = λ r h. keep r (has-cons r p q h) w' f;
          channels = f.channels;
          workers = f.workers;
          doing = f.doing;
        }))
  where
    head_out : (r : Ptr) → has r q ≡ true → p ≢ r
    head_out r h e = ground (arith, once, subst (λ x. has x q ≡ true) (sym e) h)

    still : (r : Ptr) → has r q ≡ true → (t : Task) × ((freed_task p w).tasks r ≡ some t)
    still r h = rw (ne→== p r (head_out r h), update) (alloc r (ground (arith, h)))

    drop :
        (r : Ptr)
        → has r (p ∷ q) ≡ true
        → (has r q ≡ true) ⊎ (has r q ≡ false)
        → (w' : World) → Freed q (freed_task p w) w'
        → w'.tasks r ≡ none
    drop r h (inl behind) w' f = f.gone r behind
    drop r h (inr out) w' f =
        f.kept r out ∙ rw (eq→== p r (sym (==→eq r p (ground (arith, h, out)))), update) refl

    keep :
        (r : Ptr)
        → ¬ (r ≡ p) × (has r q ≡ false)
        → (w' : World) → Freed q (freed_task p w) w'
        → w'.tasks r ≡ w.tasks r
    keep r (other, out) w' f = f.kept r out ∙ rw (ne→== p r (λ e. other (sym e)), update) refl

-- Every task in a queue is allocated and in one queue, once.
pub record IsOwned (w : World) : Type 0 where
  pub once_todo : distinct w.todo ≡ true
  pub once_doing : distinct w.doing ≡ true
  pub apart : (p : Ptr) → has p w.doing ≡ true → has p w.todo ≡ false
  pub in_todo : (p : Ptr) → has p w.todo ≡ true → (t : Task) × (w.tasks p ≡ some t)
  pub in_doing : (p : Ptr) → has p w.doing ≡ true → (t : Task) × (w.tasks p ≡ some t)

-- What is left when the environment has been destroyed.
pub record IsDestroyed (w w' : World) : Type 0 where
  pub tasks_gone : (p : Ptr) → (has p w.todo || has p w.doing) ≡ true → w'.tasks p ≡ none
  pub others_kept : (p : Ptr) → (has p w.todo || has p w.doing) ≡ false → w'.tasks p ≡ w.tasks p
  pub ends_shut : (k : ℕ) → k < w.worker_count * 2 → IsShut k w'

-- If every task in a queue is allocated and in one queue, once, and both ends of the pipe of each worker are stored,
-- then `destroy_coroutine_env` returns 0, has freed exactly the tasks in the queues, and has closed every end.
pub destroy_coroutine_env_lem :
    (os : Os) (w : World)
    → IsOwned w
    → ((k : ℕ) → k < w.worker_count * 2 → (fd : ℤ) × (w.pipe_channel k ≡ some fd))
    → Returns (λ r w'. (r ≡ pos 0) × IsDestroyed w w') (destroy_coroutine_env os w)
unfolding destroy_coroutine_env Shut
destroy_coroutine_env_lem os w owned stored =
    Returns-bind _ _ (free_tasks w.todo w) _
      (free_tasks-Freed w.todo w owned.once_todo owned.in_todo)
      (λ _ v f.
        Returns-bind _ _ (free_tasks w.doing (emptied v)) _
          (free_tasks-Freed w.doing (emptied v) owned.once_doing
            (λ p h. still v f p (owned.apart p h) (owned.in_doing p h)))
          (λ _ u g.
            Returns-mono _ _ (end_threads os w.worker_count (emptied_too u))
              (threads_end os w.worker_count (emptied_too u) (λ k lt. seen v u f g k (stored k lt)))
              (λ r t (zero_ret, only, shut). (
                zero_ret,
                record {
                  tasks_gone = λ p h.
                      ap (λ m. m p) only.tasks ∙ gone v u f g p h (Bool-cases (has p w.doing));
                  others_kept = λ p h.
                      ap (λ m. m p) only.tasks
                      ∙ g.kept p (ground (arith, h))
                      ∙ f.kept p (ground (arith, h));
                  ends_shut = λ k lt. shut k (omega arith) (omega arith);
                },
              ))))
  where
    emptied : World → World
    emptied = with_env (λ e. record e { todo = [] })

    emptied_too : World → World
    emptied_too = with_env (λ e. record e { doing = [] })

    still :
        (v : World)
        → Freed w.todo w v
        → (p : Ptr) → has p w.todo ≡ false
        → ((t : Task) × (w.tasks p ≡ some t))
        → (t : Task) × (v.tasks p ≡ some t)
    still v f p out (t, e) = (t, f.kept p out ∙ e)

    gone :
        (v u : World)
        → Freed w.todo w v
        → Freed w.doing (emptied v) u
        → (p : Ptr) → (has p w.todo || has p w.doing) ≡ true
        → (has p w.doing ≡ true) ⊎ (has p w.doing ≡ false)
        → u.tasks p ≡ none
    gone v u f g p h (inl asks) = g.gone p asks
    gone v u f g p h (inr not_asks) = g.kept p not_asks ∙ f.gone p (ground (arith, h, not_asks))

    seen :
        (v u : World)
        → Freed w.todo w v
        → Freed w.doing (emptied v) u
        → (k : ℕ) → ((fd : ℤ) × (w.pipe_channel k ≡ some fd))
        → (fd : ℤ) × (u.pipe_channel k ≡ some fd)
    seen v u f g k (fd, e) = (fd, ap (λ c. c k) g.channels ∙ ap (λ c. c k) f.channels ∙ e)

-- With a kernel that makes every pipe and keeps every flag, setting the environment up and tearing it down at once
-- returns 0, with every end that was opened closed.
pub init-destroy :
    (os : Os) (ev_size n : ℕ) (w : World)
    → IsGenerous os
    → Returns
        (λ r w'. (r ≡ pos 0) × ((k : ℕ) → k < chosen n * 2 → IsShut k w'))
        ((init_coroutine_env os ev_size n >> destroy_coroutine_env os) w)
init-destroy os ev_size n w generous =
    Returns-bind _ _ (init_coroutine_env os ev_size n w) _
      (init_coroutine_env_lem os ev_size n w generous)
      (λ _ v (_, count, todo, doing, _, opens).
        Returns-mono _ _ (destroy_coroutine_env os v)
          (destroy_coroutine_env_lem os v
            (record {
              once_todo = rw todo refl;
              once_doing = rw doing refl;
              apart = λ p h. rw todo refl;
              in_todo = λ p h. absurd (ground (arith, subst (λ q. has p q ≡ true) todo h));
              in_doing = λ p h. absurd (ground (arith, subst (λ q. has p q ≡ true) doing h));
            })
            (λ k lt.
              ((opens k (omega (arith, count))).fd, (opens k (omega (arith, count))).stored)))
          (λ r t (zero_ret, destroyed).
            (zero_ret, λ k lt. destroyed.ends_shut k (omega (arith, count)))))
