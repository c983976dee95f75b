-- ===== src/Semaphore/Post.antt =====
-- What posts and waits do to a semaphore of src/acoro.c and to the coroutine that waits.
use async_coro.Base.{
  ℕ, ◌+◌, ◌^◌, ◌<◌, ◌≡◌, ◌≢◌, refl, arith, ℤ, pos, true, false, some, List, [], ◌∷◌, ◌++◌, has, ltb,
  eq→==, ne→==, ok, stop, Stop, ◌>>◌, and_then, modify,
}
use async_coro.Queue.Mem.{Ptr, null}
use async_coro.Task.{sem_activation, Sem, Task}
use async_coro.World.State.{
  World, Co, with_task, with_sem, load-ok, change-ok, load_sem-ok, store_sem-ok, with_task-here,
  with_sem-here,
}
use async_coro.Notify.{linked, with_env, push_todo, unshift_todo}
use async_coro.Notify.Laws.{ready}
use async_coro.Semaphore.{
  post_with, wake, crt_sem_post, crt_sem_priority_post, normal_priority, critical_priority,
}

-- A semaphore with a value and a waiting task.
abbrev pub sem : ℤ → Ptr → Sem
sem v p = record { value = v; task_ptr = p; buf_capacity = 0; buf_offset = 0; buf = null }

-- `p` is ready to run before all others.
abbrev pub ready_first : Ptr → World → World
ready_first p w = with_env (λ e. record e { todo = p ∷ e.todo; manager_sem = e.manager_sem + 1 }) w

-- The state in which the waiting task is to be made ready.
abbrev pub posted : (s : Ptr) (v : ℕ) (p : Ptr) → Task → World → World
posted s v p t w =
    with_task p (record t { action = sem_activation }) (with_sem s (sem (pos (v + 1)) p) w)

module _ (s : Ptr) (v : ℕ) (w : World) (small : v + 1 < 2 ^ 31) where
  in_range : ltb (v + 1) (2 ^ 31) ≡ true
  in_range = ground arith

  -- With no coroutine waiting a post adds one to the value and does nothing else.
  pub post_alone :
      w.sems s ≡ some (sem (pos v) null)
      → crt_sem_post s w ≡ ok tt (with_sem s (sem (pos (v + 1)) null) w)
  unfolding crt_sem_post post_with wake
  post_alone e = rw (load_sem-ok w s e, in_range, store_sem-ok w s (sem (pos (v + 1)) null) e)

  module _ (p : Ptr) (t : Task) (valid : p ≢ null) (e : w.sems s ≡ some (sem (pos v) p))
      (alloc : w.tasks p ≡ some t) where
    post_waiting :
        (put : Ptr → Co (Unit {0}))
        → post_with put s w
          ≡ and_then
              (put p (posted s v p t w))
              (λ _. modify (with_env (λ e. record e { manager_sem = e.manager_sem + 1 })))
    unfolding post_with wake
    post_waiting put = rw (
      load_sem-ok w s e,
      in_range,
      store_sem-ok w s (sem (pos (v + 1)) p) e,
      ne→== p null valid,
      change-ok (with_sem s (sem (pos (v + 1)) p) w) p (λ t. record t { action = sem_activation })
          alloc,
    )

    -- With a coroutine waiting whose task is in no queue, and a value that stays below 2^31, a post
    -- adds one to the value and makes the coroutine ready, behind all others at normal priority and
    -- before all others at critical priority.
    pub post_wakes :
        linked p w ≡ false
        → (crt_sem_priority_post s normal_priority w ≡ ok tt (ready p (posted s v p t w)))
          × (crt_sem_priority_post s critical_priority w ≡ ok tt (ready_first p (posted s v p t w)))
    unfolding crt_sem_priority_post crt_sem_post linked push_todo unshift_todo
    post_wakes out = (
      rw (post_waiting push_todo, load-ok (posted s v p t w) p here, out),
      rw (post_waiting unshift_todo, load-ok (posted s v p t w) p here, out),
    )
      where
        here : (posted s v p t w).tasks p ≡ some (record t { action = sem_activation })
        here =
            with_task-here (with_sem s (sem (pos (v + 1)) p) w) p
              (record t { action = sem_activation })

has-snoc_self : (p : Ptr) (q : List Ptr) → has p (q ++ p ∷ []) ≡ true
has-snoc_self p [] = rw (eq→== p p refl)
has-snoc_self p (x ∷ q) = ground (arith, has-snoc_self p q)

-- With a coroutine waiting whose task is in no queue, and a value that stays below 2^31, a second
-- post before the coroutine has run pushes an item that is in the queue already, since the first
-- post leaves `task_ptr` set.
pub post_twice :
    (s p : Ptr) (v : ℕ) (w : World) (t : Task)
    → v + 2 < 2 ^ 31
    → p ≢ null
    → w.sems s ≡ some (sem (pos v) p)
    → w.tasks p ≡ some t
    → linked p w ≡ false
    → (crt_sem_post s >> crt_sem_post s) w ≡ stop Stop.fault
unfolding crt_sem_post crt_sem_priority_post linked push_todo
post_twice s p v w t small valid e alloc out =
    rw (← post_normal w, (post_wakes s v w (omega arith) p t valid e alloc out).0)
      (rw
        (
          post_waiting s (v + 1) (ready p w1) (omega arith) p (record t { action = sem_activation })
              valid (with_sem-here w s (sem (pos (v + 1)) p)) here push_todo,
          load-ok w2 p here2,
          has-snoc_self p w.todo,
        )
        refl)
  where
    post_normal : (u : World) → crt_sem_priority_post s normal_priority u ≡ crt_sem_post s u
    post_normal u = refl

    w1 : World
    w1 = posted s v p t w

    here : (ready p w1).tasks p ≡ some (record t { action = sem_activation })
    here =
        with_task-here (with_sem s (sem (pos (v + 1)) p) w) p (record t { action = sem_activation })

    w2 : World
    w2 = posted s (v + 1) p (record t { action = sem_activation }) (ready p w1)

    here2 : w2.tasks p ≡ some (record t { action = sem_activation })
    here2 =
        with_task-here (with_sem s (sem (pos (v + 1 + 1)) p) (ready p w1)) p
          (record t { action = sem_activation })
