-- ===== src/System/Round.antt =====
-- A whole round of `new_manager` of src/acoro.c keeps the queues, the pipes and the semaphore in step.
use async_coro.Base.{
  Option-cases, ◌≡◌, inl, inr, refl, ap, ◌∙◌, List, [], ◌∷◌, length, Bool-cases, eq→==, Run, ok,
  stop, Stop, and_then,
}
use async_coro.Queue.Mem.{Ptr}
use async_coro.Task.{
  Action, new_coroutine, finished_coroutine, sched_yield, disk_open, disk_read, disk_write,
  sock_read, sock_write, sock_done, disk_open_done, disk_read_done, disk_write_done,
  tcp_blocked_connect, tcp_blocked_connect_done, tcp_timeout_connect, tcp_timeout_connect_done,
  msleep, msleep_done, bg_run, bg_run_done, tcp_accept, tcp_accept_done, sem_activation,
  is_finished, Args, init_arg, open_arg, io_arg, connect_arg, general_arg, routine_arg,
  tcp_accept_arg, Task,
}
use async_coro.World.Calls.{Call, Os}
use async_coro.World.State.{World, Co, load, change, with_task, load-ok, change-ok}
use async_coro.Notify.{with_env, sem_wait}
use async_coro.Manager.{
  finish, free_task, switch_to, start_task, dispatch, manager_round, stack_size_of,
}
use async_coro.Manager.Rounds.{taken, sem_wait-ok, shift_todo-ok}
use async_coro.System.Keeps.{Inv, Leaves, load-missing}

module _ {A : Type 0} (P : World → Type 0) where
  Leaves-bind :
      {B : Type 0} (r : Run World B) (k : B → Co A)
      → Leaves P r
      → ((b : B) (w : World) → P w → Leaves P (k b w))
      → Leaves P (and_then r k)
  Leaves-bind (ok b w) k p step = step b w p
  Leaves-bind (stop s) k p step = tt

  Leaves-load :
      (p : Ptr) (w : World) (k : Task → Co A)
      → ((t : Task) → Leaves P (k t w))
      → Leaves P (and_then (load p w) k)
  Leaves-load p w k step = elim (Option-cases (w.tasks p)) [
    | inl missing ↦ rw (load-missing w p missing) tt
    | inr (t, there) ↦ rw (load-ok w p there) (step t)
  ]

  Leaves-change :
      (p : Ptr) (f : Task → Task) (w : World) (k : Unit {0} → Co A)
      → ((t : Task) → Leaves P (k tt (with_task p (f t) w)))
      → Leaves P (and_then (change p f w) k)
  unfolding change
  Leaves-change p f w k step = elim (Option-cases (w.tasks p)) [
    | inl missing ↦ rw (missing, change) tt
    | inr (t, there) ↦ rw (change-ok w p f there) (step t)
  ]

sem_wait-blocked : (w : World) → w.manager_sem ≡ 0 → sem_wait w ≡ stop Stop.blocked
unfolding sem_wait
sem_wait-blocked w e = rw (eq→== w.manager_sem 0 e)

finish-Inv : (w : World) → Inv w → Leaves Inv (finish w)
unfolding finish free_task
finish-Inv w inv = elim (Option-cases (w.tasks w.curr_task)) [
  | inl missing ↦ rw (load-missing w w.curr_task missing) tt
  | inr (t, e) ↦
      rw
        (
          load-ok w w.curr_task e,
          load-ok (record w { calls = Call.free t.stack_ptr ∷ w.calls }) w.curr_task e,
        )
        (record { posts = inv.posts; bytes = inv.bytes; workers = inv.workers })
]

stack_size-Inv : (a : Args) (w : World) → Inv w → Leaves Inv (stack_size_of a w)
stack_size-Inv (init_arg a) w inv = inv
stack_size-Inv (open_arg a) w inv = tt
stack_size-Inv (io_arg a) w inv = tt
stack_size-Inv (connect_arg a) w inv = tt
stack_size-Inv (general_arg a) w inv = tt
stack_size-Inv (routine_arg a) w inv = tt
stack_size-Inv (tcp_accept_arg a) w inv = tt

module _ (os : Os) (resume : Ptr → Co (Unit {0}))
    (keeps : (p : Ptr) (w : World) → Inv w → Leaves Inv (resume p w)) where
  switch-Inv : (p : Ptr) (w : World) → Inv w → Leaves Inv (switch_to os resume p w)
  unfolding switch_to
  switch-Inv p w inv =
      Leaves-bind Inv (resume p _) _
        (keeps p _ (record { posts = inv.posts; bytes = inv.bytes; workers = inv.workers }))
        (λ _ v inv'. Leaves-load Inv p v _ (λ t. elim (Bool-cases (is_finished t.action)) [
          | inl over ↦ rw over (finish-Inv v inv')
          | inr more ↦ rw more inv'
        ]))

  start-Inv : (p : Ptr) (w : World) → Inv w → Leaves Inv (start_task os resume p w)
  unfolding start_task
  start-Inv p w inv = Leaves-load Inv p w _ (λ t.
      Leaves-bind Inv (stack_size_of t.args w) _ (stack_size-Inv t.args w inv) (λ n v inv'.
        Leaves-change Inv p _ _ _ (λ t'.
          switch-Inv p _
            (record { posts = inv'.posts; bytes = inv'.bytes; workers = inv'.workers }))))

  dispatch-Inv : (p : Ptr) (a : Action) (w : World) → Inv w → Leaves Inv (dispatch os resume p a w)
  unfolding dispatch
  dispatch-Inv p new_coroutine w inv = start-Inv p w inv
  dispatch-Inv p finished_coroutine w inv = finish-Inv w inv
  dispatch-Inv p sched_yield w inv = switch-Inv p w inv
  dispatch-Inv p disk_open w inv = tt
  dispatch-Inv p disk_read w inv = tt
  dispatch-Inv p disk_write w inv = tt
  dispatch-Inv p sock_read w inv = tt
  dispatch-Inv p sock_write w inv = tt
  dispatch-Inv p sock_done w inv = switch-Inv p w inv
  dispatch-Inv p disk_open_done w inv = switch-Inv p w inv
  dispatch-Inv p disk_read_done w inv = switch-Inv p w inv
  dispatch-Inv p disk_write_done w inv = switch-Inv p w inv
  dispatch-Inv p tcp_blocked_connect w inv = tt
  dispatch-Inv p tcp_blocked_connect_done w inv = switch-Inv p w inv
  dispatch-Inv p tcp_timeout_connect w inv = tt
  dispatch-Inv p tcp_timeout_connect_done w inv = switch-Inv p w inv
  dispatch-Inv p msleep w inv = tt
  dispatch-Inv p msleep_done w inv = switch-Inv p w inv
  dispatch-Inv p bg_run w inv = tt
  dispatch-Inv p bg_run_done w inv = switch-Inv p w inv
  dispatch-Inv p tcp_accept w inv = tt
  dispatch-Inv p tcp_accept_done w inv = switch-Inv p w inv
  dispatch-Inv p sem_activation w inv = switch-Inv p w inv

  -- If what a coroutine does while it runs keeps the invariant, then so does a whole round of the
  -- manager that returns, whatever the action of the task and whether the coroutine ends.
  pub manager_round-Inv : (w : World) → Inv w → Leaves Inv (manager_round os resume w)
  unfolding manager_round
  manager_round-Inv w inv = from_list w.todo refl
    where
      from_list : (q : List Ptr) → w.todo ≡ q → Leaves Inv (manager_round os resume w)
      from_list [] e = rw (sem_wait-blocked w (inv.posts ∙ ap length e)) tt
      from_list (p ∷ ps) e =
          rw
            (
              sem_wait-ok (length ps) w (inv.posts ∙ ap length e),
              shift_todo-ok p ps (with_env (λ e. record e { manager_sem = length ps }) w) e,
            )
            (Leaves-load Inv p (taken (length ps) ps w) _ (λ t.
              dispatch-Inv p t.action (taken (length ps) ps w)
                (record { posts = refl; bytes = inv.bytes; workers = inv.workers })))
