-- ===== src/System/Keeps.antt =====
-- The operations of src/acoro.c on the queues: each keeps the manager's semaphore and the pipes in step
-- with the queues.
use async_coro.Base.{
  length-append, Option-cases, ℕ, ◌+◌, ◌-◌, ◌%◌, ◌<◌, ◌≡◌, ◌≢◌, ◌⊎◌, inl, inr, refl, ap, ◌∙◌, arith,
  true, false, none, some, List, [], ◌∷◌, ◌++◌, length, Bool-cases, ne→==, Run, ok, stop, Stop,
  ◌>>◌, Returns,
}
use native.Mathlib.Nat.{mod-lt}
use async_coro.Queue.Mem.{Ptr, update}
use async_coro.Task.{Task}
use async_coro.World.Calls.{Call, Os}
use async_coro.World.State.{World, load, load-ok}
use async_coro.Notify.{
  linked, with_env, push_todo, unshift_todo, push_doing, shift_todo, shift_doing, sem_wait,
  sem_post, coroutine_notify_manager, coroutine_notify_background_worker, write_pipe, is_one,
  wake_byte,
}
use async_coro.Worker.Events.{read_pipe}
use async_coro.System.Count.{total, total-update}

-- The manager is posted once for each task that is ready, and each task that waits for a worker has
-- its byte in a pipe.
pub record Inv (w : World) : Type 0 where
  pub posts : w.manager_sem ≡ length w.todo
  pub bytes : total w.pipe w.worker_count ≡ length w.doing
  pub workers : 0 < w.worker_count

-- What holds of the state that a run leaves, if it returns.
abbrev pub Leaves : {A : Type 0} → (World → Type 0) → Run World A → Type 0
Leaves P (ok a w) = P w
Leaves P (stop r) = Unit

pub length-snoc : (xs : List ℕ) (x : ℕ) → length (xs ++ x ∷ []) ≡ length xs + 1
length-snoc xs x = length-append xs (x ∷ [])

pub load-missing : (w : World) (p : Ptr) → w.tasks p ≡ none → load p w ≡ stop Stop.fault
unfolding load
load-missing w p e = rw (e, load)

-- Three ways in which a task that is to be queued may be found.
unfoldable pub Queueable : (p : Ptr) (w : World) → Type 0
Queueable p w =
    (w.tasks p ≡ none)
    ⊎ (((t : Task) × (w.tasks p ≡ some t) × (linked p w ≡ true))
        ⊎ ((t : Task) × (w.tasks p ≡ some t) × (linked p w ≡ false)))

pub queueable : (p : Ptr) (w : World) → Queueable p w
unfolding Queueable
queueable p w = elim (Option-cases (w.tasks p)) [
  | inl missing ↦ inl missing
  | inr (t, there) ↦ elim (Bool-cases (linked p w)) [
    | inl queued ↦ inr (inl (t, there, queued))
    | inr out ↦ inr (inr (t, there, out))
  ]
]

module _ (p : Ptr) (w : World) (inv : Inv w) where
  -- A hand-over to the manager keeps the invariant.
  pub notify_manager-Inv : Leaves Inv (coroutine_notify_manager p w)
  unfolding coroutine_notify_manager push_todo Queueable
  notify_manager-Inv = elim (queueable p w) [
    | inl missing ↦ rw (load-missing w p missing) tt
    | inr (inl (t, there, queued)) ↦ rw (load-ok w p there, queued) tt
    | inr (inr (t, there, out)) ↦
        rw (load-ok w p there, out)
          (record {
            posts = omega (arith, inv.posts, length-snoc w.todo p);
            bytes = inv.bytes;
            workers = inv.workers;
          })
  ]

  pub unshift-Inv : Leaves Inv ((unshift_todo p >> sem_post) w)
  unfolding unshift_todo Queueable
  unshift-Inv = elim (queueable p w) [
    | inl missing ↦ rw (load-missing w p missing) tt
    | inr (inl (t, there, queued)) ↦ rw (load-ok w p there, queued) tt
    | inr (inr (t, there, out)) ↦
        rw (load-ok w p there, out)
          (record { posts = omega (arith, inv.posts); bytes = inv.bytes; workers = inv.workers })
  ]

module _ (w : World) (inv : Inv w) where
  -- The manager that is posted finds a task.
  pub take_todo-Inv : w.manager_sem ≢ 0 → Returns (λ _. Inv) ((sem_wait >> shift_todo) w)
  unfolding sem_wait shift_todo
  take_todo-Inv posted = rw (ne→== w.manager_sem 0 posted) (from_list w.todo refl)
    where
      from_list :
          (q : List Ptr)
          → w.todo ≡ q
          → Returns
              (λ _. Inv)
              (shift_todo (with_env (λ e. record e { manager_sem = e.manager_sem - 1 }) w))
      from_list [] e = absurd (posted (inv.posts ∙ ap length e))
      from_list (p ∷ ps) e = rw e (record {
        posts = omega (arith, inv.posts, ap length e);
        bytes = inv.bytes;
        workers = inv.workers;
      })

  -- A worker with a byte finds a task.
  pub take_doing-Inv :
      (os : Os) (me c : ℕ) (cs : List ℕ)
      → me < w.worker_count
      → w.pipe me ≡ c ∷ cs
      → Returns (λ _. Inv) ((read_pipe me >> shift_doing) w)
  unfolding read_pipe shift_doing
  take_doing-Inv os me c cs lt byte = rw byte (from_list w.doing refl)
    where
      fewer : total (update w.pipe me cs) w.worker_count + 1 ≡ length w.doing
      fewer = omega (arith, total-update w.pipe me cs w.worker_count lt, ap length byte, inv.bytes)

      from_list :
          (q : List Ptr)
          → w.doing ≡ q
          → Returns
              (λ _. Inv)
              (shift_doing (with_env (λ e. record e { pipe = update e.pipe me cs }) w))
      from_list [] e = absurd (omega (arith, fewer, ap length e))
      from_list (p ∷ ps) e = rw e (record {
        posts = inv.posts;
        bytes = omega (arith, fewer, ap length e);
        workers = inv.workers;
      })

  pub notify_worker-Inv : (os : Os) → Leaves Inv (coroutine_notify_background_worker os w)
  unfolding coroutine_notify_background_worker push_doing write_pipe Queueable
  notify_worker-Inv os = elim (queueable w.curr_task w) [
    | inl missing ↦ rw (load-missing w w.curr_task missing) tt
    | inr (inl (t, there, queued)) ↦ rw (load-ok w w.curr_task there, queued) tt
    | inr (inr (t, there, out)) ↦
        rw (load-ok w w.curr_task there, out)
          (elim (Bool-cases (is_one (os.answer w.calls (Call.write_pipe turn)).ret)) [
            | inr refused ↦ rw refused tt
            | inl written ↦
                rw written
                  (record { posts = inv.posts; bytes = one_more_byte; workers = inv.workers })
          ])
  ]
    where
      turn : ℕ
      turn = w.bg_worker_id % w.worker_count

      turn_lt : turn < w.worker_count
      turn_lt = mod-lt w.bg_worker_id inv.workers

      one_more_byte :
          total (update w.pipe turn (w.pipe turn ++ wake_byte ∷ [])) w.worker_count
          ≡ length (w.doing ++ w.curr_task ∷ [])
      one_more_byte = omega (
        arith,
        total-update w.pipe turn (w.pipe turn ++ wake_byte ∷ []) w.worker_count turn_lt,
        length-snoc (w.pipe turn) wake_byte,
        length-snoc w.doing w.curr_task,
        inv.bytes,
      )
