-- ===== src/Manager/Turns.antt =====
-- Many rounds of `new_manager` of src/acoro.c: a coroutine that is ready has its turn.
use async_coro.Base.{
  ap, subst, distinct, ℕ, zero, suc, ◌≡◌, ◌≢◌, inl, inr, refl, ap, sym, ◌∙◌, arith, ℤ, true, false,
  Option, none, some, List, [], ◌∷◌, ◌++◌, has, length, Bool-cases, eq→==, ne→==, pure, ◌>>◌,
  Returns, Returns-bind, Returns-mono,
}
use mathlib.Core.List.{append-nil, append_assoc}
use async_coro.Queue.Mem.{Ptr, update}
use async_coro.Task.{new_coroutine, is_finished, init_arg, InitArg, Task}
use async_coro.World.Calls.{Call, Os}
use async_coro.World.State.{World, Co, errno_after, with_task, load-ok, change-ok, with_task-here}
use async_coro.Manager.{
  finish, free_task, switch_to, start_task, dispatch, manager_round, resumes, to_ptr,
}
use async_coro.Manager.Rounds.{taken, round_takes, dispatch-resumes}
use async_coro.Notify.{linked, with_env}

-- A coroutine that the manager can run: it is new, with its start arguments, or it is to be woken.
pub data Live (t : Task) : Type 0 where
  woken : resumes t.action ≡ true → Live t
  created : (a : InitArg) → t.action ≡ new_coroutine → t.args ≡ init_arg a → Live t

-- Every coroutine that is ready is queued once, is not with a worker, and can run, and the manager is
-- posted once for each.
pub record Fair (w : World) : Type 0 where
  pub posts : w.manager_sem ≡ length w.todo
  pub once : distinct w.todo ≡ true
  pub apart : (q : Ptr) → has q w.todo ≡ true → has q w.doing ≡ false
  pub live : (q : Ptr) → has q w.todo ≡ true → (t : Task) × (w.tasks q ≡ some t) × Live t

-- The queue of `w'` is that of `w` with more at its back.
abbrev pub Later : List Ptr → World → Type 0
Later q w' = Fair w' × ((more : List Ptr) × (w'.todo ≡ q ++ more))

-- A coroutine that, when it runs, keeps what is ready in its order, queues only behind it, and switches
-- back; if it has finished, it is not ready.
pub record IsPolite (resume : Ptr → Co (Unit {0})) : Type 0 where
  pub back :
      (w : World) (t : Task)
      → Fair w
      → linked w.curr_task w ≡ false
      → w.tasks w.curr_task ≡ some t
      → Returns
          (λ _ w'.
            Later w.todo w'
            × (w'.curr_task ≡ w.curr_task)
            × ((t' : Task) × (w'.tasks w.curr_task ≡ some t')
                × (is_finished t'.action ≡ true → has w.curr_task w'.todo ≡ false)))
          (resume w.curr_task w)

taken-Fair :
    (p : Ptr) (ps : List Ptr) (w : World) → Fair w → w.todo ≡ p ∷ ps → Fair (taken (length ps) ps w)
taken-Fair p ps w f e = record {
  posts = refl;
  once = ground (arith, subst (λ q. distinct q ≡ true) e f.once);
  apart = λ q h. f.apart q (rw e (ground arith));
  live = λ q h. f.live q (rw e (ground arith));
}

front_out :
    (p : Ptr) (ps : List Ptr) (w : World)
    → Fair w
    → w.todo ≡ p ∷ ps
    → linked p (taken (length ps) ps w) ≡ false
unfolding linked
front_out p ps w f e = ground (
  arith,
  subst (λ q. distinct q ≡ true) e f.once,
  f.apart p (rw e (ground (arith, eq→== p p refl))),
)

-- Writing or freeing a task that is not ready.
update-Fair :
    (p : Ptr) (o : Option Task) (w : World)
    → Fair w
    → has p w.todo ≡ false
    → Fair (record w { tasks = update w.tasks p o })
update-Fair p o w f out = record {
  posts = f.posts;
  once = f.once;
  apart = f.apart;
  live = λ q h. rw (ne→== p q (λ e. true≢false q (sym e) h), update) (f.live q h);
}
  where
    true≢false : (q : Ptr) → q ≡ p → has q w.todo ≡ true → ⊥
    true≢false q e h = ground (arith, subst (λ x. has x w.todo ≡ true) e h, out)

finish-Later :
    (q : List Ptr) (w : World) (t : Task)
    → Later q w
    → w.tasks w.curr_task ≡ some t
    → has w.curr_task w.todo ≡ false
    → Returns (λ _. Later q) (finish w)
unfolding finish free_task
finish-Later q w t (f, queue) e out =
    rw
      (
        load-ok w w.curr_task e,
        load-ok (record w { calls = Call.free t.stack_ptr ∷ w.calls }) w.curr_task e,
      )
      (
        record { posts = freed.posts; once = freed.once; apart = freed.apart; live = freed.live },
        queue,
      )
  where
    freed : Fair (record w { tasks = update w.tasks w.curr_task none })
    freed = update-Fair w.curr_task none w f out

fewer : (q more : List Ptr) (w : World) → Later (q ++ more) w → Later q w
fewer q more w (f, (last, e)) = (f, (more ++ last, e ∙ append_assoc q more last))

-- Some rounds of the loop of `new_manager`.
unfoldable pub rounds : Os → (resume : Ptr → Co (Unit {0})) → ℕ → Co (Unit {0})
rounds os resume zero = pure tt
rounds os resume (suc n) = manager_round os resume >> rounds os resume n

module _ (os : Os) (resume : Ptr → Co (Unit {0})) (polite : IsPolite resume) where
  switch-Later :
      (p : Ptr) (w : World) (t : Task)
      → Fair w
      → linked p w ≡ false
      → w.tasks p ≡ some t
      → Returns (λ _. Later w.todo) (switch_to os resume p w)
  unfolding switch_to linked
  switch-Later p w t f out e =
      Returns-bind _ _ (resume p (with_env (λ e. record e { curr_task = p }) w)) _
        (polite.back (with_env (λ e. record e { curr_task = p }) w) t
          (record { posts = f.posts; once = f.once; apart = f.apart; live = f.live }) out e)
        (λ _ v (later, here, (t', e', over)).
          rw (load-ok v p e') (elim (Bool-cases (is_finished t'.action)) [
            | inl ends ↦ rw ends (finish-Later w.todo v t' later (rw here e') (rw here (over ends)))
            | inr goes_on ↦ rw goes_on later
          ]))

  start-Later :
      (p : Ptr) (w : World) (t : Task) (a : InitArg)
      → Fair w
      → linked p w ≡ false
      → w.tasks p ≡ some t
      → t.args ≡ init_arg a
      → Returns (λ _. Later w.todo) (start_task os resume p w)
  unfolding start_task linked
  start-Later p w t a f out e args =
      rw (load-ok w p e, args, change-ok (asked w) p with_stack e)
        (switch-Later p (with_task p (with_stack t) (asked w)) (with_stack t)
          (record { posts = f'.posts; once = f'.once; apart = f'.apart; live = f'.live }) out
          (with_task-here (asked w) p (with_stack t)))
    where
      malloced : ℤ
      malloced = (os.answer w.calls (Call.malloc a.stack_size)).ret

      asked : World → World
      asked v = record v {
        calls = Call.malloc a.stack_size ∷ v.calls;
        errno = errno_after (os.answer v.calls (Call.malloc a.stack_size)).errno v.errno;
      }

      with_stack : Task → Task
      with_stack t = record t { stack_ptr = to_ptr malloced }

      f' : Fair (record w { tasks = update w.tasks p (some (with_stack t)) })
      f' = update-Fair p (some (with_stack t)) w f (ground (arith, out))

  -- What a round of the manager runs is the coroutine in front.
  pub round-Later :
      (p : Ptr) (ps : List Ptr) (w : World)
      → Fair w
      → w.todo ≡ p ∷ ps
      → Returns (λ _. Later ps) (manager_round os resume w)
  unfolding dispatch
  round-Later p ps w f e = go (f.live p (rw e (ground (arith, eq→== p p refl))))
    where
      rest : World
      rest = taken (length ps) ps w

      go :
          (t : Task) × (w.tasks p ≡ some t) × Live t
          → Returns (λ _. Later ps) (manager_round os resume w)
      go (t, alloc, woken awake) =
          rw
            (
              round_takes os resume (length ps) p ps w t (f.posts ∙ ap length e) e alloc,
              dispatch-resumes os resume p t.action awake,
            )
            (switch-Later p rest t (taken-Fair p ps w f e) (front_out p ps w f e) alloc)
      go (t, alloc, created a new args) =
          rw (round_takes os resume (length ps) p ps w t (f.posts ∙ ap length e) e alloc, new)
            (start-Later p rest t a (taken-Fair p ps w f e) (front_out p ps w f e) alloc args)

  -- If every coroutine is polite, then a coroutine that is ready with `length before` others before it is
  -- in front of the queue after that many rounds of the manager, all of which return, with those that were
  -- behind it still in their order behind it; the manager is posted then, and its next round returns
  -- and leaves these in front.
  pub rounds_reach :
      (before : List Ptr) (p : Ptr) (behind : List Ptr) (w : World)
      → Fair w
      → w.todo ≡ before ++ p ∷ behind
      → Returns
          (λ _ w'.
            Later (p ∷ behind) w'
            × (w'.manager_sem ≢ 0)
            × Returns (λ _. Later behind) (manager_round os resume w'))
          (rounds os resume (length before) w)
  unfolding rounds
  rounds_reach [] p behind w f e = (
    (f, ([], e ∙ sym (append-nil (p ∷ behind)))),
    (λ z. absurd (omega (arith, f.posts, ap length e))),
    round-Later p behind w f e,
  )
  rounds_reach (q ∷ before) p behind w f e =
      Returns-bind _ _ (manager_round os resume w) _ (round-Later q (before ++ p ∷ behind) w f e)
        (λ _ v (f', (more, e')).
          Returns-mono _ _ (rounds os resume (length before) v)
            (rounds_reach before p (behind ++ more) v f'
              (e' ∙ append_assoc before (p ∷ behind) more))
            (λ _ v' (later, posted, next). (
              fewer (p ∷ behind) more v' later,
              posted,
              Returns-mono _ _ (manager_round os resume v') next (λ _ u. fewer behind more u),
            )))
