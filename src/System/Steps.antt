-- ===== src/System/Steps.antt =====
-- The threads of src/acoro.c together, one step of one thread after another in any order. The locks
-- cover one operation on one queue: between `Push` and `sem_post`, or `Push` and the write of the byte, and between
-- `sem_wait` or the read of the byte and `Shift`, the other threads go on.
use async_coro.Base.{
  subst, ℕ, ◌+◌, ◌≡◌, refl, ap, sym, ◌∙◌, arith, List, [], ◌∷◌, ◌++◌, length, ok, Returns,
  Returns-mono,
}
use async_coro.Queue.Mem.{Ptr}
use async_coro.World.Calls.{Os}
use async_coro.World.State.{World}
use async_coro.Notify.{
  shift_todo, shift_doing, Act, todo_unshift, manager_post, manager_wait, todo_shift, byte_read,
  doing_shift, perform, notify_manager_acts, notify_worker_acts,
}
use async_coro.System.Keeps.{Inv, Leaves}
use async_coro.System.Owed.{
  posts_owed, bytes_owed, InOrder, Own, Even, Even-same, act-Even, shift_todo-Even,
  shift_doing-Even,
}
use async_coro.System.Count.{total}

-- The state that the steps on the queues leave alone.
pub record SameQueues (w w' : World) : Type 0 where
  pub worker_count : w'.worker_count ≡ w.worker_count
  pub manager_sem : w'.manager_sem ≡ w.manager_sem
  pub pipe : w'.pipe ≡ w.pipe
  pub todo : w'.todo ≡ w.todo
  pub doing : w'.doing ≡ w.doing

-- The shared state, and what is left of each operation on the queues that a thread has begun.
pub record Threads : Type 0 where
  pub world : World
  pub under_way : List (List Act)

-- The operations on the queues, as the code makes them. `hands` is also the `Push` and the `sem_post` of
-- crt_create, crt_sched_yield and crt_sem_post, and `hands_first` those of crt_sem_priority_post.
pub data Operation : List Act → Type 0 where
  asks : (os : Os) → Operation (notify_worker_acts os)
  hands : (p : Ptr) → Operation (notify_manager_acts p)
  hands_first : (p : Ptr) → Operation (todo_unshift p ∷ manager_post ∷ [])
  resumes : Operation (manager_wait ∷ todo_shift ∷ [])
  takes : (me : ℕ) → Operation (byte_read me ∷ doing_shift ∷ [])

-- A thread begins an operation, or does the next act of one that it has begun, which returns, or does
-- anything that leaves the queues, the pipes and the manager's semaphore alone.
pub data Step (s s' : Threads) : Type 0 where
  begins :
      {l : List Act}
      → Operation l
      → s' ≡ record { world = s.world; under_way = l ∷ s.under_way }
      → Step s s'
  acts :
      (xs ys : List (List Act)) (a : Act) (l : List Act) (w : World)
      → s.under_way ≡ xs ++ (a ∷ l) ∷ ys
      → Own a s.world
      → perform a s.world ≡ ok tt w
      → s' ≡ record { world = w; under_way = xs ++ l ∷ ys }
      → Step s s'
  works :
      (w : World)
      → SameQueues s.world w
      → s' ≡ record { world = w; under_way = s.under_way }
      → Step s s'

pub data Reach (s : Threads) : Threads → Type 0 where
  start : Reach s s
  next : {u v : Threads} → Reach s u → Step u v → Reach s v

-- What all the operations under way owe.
abbrev owed : (List Act → ℕ) → List (List Act) → ℕ
owed f [] = 0
owed f (l ∷ ls) = f l + owed f ls

owed-middle :
    (f : List Act → ℕ) (xs : List (List Act)) (l : List Act) (ys : List (List Act))
    → owed f (xs ++ l ∷ ys) ≡ f l + owed f (xs ++ ys)
owed-middle f [] l ys = refl
owed-middle f (x ∷ xs) l ys = omega (arith, owed-middle f xs l ys)

abbrev AllInOrder : List (List Act) → Type 0
AllInOrder [] = Unit
AllInOrder (l ∷ ls) = InOrder l × AllInOrder ls

middle-InOrder :
    (xs : List (List Act)) (l : List Act) (ys : List (List Act))
    → AllInOrder (xs ++ l ∷ ys)
    → InOrder l × ((l' : List Act) → InOrder l' → AllInOrder (xs ++ l' ∷ ys))
middle-InOrder [] l ys (here, rest) = (here, λ l' there. (there, rest))
middle-InOrder (x ∷ xs) l ys (first, rest) =
    let found = middle-InOrder xs l ys rest in (found.0, λ l' there. (first, found.1 l' there))

-- Posts, bytes and queues agree up to what the operations under way owe.
pub record IsSound (s : Threads) : Type 0 where
  pub even : Even (owed posts_owed s.under_way) (owed bytes_owed s.under_way) s.world
  pub in_order : AllInOrder s.under_way

operation-InOrder :
    {l : List Act} → Operation l → InOrder l × (posts_owed l ≡ 0) × (bytes_owed l ≡ 0)
unfolding notify_worker_acts notify_manager_acts
operation-InOrder (asks os) = ((omega arith, (tt, tt)), refl, refl)
operation-InOrder (hands p) = ((omega arith, (tt, tt)), refl, refl)
operation-InOrder (hands_first p) = ((omega arith, (tt, tt)), refl, refl)
operation-InOrder resumes = ((omega arith, (tt, tt)), refl, refl)
operation-InOrder (takes me) = ((omega arith, (tt, tt)), refl, refl)

-- The state with one operation singled out.
module _ (s : Threads) (sound : IsSound s) (xs ys : List (List Act)) (l : List Act)
    (e : s.under_way ≡ xs ++ l ∷ ys) where
  abbrev posts_else : ℕ
  posts_else = owed posts_owed (xs ++ ys)

  abbrev bytes_else : ℕ
  bytes_else = owed bytes_owed (xs ++ ys)

  single : Even (posts_owed l + posts_else) (bytes_owed l + bytes_else) s.world
  single =
      Even-same (owed posts_owed s.under_way) (owed bytes_owed s.under_way)
        (posts_owed l + posts_else) (bytes_owed l + bytes_else) s.world
        (ap (owed posts_owed) e ∙ owed-middle posts_owed xs l ys)
        (ap (owed bytes_owed) e ∙ owed-middle bytes_owed xs l ys) sound.even

  split : InOrder l × ((l' : List Act) → InOrder l' → AllInOrder (xs ++ l' ∷ ys))
  split = middle-InOrder xs l ys (subst AllInOrder e sound.in_order)

  joined :
      (l' : List Act) (w : World)
      → InOrder l'
      → Even (posts_owed l' + posts_else) (bytes_owed l' + bytes_else) w
      → IsSound (record { world = w; under_way = xs ++ l' ∷ ys })
  joined l' w order ev = record {
    even =
        Even-same (posts_owed l' + posts_else) (bytes_owed l' + bytes_else)
          (owed posts_owed (xs ++ l' ∷ ys)) (owed bytes_owed (xs ++ l' ∷ ys)) w
          (sym (owed-middle posts_owed xs l' ys)) (sym (owed-middle bytes_owed xs l' ys)) ev;
    in_order = split.1 l' order;
  }

Step-IsSound : (s s' : Threads) → IsSound s → Step s s' → IsSound s'
Step-IsSound s s' sound (begins {l} op e) =
    let (order, posts, bytes) = operation-InOrder op in
    subst IsSound (sym e) (record {
      even =
          Even-same (owed posts_owed s.under_way) (owed bytes_owed s.under_way)
            (posts_owed l + owed posts_owed s.under_way)
            (bytes_owed l + owed bytes_owed s.under_way) s.world (omega (arith, posts))
            (omega (arith, bytes)) sound.even;
      in_order = (order, sound.in_order);
    })
Step-IsSound s s' sound (acts xs ys a l w at own runs e) =
    let (settled, order) = (split s sound xs ys (a ∷ l) at).0 in
    subst IsSound (sym e) (
      joined s sound xs ys (a ∷ l) at l w order (
        subst
          (Leaves (
            Even (posts_owed l + owed posts_owed (xs ++ ys))
              (bytes_owed l + owed bytes_owed (xs ++ ys))))
          runs
          (act-Even l (owed posts_owed (xs ++ ys)) (owed bytes_owed (xs ++ ys)) s.world a settled
            own (single s sound xs ys (a ∷ l) at))))
Step-IsSound s s' sound (works w same e) = subst IsSound (sym e) (record {
  even = record {
    posts = omega (arith, same.manager_sem, sound.even.posts, ap length same.todo);
    bytes = omega (
      arith,
      ap (λ f. total f w.worker_count) same.pipe,
      ap (total s.world.pipe) same.worker_count,
      sound.even.bytes,
      ap length same.doing,
    );
    workers = omega (arith, sound.even.workers, same.worker_count);
  };
  in_order = sound.in_order;
})

abbrev pub idle : World → Threads
idle w = record { world = w; under_way = [] }

Reach-IsSound : (w : World) (s : Threads) → Inv w → Reach (idle w) s → IsSound s
Reach-IsSound w s inv start = record {
  even = record {
    posts = omega (arith, inv.posts);
    bytes = omega (arith, inv.bytes);
    workers = inv.workers;
  };
  in_order = tt;
}
Reach-IsSound w s inv (next {u} r st) = Step-IsSound u s (Reach-IsSound w u inv r) st

module _ (w : World) (s : Threads) (inv : Inv w) (r : Reach (idle w) s) (xs ys : List (List Act))
    (l : List Act) where
  -- In every state that the threads reach from one where the invariant holds and nothing is under way, in any order of their
  -- single steps, a manager that has been through its wait finds a task in the todo queue: its `Shift` returns, and what is owed is in step after it.
  pub manager_finds_task :
      s.under_way ≡ xs ++ (todo_shift ∷ l) ∷ ys
      → Returns
          (λ _ w'. IsSound (record { world = w'; under_way = xs ++ l ∷ ys }))
          (shift_todo s.world)
  manager_finds_task e =
      Returns-mono (λ _. Even (posts_owed l + p) (bytes_owed l + b)) _ (shift_todo s.world)
        (shift_todo-Even (posts_owed l + p) (bytes_owed l + b) s.world (
          Even-same (posts_owed l + 1 + p) (bytes_owed l + b) (posts_owed l + p + 1)
            (bytes_owed l + b) s.world (omega arith) refl
            (single s sound xs ys (todo_shift ∷ l) e)))
        (λ _ w' ev.
          joined s sound xs ys (todo_shift ∷ l) e l w' (split s sound xs ys (todo_shift ∷ l) e).0.1
            ev)
    where
      sound : IsSound s
      sound = Reach-IsSound w s inv r

      p : ℕ
      p = owed posts_owed (xs ++ ys)

      b : ℕ
      b = owed bytes_owed (xs ++ ys)

  -- In every state that the threads reach from one where the invariant holds and nothing is under way, in any order of their
  -- single steps, a worker that has read its byte finds a task in the doing queue: its `Shift` returns, and what is owed is in step after it.
  pub worker_finds_task :
      s.under_way ≡ xs ++ (doing_shift ∷ l) ∷ ys
      → Returns
          (λ _ w'. IsSound (record { world = w'; under_way = xs ++ l ∷ ys }))
          (shift_doing s.world)
  worker_finds_task e =
      Returns-mono (λ _. Even (posts_owed l + p) (bytes_owed l + b)) _ (shift_doing s.world)
        (shift_doing-Even (posts_owed l + p) (bytes_owed l + b) s.world (
          Even-same (posts_owed l + p) (bytes_owed l + 1 + b) (posts_owed l + p)
            (bytes_owed l + b + 1) s.world refl (omega arith)
            (single s sound xs ys (doing_shift ∷ l) e)))
        (λ _ w' ev.
          joined s sound xs ys (doing_shift ∷ l) e l w'
            (split s sound xs ys (doing_shift ∷ l) e).0.1 ev)
    where
      sound : IsSound s
      sound = Reach-IsSound w s inv r

      p : ℕ
      p = owed posts_owed (xs ++ ys)

      b : ℕ
      b = owed bytes_owed (xs ++ ys)
