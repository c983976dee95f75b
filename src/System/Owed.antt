-- ===== src/System/Owed.antt =====
-- What a thread of src/acoro.c that is between two of its steps on the queues still owes: the tasks
-- that it has queued and not announced yet, or has been told of and not taken yet.
use async_coro.Base.{
  ℕ, ◌+◌, ◌-◌, ◌%◌, ◌<◌, ◌≡◌, inl, inr, refl, ap, arith, List, [], ◌∷◌, ◌++◌, length, Bool-cases,
  ==→ne, ok, stop, ◌==◌, Run, pure, and_then, Returns,
}
use native.Mathlib.Nat.{mod-lt}
use async_coro.Queue.Mem.{Ptr, update}
use async_coro.World.Calls.{Call, Os}
use async_coro.World.State.{World, load-ok}
use async_coro.Notify.{
  push_todo, unshift_todo, push_doing, shift_todo, shift_doing, sem_wait, write_pipe, is_one,
  wake_byte, read_pipe, Act, todo_push, todo_unshift, manager_post, manager_wait, todo_shift,
  doing_push, byte_write, byte_read, doing_shift, perform,
}
use async_coro.System.Count.{total, total-update}
use async_coro.System.Keeps.{Leaves, Queueable, queueable, load-missing, length-snoc}

-- The posts of the manager that the acts owe.
abbrev pub posts_owed : List Act → ℕ
posts_owed [] = 0
posts_owed (todo_push p ∷ l) = posts_owed l - 1
posts_owed (todo_unshift p ∷ l) = posts_owed l - 1
posts_owed (manager_post ∷ l) = posts_owed l + 1
posts_owed (manager_wait ∷ l) = posts_owed l - 1
posts_owed (todo_shift ∷ l) = posts_owed l + 1
posts_owed (doing_push ∷ l) = posts_owed l
posts_owed (byte_write os ∷ l) = posts_owed l
posts_owed (byte_read me ∷ l) = posts_owed l
posts_owed (doing_shift ∷ l) = posts_owed l

-- The bytes that they owe.
abbrev pub bytes_owed : List Act → ℕ
bytes_owed [] = 0
bytes_owed (todo_push p ∷ l) = bytes_owed l
bytes_owed (todo_unshift p ∷ l) = bytes_owed l
bytes_owed (manager_post ∷ l) = bytes_owed l
bytes_owed (manager_wait ∷ l) = bytes_owed l
bytes_owed (todo_shift ∷ l) = bytes_owed l
bytes_owed (doing_push ∷ l) = bytes_owed l - 1
bytes_owed (byte_write os ∷ l) = bytes_owed l + 1
bytes_owed (byte_read me ∷ l) = bytes_owed l - 1
bytes_owed (doing_shift ∷ l) = bytes_owed l + 1

-- An act that queues a task, or takes a post or a byte, is followed by the one that settles it.
abbrev SettledBy : Act → List Act → Type 0
SettledBy (todo_push p) l = 0 < posts_owed l
SettledBy (todo_unshift p) l = 0 < posts_owed l
SettledBy manager_wait l = 0 < posts_owed l
SettledBy doing_push l = 0 < bytes_owed l
SettledBy (byte_read me) l = 0 < bytes_owed l
SettledBy _ l = Unit

abbrev pub InOrder : List Act → Type 0
InOrder [] = Unit
InOrder (a ∷ l) = SettledBy a l × InOrder l

-- A worker reads its own pipe.
abbrev pub Own : Act → World → Type 0
Own (byte_read me) w = me < w.worker_count
Own _ w = Unit

-- Posts and queue, and bytes and queue, agree up to what is owed.
pub record Even (n m : ℕ) (w : World) : Type 0 where
  pub posts : w.manager_sem + n ≡ length w.todo
  pub bytes : total w.pipe w.worker_count + m ≡ length w.doing
  pub workers : 0 < w.worker_count

module _ (n m : ℕ) (w : World) where
  -- With a post owed for a task, the todo queue has one.
  pub shift_todo-Even : Even (n + 1) m w → Returns (λ _. Even n m) (shift_todo w)
  unfolding shift_todo
  shift_todo-Even ev = from_list w.todo refl
    where
      from_list : (q : List Ptr) → w.todo ≡ q → Returns (λ _. Even n m) (shift_todo w)
      from_list [] e = absurd (omega (arith, ev.posts, ap length e))
      from_list (p ∷ ps) e = rw e (record {
        posts = omega (arith, ev.posts, ap length e);
        bytes = ev.bytes;
        workers = ev.workers;
      })

  pub shift_doing-Even : Even n (m + 1) w → Returns (λ _. Even n m) (shift_doing w)
  unfolding shift_doing
  shift_doing-Even ev = from_list w.doing refl
    where
      from_list : (q : List Ptr) → w.doing ≡ q → Returns (λ _. Even n m) (shift_doing w)
      from_list [] e = absurd (omega (arith, ev.bytes, ap length e))
      from_list (p ∷ ps) e = rw e (record {
        posts = ev.posts;
        bytes = omega (arith, ev.bytes, ap length e);
        workers = ev.workers;
      })

  wait-Even : Even n m w → Leaves (Even (n + 1) m) (sem_wait w)
  unfolding sem_wait
  wait-Even ev = elim (Bool-cases (w.manager_sem == 0)) [
    | inl zero_posts ↦ rw zero_posts tt
    | inr posted ↦ rw posted (record {
      posts = omega (arith, ev.posts, ==→ne w.manager_sem 0 posted);
      bytes = ev.bytes;
      workers = ev.workers;
    })
  ]

  push_doing-Even : (p : Ptr) → Even n m w → Leaves (Even n (m + 1)) (push_doing p w)
  unfolding push_doing Queueable
  push_doing-Even p ev = elim (queueable p w) [
    | inl missing ↦ rw (load-missing w p missing) tt
    | inr (inl (t, there, queued)) ↦ rw (load-ok w p there, queued) tt
    | inr (inr (t, there, out)) ↦
        rw (load-ok w p there, out)
          (record {
            posts = ev.posts;
            bytes = omega (arith, ev.bytes, length-snoc w.doing p);
            workers = ev.workers;
          })
  ]

  push_todo-Even : (p : Ptr) → Even n m w → Leaves (Even (n + 1) m) (push_todo p w)
  unfolding push_todo Queueable
  push_todo-Even p ev = elim (queueable p w) [
    | inl missing ↦ rw (load-missing w p missing) tt
    | inr (inl (t, there, queued)) ↦ rw (load-ok w p there, queued) tt
    | inr (inr (t, there, out)) ↦
        rw (load-ok w p there, out)
          (record {
            posts = omega (arith, ev.posts, length-snoc w.todo p);
            bytes = ev.bytes;
            workers = ev.workers;
          })
  ]

  unshift_todo-Even : (p : Ptr) → Even n m w → Leaves (Even (n + 1) m) (unshift_todo p w)
  unfolding unshift_todo Queueable
  unshift_todo-Even p ev = elim (queueable p w) [
    | inl missing ↦ rw (load-missing w p missing) tt
    | inr (inl (t, there, queued)) ↦ rw (load-ok w p there, queued) tt
    | inr (inr (t, there, out)) ↦
        rw (load-ok w p there, out)
          (record { posts = omega (arith, ev.posts); bytes = ev.bytes; workers = ev.workers })
  ]

  write-Even : (os : Os) → Even n (m + 1) w → Leaves (Even n m) (perform (byte_write os) w)
  unfolding perform write_pipe
  write-Even os ev = elim (Bool-cases (is_one (os.answer w.calls (Call.write_pipe turn)).ret)) [
    | inr refused ↦ rw refused tt
    | inl written ↦ rw written (record { posts = ev.posts; bytes = one_more; workers = ev.workers })
  ]
    where
      turn : ℕ
      turn = w.bg_worker_id % w.worker_count

      one_more :
          total (update w.pipe turn (w.pipe turn ++ wake_byte ∷ [])) w.worker_count + m
          ≡ length w.doing
      one_more = omega (
        arith,
        total-update w.pipe turn (w.pipe turn ++ wake_byte ∷ []) w.worker_count
            (mod-lt w.bg_worker_id ev.workers),
        length-snoc (w.pipe turn) wake_byte,
        ev.bytes,
      )

  read-Even : (me : ℕ) → me < w.worker_count → Even n m w → Leaves (Even n (m + 1)) (read_pipe me w)
  unfolding read_pipe
  read-Even me lt ev = from_pipe (w.pipe me) refl
    where
      from_pipe : (q : List ℕ) → w.pipe me ≡ q → Leaves (Even n (m + 1)) (read_pipe me w)
      from_pipe [] e = rw e tt
      from_pipe (c ∷ cs) e = rw e (record {
        posts = ev.posts;
        bytes = omega (arith, total-update w.pipe me cs w.worker_count lt, ap length e, ev.bytes);
        workers = ev.workers;
      })

-- What is left when the value is dropped.
dropped-Leaves :
    {A : Type 0} (P : World → Type 0) (r : Run World A)
    → Leaves P r
    → Leaves P (and_then r (λ _. pure tt))
dropped-Leaves P (ok a w) p = p
dropped-Leaves P (stop why) p = tt

Returns-Leaves :
    {A : Type 0} (P : World → Type 0) (r : Run World A) → Returns (λ _. P) r → Leaves P r
Returns-Leaves P (ok a w) p = p
Returns-Leaves P (stop why) p = absurd p

pub Even-same : (n m n' m' : ℕ) (w : World) → n ≡ n' → m ≡ m' → Even n m w → Even n' m' w
Even-same n m n' m' w en em ev = record {
  posts = omega (arith, ev.posts, en);
  bytes = omega (arith, ev.bytes, em);
  workers = ev.workers;
}

Leaves-Even :
    {A : Type 0} (n m n' m' : ℕ) (r : Run World A)
    → n ≡ n'
    → m ≡ m'
    → Leaves (Even n m) r
    → Leaves (Even n' m') r
Leaves-Even n m n' m' (ok a w) en em ev = Even-same n m n' m' w en em ev
Leaves-Even n m n' m' (stop why) en em ev = tt

module _ (l : List Act) (n m : ℕ) (w : World) where
  abbrev a : ℕ
  a = posts_owed l + n

  abbrev b : ℕ
  b = bytes_owed l + m

  pub act-Even :
      (act : Act)
      → SettledBy act l
      → Own act w
      → Even (posts_owed (act ∷ l) + n) (bytes_owed (act ∷ l) + m) w
      → Leaves (Even (posts_owed l + n) (bytes_owed l + m)) (perform act w)
  unfolding perform
  act-Even (todo_push p) settled own ev =
      Leaves-Even (posts_owed l - 1 + n + 1) b (posts_owed l + n) b (push_todo p w)
        (omega (arith, settled)) refl (push_todo-Even (posts_owed l - 1 + n) b w p ev)
  act-Even (todo_unshift p) settled own ev =
      Leaves-Even (posts_owed l - 1 + n + 1) b (posts_owed l + n) b (unshift_todo p w)
        (omega (arith, settled)) refl (unshift_todo-Even (posts_owed l - 1 + n) b w p ev)
  act-Even manager_post settled own ev = record {
    posts = omega (arith, ev.posts);
    bytes = ev.bytes;
    workers = ev.workers;
  }
  act-Even manager_wait settled own ev =
      Leaves-Even (posts_owed l - 1 + n + 1) b (posts_owed l + n) b (sem_wait w)
        (omega (arith, settled)) refl (wait-Even (posts_owed l - 1 + n) b w ev)
  act-Even todo_shift settled own ev = dropped-Leaves (Even a b) (shift_todo w) (
      Returns-Leaves (Even a b) (shift_todo w) (
        shift_todo-Even a b w
          (Even-same (posts_owed l + 1 + n) b (a + 1) b w (omega arith) refl ev)))
  act-Even doing_push settled own ev =
      Leaves-Even a (bytes_owed l - 1 + m + 1) a b (push_doing w.curr_task w) refl
        (omega (arith, settled)) (push_doing-Even a (bytes_owed l - 1 + m) w w.curr_task ev)
  act-Even (byte_write os) settled own ev =
      write-Even a b w os (Even-same a (bytes_owed l + 1 + m) a (b + 1) w refl (omega arith) ev)
  act-Even (byte_read me) settled own ev = dropped-Leaves (Even a b) (read_pipe me w) (
      Leaves-Even a (bytes_owed l - 1 + m + 1) a b (read_pipe me w) refl (omega (arith, settled))
        (read-Even a (bytes_owed l - 1 + m) w me own ev))
  act-Even doing_shift settled own ev = dropped-Leaves (Even a b) (shift_doing w) (
      Returns-Leaves (Even a b) (shift_doing w) (
        shift_doing-Even a b w
          (Even-same a (bytes_owed l + 1 + m) a (b + 1) w refl (omega arith) ev)))
