-- ===== src/System/Rules.antt =====
-- Rules that show that a command of src/acoro.c keeps the queues, the pipes and the semaphore in step.
use async_coro.Base.{
  subst, Option-cases, ℕ, ◌≡◌, ◌⊎◌, inl, inr, refl, Bool, true, false, Option, none, some,
  if◌then◌else◌, Run, ok, stop, Stop, pure, halt, ◌>>=◌, ◌>>◌, and_then, assert,
}
use async_coro.Queue.Mem.{Ptr}
use async_coro.Task.{
  Args, open_arg, io_arg, connect_arg, general_arg, routine_arg, tcp_accept_arg, Sem, Task,
}
use async_coro.World.Calls.{Call, Os}
use async_coro.World.State.{
  World, Co, load, change, as_io, as_connect, known, get_errno, set_errno, curr, ask, sys, tell,
  load_sem, store_sem, load-ok, change-ok, load_sem-ok, store_sem-ok,
}
use async_coro.Notify.{
  sem_post, push_todo, unshift_todo, coroutine_notify_manager, coroutine_notify_background_worker,
}
use async_coro.System.Keeps.{
  Inv, Leaves, load-missing, notify_manager-Inv, unshift-Inv, notify_worker-Inv,
}
use async_coro.Worker.Disk.{as_open, as_routine}
use async_coro.Worker.Events.{as_general, as_accept}

load_sem-missing : (w : World) (s : Ptr) → w.sems s ≡ none → load_sem s w ≡ stop Stop.fault
unfolding load_sem
load_sem-missing w s e = rw (e, load_sem)

store_sem-missing :
    (w : World) (s : Ptr) (d : Sem) → w.sems s ≡ none → store_sem s d w ≡ stop Stop.fault
unfolding store_sem
store_sem-missing w s d e = rw (e, store_sem)

-- Every run from a state where the invariant holds leaves one where it holds, if it returns.
pub record Keeps {A : Type 0} (m : Co A) : Type 0 where
  pub run : (w : World) → Inv w → Leaves Inv (m w)

and_then-Leaves :
    {A B : Type 0} (r : Run World A) (k : A → Co B)
    → Leaves Inv r
    → ((a : A) → Keeps (k a))
    → Leaves Inv (and_then r k)
and_then-Leaves (ok a w) k inv next = (next a).run w inv
and_then-Leaves (stop r) k inv next = tt

pub bind-Keeps :
    {A B : Type 0} (m : Co A) (k : A → Co B) → Keeps m → ((a : A) → Keeps (k a)) → Keeps (m >>= k)
bind-Keeps m k km kk = record { run = λ w inv. and_then-Leaves (m w) k (km.run w inv) kk }

pub then-Keeps : {A B : Type 0} (m : Co A) (n : Co B) → Keeps m → Keeps n → Keeps (m >> n)
then-Keeps m n km kn = record {
  run = λ w inv. and_then-Leaves (m w) (λ _. n) (km.run w inv) (λ _. kn);
}

pub pure-Keeps : {A : Type 0} (a : A) → Keeps (pure a)
pure-Keeps a = record { run = λ w inv. inv }

pub halt-Keeps : {A : Type 0} (r : Stop) → Keeps {A = A} (halt r)
halt-Keeps r = record { run = λ w inv. tt }

pub if-Keeps : {A : Type 0} (b : Bool) (m n : Co A) → Keeps m → Keeps n → Keeps (if b then m else n)
if-Keeps true m n km kn = km
if-Keeps false m n km kn = kn

pub load-Keeps : (p : Ptr) → Keeps (load p)
load-Keeps p = record { run = λ w inv. go w inv (Option-cases (w.tasks p)) }
  where
    go :
        (w : World)
        → Inv w
        → (w.tasks p ≡ none) ⊎ ((t : Task) × (w.tasks p ≡ some t))
        → Leaves Inv (load p w)
    go w inv (inl missing) = rw (load-missing w p missing) tt
    go w inv (inr (t, there)) = rw (load-ok w p there) inv

change-missing :
    (w : World) (p : Ptr) (f : Task → Task) → w.tasks p ≡ none → change p f w ≡ stop Stop.fault
unfolding change
change-missing w p f e = rw (e, change)

pub change-Keeps : (p : Ptr) (f : Task → Task) → Keeps (change p f)
change-Keeps p f = record { run = λ w inv. go w inv (Option-cases (w.tasks p)) }
  where
    go :
        (w : World)
        → Inv w
        → (w.tasks p ≡ none) ⊎ ((t : Task) × (w.tasks p ≡ some t))
        → Leaves Inv (change p f w)
    go w inv (inl missing) = rw (change-missing w p f missing) tt
    go w inv (inr (t, there)) =
        rw (change-ok w p f there)
          (record { posts = inv.posts; bytes = inv.bytes; workers = inv.workers })

pub sys-Keeps : (os : Os) (c : Call) → Keeps (sys os c)
sys-Keeps os c = record {
  run = λ w inv. record { posts = inv.posts; bytes = inv.bytes; workers = inv.workers };
}

pub ask-Keeps : (os : Os) (c : Call) → Keeps (ask os c)
ask-Keeps os c = record {
  run = λ w inv. record { posts = inv.posts; bytes = inv.bytes; workers = inv.workers };
}

pub tell-Keeps : (c : Call) → Keeps (tell c)
tell-Keeps c = record {
  run = λ w inv. record { posts = inv.posts; bytes = inv.bytes; workers = inv.workers };
}

pub get_errno-Keeps : Keeps get_errno
get_errno-Keeps = record { run = λ w inv. inv }

pub set_errno-Keeps : (e : ℕ) → Keeps (set_errno e)
set_errno-Keeps e = record {
  run = λ w inv. record { posts = inv.posts; bytes = inv.bytes; workers = inv.workers };
}

pub curr-Keeps : Keeps curr
curr-Keeps = record { run = λ w inv. inv }

pub assert-Keeps : (b : Bool) → Keeps (assert b)
assert-Keeps true = record { run = λ w inv. inv }
assert-Keeps false = record { run = λ w inv. tt }

pub known-Keeps : {A : Type 0} (o : Option A) → Keeps (known o)
known-Keeps none = halt-Keeps _
known-Keeps (some a) = pure-Keeps a

-- The members of the union.
pub as_io-Keeps : (a : Args) → Keeps (as_io a)
as_io-Keeps (io_arg a) = pure-Keeps a
as_io-Keeps _ = halt-Keeps _

pub as_connect-Keeps : (a : Args) → Keeps (as_connect a)
as_connect-Keeps (connect_arg a) = pure-Keeps a
as_connect-Keeps _ = halt-Keeps _

pub as_open-Keeps : (a : Args) → Keeps (as_open a)
as_open-Keeps (open_arg a) = pure-Keeps a
as_open-Keeps _ = halt-Keeps _

pub as_routine-Keeps : (a : Args) → Keeps (as_routine a)
as_routine-Keeps (routine_arg a) = pure-Keeps a
as_routine-Keeps _ = halt-Keeps _

pub as_general-Keeps : (a : Args) → Keeps (as_general a)
as_general-Keeps (general_arg a) = pure-Keeps a
as_general-Keeps _ = halt-Keeps _

pub as_accept-Keeps : (a : Args) → Keeps (as_accept a)
as_accept-Keeps (tcp_accept_arg a) = pure-Keeps a
as_accept-Keeps _ = halt-Keeps _

-- Semaphores.
pub load_sem-Keeps : (s : Ptr) → Keeps (load_sem s)
load_sem-Keeps s = record { run = λ w inv. go w inv (Option-cases (w.sems s)) }
  where
    go :
        (w : World)
        → Inv w
        → (w.sems s ≡ none) ⊎ ((d : Sem) × (w.sems s ≡ some d))
        → Leaves Inv (load_sem s w)
    go w inv (inl missing) = rw (load_sem-missing w s missing) tt
    go w inv (inr (d, there)) = rw (load_sem-ok w s there) inv

pub store_sem-Keeps : (s : Ptr) (d : Sem) → Keeps (store_sem s d)
store_sem-Keeps s d = record { run = λ w inv. go w inv (Option-cases (w.sems s)) }
  where
    go :
        (w : World)
        → Inv w
        → (w.sems s ≡ none) ⊎ ((d' : Sem) × (w.sems s ≡ some d'))
        → Leaves Inv (store_sem s d w)
    go w inv (inl missing) = rw (store_sem-missing w s d missing) tt
    go w inv (inr (d', there)) =
        rw (store_sem-ok w s d there)
          (record { posts = inv.posts; bytes = inv.bytes; workers = inv.workers })

-- The hand-overs.
pub notify_manager-Keeps : (p : Ptr) → Keeps (coroutine_notify_manager p)
notify_manager-Keeps p = record { run = λ w inv. notify_manager-Inv p w inv }

pub notify_worker-Keeps : (os : Os) → Keeps (coroutine_notify_background_worker os)
notify_worker-Keeps os = record { run = λ w inv. notify_worker-Inv w inv os }

pub push-Keeps : (p : Ptr) → Keeps (push_todo p >> sem_post)
unfolding coroutine_notify_manager
push-Keeps p = notify_manager-Keeps p

pub unshift-Keeps : (p : Ptr) → Keeps (unshift_todo p >> sem_post)
unshift-Keeps p = record { run = λ w inv. unshift-Inv p w inv }

pub push_then-Keeps :
    {A : Type 0} (p : Ptr) (n : Co A) → Keeps n → Keeps (push_todo p >> (sem_post >> n))
push_then-Keeps p n kn = record { run = λ w inv. split w inv (push_todo p w) refl }
  where
    split :
        (w : World)
        → Inv w
        → (r : Run World (Unit {0})) → push_todo p w ≡ r
        → Leaves Inv (and_then r (λ _. sem_post >> n))
    split w inv (ok a v) e =
        kn.run _ (subst (λ r. Leaves Inv (and_then r (λ _. sem_post))) e ((push-Keeps p).run w inv))
    split w inv (stop r) e = tt

pub ruleset keeping = (
  bind-Keeps, then-Keeps, pure-Keeps, halt-Keeps, if-Keeps, load-Keeps, change-Keeps, sys-Keeps,
  ask-Keeps, tell-Keeps, get_errno-Keeps, set_errno-Keeps, curr-Keeps, assert-Keeps, known-Keeps,
  as_io-Keeps, as_connect-Keeps, as_open-Keeps, as_routine-Keeps, as_general-Keeps, as_accept-Keeps,
  load_sem-Keeps, store_sem-Keeps, notify_manager-Keeps, notify_worker-Keeps, push-Keeps,
  unshift-Keeps, push_then-Keeps,
)
