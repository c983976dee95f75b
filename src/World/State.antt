-- ===== src/World/State.antt =====
-- `struct coroutine_env_s` of src/acoro.c, the tasks in memory, and the accesses that the code makes.
use async_coro.Base.{
  refl, eq→==, ◌≡◌, ℕ, ◌%◌, ◌^◌, ℤ, Option, none, some, List, ◌∷◌, ok, stop, Stop, Cmd, pure, halt,
  ◌>>=◌,
}
use async_coro.Queue.Mem.{Ptr, update}
use async_coro.Task.{Args, io_arg, IoArg, connect_arg, ConnectArg, Sem, Task}
use async_coro.World.Calls.{Call, Answer, Os}

-- `coroutine_env`, with one manager thread. The queues are the lists that `Queue` shows their
-- memory to stand for; `pipe w` holds the bytes on their way to worker `w`.
pub record Env : Type 0 where
  pub worker_count : ℕ
  pub manager_sem : ℕ
  pub pipe : ℕ → List ℕ
  pub pipe_channel : ℕ → Option ℤ  -- `none` where it has not been set
  pub cid : ℕ  -- uint64_t
  pub ran : ℕ  -- uint64_t
  pub bg_worker_id : ℕ  -- uint64_t
  pub curr_task : Ptr
  pub todo : List Ptr
  pub doing : List Ptr

-- `errno` is that of the thread that runs. `tasks p` and `sems p` are
-- `none` where no such object is allocated.
pub record World : Type 0 where
  pub env : Env
  pub open env use *
  pub tasks : Ptr → Option Task
  pub sems : Ptr → Option Sem
  pub calls : List Call  -- the latest first
  pub errno : ℕ

abbrev pub Co : Type 0 → Type 0
Co A = Cmd World A

abbrev pub u64 : ℕ → ℕ
u64 n = n % 2 ^ 64

-- `*p` for a task.
unfoldable pub load : Ptr → Co Task
load p w = elim (w.tasks p) [ none ↦ stop Stop.fault | some t ↦ ok t w ]

-- `p->… = …`.
unfoldable pub change : Ptr → (Task → Task) → Co (Unit {0})
change p f w = elim (w.tasks p) [
  | none ↦ stop Stop.fault
  | some t ↦ ok tt (record w { tasks = update w.tasks p (some (f t)) })
]

-- Reading a member of `args` that is not the one written last is a fault of the model.
abbrev pub as_io : Args → Co IoArg
as_io (io_arg a) = pure a
as_io _ = halt Stop.fault

abbrev pub as_connect : Args → Co ConnectArg
as_connect (connect_arg a) = pure a
as_connect _ = halt Stop.fault

-- A value that must have been written.
abbrev pub known : {A : Type 0} → Option A → Co A
known none = halt Stop.fault
known (some a) = pure a

abbrev pub get_errno : Co ℕ
get_errno w = ok w.errno w

abbrev pub set_errno : ℕ → Co (Unit {0})
set_errno e w = ok tt (record w { errno = e })

abbrev pub curr : Co Ptr
curr w = ok w.curr_task w

abbrev pub errno_after : Option ℕ → ℕ → ℕ
errno_after none e = e
errno_after (some n) e = n

-- A call and its answer.
abbrev pub ask : Os → Call → Co Answer
ask os c w =
    let a = os.answer w.calls c in
    ok a (record w { calls = c ∷ w.calls; errno = errno_after a.errno w.errno })

abbrev pub sys : Os → Call → Co ℤ
sys os c = do a ← ask os c; pure a.ret

-- A call whose result nothing reads, and that leaves `errno` alone.
abbrev pub tell : Call → Co (Unit {0})
tell c w = ok tt (record w { calls = c ∷ w.calls })

-- `*s` for a semaphore.
unfoldable pub load_sem : Ptr → Co Sem
load_sem p w = elim (w.sems p) [ none ↦ stop Stop.fault | some s ↦ ok s w ]

unfoldable pub store_sem : Ptr → Sem → Co (Unit {0})
store_sem p s w = elim (w.sems p) [
  | none ↦ stop Stop.fault
  | some _ ↦ ok tt (record w { sems = update w.sems p (some s) })
]

-- Each access, where what it reads is known.
abbrev pub with_task : Ptr → Task → World → World
with_task p t w = record w { tasks = update w.tasks p (some t) }

abbrev pub with_sem : Ptr → Sem → World → World
with_sem s d w = record w { sems = update w.sems s (some d) }

pub load-ok : (w : World) (p : Ptr) {t : Task} → w.tasks p ≡ some t → load p w ≡ ok t w
unfolding load
load-ok w p e = rw (e, load)

pub change-ok :
    (w : World) (p : Ptr) (f : Task → Task) {t : Task}
    → w.tasks p ≡ some t
    → change p f w ≡ ok tt (with_task p (f t) w)
unfolding change
change-ok w p f e = rw (e, change)

pub load_sem-ok : (w : World) (p : Ptr) {s : Sem} → w.sems p ≡ some s → load_sem p w ≡ ok s w
unfolding load_sem
load_sem-ok w p e = rw (e, load_sem)

pub store_sem-ok :
    (w : World) (p : Ptr) (s : Sem) {s' : Sem}
    → w.sems p ≡ some s'
    → store_sem p s w ≡ ok tt (with_sem p s w)
unfolding store_sem
store_sem-ok w p s e = rw (e, store_sem)

pub with_task-here : (w : World) (p : Ptr) (t : Task) → (with_task p t w).tasks p ≡ some t
with_task-here w p t = rw (eq→== p p refl)

pub with_sem-here : (w : World) (s : Ptr) (d : Sem) → (with_sem s d w).sems s ≡ some d
with_sem-here w s d = rw (eq→== s s refl)
