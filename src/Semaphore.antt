-- ===== src/Semaphore.antt =====
-- The semaphores of src/acoro.c: `crt_sem_init`, `crt_sem_post`, `crt_sem_wait`, `crt_sem_destroy` and
-- `crt_sem_priority_post`.
pub mod Post
pub mod Tests
pub mod Wait
use async_coro.Base.{
  ℕ, zero, suc, ◌+◌, ◌^◌, ℤ, pos, negsuc, to_int, Bool, true, false, Option, none, some, ◌==◌, ltb,
  if◌then◌else◌, ok, stop, Stop, pure, halt, ◌>>=◌, ◌>>◌,
}
use async_coro.Queue.Mem.{Ptr, null}
use async_coro.Task.{sem_activation}
use async_coro.World.State.{Co, change, curr, load_sem, store_sem}
use async_coro.Notify.{push_todo, unshift_todo, sem_post}

-- `++ sem->value` on an `int`, whose overflow is undefined.
abbrev pub increment : ℤ → Co ℤ
increment (pos n) w = if ltb (n + 1) (2 ^ 31) then ok (pos (n + 1)) w else stop Stop.fault
increment (negsuc zero) w = ok (pos 0) w
increment (negsuc (suc n)) w = ok (negsuc n) w

unfoldable pub crt_sem_init : Ptr → (value : ℕ) → Co (Unit {0})
crt_sem_init s value = store_sem s (record {
  value = to_int (pos value);
  task_ptr = null;
  buf_capacity = 0;
  buf_offset = 0;
  buf = null;
})

-- What a post does about the coroutine that waits, if there is one; `put` is the queue operation.
unfoldable pub wake : (Ptr → Co (Unit {0})) → Ptr → Co (Unit {0})
wake put p =
    if p == null
    then pure tt
    else do change p (λ t. record t { action = sem_activation }); put p; sem_post

unfoldable pub post_with : (Ptr → Co (Unit {0})) → Ptr → Co (Unit {0})
post_with put s = do
  d ← load_sem s
  v ← increment d.value
  store_sem s (record d { value = v })
  wake put d.task_ptr

unfoldable pub crt_sem_post : Ptr → Co (Unit {0})
crt_sem_post = post_with push_todo

-- `CRT_SEM_NORMAL_PRIORITY`, `CRT_SEM_HIGH_PRIORITY` and `CRT_SEM_CRITICAL_PRIORITY`.
abbrev pub normal_priority : ℕ
normal_priority = 0

abbrev pub high_priority : ℕ
high_priority = 1

abbrev pub critical_priority : ℕ
critical_priority = 2

unfoldable pub crt_sem_priority_post : Ptr → (flag : ℕ) → Co (Unit {0})
crt_sem_priority_post s flag =
    if flag == normal_priority
    then crt_sem_post s
    else if flag == critical_priority
    then post_with unshift_todo s
    else halt Stop.aborted

abbrev pub positive : ℤ → Option ℕ
positive (pos zero) = none
positive (pos (suc n)) = some n
positive (negsuc n) = none

-- One round of the loop of `crt_sem_wait`, up to `swapcontext`: whether the wait is over.
unfoldable pub try_wait : Ptr → Co Bool
try_wait s = do
  d ← load_sem s
  elim (positive d.value) [
    | some n ↦ (do store_sem s (record d { value = pos n; task_ptr = null }); pure true)
    | none ↦ (do p ← curr; store_sem s (record d { task_ptr = p }); pure false)
  ]

-- `swap` is `swapcontext` to the manager: all that happens until the coroutine is resumed.
unfoldable pub crt_sem_wait : (swap : Co (Unit {0})) → (rounds : ℕ) → Ptr → Co (Unit {0})
crt_sem_wait swap zero s = halt Stop.out_of_fuel
crt_sem_wait swap (suc k) s = do
  over ← try_wait s
  elim over [ true ↦ pure tt | false ↦ swap >> crt_sem_wait swap k s ]

-- `memset(sem, 0xCC, sizeof *sem)`.
unfoldable pub crt_sem_destroy : Ptr → Co (Unit {0})
crt_sem_destroy s = do
  load_sem s
  store_sem s (record {
    value = negsuc 0x33333333;
    task_ptr = 0xCCCCCCCCCCCCCCCC;
    buf_capacity = 0xCCCCCCCCCCCCCCCC;
    buf_offset = 0xCCCCCCCCCCCCCCCC;
    buf = 0xCCCCCCCCCCCCCCCC;
  })
