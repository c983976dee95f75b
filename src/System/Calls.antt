-- ===== src/System/Calls.antt =====
-- The calls of the interface of src/acoro.c and a round of the manager keep the queues, the pipes and
-- the semaphore in step, if what happens while a coroutine is suspended does.
use async_coro.Base.{
  get, ℕ, zero, suc, ◌+◌, ◌^◌, ◌≡◌, ◌⊎◌, inl, inr, ℤ, pos, negsuc, Bool, true, false, Option, none,
  some, ◌==◌, ltb, Bool-cases, pure, ◌>>=◌, ◌>>◌, modify,
}
use async_coro.Queue.Mem.{Ptr, null}
use async_coro.Task.{Sem, Task}
use async_coro.World.Calls.{Os}
use async_coro.World.State.{World, Co, u64, curr, store_sem}
use async_coro.Notify.{with_env, sem_post}
use async_coro.Socket.{give_up, crt_tcp_prepare_sock}
use async_coro.Semaphore.{
  increment, positive, crt_sem_init, wake, post_with, crt_sem_post, crt_sem_priority_post, try_wait,
  crt_sem_wait, crt_sem_destroy,
}
use async_coro.Api.{
  coroutine_set_finished_coroutine, coroutine_set_disk_open, coroutine_set_disk_read,
  coroutine_set_disk_write, coroutine_set_sock_read, coroutine_set_sock_write,
  coroutine_set_sock_connect, coroutine_get_retval, crt_get_err_code, crt_exit, put_task,
  crt_create, crt_sched_yield, await, crt_msleep, crt_bg_run, crt_tcp_accept, crt_disk_open,
  crt_disk_read, crt_disk_write, crt_tcp_read_to, crt_tcp_read, crt_tcp_write_to, crt_tcp_write,
  crt_tcp_blocked_connect, crt_tcp_timeout_connect,
}
use async_coro.System.Keeps.{Inv, Leaves}
use async_coro.System.Rules.{
  Keeps, bind-Keeps, then-Keeps, pure-Keeps, halt-Keeps, load_sem-Keeps, keeping,
}
use async_coro.System.Callbacks.{set_nonblock-Keeps}

-- The two modifications of `crt_create`.
count-Keeps : Keeps (modify (with_env (λ e. record e { cid = u64 (e.cid + 1) })))
count-Keeps = record {
  run = λ w inv. record { posts = inv.posts; bytes = inv.bytes; workers = inv.workers };
}

get-Keeps : Keeps {A = World} get
get-Keeps = record { run = λ w inv. inv }

put_task-Keeps : (p : Ptr) (t : Task) → Keeps (put_task p t)
put_task-Keeps p t = record { run = λ w inv. go w inv (Bool-cases (p == null)) }
  where
    go :
        (w : World)
        → Inv w
        → ((p == null) ≡ true) ⊎ ((p == null) ≡ false)
        → Leaves Inv (put_task p t w)
    go w inv (inl bad) = rw bad tt
    go w inv (inr good) =
        rw good (record { posts = inv.posts; bytes = inv.bytes; workers = inv.workers })

ruleset creating = (count-Keeps, get-Keeps, put_task-Keeps)

module _ (os : Os) where
  pub create-Keeps :
      (raw : Task) (attr : Option ℕ) (func arg : Ptr) → Keeps (crt_create os raw attr func arg)
  unfolding crt_create
  create-Keeps raw attr func arg = search (keeping, creating) depth 24

  give_up-Keeps : (fd r : ℤ) → Keeps (give_up os fd r)
  unfolding give_up
  give_up-Keeps fd r = search keeping depth 24

  pub prepare_sock-Keeps : (addr port : ℕ) → Keeps (crt_tcp_prepare_sock os addr port)
  unfolding crt_tcp_prepare_sock
  prepare_sock-Keeps addr port = search (keeping, give_up-Keeps, set_nonblock-Keeps os) depth 24

pub finished-Keeps : Keeps coroutine_set_finished_coroutine
unfolding coroutine_set_finished_coroutine
finished-Keeps = search keeping depth 24

pub exit-Keeps : Keeps crt_exit
unfolding crt_exit
exit-Keeps = finished-Keeps

pub retval-Keeps : Keeps coroutine_get_retval
unfolding coroutine_get_retval
retval-Keeps = search keeping depth 24

pub err_code-Keeps : Keeps crt_get_err_code
unfolding crt_get_err_code
err_code-Keeps = search keeping depth 24

-- Semaphores.
increment-Keeps : (z : ℤ) → Keeps (increment z)
increment-Keeps (pos n) = record {
  run = λ w inv. elim (Bool-cases (ltb (n + 1) (2 ^ 31))) [
    | inl small ↦ rw small inv
    | inr large ↦ rw large tt
  ];
}
increment-Keeps (negsuc zero) = pure-Keeps _
increment-Keeps (negsuc (suc n)) = pure-Keeps _

wake-Keeps : (put : Ptr → Co (Unit {0})) (p : Ptr) → Keeps (put p >> sem_post) → Keeps (wake put p)
unfolding wake
wake-Keeps put p k = search keeping depth 24

post-Keeps :
    (put : Ptr → Co (Unit {0}))
    → ((p : Ptr) → Keeps (put p >> sem_post))
    → (s : Ptr) → Keeps (post_with put s)
unfolding post_with
post-Keeps put k s = search (keeping, increment-Keeps, λ (p : Ptr). wake-Keeps put p (k p)) depth 24

pub sem_post-Keeps : (s : Ptr) → Keeps (crt_sem_post s)
unfolding crt_sem_post
sem_post-Keeps s = search (keeping, post-Keeps) depth 24

pub priority_post-Keeps : (s : Ptr) (flag : ℕ) → Keeps (crt_sem_priority_post s flag)
unfolding crt_sem_priority_post
priority_post-Keeps s flag = search (keeping, post-Keeps, sem_post-Keeps) depth 24

pub sem_init-Keeps : (s : Ptr) (v : ℕ) → Keeps (crt_sem_init s v)
unfolding crt_sem_init
sem_init-Keeps s v = search keeping depth 24

pub sem_destroy-Keeps : (s : Ptr) → Keeps (crt_sem_destroy s)
unfolding crt_sem_destroy
sem_destroy-Keeps s = search keeping depth 24

pub try_wait-Keeps : (s : Ptr) → Keeps (try_wait s)
unfolding try_wait
try_wait-Keeps s = bind-Keeps _ _ (load_sem-Keeps s) (λ d. by_value d (positive d.value))
  where
    by_value :
        (d : Sem) (o : Option ℕ)
        → Keeps (elim o as (λ _. Co Bool) [
          | some n ↦ (do store_sem s (record d { value = pos n; task_ptr = null }); pure true)
          | none ↦ (do p ← curr; store_sem s (record d { task_ptr = p }); pure false)
        ])
    by_value d (some n) = search keeping depth 24
    by_value d none = search keeping depth 24

module _ (os : Os) (swap : Co (Unit {0})) (ks : Keeps swap) where
  pub sem_wait-Keeps : (k : ℕ) (s : Ptr) → Keeps (crt_sem_wait swap k s)
  unfolding crt_sem_wait
  sem_wait-Keeps zero s = halt-Keeps _
  sem_wait-Keeps (suc k) s = bind-Keeps _ _ (try_wait-Keeps s) (again k s (sem_wait-Keeps k s))
    where
      again :
          (k : ℕ) (s : Ptr)
          → Keeps (crt_sem_wait swap k s)
          → (over : Bool)
          → Keeps (elim over as (λ _. Co (Unit {0})) [
            | true ↦ pure tt
            | false ↦ swap >> crt_sem_wait swap k s
          ])
      again k s kr true = pure-Keeps _
      again k s kr false = then-Keeps _ _ ks kr

  pub yield-Keeps : Keeps (crt_sched_yield os swap)
  unfolding crt_sched_yield
  yield-Keeps = search keeping depth 24

  await-Keeps : Keeps (await os swap)
  unfolding await
  await-Keeps = search (keeping, retval-Keeps) depth 24

  pub msleep-Keeps : (n : ℕ) → Keeps (crt_msleep os swap n)
  unfolding crt_msleep
  msleep-Keeps n = search (keeping, await-Keeps) depth 24

  pub bg_run-Keeps : (f a r : Ptr) → Keeps (crt_bg_run os swap f a r)
  unfolding crt_bg_run
  bg_run-Keeps f a r = search (keeping, await-Keeps) depth 24

  pub accept-Keeps : (fd : ℤ) (a l : Ptr) → Keeps (crt_tcp_accept os swap fd a l)
  unfolding crt_tcp_accept
  accept-Keeps fd a l = search (keeping, await-Keeps) depth 24

  pub disk_open-Keeps : (a f m : ℕ) → Keeps (crt_disk_open os swap a f m)
  unfolding crt_disk_open coroutine_set_disk_open
  disk_open-Keeps a f m = search (keeping, await-Keeps) depth 24

  pub disk_read-Keeps : (fd : ℤ) (b n : ℕ) → Keeps (crt_disk_read os swap fd b n)
  unfolding crt_disk_read coroutine_set_disk_read
  disk_read-Keeps fd b n = search (keeping, await-Keeps) depth 24

  pub disk_write-Keeps : (fd : ℤ) (b n : ℕ) → Keeps (crt_disk_write os swap fd b n)
  unfolding crt_disk_write coroutine_set_disk_write
  disk_write-Keeps fd b n = search (keeping, await-Keeps) depth 24

  pub read_to-Keeps : (fd : ℤ) (b n : ℕ) (ms : ℤ) → Keeps (crt_tcp_read_to os swap fd b n ms)
  unfolding crt_tcp_read_to coroutine_set_sock_read
  read_to-Keeps fd b n ms = search (keeping, await-Keeps) depth 24

  pub write_to-Keeps : (fd : ℤ) (b n : ℕ) (ms : ℤ) → Keeps (crt_tcp_write_to os swap fd b n ms)
  unfolding crt_tcp_write_to coroutine_set_sock_write
  write_to-Keeps fd b n ms = search (keeping, await-Keeps) depth 24

  pub read-Keeps : (fd : ℤ) (b n : ℕ) → Keeps (crt_tcp_read os swap fd b n)
  unfolding crt_tcp_read coroutine_set_sock_read
  read-Keeps fd b n = search (keeping, await-Keeps) depth 24

  pub write-Keeps : (fd : ℤ) (b n : ℕ) → Keeps (crt_tcp_write os swap fd b n)
  unfolding crt_tcp_write coroutine_set_sock_write
  write-Keeps fd b n = search (keeping, await-Keeps) depth 24

  pub blocked_connect-Keeps : (ip port : ℕ) → Keeps (crt_tcp_blocked_connect os swap ip port)
  unfolding crt_tcp_blocked_connect coroutine_set_sock_connect
  blocked_connect-Keeps ip port = search (keeping, await-Keeps) depth 24

  pub timeout_connect-Keeps :
      (ip port : ℕ) (ms : ℤ) → Keeps (crt_tcp_timeout_connect os swap ip port ms)
  unfolding crt_tcp_timeout_connect coroutine_set_sock_connect
  timeout_connect-Keeps ip port ms = search (keeping, await-Keeps) depth 24
