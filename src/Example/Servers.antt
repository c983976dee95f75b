-- ===== src/Example/Servers.antt =====
-- The programs of example/ that start coroutines: `server` of echo_server.c, echo_server2.c and chat_server.c, and the
-- coroutines of coro_in_coro.c and bg_worker.c. What they print is left out.
pub mod Tests
use async_coro.Base.{
  ◌>>=◌, ◌>>◌, ◌*◌, ℕ, zero, suc, ◌+◌, ◌-◌, ◌^◌, ◌<◌, ◌≡◌, ℤ, pos, negsuc, minus_one, is_neg, not,
  Option, none, [], if◌then◌else◌, Run, ok, stop, pure, and_then, assert, Returns,
}
use async_coro.Queue.Mem.{Ptr, null}
use async_coro.Task.{Task}
use async_coro.World.Calls.{Call, Os}
use async_coro.World.State.{World, Co, u64, sys}
use async_coro.Api.{crt_attr_setstacksize, crt_create, crt_exit, crt_bg_run, crt_tcp_accept}
use async_coro.Socket.{crt_tcp_prepare_sock}
use async_coro.System.Rules.{Keeps, pure-Keeps, bind-Keeps, sys-Keeps, keeping}
use async_coro.System.Keeps.{Inv, Leaves}
use async_coro.Setup.{init_coroutine_env}
use async_coro.Setup.Init.{IsGenerous, IsOpen, chosen, init_coroutine_env_lem}
use async_coro.System.Calls as ApiKeeps

-- A descriptor handed to a coroutine as its argument: `(void*)(uintptr_t)fd`.
abbrev pub as_arg : ℤ → Ptr
as_arg (pos n) = u64 n
as_arg (negsuc n) = 2 ^ 64 - 1 - u64 n

-- `raw` is what the memory of a new task holds, and `serve` the routine of a connection.
module _ (os : Os) (raw : Task) (serve : Ptr) where
  -- The loop of `server`, `n` connections long, in a thread of its own. The result of `accept` is not looked at.
  unfoldable pub accept_each :
      (attr : Option ℕ) (listenfd : ℤ) (addr len : Ptr) (n : ℕ) → Co (Unit {0})
  accept_each attr listenfd addr len zero = pure tt
  accept_each attr listenfd addr len (suc n) = do
    fd ← sys os (Call.accept listenfd addr len)
    crt_create os raw attr serve (as_arg fd)
    accept_each attr listenfd addr len n

  -- `server`; the result -1 is `exit(-1)`.
  unfoldable pub server : (attr : Option ℕ) (port : ℕ) (addr len : Ptr) (n : ℕ) → Co ℤ
  unfolding accept_each
  server attr port addr len n = do
    listenfd ← sys os Call.socket
    if is_neg listenfd then pure minus_one else (do
      sys os (Call.setsockopt listenfd)
      bound ← sys os (Call.bind listenfd 0 port)
      if is_neg bound then pure minus_one else (do
        listening ← sys os (Call.listen listenfd)
        if is_neg listening
            then pure minus_one
            else accept_each attr listenfd addr len n >> pure (pos 0)))

  -- `server` of chat_server.c, which differs in the stack size that it asks for.
  unfoldable pub chat_server : (addr len : Ptr) (n : ℕ) → Co ℤ
  unfolding server
  chat_server addr len n = server (crt_attr_setstacksize none (1024 * 128)) 2000 addr len n

  -- The loop of the coroutine `server` of echo_server2.c; `swap` is what happens while it waits for a connection.
  unfoldable pub accept_in_coroutine : (swap : Co (Unit {0})) (sockfd : ℤ) (n : ℕ) → Co (Unit {0})
  accept_in_coroutine swap sockfd zero = pure tt
  accept_in_coroutine swap sockfd (suc n) = do
    fd ← crt_tcp_accept os swap sockfd null null
    crt_create os raw none serve (as_arg fd)
    accept_in_coroutine swap sockfd n

  unfoldable pub server_coroutine : (swap : Co (Unit {0})) (ip port n : ℕ) → Co (Unit {0})
  unfolding accept_in_coroutine
  server_coroutine swap ip port n = do
    sockfd ← crt_tcp_prepare_sock os ip port
    assert (not (is_neg sockfd))
    accept_in_coroutine swap sockfd n

-- `main_corotine` of coro_in_coro.c, which starts `n` coroutines from number `i` on.
unfoldable pub main_corotine : Os → (raw : Task) (secondary : Ptr) (n i : ℕ) → Co (Unit {0})
main_corotine os raw secondary zero i = pure tt
main_corotine os raw secondary (suc n) i = do
  crt_create os raw none secondary i
  main_corotine os raw secondary n (i + 1)

-- `bg_run_main_func` of bg_worker.c: `fetch` is the routine that a worker runs, and `tid` where it leaves its result.
unfoldable pub bg_run_main_func :
    Os → (swap : Co (Unit {0})) (fetch tid : Ptr) (write_fd : ℤ) (buf : ℕ) → Co (Unit {0})
bg_run_main_func os swap fetch tid write_fd buf = do
  crt_bg_run os swap fetch null tid
  sys os (Call.write_fd write_fd buf 0 1)
  crt_exit

module _ (os : Os) (raw : Task) (serve : Ptr) where
  accept_each-Keeps :
      (attr : Option ℕ) (fd : ℤ) (addr len : Ptr) (n : ℕ)
      → Keeps (accept_each os raw serve attr fd addr len n)
  unfolding accept_each
  accept_each-Keeps attr fd addr len zero = pure-Keeps _
  accept_each-Keeps attr fd addr len (suc n) = bind-Keeps _ _ (sys-Keeps os _) (λ conn.
      bind-Keeps _ _ (ApiKeeps.create-Keeps os raw attr serve (as_arg conn))
        (λ _. accept_each-Keeps attr fd addr len n))

  server-Keeps :
      (attr : Option ℕ) (port : ℕ) (addr len : Ptr) (n : ℕ)
      → Keeps (server os raw serve attr port addr len n)
  unfolding server
  server-Keeps attr port addr len n = search (keeping, accept_each-Keeps) depth 24

  module _ (swap : Co (Unit {0})) (ks : Keeps swap) where
    accept_in_coroutine-Keeps :
        (fd : ℤ) (n : ℕ) → Keeps (accept_in_coroutine os raw serve swap fd n)
    unfolding accept_in_coroutine
    accept_in_coroutine-Keeps fd zero = pure-Keeps _
    accept_in_coroutine-Keeps fd (suc n) =
        bind-Keeps _ _ (ApiKeeps.accept-Keeps os swap ks fd null null) (λ conn.
          bind-Keeps _ _ (ApiKeeps.create-Keeps os raw none serve (as_arg conn))
            (λ _. accept_in_coroutine-Keeps fd n))

    pub server_coroutine-Keeps :
        (ip port n : ℕ) → Keeps (server_coroutine os raw serve swap ip port n)
    unfolding server_coroutine
    server_coroutine-Keeps ip port n =
        search (keeping, ApiKeeps.prepare_sock-Keeps, accept_in_coroutine-Keeps) depth 24

main_corotine-Keeps :
    (os : Os) (raw : Task) (secondary : Ptr) (n i : ℕ) → Keeps (main_corotine os raw secondary n i)
unfolding main_corotine
main_corotine-Keeps os raw secondary zero i = pure-Keeps _
main_corotine-Keeps os raw secondary (suc n) i =
    bind-Keeps _ _ (ApiKeeps.create-Keeps os raw none secondary i)
      (λ _. main_corotine-Keeps os raw secondary n (i + 1))

bg_run_main_func-Keeps :
    (os : Os) (swap : Co (Unit {0}))
    → Keeps swap
    → (fetch tid : Ptr) (write_fd : ℤ) (buf : ℕ)
    → Keeps (bg_run_main_func os swap fetch tid write_fd buf)
unfolding bg_run_main_func
bg_run_main_func-Keeps os swap ks fetch tid write_fd buf =
    search (keeping, ApiKeeps.bg_run-Keeps os swap ks, ApiKeeps.exit-Keeps) depth 24

-- The environment that `init_coroutine_env` sets up, with a kernel that makes every pipe and keeps every flag, and then a
-- thread in `server` that takes any number of connections, whatever `accept` and `malloc` give: if it returns, the invariant
-- of the threads holds.
pub init-server :
    (os : Os) (raw : Task) (serve : Ptr) (attr : Option ℕ) (port : ℕ) (addr len : Ptr)
    (n ev_size workers : ℕ) (w : World)
    → IsGenerous os
    → Leaves Inv
        ((init_coroutine_env os ev_size workers >> server os raw serve attr port addr len n) w)
init-server os raw serve attr port addr len n ev_size workers w generous =
    started (init_coroutine_env os ev_size workers w)
      (init_coroutine_env_lem os ev_size workers w generous)
  where
    started :
        (r : Run World ℤ)
        → Returns
            (λ r w'.
              (r ≡ pos 0)
              × (w'.worker_count ≡ chosen workers)
              × (w'.todo ≡ [])
              × (w'.doing ≡ [])
              × Inv w'
              × ((k : ℕ) → k < 2 * chosen workers → IsOpen k w'))
            r
        → Leaves Inv (and_then r (λ _. server os raw serve attr port addr len n))
    started (ok z v) (_, _, _, _, inv, _) =
        (server-Keeps os raw serve attr port addr len n).run v inv
    started (stop why) bad = absurd bad
