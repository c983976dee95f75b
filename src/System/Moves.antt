-- ===== src/System/Moves.antt =====
-- Every run of the threads of src/acoro.c, move by move: what a worker does with an event, what a
-- coroutine does between two switches, and what other threads may call.
use async_coro.Base.{subst, ℕ, ◌<◌, ◌≡◌, ℤ, Option, List, [], ◌∷◌, ok, pure, ◌>>◌}
use async_coro.Queue.Mem.{Ptr}
use async_coro.Task.{Task}
use async_coro.World.Calls.{Event, Os}
use async_coro.World.State.{World, Co}
use async_coro.Flags.{crt_set_nonblock, crt_set_block}
use async_coro.Socket.{crt_tcp_prepare_sock}
use async_coro.Semaphore.{
  crt_sem_init, crt_sem_post, crt_sem_priority_post, try_wait, crt_sem_destroy,
}
use async_coro.Api.{
  coroutine_get_retval, crt_get_err_code, crt_exit, crt_create, crt_sched_yield, crt_msleep,
  crt_bg_run, crt_tcp_accept, crt_disk_open, crt_disk_read, crt_disk_write, crt_tcp_read_to,
  crt_tcp_read, crt_tcp_write_to, crt_tcp_write, crt_tcp_blocked_connect, crt_tcp_timeout_connect,
}
use async_coro.Manager.{manager_round}
use async_coro.Worker.Sock.{Dir, ev_sock_io, ev_sock_timeout}
use async_coro.Worker.Connect.{ev_sock_connect, ev_sock_connect_timeout}
use async_coro.Worker.Events.{new_event_handler, timer_timeout, ev_tcp_accept}
use async_coro.System.Keeps.{Inv, Leaves}
use async_coro.System.Rules.{Keeps, then-Keeps, pure-Keeps}
use async_coro.System.Callbacks
use async_coro.System.Calls as ApiKeeps
use async_coro.System.Round.{manager_round-Inv}

-- What libev may call in a worker.
pub data Callback : Type 0 where
  on_byte : Event → Callback
  on_io : Dir → (fuel : ℕ) → Ptr → Event → Callback
  on_timeout on_connect on_connect_timeout on_timer on_accept : Ptr → Event → Callback

unfoldable pub deliver : Os → (me : ℕ) → Callback → Co (Unit {0})
deliver os me (on_byte ev) = new_event_handler os me ev
deliver os me (on_io d fuel p ev) = ev_sock_io os me d fuel p ev
deliver os me (on_timeout p ev) = ev_sock_timeout os me p ev
deliver os me (on_connect p ev) = ev_sock_connect os me p ev
deliver os me (on_connect_timeout p ev) = ev_sock_connect_timeout os me p ev
deliver os me (on_timer p ev) = timer_timeout os me p ev
deliver os me (on_accept p ev) = ev_tcp_accept os me p ev

-- The calls that a coroutine makes without being suspended. `tries s` is a round of the loop of
-- `crt_sem_wait`, and the first two read the result of the call from which the coroutine was resumed.
pub data Quick : Type 0 where
  result error : Quick
  creates : (raw : Task) (attr : Option ℕ) (func arg : Ptr) → Quick
  inits : Ptr → ℕ → Quick
  posts : Ptr → Quick
  posts_at : Ptr → (flag : ℕ) → Quick
  tries destroys : Ptr → Quick
  unblocks blocks : (fd : ℤ) → Quick
  prepares : (addr port : ℕ) → Quick

unfoldable pub perform : Os → Quick → Co (Unit {0})
perform os result = do coroutine_get_retval; pure tt
perform os error = do crt_get_err_code; pure tt
perform os (creates raw attr func arg) = do crt_create os raw attr func arg; pure tt
perform os (inits s v) = crt_sem_init s v
perform os (posts s) = crt_sem_post s
perform os (posts_at s flag) = crt_sem_priority_post s flag
perform os (tries s) = do try_wait s; pure tt
perform os (destroys s) = crt_sem_destroy s
perform os (unblocks fd) = do crt_set_nonblock os fd; pure tt
perform os (blocks fd) = do crt_set_block os fd; pure tt
perform os (prepares addr port) = do crt_tcp_prepare_sock os addr port; pure tt

-- The calls that end what a coroutine does: the switch back to the manager follows, and `swap` returns
-- at once. `waits s` is a round of `crt_sem_wait` that suspends.
pub data Last : Type 0 where
  exits yields : Last
  waits : Ptr → Last
  sleeps : ℕ → Last
  runs : (func arg res : Ptr) → Last
  accepts : (fd : ℤ) (addr len : Ptr) → Last
  opens : (path flags mode : ℕ) → Last
  reads writes reads_sock writes_sock : (fd : ℤ) (buf count : ℕ) → Last
  reads_to writes_to : (fd : ℤ) (buf count : ℕ) (msec : ℤ) → Last
  connects : (ip port : ℕ) → Last
  connects_to : (ip port : ℕ) (msec : ℤ) → Last

abbrev at_once : Co (Unit {0})
at_once = pure tt

unfoldable pub end_by : Os → Last → Co (Unit {0})
end_by os exits = crt_exit
end_by os yields = crt_sched_yield os at_once
end_by os (waits s) = do try_wait s; pure tt
end_by os (sleeps n) = do crt_msleep os at_once n; pure tt
end_by os (runs func arg res) = do crt_bg_run os at_once func arg res; pure tt
end_by os (accepts fd addr len) = do crt_tcp_accept os at_once fd addr len; pure tt
end_by os (opens path flags mode) = do crt_disk_open os at_once path flags mode; pure tt
end_by os (reads fd buf count) = do crt_disk_read os at_once fd buf count; pure tt
end_by os (writes fd buf count) = do crt_disk_write os at_once fd buf count; pure tt
end_by os (reads_sock fd buf count) = do crt_tcp_read os at_once fd buf count; pure tt
end_by os (writes_sock fd buf count) = do crt_tcp_write os at_once fd buf count; pure tt
end_by os (reads_to fd buf count msec) = do crt_tcp_read_to os at_once fd buf count msec; pure tt
end_by os (writes_to fd buf count msec) = do crt_tcp_write_to os at_once fd buf count msec; pure tt
end_by os (connects ip port) = do crt_tcp_blocked_connect os at_once ip port; pure tt
end_by os (connects_to ip port msec) = do crt_tcp_timeout_connect os at_once ip port msec; pure tt

unfoldable pub segment : Os → List Quick → Last → Co (Unit {0})
segment os [] l = end_by os l
segment os (q ∷ qs) l = perform os q >> segment os qs l

-- A move of one thread. `body` is what each coroutine would do next; the manager runs one of them.
pub data Move (os : Os) (w w' : World) : Type 0 where
  worker :
      (me : ℕ) (c : Callback) → me < w.worker_count → deliver os me c w ≡ ok tt w' → Move os w w'
  manager :
      (body : Ptr → List Quick × Last)
      → manager_round os (λ p. segment os (body p).0 (body p).1) w ≡ ok tt w'
      → Move os w w'
  outside :
      (raw : Task) (attr : Option ℕ) (func arg : Ptr)
      → perform os (creates raw attr func arg) w ≡ ok tt w'
      → Move os w w'

pub data Moves (os : Os) (w : World) : World → Type 0 where
  start : Moves os w w
  next : {v v' : World} → Moves os w v → Move os v v' → Moves os w v'

perform-Keeps : (os : Os) (q : Quick) → Keeps (perform os q)
unfolding perform
perform-Keeps os result = then-Keeps _ _ ApiKeeps.retval-Keeps (pure-Keeps _)
perform-Keeps os error = then-Keeps _ _ ApiKeeps.err_code-Keeps (pure-Keeps _)
perform-Keeps os (creates raw attr func arg) =
    then-Keeps _ _ (ApiKeeps.create-Keeps os raw attr func arg) (pure-Keeps _)
perform-Keeps os (inits s v) = ApiKeeps.sem_init-Keeps s v
perform-Keeps os (posts s) = ApiKeeps.sem_post-Keeps s
perform-Keeps os (posts_at s flag) = ApiKeeps.priority_post-Keeps s flag
perform-Keeps os (tries s) = then-Keeps _ _ (ApiKeeps.try_wait-Keeps s) (pure-Keeps _)
perform-Keeps os (destroys s) = ApiKeeps.sem_destroy-Keeps s
perform-Keeps os (unblocks fd) = then-Keeps _ _ (Callbacks.set_nonblock-Keeps os fd) (pure-Keeps _)
perform-Keeps os (blocks fd) = then-Keeps _ _ (Callbacks.set_block-Keeps os fd) (pure-Keeps _)
perform-Keeps os (prepares addr port) =
    then-Keeps _ _ (ApiKeeps.prepare_sock-Keeps os addr port) (pure-Keeps _)

end_by-Keeps : (os : Os) (l : Last) → Keeps (end_by os l)
unfolding end_by
end_by-Keeps os exits = ApiKeeps.exit-Keeps
end_by-Keeps os yields = ApiKeeps.yield-Keeps os at_once (pure-Keeps _)
end_by-Keeps os (waits s) = then-Keeps _ _ (ApiKeeps.try_wait-Keeps s) (pure-Keeps _)
end_by-Keeps os (sleeps n) =
    then-Keeps _ _ (ApiKeeps.msleep-Keeps os at_once (pure-Keeps _) n) (pure-Keeps _)
end_by-Keeps os (runs f a r) =
    then-Keeps _ _ (ApiKeeps.bg_run-Keeps os at_once (pure-Keeps _) f a r) (pure-Keeps _)
end_by-Keeps os (accepts fd a l) =
    then-Keeps _ _ (ApiKeeps.accept-Keeps os at_once (pure-Keeps _) fd a l) (pure-Keeps _)
end_by-Keeps os (opens p f m) =
    then-Keeps _ _ (ApiKeeps.disk_open-Keeps os at_once (pure-Keeps _) p f m) (pure-Keeps _)
end_by-Keeps os (reads fd b n) =
    then-Keeps _ _ (ApiKeeps.disk_read-Keeps os at_once (pure-Keeps _) fd b n) (pure-Keeps _)
end_by-Keeps os (writes fd b n) =
    then-Keeps _ _ (ApiKeeps.disk_write-Keeps os at_once (pure-Keeps _) fd b n) (pure-Keeps _)
end_by-Keeps os (reads_sock fd b n) =
    then-Keeps _ _ (ApiKeeps.read-Keeps os at_once (pure-Keeps _) fd b n) (pure-Keeps _)
end_by-Keeps os (writes_sock fd b n) =
    then-Keeps _ _ (ApiKeeps.write-Keeps os at_once (pure-Keeps _) fd b n) (pure-Keeps _)
end_by-Keeps os (reads_to fd b n ms) =
    then-Keeps _ _ (ApiKeeps.read_to-Keeps os at_once (pure-Keeps _) fd b n ms) (pure-Keeps _)
end_by-Keeps os (writes_to fd b n ms) =
    then-Keeps _ _ (ApiKeeps.write_to-Keeps os at_once (pure-Keeps _) fd b n ms) (pure-Keeps _)
end_by-Keeps os (connects ip port) =
    then-Keeps _ _ (ApiKeeps.blocked_connect-Keeps os at_once (pure-Keeps _) ip port) (pure-Keeps _)
end_by-Keeps os (connects_to ip port ms) =
    then-Keeps _ _ (ApiKeeps.timeout_connect-Keeps os at_once (pure-Keeps _) ip port ms)
      (pure-Keeps _)

segment-Keeps : (os : Os) (qs : List Quick) (l : Last) → Keeps (segment os qs l)
unfolding segment
segment-Keeps os [] l = end_by-Keeps os l
segment-Keeps os (q ∷ qs) l = then-Keeps _ _ (perform-Keeps os q) (segment-Keeps os qs l)

deliver-Leaves :
    (os : Os) (me : ℕ) (c : Callback) (w : World)
    → me < w.worker_count
    → Inv w
    → Leaves Inv (deliver os me c w)
unfolding deliver
deliver-Leaves os me (on_byte ev) w lt inv = Callbacks.handler-Leaves os me ev w lt inv
deliver-Leaves os me (on_io d fuel p ev) w lt inv =
    (Callbacks.sock_io-Keeps os me d fuel p ev).run w inv
deliver-Leaves os me (on_timeout p ev) w lt inv =
    (Callbacks.sock_timeout-Keeps os me p ev).run w inv
deliver-Leaves os me (on_connect p ev) w lt inv =
    (Callbacks.connect_event-Keeps os me p ev).run w inv
deliver-Leaves os me (on_connect_timeout p ev) w lt inv =
    (Callbacks.connect_timeout-Keeps os me p ev).run w inv
deliver-Leaves os me (on_timer p ev) w lt inv = (Callbacks.timer-Keeps os me p ev).run w inv
deliver-Leaves os me (on_accept p ev) w lt inv = (Callbacks.accept_event-Keeps os me p ev).run w inv

Move-Inv : (os : Os) (w w' : World) → Inv w → Move os w w' → Inv w'
Move-Inv os w w' inv (worker me c lt e) = subst (Leaves Inv) e (deliver-Leaves os me c w lt inv)
Move-Inv os w w' inv (manager body e) = subst (Leaves Inv) e (
    manager_round-Inv os (λ p. segment os (body p).0 (body p).1)
      (λ p v. (segment-Keeps os (body p).0 (body p).1).run v) w inv)
Move-Inv os w w' inv (outside raw attr func arg e) =
    subst (Leaves Inv) e ((perform-Keeps os (creates raw attr func arg)).run w inv)

-- From a state where the invariant of the queues, the pipes and the manager's semaphore holds, any
-- number of moves in any order, each of which returns, leaves a state where it holds. A move is a whole
-- callback of a worker, a round of the manager with what the coroutine does in it, or a call of
-- `crt_create` from outside.
pub Moves-Inv : (os : Os) (w w' : World) → Inv w → Moves os w w' → Inv w'
Moves-Inv os w w' inv start = inv
Moves-Inv os w w' inv (next {v} ms m) = Move-Inv os v w' (Moves-Inv os w v inv ms) m
