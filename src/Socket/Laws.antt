-- ===== src/Socket/Laws.antt =====
-- `crt_tcp_prepare_sock` of src/acoro.c: it returns a listening socket, or closes the socket and says
-- which step failed.
use async_coro.Base.{
  subst, ==→eq, ℕ, ◌≡◌, inl, inr, refl, ap, ◌∙◌, ℤ, is_neg, is_zero, true, false, not, Option, some,
  List, ◌∷◌, ◌==◌, if◌then◌else◌, Bool-cases, Run, ok, stop, pure, and_then, Returns,
}
use async_coro.Queue.Mem.{Ptr}
use async_coro.Task.{Task}
use async_coro.World.Calls.{Call, Os}
use async_coro.World.State.{Env, World, Co, with_task, change-ok, with_task-here}
use async_coro.Flags.{crt_set_nonblock}
use async_coro.Worker.Handle.{asked}
use async_coro.Worker.Connect.Blocked.{SameData, set_nonblock-SameData}
use async_coro.Worker.Sock.Transfer.{Frame}
use async_coro.Socket.{
  crt_tcp_prepare_sock, give_up, err_socket, err_bind, err_listen, err_set_nonblock, err_setsockopt,
}

module _ (os : Os) (addr port : ℕ) (t : Task) (w : World) where
  -- The descriptor of the new socket.
  abbrev pub sock : ℤ
  sock = (os.answer w.calls Call.socket).ret

  -- The caller's task has `errno` as it was in the state `v` of the failure.
  abbrev pub with_error : World → Task
  with_error v = record t { ret = record { val = t.ret.val; err_code = v.errno } }

  -- The states after each call that succeeds, and what the later calls return.
  abbrev pub opened : World
  opened = asked os Call.socket w

  abbrev pub optioned : World
  optioned = asked os (Call.setsockopt sock) opened

  abbrev pub bound : World
  bound = asked os (Call.bind sock addr port) optioned

  abbrev pub listens : World
  listens = asked os (Call.listen sock) bound

  abbrev pub option_ret : ℤ
  option_ret = (os.answer opened.calls (Call.setsockopt sock)).ret

  abbrev pub bind_ret : ℤ
  bind_ret = (os.answer optioned.calls (Call.bind sock addr port)).ret

  abbrev pub listen_ret : ℤ
  listen_ret = (os.answer bound.calls (Call.listen sock)).ret

  -- In the state `v` a step has failed whose code is `r`.
  pub data FailedAt : ℤ → World → Type 0 where
    at_setsockopt : is_zero option_ret ≡ false → FailedAt err_setsockopt optioned
    at_bind : is_neg bind_ret ≡ true → FailedAt err_bind bound
    at_listen : is_neg listen_ret ≡ true → FailedAt err_listen listens
    at_nonblock :
        (n : ℕ) (v : World)
        → crt_set_nonblock os sock listens ≡ ok n v
        → (n == 0) ≡ false
        → FailedAt err_set_nonblock v

  pub data Prepared (r : ℤ) (w' : World) : Type 0 where
    listening :
        SameData w w'
        → is_neg sock ≡ false
        → is_zero option_ret ≡ true
        → is_neg bind_ret ≡ false
        → is_neg listen_ret ≡ false
        → crt_set_nonblock os sock listens ≡ ok 0 w'
        → r ≡ sock
        → Prepared r w'
    no_socket :
        Frame w.curr_task w w'
        → is_neg sock ≡ true
        → r ≡ err_socket
        → w'.calls ≡ opened.calls
        → w'.tasks w.curr_task ≡ some (with_error opened)
        → Prepared r w'
    closed :
        (v : World)
        → FailedAt r v
        → Frame w.curr_task w w'
        → w'.calls ≡ Call.close sock ∷ v.calls
        → w'.tasks w.curr_task ≡ some (with_error v)
        → Prepared r w'

  -- The label `exception` in the state `v`, with a socket to close.
  give_up-closed :
      (r : ℤ) (v : World)
      → is_neg sock ≡ false
      → FailedAt r v
      → SameData w v
      → w.tasks w.curr_task ≡ some t
      → Returns Prepared (give_up os sock r v)
  unfolding give_up
  give_up-closed r v good failed same e =
      rw
        (
          change-ok v v.curr_task
              (λ t. record t { ret = record { val = t.ret.val; err_code = v.errno } }) alloc,
          good,
        )
        (closed v failed frame refl there)
    where
      alloc : v.tasks v.curr_task ≡ some t
      alloc = rw (same.tasks, same.env) e

      current : v.curr_task ≡ w.curr_task
      current = ap (λ (u : Env). u.curr_task) same.env

      there : (with_task v.curr_task (with_error v) v).tasks w.curr_task ≡ some (with_error v)
      there =
          subst (λ q. (with_task v.curr_task (with_error v) v).tasks q ≡ some (with_error v))
            current (with_task-here v v.curr_task (with_error v))

      frame :
          Frame w.curr_task w (asked os (Call.close sock) (with_task v.curr_task (with_error v) v))
      frame = record {
        env = same.env;
        sems = same.sems;
        others = λ q ne. rw (current, ne) (ap (λ (f : Ptr → Option Task). f q) same.tasks);
      }

  -- The same with no socket to close.
  give_up-no_socket :
      is_neg sock ≡ true
      → w.tasks w.curr_task ≡ some t
      → Returns Prepared (give_up os sock err_socket opened)
  unfolding give_up
  give_up-no_socket bad e =
      rw
        (
          change-ok opened w.curr_task
              (λ t. record t { ret = record { val = t.ret.val; err_code = opened.errno } }) e,
          bad,
        )
        (no_socket (record { env = refl; sems = refl; others = λ q ne. rw ne }) bad refl refl
          (with_task-here opened w.curr_task (with_error opened)))

  -- Whichever step of setting up a listening socket fails, the caller gets a negative code and the
  -- `errno` of that step in its task, and the socket is closed if it was opened. If none fails the
  -- caller gets the socket, set not to block. No other task, no semaphore and none of the shared state
  -- changes.
  pub prepare_sock_lem :
      w.tasks w.curr_task ≡ some t → Returns Prepared (crt_tcp_prepare_sock os addr port w)
  unfolding crt_tcp_prepare_sock
  prepare_sock_lem e = elim (Bool-cases (is_neg sock)) [
    | inl bad ↦ rw bad (give_up-no_socket bad e)
    | inr good ↦ rw good (elim (Bool-cases (is_zero option_ret)) [
      | inr bad ↦ rw bad (give_up-closed err_setsockopt optioned good (at_setsockopt bad) same e)
      | inl set ↦ rw set (elim (Bool-cases (is_neg bind_ret)) [
        | inl bad ↦ rw bad (give_up-closed err_bind bound good (at_bind bad) same e)
        | inr binds ↦ rw binds (elim (Bool-cases (is_neg listen_ret)) [
          | inl bad ↦ rw bad (give_up-closed err_listen listens good (at_listen bad) same e)
          | inr hears ↦
              rw hears (last good set binds hears _ refl (set_nonblock-SameData os sock listens))
        ])
      ])
    ])
  ]
    where
      same : {n : ℕ} {cs : List Call} → SameData w (record w { calls = cs; errno = n })
      same = record { env = refl; tasks = refl; sems = refl }

      step : ℕ → Co ℤ
      step n = if not (n == 0) then give_up os sock err_set_nonblock else pure sock

      last :
          is_neg sock ≡ false
          → is_zero option_ret ≡ true
          → is_neg bind_ret ≡ false
          → is_neg listen_ret ≡ false
          → (run : Run World ℕ) → crt_set_nonblock os sock listens ≡ run
          → Returns (λ _. SameData listens) run
          → Returns Prepared (and_then run step)
      last good set binds hears (ok n v) eq d = elim (Bool-cases (n == 0)) [
        | inr bad ↦ rw bad (
            give_up-closed err_set_nonblock v good (at_nonblock n v eq bad)
              (record { env = d.env; tasks = d.tasks; sems = d.sems }) e)
        | inl z ↦ rw z (
            listening (record { env = d.env; tasks = d.tasks; sems = d.sems }) good set binds hears
              (eq ∙ ap (λ k. ok k v) (==→eq n 0 z)) refl)
      ]
      last good set binds hears (stop r) eq d = absurd d
