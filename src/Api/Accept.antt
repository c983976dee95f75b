-- ===== src/Api/Accept.antt =====
-- `crt_tcp_accept` of src/acoro.c from the call to its result.
use async_coro.Base.{
  minus_one, List, ◌⊎◌, ℕ, ◌≡◌, inl, inr, refl, ap, ◌∙◌, ℤ, pos, is_neg, to_int, true, false, ◌||◌,
  some, [], ◌∷◌, has, Bool-cases, eq→==, ok, ◌>>=◌, ◌>>◌, Returns, Returns-bind,
}
use async_coro.Queue.Mem.{Ptr}
use async_coro.Task.{Action, tcp_accept_done, tcp_accept_arg, TcpAcceptArg, Task}
use async_coro.World.Calls.{Event, IoCallback, Call, Os, nonblock_bit, set_bit}
use async_coro.World.State.{
  Env, World, Co, change, curr, errno_after, with_task, load-ok, change-ok, with_task-here,
}
use async_coro.Notify.{coroutine_notify_manager, linked, wake_byte, shift_doing}
use async_coro.Notify.Laws.{ready, submitted, notify_worker_lem, notify_manager_lem}
use async_coro.Worker.Handle.{received, byte_came}
use async_coro.Worker.Events.{
  new_event_handler, read_pipe, do_task, do_task_for, do_tcp_accept, ev_tcp_accept, is_minus_one,
}
use async_coro.Api.{await, crt_tcp_accept}
use async_coro.Api.RoundTrip.{IsIdle}
use async_coro.Api.SockCall.{turn, get_retval-ok}
use async_coro.Flags.{crt_set_nonblock}
use async_coro.Api.Sleep.{resumed-ok}
use async_coro.Manager.{wakes, resumes}

abbrev readable : Event
readable = record { readable = true; writable = false; timeout = false; error = false }

-- What happens while the only coroutine waits for a connection: worker `me` has its byte, the socket can be read, and
-- the manager resumes the coroutine.
unfoldable pub accepting : Os → (me : ℕ) → Co (Unit {0})
accepting os me = do
  p ← curr
  new_event_handler os me byte_came
  ev_tcp_accept os me p readable
  wakes

-- A task that asks for a connection.
abbrev acceptor : TcpAcceptArg → Task → Task
acceptor a t = record t { action = Action.tcp_accept; args = tcp_accept_arg a }

-- What asking the kernel leaves alone.
-- `accept` returns -1, or a descriptor.
abbrev pub AcceptAnswers : ℤ → Type 0
AcceptAnswers z = (z ≡ minus_one) ⊎ (is_neg z ≡ false)

record SameTasks (w w' : World) : Type 0 where
  env : w'.env ≡ w.env
  tasks : w'.tasks ≡ w.tasks

set_nonblock-SameTasks :
    (os : Os) (fd : ℤ) (w : World) → Returns (λ _. SameTasks w) (crt_set_nonblock os fd w)
unfolding crt_set_nonblock
set_nonblock-SameTasks os fd w =
    elim (Bool-cases (is_neg (os.answer w.calls (Call.getfl fd)).ret)) [
      | inl bad ↦ rw bad (record { env = refl; tasks = refl })
      | inr good ↦
          rw good
            (elim (Bool-cases (
              is_neg
                (os.answer (Call.getfl fd ∷ w.calls) (
                  Call.setfl fd
                    (set_bit nonblock_bit (os.answer w.calls (Call.getfl fd)).ret))).ret)) [
                      | inl bad ↦ rw bad (record { env = refl; tasks = refl })
                      | inr kept ↦ rw kept (record { env = refl; tasks = refl })
                    ])
    ]

module _ (os : Os) (me : ℕ) (p : Ptr) (a : TcpAcceptArg) where
  abbrev watching : World → World
  watching w =
      let v = received me [] [] w in
      record v { calls = Call.io_start me p IoCallback.ev_tcp_accept a.sockfd ∷ v.calls }

  accept-starts :
      (t : Task) (w : World)
      → w.pipe me ≡ wake_byte ∷ []
      → w.doing ≡ p ∷ []
      → w.tasks p ≡ some (acceptor a t)
      → new_event_handler os me byte_came w ≡ ok tt (watching w)
  unfolding new_event_handler read_pipe shift_doing do_task do_task_for do_tcp_accept
  accept-starts t w byte front alloc =
      rw (byte, front, load-ok (received me [] [] w) p alloc, load-ok (received me [] [] w) p alloc)
        refl

  abbrev accepted : World → ℤ
  accepted w = (os.answer w.calls (Call.accept a.sockfd a.addr a.addrlen)).ret

  -- The task has the result of `accept`, and is in no queue yet.
  record HasResult (w w' : World) : Type 0 where
    result : Task
    here : w'.tasks p ≡ some result
    value : result.ret.val ≡ accepted w
    awake : resumes result.action ≡ true
    env : w'.env ≡ w.env

  with_fd : World → Task → Task
  with_fd w t = record t {
    action = tcp_accept_done;
    ret = record { val = accepted w; err_code = t.ret.err_code };
  }

  -- The error code is set last.
  set_err :
      (e : ℕ) (t : Task) (w v : World)
      → v.tasks p ≡ some (with_fd w t)
      → v.env ≡ w.env
      → Returns
          (λ _. HasResult w)
          (change p (λ t. record t { ret = record { val = t.ret.val; err_code = e } }) v)
  unfolding with_fd
  set_err e t w v here env =
      rw (change-ok v p (λ t. record t { ret = record { val = t.ret.val; err_code = e } }) here)
        (record {
          result = record (with_fd w t) { ret = record { val = accepted w; err_code = e } };
          here = with_task-here v p _;
          value = refl;
          awake = refl;
          env = env;
        })

  hands_over :
      (w u : World)
      → linked p w ≡ false
      → HasResult w u
      → Returns
          (λ _ w'. (v : World) × HasResult w v × (w' ≡ ready p v))
          (coroutine_notify_manager p u)
  unfolding linked
  hands_over w u out has_it =
      rw
        (notify_manager_lem p u has_it.here
          (ap (λ (e : Env). has p e.todo || has p e.doing) has_it.env ∙ out))
        (u, has_it, refl)

  accept-ends :
      (t : Task) (w : World)
      → w.tasks p ≡ some (acceptor a t)
      → linked p w ≡ false
      → AcceptAnswers (accepted w)
      → Returns
          (λ _ w'. (v : World) × HasResult w v × (w' ≡ ready p v))
          (ev_tcp_accept os me p readable w)
  unfolding ev_tcp_accept with_fd
  accept-ends t w alloc out answers =
      rw (load-ok w p alloc, change-ok stopped p (with_fd w) alloc)
        (elim answers [
          | inl failed ↦
              rw (ap is_neg failed, ap is_minus_one failed)
                (Returns-bind _ _
                  (change p
                    (λ t. record t { ret = record { val = t.ret.val; err_code = stopped.errno } })
                    told)
                  _ (set_err stopped.errno (acceptor a t) w told here refl)
                  (λ _ u has_it. hands_over w u out has_it))
          | inr made ↦ rw made (
              Returns-bind _ _
                ((crt_set_nonblock os (accepted w)
                    >> change p (λ t. record t { ret = record { val = t.ret.val; err_code = 0 } }))
                  told)
                _
                (Returns-bind _ _ (crt_set_nonblock os (accepted w) told) _
                  (set_nonblock-SameTasks os (accepted w) told)
                  (λ _ v same.
                    set_err 0 (acceptor a t) w v (ap (λ f. f p) same.tasks ∙ here) same.env))
                (λ _ u has_it. hands_over w u out has_it))
        ])
    where
      stopped : World
      stopped = record w {
        calls = Call.io_stop me p ∷ Call.accept a.sockfd a.addr a.addrlen ∷ w.calls;
        errno =
            errno_after (os.answer w.calls (Call.accept a.sockfd a.addr a.addrlen)).errno w.errno;
      }

      told : World
      told = with_task p (with_fd w (acceptor a t)) stopped

      here : told.tasks p ≡ some (with_fd w (acceptor a t))
      here = with_task-here stopped p (with_fd w (acceptor a t))

-- `crt_tcp_accept`, called by the only coroutine, if the kernel takes the byte for the worker: it watches the socket, and when it can
-- be read returns what `accept` gives then, as an `int`, and leaves nothing queued and the coroutine current.
pub accept_lem :
    (os : Os) (sockfd : ℤ) (addr len : Ptr) (w : World) (t : Task)
    → IsIdle (turn w) w
    → w.tasks w.curr_task ≡ some t
    → (os.answer w.calls (Call.write_pipe (turn w))).ret ≡ pos 1
    → ((h : List Call) → AcceptAnswers (os.answer h (Call.accept sockfd addr len)).ret)
    → Returns
        (λ z w'.
          (z
            ≡ to_int
                (os.answer
                  (Call.io_start (turn w) w.curr_task IoCallback.ev_tcp_accept sockfd
                    ∷ Call.write_pipe (turn w)
                    ∷ w.calls)
                  (Call.accept sockfd addr len)).ret)
          × IsIdle (turn w) w'
          × (w'.curr_task ≡ w.curr_task))
        (crt_tcp_accept os (accepting os (turn w)) sockfd addr len w)
unfolding crt_tcp_accept await accepting linked
accept_lem os sockfd addr len w t idle alloc taken answers =
    rw
      (
        change-ok w w.curr_task (acceptor a) alloc,
        notify_worker_lem os asking (with_task-here w w.curr_task (acceptor a t)) out taken,
        accept-starts os (turn w) w.curr_task a t sent
            (rw (eq→== (turn w) (turn w) refl, idle.no_byte) refl) (rw idle.nothing_doing refl)
            (with_task-here w w.curr_task (acceptor a t)),
      )
      (Returns-bind _ _ ((ev_tcp_accept os (turn w) w.curr_task readable >> wakes) begun) _ back
        (λ _ v (t', here, value, quiet, current).
          rw (get_retval-ok v here) (ap to_int value, quiet, current)))
  where
    a : TcpAcceptArg
    a = record { sockfd = sockfd; addr = addr; addrlen = len }

    asking : World
    asking = with_task w.curr_task (acceptor a t) w

    out : linked w.curr_task asking ≡ false
    out = rw (idle.nothing_todo, idle.nothing_doing) refl

    sent : World
    sent = submitted os asking

    begun : World
    begun = watching os (turn w) w.curr_task a sent

    back :
        Returns
          (λ _ v.
            (t' : Task) × (v.tasks v.curr_task ≡ some t')
            × (t'.ret.val ≡ accepted os (turn w) w.curr_task a begun)
            × IsIdle (turn w) v
            × (v.curr_task ≡ w.curr_task))
          ((ev_tcp_accept os (turn w) w.curr_task readable >> wakes) begun)
    back =
        Returns-bind _ _ (ev_tcp_accept os (turn w) w.curr_task readable begun) _
          (accept-ends os (turn w) w.curr_task a t begun
            (with_task-here w w.curr_task (acceptor a t)) (rw idle.nothing_todo refl)
            (answers begun.calls))
          (λ _ v (u, got, e).
            rw
              (
                e,
                resumed-ok w.curr_task u got.result
                    (ap (λ (x : Env). x.manager_sem) got.env ∙ idle.no_posts)
                    (ap (λ (x : Env). x.todo) got.env ∙ idle.nothing_todo) got.here got.awake,
              )
              (
                got.result,
                got.here,
                got.value,
                record {
                  nothing_todo = refl;
                  nothing_doing = ap (λ (x : Env). x.doing) got.env;
                  no_posts = refl;
                  no_byte =
                      ap (λ (x : Env). x.pipe (turn w)) got.env
                      ∙ rw (eq→== (turn w) (turn w) refl) refl;
                },
                refl,
              ))
