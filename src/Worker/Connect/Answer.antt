-- ===== src/Worker/Connect/Answer.antt =====
-- How a task with the result of `do_tcp_timeout_connect` of src/acoro.c goes to the manager.
use async_coro.Base.{ℕ, ◌≡◌, refl, ap, ◌∙◌, ℤ, false, Option, some, ok, ◌>>◌}
use async_coro.Queue.Mem.{Ptr}
use async_coro.Task.{tcp_timeout_connect_done, connect_arg, ConnectArg, Task}
use async_coro.World.Calls.{Os}
use async_coro.World.State.{World, with_task, change-ok, with_task-here}
use async_coro.Notify.{linked}
use async_coro.Notify.Laws.{ready, notify_manager_lem}
use async_coro.Worker.Sock.Transfer.{Frame}
use async_coro.Worker.Connect.{set_result, set_action, connect_done}
use async_coro.Worker.Connect.Blocked.{SameData}

module _ (os : Os) (p : Ptr) (a : ConnectArg) (t : Task) (w : World)
    (out : linked p w ≡ false) where
  abbrev pub asker : Task
  asker = record t { args = connect_arg a }

  abbrev pub given : (val : ℤ) (err : ℕ) → Task
  given val err = record asker {
    ret = record { val = val; err_code = err };
    action = tcp_timeout_connect_done;
  }

  Frame-ready : (v v' : World) → SameData w v → Frame p v v' → Frame p (ready p w) (ready p v')
  Frame-ready v v' same f = record {
    env = ap (λ e. (ready p (record w { env = e })).env) (f.env ∙ same.env);
    sems = f.sems ∙ same.sems;
    others = λ q ne. f.others q ne ∙ ap (λ (g : Ptr → Option Task). g q) same.tasks;
  }

  still_out : (v : World) → v.env ≡ w.env → linked p v ≡ false
  unfolding linked
  still_out v same = ap (λ e. linked p (record w { env = e })) same ∙ out

  -- A task with its result goes to the manager.
  done-ok :
      (s : Task) (v : World)
      → v.env ≡ w.env
      → v.tasks p ≡ some s
      → connect_done os p v
        ≡ ok tt (ready p (with_task p (record s { action = tcp_timeout_connect_done }) v))
  unfolding connect_done
  done-ok s v same e =
      rw
        (
          change-ok v p (λ t. record t { action = tcp_timeout_connect_done }) e,
          notify_manager_lem p (with_task p (record s { action = tcp_timeout_connect_done }) v)
              (with_task-here v p (record s { action = tcp_timeout_connect_done }))
              (still_out (with_task p (record s { action = tcp_timeout_connect_done }) v) same),
        )
        refl

  abbrev pub resulting : ℤ → ℕ → World → World
  resulting val err v = with_task p (record asker { ret = record { val = val; err_code = err } }) v

  abbrev pub answering : ℤ → ℕ → World → World
  answering val err v = with_task p (given val err) (resulting val err v)

  pub answering-Frame :
      (val : ℤ) (err : ℕ) (v : World)
      → SameData w v
      → Frame p (ready p w) (ready p (answering val err v))
  answering-Frame val err v same =
      Frame-ready v (answering val err v) same
        (record { env = refl; sems = refl; others = λ q ne. rw ne refl })

  pub answering_twice-Frame :
      (val : ℤ) (err : ℕ) (v : World)
      → SameData w v
      → Frame p (ready p w) (ready p (with_task p (given val err) (answering val err v)))
  answering_twice-Frame val err v same =
      Frame-ready v (with_task p (given val err) (answering val err v)) same
        (record { env = refl; sems = refl; others = λ q ne. rw ne refl })

  pub gives :
      (val : ℤ) (err : ℕ) (v : World)
      → SameData w v
      → v.tasks p ≡ some asker
      → (set_result p val err >> connect_done os p) v ≡ ok tt (ready p (answering val err v))
  gives val err v same e =
      rw
        (
          change-ok v p (λ t. record t { ret = record { val = val; err_code = err } }) e,
          done-ok (record asker { ret = record { val = val; err_code = err } })
              (resulting val err v) same.env
              (with_task-here v p (record asker { ret = record { val = val; err_code = err } })),
        )
        refl

  -- Two of the branches set the action before the label sets it again.
  pub gives_marked :
      (val : ℤ) (err : ℕ) (v : World)
      → SameData w v
      → v.tasks p ≡ some asker
      → (set_result p val err >> (set_action p tcp_timeout_connect_done >> connect_done os p)) v
        ≡ ok tt (ready p (with_task p (given val err) (answering val err v)))
  gives_marked val err v same e =
      rw
        (
          change-ok v p (λ t. record t { ret = record { val = val; err_code = err } }) e,
          change-ok (resulting val err v) p (λ t. record t { action = tcp_timeout_connect_done })
              (with_task-here v p (record asker { ret = record { val = val; err_code = err } })),
          done-ok (given val err) (answering val err v) same.env
              (with_task-here (resulting val err v) p (given val err)),
        )
        refl
