-- ===== src/Api/Tests.antt =====
-- Calls of the interface of src/acoro.c by a sample coroutine.
use async_coro.Base.{
  inr, arith, ◌≡◌, refl, pos, to_int, false, none, some, [], ◌∷◌, if◌then◌else◌, pure, ◌>>=◌, ◌>>◌,
  Returns,
}
use async_coro.Queue.Mem.{Ptr}
use async_coro.Task.{finished_coroutine, is_finished, IoArg}
use async_coro.World.Calls.{Call}
use async_coro.World.State.{Co, load, change}
use async_coro.World.Samples.{kernel, sample_task, alone}
use async_coro.Notify.{linked}
use async_coro.Manager.{finish, manager_round}
use async_coro.Worker.Handle.{reads}
use async_coro.Api.{crt_create}
use async_coro.Worker.Sock.{reading}
use async_coro.Worker.Sock.Transfer.{Since, InBuffer}
use async_coro.Worker.Sock.Tests.{quick, quick-IsCalm, readable, fired}
use async_coro.Api.Transfer.{moving}
use async_coro.Api.SockCall.{Moved, sock_call, sock_call_lem}
use async_coro.Api.Sleep.{sleeping, sleep_lem}
use async_coro.Api.Accept.{accepting, accept_lem}
use async_coro.World.Calls.{TimerCallback}
use async_coro.Api.{crt_msleep, crt_tcp_accept}
use async_coro.Api.RoundTrip.{suspended, IsIdle, api_call, api_call_lem}
use async_coro.Api.Create.{launched, create-manager_round}

abbrev read_ten : IoArg
read_ten = record { timeout_ms = none; fd = pos 6; buf = 500; count = 10 }

alone-IsIdle : IsIdle 1 (alone sample_task)
alone-IsIdle = record { nothing_todo = refl; nothing_doing = refl; no_posts = refl; no_byte = refl }

api_call_lem_example :
    Returns
      (λ r w'.
        (r ≡ to_int (pos 3))
        × IsIdle 1 w'
        × (w'.curr_task ≡ 3)
        × (w'.calls ≡ Call.read_fd (pos 6) 500 0 10 ∷ Call.write_pipe 1 ∷ []))
      (api_call kernel (suspended kernel 1) (reads read_ten) (alone sample_task))
api_call_lem_example =
    api_call_lem kernel (reads read_ten) sample_task (alone sample_task) refl alone-IsIdle refl

-- The new coroutine exits at once.
abbrev exits : Ptr → Co (Unit {0})
exits p = change p (λ t. record t { action = finished_coroutine })

free_to_go : linked 20 (alone sample_task) ≡ false
unfolding linked
free_to_go = refl

create-manager_round_example :
    (crt_create kernel sample_task (some 4096) 70 71 >> manager_round kernel exits)
      (alone sample_task)
    ≡ (do exits 20; t ← load 20; if is_finished t.action then finish else pure tt)
        (launched kernel sample_task (some 4096) 70 71 19 (alone sample_task))
create-manager_round_example =
    create-manager_round kernel sample_task (some 4096) 70 71 19 (alone sample_task) exits refl
      free_to_go refl refl

-- Five bytes are to be read with a timeout; the kernel gives three at a time.
sock_call_lem_example :
    Returns
      (λ z w'.
        Moved quick 5 [] w'.calls z
        × IsIdle 1 w'
        × (w'.curr_task ≡ 3)
        × Since (InBuffer 500 5) [] w'.calls)
      (sock_call quick
        (moving quick 1 reading 6 readable fired)
        reading
        (pos 7)
        500
        5
        (pos 100)
        (alone sample_task))
sock_call_lem_example =
    sock_call_lem quick 0 reading (pos 7) 500 5 (pos 100) 6 readable fired (alone sample_task)
      sample_task quick-IsCalm (omega arith) (λ h. refl) refl (refl, refl) refl alone-IsIdle refl
      refl

sleep_lem_example :
    Returns
      (λ z w'.
        (z ≡ pos 0)
        × IsIdle 1 w'
        × (w'.curr_task ≡ 3)
        × (w'.calls
            ≡ Call.timer_stop 1 3
              ∷ Call.timer_start 1 3 TimerCallback.timer_timeout (pos 250)
              ∷ Call.write_pipe 1
              ∷ []))
      (crt_msleep kernel (sleeping kernel 1) 250 (alone sample_task))
sleep_lem_example =
    sleep_lem kernel 250 (alone sample_task) sample_task (λ e. absurd (omega (arith, e)))
      alone-IsIdle refl refl

accept_lem_example :
    Returns
      (λ z w'. (z ≡ to_int (pos 8)) × IsIdle 1 w' × (w'.curr_task ≡ 3))
      (crt_tcp_accept kernel (accepting kernel 1) (pos 7) 0 0 (alone sample_task))
accept_lem_example =
    accept_lem kernel (pos 7) 0 0 (alone sample_task) sample_task alone-IsIdle refl refl
      (λ h. inr refl)
