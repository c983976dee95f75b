-- ===== src/Worker/Tests.antt =====
-- The workers of src/acoro.c on sample tasks.
use async_coro.Base.{◌≡◌, refl, pos, minus_one, true, false, none, some, [], ◌∷◌, ok}
use async_coro.Task.{OpenArg, connect_arg, ConnectArg}
use async_coro.World.Calls.{Event, Call, eagain}
use async_coro.World.State.{World, with_task}
use async_coro.World.Samples.{kernel, sample_task, alone, handed_over}
use async_coro.Notify.{linked}
use async_coro.Notify.Laws.{ready}
use async_coro.Worker.Events.{new_event_handler}
use async_coro.Worker.Handle.{asked, opens, asking, told, received, byte_came, handler_lem}
use async_coro.Worker.Connect.{ev_sock_connect, ev_sock_connect_timeout}
use async_coro.Worker.Connect.Laws.{
  connecting, ended, checked, connect_timeout_lem, connect_event_lem,
}

-- `O_CREAT | O_RDWR`.
abbrev file : OpenArg
file = record { pathname = 80; flags = 66; mode = 420 }

abbrev opening : World
opening = handed_over (asking (opens file) sample_task)

free_to_open : linked 4 (received 1 (0xee ∷ []) (3 ∷ []) opening) ≡ false
unfolding linked
free_to_open = refl

abbrev opened : World
opened = received 1 (0xee ∷ []) (3 ∷ []) opening

handler_lem_example :
    new_event_handler kernel 1 byte_came opening
    ≡ ok tt (
        ready 4 (
          with_task 4
            (told kernel (opens file) opened (asking (opens file) sample_task))
            (asked kernel (Call.open_file 80 66 (some 420)) opened)))
handler_lem_example =
    handler_lem kernel 1 4 (opens file) sample_task (0xee ∷ []) (3 ∷ []) opening refl refl refl
      free_to_open

abbrev host : ConnectArg
host = record { timeout_ms = minus_one; ip = 1; port = 80; fd = none }

abbrev to_connect : World
to_connect = alone (record sample_task { args = connect_arg host })

abbrev on_its_way : World
on_its_way = alone (connecting 1 80 (pos 100) (pos 7) sample_task)

free_to_end : linked 3 on_its_way ≡ false
unfolding linked
free_to_end = refl

abbrev fired : Event
fired = record { readable = false; writable = false; timeout = true; error = false }

connect_timeout_lem_example :
    ev_sock_connect_timeout kernel 1 3 fired on_its_way
    ≡ ok tt (ended kernel 1 3 1 80 (pos 100) (pos 7) minus_one eagain sample_task on_its_way)
connect_timeout_lem_example =
    connect_timeout_lem kernel 1 3 1 80 (pos 100) (pos 7) fired sample_task on_its_way refl
      free_to_end refl refl

abbrev writable : Event
writable = record { readable = false; writable = true; timeout = false; error = false }

-- The socket reports the error 111; the task is told -1 and the `errno` 0.
connect_event_lem_example :
    ev_sock_connect kernel 1 3 writable on_its_way
    ≡ ok tt (
        ended kernel 1 3 1 80 (pos 100) (pos 7) minus_one 0 sample_task (
          asked kernel
            (Call.close (pos 7))
            (checked kernel 1 3 1 80 (pos 100) (pos 7) sample_task on_its_way)))
connect_event_lem_example =
    connect_event_lem kernel 1 3 1 80 (pos 100) (pos 7) writable sample_task on_its_way refl
      free_to_end refl refl
