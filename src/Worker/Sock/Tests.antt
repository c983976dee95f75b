-- ===== src/Worker/Sock/Tests.antt =====
-- A read of five bytes from a socket by src/acoro.c, on a kernel that gives three at a time.
use async_coro.Base.{ℕ, ◌≡◌, refl, arith, ℤ, pos, true, false, none, List, [], ◌∷◌, Returns}
use async_coro.Task.{sock_read, Ret, Task}
use async_coro.World.Calls.{Event, Call, Os}
use async_coro.World.State.{World}
use async_coro.World.Samples.{kernel, alone}
use async_coro.Notify.{linked}
use async_coro.Worker.Sock.{reading, transfer}
use async_coro.Worker.Sock.Transfer.{no_calls, Pending, io_task}
use async_coro.Worker.Sock.Loop.{IsCalm, Settled, transfer_lem}
use async_coro.Worker.Sock.Serve.{serve, Served, serve_lem}

abbrev old_ret : Ret
old_ret = record { val = pos 0; err_code = 0 }

abbrev reader : (have need : ℕ) → Task
reader have need = io_task sock_read (pos 100) (pos 7) 500 5 old_ret 300 have need

abbrev setup : List Call
setup = Call.setfl (pos 7) (pos 2050) ∷ []

-- The descriptor does not block; the task counts `have` bytes as read.
abbrev going_on : (have need : ℕ) → World
going_on have need = record (alone (reader have need)) { calls = setup }

start-Pending :
    Pending kernel reading 3 (pos 100) (pos 7) 500 5 setup old_ret 300 0 5 (going_on 0 5)
start-Pending = record { here = refl; sum = refl; moved = refl; inside = no_calls }

kernel-IsCalm : IsCalm kernel 0
kernel-IsCalm h c le e = ground arith

transfer_lem_example :
    Returns
      (Settled kernel reading 3 (pos 100) (pos 7) 500 5 setup old_ret 300 (going_on 0 5))
      (transfer kernel 1 reading 6 3 (going_on 0 5))
transfer_lem_example =
    transfer_lem kernel 1 reading 3 (pos 100) (pos 7) 500 5 setup old_ret 300 0 kernel-IsCalm 6 0 5
      (going_on 0 5) start-Pending (omega arith) (omega arith)

abbrev pub readable : Event
readable = record { readable = true; writable = false; timeout = false; error = false }

abbrev pub fired : Event
fired = record { readable = false; writable = false; timeout = true; error = false }

free_to_start : linked 3 (going_on 0 5) ≡ false
unfolding linked
free_to_start = refl

-- The same kernel, for a descriptor that never blocks.
abbrev quick_ret : List Call → Call → ℤ
quick_ret h (Call.getfl fd) = pos 2050
quick_ret h c = (kernel.answer h c).ret

abbrev pub quick : Os
quick = record {
  answer = λ h c. record { ret = quick_ret h c; errno = none; out = 0; out2 = 0 };
  read_law = kernel.read_law;
  write_law = kernel.write_law;
}

pub quick-IsCalm : IsCalm quick 0
quick-IsCalm h c le e = ground arith

quick-Pending : Pending quick reading 3 (pos 100) (pos 7) 500 5 setup old_ret 300 0 5 (going_on 0 5)
quick-Pending = record { here = refl; sum = refl; moved = refl; inside = no_calls }

serve_lem_example :
    Returns
      (Served quick 1 reading 3 (pos 100) (pos 7) 500 5 setup old_ret 300 (going_on 0 5))
      (serve quick 1 reading 6 3 (readable ∷ readable ∷ []) (going_on 0 5))
serve_lem_example =
    serve_lem quick 1 reading 3 (pos 100) (pos 7) 500 5 setup old_ret 300 0 quick-IsCalm (λ h. refl)
      6 (omega arith) (readable ∷ readable ∷ []) 0 5 (going_on 0 5) (refl, (refl, tt)) quick-Pending
      (omega arith) free_to_start
