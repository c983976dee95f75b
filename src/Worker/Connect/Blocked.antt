-- ===== src/Worker/Connect/Blocked.antt =====
-- `do_tcp_blocked_connect` of src/acoro.c: every way in which it ends.
use async_coro.Base.{
  ℕ, ◌≡◌, ◌⊎◌, inl, inr, refl, ℤ, is_neg, is_zero, true, false, some, ◌∷◌, Bool-cases, Returns, ok,
}
use async_coro.Queue.Mem.{Ptr}
use async_coro.Task.{tcp_blocked_connect_done, connect_arg, ConnectArg, Task}
use async_coro.World.Calls.{Call, Os, nonblock_bit, set_bit}
use async_coro.World.State.{World, with_task}
use async_coro.Flags.{crt_set_nonblock}
use async_coro.Worker.Handle.{asked}
use async_coro.Worker.Sock.Transfer.{Frame}

-- Nothing but the calls and `errno` has changed.
pub record SameData (w w' : World) : Type 0 where
  pub env : w'.env ≡ w.env
  pub tasks : w'.tasks ≡ w.tasks
  pub sems : w'.sems ≡ w.sems

pub set_nonblock-SameData :
    (os : Os) (fd : ℤ) (w : World) → Returns (λ _ w'. SameData w w') (crt_set_nonblock os fd w)
unfolding crt_set_nonblock
set_nonblock-SameData os fd w = elim (Bool-cases (is_neg flag)) [
  | inl bad ↦ rw bad (record { env = refl; tasks = refl; sems = refl })
  | inr good ↦ rw good (elim (Bool-cases (is_neg set)) [
    | inl failed ↦ rw failed (record { env = refl; tasks = refl; sems = refl })
    | inr worked ↦ rw worked (record { env = refl; tasks = refl; sems = refl })
  ])
]
  where
    flag : ℤ
    flag = (os.answer w.calls (Call.getfl fd)).ret

    set : ℤ
    set = (os.answer (Call.getfl fd ∷ w.calls) (Call.setfl fd (set_bit nonblock_bit flag))).ret

abbrev pub answered : (val : ℤ) (err : ℕ) → Task → Task
answered val err t = record t {
  ret = record { val = val; err_code = err };
  action = tcp_blocked_connect_done;
}

module _ (os : Os) (p : Ptr) (a : ConnectArg) (t : Task) (w : World) where
  -- The descriptor of the new socket.
  abbrev pub new_fd : ℤ
  new_fd = (os.answer w.calls Call.socket).ret

  -- The task, as it was handed over.
  abbrev pub asker : Task
  asker = record t { args = connect_arg a }

  -- The states after each call that succeeds, and what the later calls return.
  abbrev pub opened : World
  opened = asked os Call.socket w

  abbrev pub option_ret : ℤ
  option_ret = (os.answer opened.calls (Call.setsockopt new_fd)).ret

  abbrev pub optioned : World
  optioned = asked os (Call.setsockopt new_fd) opened

  abbrev pub connect_ret : ℤ
  connect_ret = (os.answer optioned.calls (Call.connect new_fd a.ip a.port)).ret

  abbrev pub tried : World
  tried = asked os (Call.connect new_fd a.ip a.port) optioned

  -- In the state `v` a call on the socket has failed with the result `r`.
  abbrev pub FailedAt : ℤ → World → Type 0
  FailedAt r v =
      ((v ≡ optioned) × (r ≡ option_ret) × (is_neg option_ret ≡ true))
      ⊎ ((v ≡ tried)
          × (r ≡ connect_ret)
          × (is_neg option_ret ≡ false)
          × (is_zero connect_ret ≡ false))

  -- The task has its descriptor, and the connection is made.
  abbrev pub made : World
  made = with_task p (record asker { ret = record { val = new_fd; err_code = 0 } }) tried

  pub data BlockedOutcome (w' : World) : Type 0 where
    connected :
        (n : ℕ) (v : World)
        → crt_set_nonblock os new_fd made ≡ ok n v
        → w'.calls ≡ v.calls
        → Frame p w w'
        → is_neg new_fd ≡ false
        → is_neg option_ret ≡ false
        → is_zero connect_ret ≡ true
        → w'.tasks p ≡ some (answered new_fd 0 asker)
        → BlockedOutcome w'
    no_socket :
        Frame p w w'
        → is_neg new_fd ≡ true
        → w'.calls ≡ opened.calls
        → w'.tasks p ≡ some (answered new_fd opened.errno asker)
        → BlockedOutcome w'
    closed :
        (r : ℤ) (v : World)
        → FailedAt r v
        → Frame p w w'
        → w'.calls ≡ Call.close new_fd ∷ v.calls
        → w'.tasks p ≡ some (answered r (asked os (Call.close new_fd) v).errno asker)
        → BlockedOutcome w'
