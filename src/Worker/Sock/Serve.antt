-- ===== src/Worker/Sock/Serve.antt =====
-- A socket transfer of src/acoro.c over all the events that libev delivers for it.
use async_coro.Base.{
  subst, ℕ, ◌+◌, ◌<◌, ◌≡◌, inl, inr, refl, ap, sym, ◌∙◌, arith, ℤ, Bool, true, false, ◌||◌, List,
  [], ◌∷◌, has, pure, ◌>>=◌, ◌>>◌, and_then, Returns, Returns-bind, Returns-mono,
}
use async_coro.Queue.Mem.{Ptr}
use async_coro.Task.{Action, sock_done, Ret}
use async_coro.World.Calls.{Event, Call, Os, nonblock_bit, has_bit}
use async_coro.World.State.{Env, World, Co, load, load-ok}
use async_coro.Notify.{linked}
use async_coro.Worker.Sock.{Dir, reading, writing, io_event, io_action, ev_sock_io}
use async_coro.Worker.Sock.Transfer.{Pending, Frame, Frame-trans}
use async_coro.Worker.Sock.Loop.{IsCalm}
use async_coro.Worker.Sock.Deliver.{Delivered, Waiting, Outcome, ev_sock_io_lem}

abbrev is_sock_done : Action → Bool
is_sock_done sock_done = true
is_sock_done _ = false

-- The events come one after the other until the task is told the result, when its watcher is stopped.
-- The value is whether it has been.
unfoldable pub serve : Os → (me : ℕ) → Dir → (fuel : ℕ) → Ptr → List Event → Co Bool
serve os me d fuel p [] = pure false
serve os me d fuel p (ev ∷ evs) = do
  ev_sock_io os me d fuel p ev
  t ← load p
  elim (is_sock_done t.action) [ true ↦ pure true | false ↦ serve os me d fuel p evs ]

not_done : (d : Dir) → is_sock_done (io_action d) ≡ false
not_done reading = refl
not_done writing = refl

-- Each event is of the direction, or an error.
abbrev pub AllFit : Dir → List Event → Type 0
AllFit d [] = Unit
AllFit d (ev ∷ evs) = ((io_event d ev || ev.error) ≡ true) × AllFit d evs

module _ (os : Os) (me : ℕ) (d : Dir) (p : Ptr) (ms fd : ℤ) (buf count : ℕ) (old : List Call)
    (r : Ret) (stack : Ptr) where
  -- The task is told the result, or waits.
  abbrev pub Served : World → Bool → World → Type 0
  Served w true w' = Delivered os p ms fd buf count old stack w w'
  Served w false w' = Waiting os d p ms fd buf count old r stack w w'

  Served-Frame :
      (w w' : World) → Frame p w w' → (over : Bool) (v : World) → Served w' over v → Served w over v
  Served-Frame w w' fr true v dl = record {
    before = dl.before;
    ended = dl.ended;
    frame = Frame-trans p w w' dl.before fr dl.frame;
    handed = dl.handed;
  }
  Served-Frame w w' fr false v wt = record {
    have = wt.have;
    need = wt.need;
    pending = wt.pending;
    left = wt.left;
    frame = Frame-trans p w w' v fr wt.frame;
  }

  module _ (quiet_from : ℕ) (calm : IsCalm os quiet_from)
      (nb : (h : List Call) → has_bit nonblock_bit (os.answer h (Call.getfl fd)).ret ≡ true)
      (fuel : ℕ) (enough : count + quiet_from < fuel) where
    -- What an event that leaves the task waiting leads to.
    go_on :
        (evs : List Event) (w w' : World)
        → ((have need : ℕ) (v : World)
            → Pending os d p ms fd buf count old r stack have need v
            → 0 < need
            → linked p v ≡ false
            → Returns (Served v) (serve os me d fuel p evs v))
        → linked p w ≡ false
        → Outcome os me d p ms fd buf count old r stack w w'
        → Returns (Served w) (
            and_then (load p w') (λ t. elim (is_sock_done t.action) [
              | true ↦ pure true
              | false ↦ serve os me d fuel p evs
            ]))
    unfolding linked
    go_on evs w w' ih out (inl dl) =
        rw (load-ok w' p (ap (λ (u : World). u.tasks p) dl.handed ∙ dl.ended.here)) dl
    go_on evs w w' ih out (inr wt) = rw (load-ok w' p wt.pending.here) (
        subst
          (λ over. Returns (Served w) (
            (elim over as (λ _. Co Bool) [ true ↦ pure true | false ↦ serve os me d fuel p evs ])
              w'))
          (sym (not_done d))
          (Returns-mono (Served w') (Served w) (serve os me d fuel p evs w')
            (ih wt.have wt.need w' wt.pending wt.left (same_links ∙ out))
            (λ over v. Served-Frame w w' wt.frame over v)))
      where
        same_links : linked p w' ≡ linked p w
        same_links = ap (λ (u : Env). has p u.todo || has p u.doing) wt.frame.env

    -- If no signal comes after `quiet_from` calls, the descriptor does not block, and the fuel is more
    -- than the bytes asked for and `quiet_from`, any number of events for a transfer with bytes left,
    -- whose task is in no queue, is handled in full: the task is told the number of bytes that the kernel says it has moved since
    -- `old`, or -1 and an error, and made ready once, or it still waits with bytes left and those moved counted, and no other task and no other shared state changes.
    pub serve_lem :
        (evs : List Event) (have need : ℕ) (w : World)
        → AllFit d evs
        → Pending os d p ms fd buf count old r stack have need w
        → 0 < need
        → linked p w ≡ false
        → Returns (Served w) (serve os me d fuel p evs w)
    unfolding serve
    serve_lem [] have need w fit pend left out = record {
      have = have;
      need = need;
      pending = pend;
      left = left;
      frame = record { env = refl; sems = refl; others = λ q ne. refl };
    }
    serve_lem (ev ∷ evs) have need w (fit, fits) pend left out =
        Returns-bind (λ _. Outcome os me d p ms fd buf count old r stack w) (Served w)
          (ev_sock_io os me d fuel p ev w) _
          (ev_sock_io_lem os me d p ms fd buf count old r stack quiet_from calm fuel have need ev w
            pend out fit (nb w.calls) (omega (arith, pend.sum)))
          (λ _ w' o.
            go_on evs w w'
              (λ have need v pend' left' out'. serve_lem evs have need v fits pend' left' out') out
              o)
