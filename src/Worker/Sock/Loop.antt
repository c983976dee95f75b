-- ===== src/Worker/Sock/Loop.antt =====
-- The `go:` loop of `ev_sock_read` and `ev_sock_write` in src/acoro.c ends, given fuel for the bytes
-- that are left and for the signals that can still come.
use async_coro.Base.{
  ℕ, zero, suc, ◌+◌, ◌-◌, ◌<◌, ◌≤◌, ◌≡◌, ◌≢◌, ◌⊎◌, inl, inr, refl, ap, sym, subst, ◌∙◌, arith, ℤ,
  Option, none, some, List, ◌∷◌, length, pure, Returns, Returns-bind, Returns-mono,
}
use async_coro.Queue.Mem.{Ptr}
use async_coro.Task.{Ret}
use async_coro.World.Calls.{Call, Os, IsTransfer, eintr, eagain}
use async_coro.World.State.{World, Co, errno_after, load-ok}
use native.Mathlib.Decide.{dec_lt}
use async_coro.Worker.Sock.{
  Dir, reading, writing, io_call, Next, done, again, later, after_transfer, transfer,
}
use async_coro.Worker.Sock.Transfer.{
  amount, bytes_moved, one_more, InBuffer, Frame, Frame-trans, Ended, Pending, After, After-error,
  After-bytes,
}

-- No call is interrupted by a signal once `quiet_from` calls have been made.
abbrev pub IsCalm : Os → ℕ → Type 0
IsCalm os quiet_from =
    (h : List Call) (c : Call) → quiet_from ≤ length h → (os.answer h c).errno ≢ some eintr

-- How the loop may end: with the transfer ended, or with more to do when the socket is ready again.
abbrev pub Settled :
    Os
    → Dir
    → Ptr
    → (ms fd : ℤ) (buf count : ℕ) (old : List Call) → Ret
    → Ptr
    → World
    → Next
    → World
    → Type 0
Settled os d p ms fd buf count old r stack w done w' =
    Ended os p ms fd buf count old stack w' × Frame p w w'
Settled os d p ms fd buf count old r stack w again w' = ⊥
Settled os d p ms fd buf count old r stack w later w' =
    (w'.errno ≡ eagain)
    × Frame p w w'
    × ((h : ℕ) × (n : ℕ) × Pending os d p ms fd buf count old r stack h n w' × (0 < n))

io_call-IsTransfer :
    (os : Os) (d : Dir) (h : List Call) (fd : ℤ) (buf off n : ℕ)
    → IsTransfer n (os.answer h (io_call d fd buf off n))
io_call-IsTransfer os reading h fd buf off n = os.read_law h fd buf off n
io_call-IsTransfer os writing h fd buf off n = os.write_law h fd buf off n

errno_after-some : (o : Option ℕ) (e k : ℕ) → errno_after o e ≡ k → e ≢ k → o ≡ some k
errno_after-some none e k h ne = absurd (ne h)
errno_after-some (some n) e k h ne = ap some h

module _ (os : Os) (me : ℕ) (d : Dir) (p : Ptr) (ms fd : ℤ) (buf count : ℕ) (old : List Call)
    (r : Ret) (stack : Ptr) where
  -- The state after the call of a round.
  abbrev called : (have need : ℕ) → World → World
  called have need w =
      let c = io_call d fd buf have need in
      record w { calls = c ∷ w.calls; errno = errno_after (os.answer w.calls c).errno 0 }

  InBuffer-io_call :
      (d' : Dir) (have need : ℕ)
      → have + need ≡ count
      → InBuffer buf count (io_call d' fd buf have need)
  InBuffer-io_call reading have need e = (refl, omega arith)
  InBuffer-io_call writing have need e = (refl, omega arith)

  bytes_moved-io_call :
      (d' : Dir) (have need : ℕ) (h : List Call)
      → bytes_moved os (io_call d' fd buf have need ∷ h)
        ≡ bytes_moved os h + amount (os.answer h (io_call d' fd buf have need)).ret
  bytes_moved-io_call reading have need h = refl
  bytes_moved-io_call writing have need h = refl

  Pending-called :
      (have need : ℕ) (w : World)
      → Pending os d p ms fd buf count old r stack have need w
      → amount (os.answer w.calls (io_call d fd buf have need)).ret ≡ 0
      → Pending os d p ms fd buf count old r stack have need (called have need w)
  Pending-called have need w pend nothing = record {
    here = pend.here;
    sum = pend.sum;
    moved = omega (arith, bytes_moved-io_call d have need w.calls, pend.moved, nothing);
    inside = one_more (InBuffer-io_call d have need pend.sum) pend.inside;
  }

  round_lem :
      (have need : ℕ) (w : World)
      → Pending os d p ms fd buf count old r stack have need w
      → 0 < need
      → Returns (After os d p ms fd buf count old r stack need (called have need w)) (
          after_transfer os me p
            (os.answer w.calls (io_call d fd buf have need)).ret
            (called have need w))
  round_lem have need w pend pos_need = by_law (io_call-IsTransfer os d w.calls fd buf have need)
    where
      by_law :
          IsTransfer need (os.answer w.calls (io_call d fd buf have need))
          → Returns (After os d p ms fd buf count old r stack need (called have need w)) (
              after_transfer os me p
                (os.answer w.calls (io_call d fd buf have need)).ret
                (called have need w))
      by_law (inl (n, e, le)) =
          subst
            (λ z.
              Returns (After os d p ms fd buf count old r stack need (called have need w))
                (after_transfer os me p z (called have need w)))
            (sym e)
            (After-bytes os me d p ms fd buf count old r stack n have need (called have need w)
              pend.here pend.sum
              (omega (arith, bytes_moved-io_call d have need w.calls, pend.moved, ap amount e))
              (one_more (InBuffer-io_call d have need pend.sum) pend.inside) le pos_need)
      by_law (inr (e, ret, err, ne)) =
          subst
            (λ z.
              Returns (After os d p ms fd buf count old r stack need (called have need w))
                (after_transfer os me p z (called have need w)))
            (sym ret)
            (After-error os me d p ms fd buf count old r stack have need (called have need w)
              (Pending-called have need w pend (ap amount ret))
              (λ z. ne (sym (ap (λ o. errno_after o 0) err) ∙ z)))

  Settled-Frame :
      (w v : World)
      → Frame p w v
      → (next : Next) (u : World) → Settled os d p ms fd buf count old r stack v next u
      → Settled os d p ms fd buf count old r stack w next u
  Settled-Frame w v fr done u (en, fr') = (en, Frame-trans p w v u fr fr')
  Settled-Frame w v fr again u s = absurd s
  Settled-Frame w v fr later u (e, fr', rest) = (e, Frame-trans p w v u fr fr', rest)

  -- A round that a signal ended was made before the signals stop.
  signal_early :
      (quiet_from have need : ℕ) (w : World)
      → IsCalm os quiet_from
      → (called have need w).errno ≡ eintr
      → length w.calls < quiet_from
  signal_early quiet_from have need w calm intr = elim (dec_lt (length w.calls) quiet_from) [
    | yes early ↦ early
    | no late ↦ absurd (
        calm w.calls (io_call d fd buf have need) (omega arith)
          (errno_after-some _ 0 eintr intr (omega arith)))
  ]

  -- If no signal comes after `quiet_from` calls, and the fuel is more than the bytes left and the
  -- calls until then, the loop of a transfer with bytes left ends: the transfer has ended, or the
  -- socket would block.
  pub transfer_lem :
      (quiet_from : ℕ)
      → IsCalm os quiet_from
      → (k have need : ℕ) (w : World) → Pending os d p ms fd buf count old r stack have need w
      → 0 < need
      → need + (quiet_from - length w.calls) < k
      → Returns (Settled os d p ms fd buf count old r stack w) (transfer os me d k p w)
  unfolding transfer
  transfer_lem quiet_from calm zero have need w pend pos_need fuel = absurd (omega arith)
  transfer_lem quiet_from calm (suc k) have need w pend pos_need fuel =
      rw (load-ok (record w { errno = 0 }) p pend.here) (
        Returns-bind (After os d p ms fd buf count old r stack need w1) _
          (after_transfer os me p (os.answer w.calls (io_call d fd buf have need)).ret w1) _
          (round_lem have need w pend pos_need) (next_round (transfer_lem quiet_from calm k)))
    where
      w1 : World
      w1 = called have need w

      fr : Frame p w w1
      fr = record { env = refl; sems = refl; others = λ q o. refl }

      next_round :
          ((h n : ℕ) (v : World)
            → Pending os d p ms fd buf count old r stack h n v
            → 0 < n
            → n + (quiet_from - length v.calls) < k
            → Returns (Settled os d p ms fd buf count old r stack v) (transfer os me d k p v))
          → (next : Next) (w' : World) → After os d p ms fd buf count old r stack need w1 next w'
          → Returns (Settled os d p ms fd buf count old r stack w) (
              (elim next as (λ _. Co Next) [
                | done ↦ pure done
                | again ↦ transfer os me d k p
                | later ↦ pure later
              ])
                w')
      next_round ih done w' (en, fr') = (en, Frame-trans p w w1 w' fr fr')
      next_round ih later w' (e, fr', (h, pend')) =
          (e, Frame-trans p w w1 w' fr fr', (h, need, pend', pos_need))
      next_round ih again w' (fr', (n, h, pend', same, why)) =
          Returns-mono (Settled os d p ms fd buf count old r stack w')
            (Settled os d p ms fd buf count old r stack w) (transfer os me d k p w')
            (ih h n w' pend' (more why) (enough why))
            (λ next w''. Settled-Frame w w' (Frame-trans p w w1 w' fr fr') next w'')
        where
          counted : length w'.calls ≡ suc (length w.calls)
          counted = ap length same

          more : ((0 < n) × (n < need)) ⊎ ((n ≡ need) × (w1.errno ≡ eintr)) → 0 < n
          more (inl (pos_n, _)) = pos_n
          more (inr (e, _)) = omega arith

          enough :
              ((0 < n) × (n < need)) ⊎ ((n ≡ need) × (w1.errno ≡ eintr))
              → n + (quiet_from - length w'.calls) < k
          enough (inl (_, lt)) = omega (arith, counted)
          enough (inr (e, intr)) =
              omega (arith, counted, signal_early quiet_from have need w calm intr)
