-- ===== src/Worker/Sock/Transfer.antt =====
-- The `go:` loop of `ev_sock_read` and `ev_sock_write` in src/acoro.c: it ends, it stays inside the
-- buffer, and the bytes that it counts add up to what was asked for.
use async_coro.Base.{
  negsuc, [], ℕ, ◌+◌, ◌-◌, ◌<◌, ◌≤◌, ◌≡◌, ◌≢◌, ◌⊎◌, inl, inr, refl, ◌∙◌, arith, ℤ, pos, minus_one,
  is_zero, to_int, false, some, List, ◌∷◌, ◌==◌, ltb, if◌then◌else◌, Bool-cases, ==→eq, ==→ne,
  ltb→lt, to_int-minus_one, eq→==, ok, pure, and_then, Returns, Returns-bind,
}
use async_coro.Queue.Mem.{Ptr}
use async_coro.Task.{Action, sock_done, io_arg, IoArg, Ret, Task}
use async_coro.World.Calls.{Call, Os, eintr, eagain}
use async_coro.World.State.{World, with_task, load-ok, change-ok}
use async_coro.Worker.Sock.{
  Dir, io_action, Next, done, again, later, ev_sock_stop, after_transfer, advance, is_quiet,
}

-- Every call made since the calls `old` satisfies `P`.
pub data Since (P : Call → Type 0) (old : List Call) : List Call → Type 0 where
  no_calls : Since P old old
  one_more : {c : Call} {cs : List Call} → P c → Since P old cs → Since P old (c ∷ cs)

-- A transfer from or to the buffer `buf` of `count` bytes ends inside it.
abbrev pub InBuffer : (buf count : ℕ) → Call → Type 0
InBuffer buf count (Call.read_fd _ b off n) = (b ≡ buf) × (off + n ≤ count)
InBuffer buf count (Call.write_fd _ b off n) = (b ≡ buf) × (off + n ≤ count)
InBuffer buf count _ = Unit

-- The bytes that the kernel says it has moved, over the reads and writes of a history of calls.
abbrev pub amount : ℤ → ℕ
amount (pos n) = n
amount (negsuc n) = 0

abbrev pub bytes_moved : Os → List Call → ℕ
bytes_moved os [] = 0
bytes_moved os (Call.read_fd fd buf off n ∷ h) =
    bytes_moved os h + amount (os.answer h (Call.read_fd fd buf off n)).ret
bytes_moved os (Call.write_fd fd buf off n ∷ h) =
    bytes_moved os h + amount (os.answer h (Call.write_fd fd buf off n)).ret
bytes_moved os (_ ∷ h) = bytes_moved os h

-- The arguments of a socket call that were all written.
abbrev pub sock_arg : (ms fd : ℤ) (buf count : ℕ) → IoArg
sock_arg ms fd buf count = record { timeout_ms = some ms; fd = fd; buf = buf; count = count }

-- A task of socket IO that has moved `have` bytes and is to move `need` more.
abbrev pub io_task : Action → (ms fd : ℤ) (buf count : ℕ) → Ret → Ptr → (have need : ℕ) → Task
io_task act ms fd buf count r stack have need = record {
  action = act;
  args = io_arg (sock_arg ms fd buf count);
  ret = r;
  stack_ptr = stack;
  ec = record { have_io = have; need_io = need };
}

-- What a transfer for the task `p` leaves alone.
pub record Frame (p : Ptr) (w w' : World) : Type 0 where
  pub env : w'.env ≡ w.env
  pub sems : w'.sems ≡ w.sems
  pub others : (q : Ptr) → (p == q) ≡ false → w'.tasks q ≡ w.tasks q

pub Frame-trans : (p : Ptr) (a b c : World) → Frame p a b → Frame p b c → Frame p a c
Frame-trans p a b c f g = record {
  env = g.env ∙ f.env;
  sems = g.sems ∙ f.sems;
  others = λ q ne. g.others q ne ∙ f.others q ne;
}

-- The transfer has ended, with an error, or with the number of bytes that the kernel has moved since `old`.
pub record Ended (os : Os) (p : Ptr) (ms fd : ℤ) (buf count : ℕ) (old : List Call) (stack : Ptr)
    (w : World) : Type 0 where
  pub have : ℕ
  pub need : ℕ
  pub err : ℕ
  pub val : ℤ
  pub here :
      w.tasks p
      ≡ some
          (io_task sock_done ms fd buf count (record { val = val; err_code = err }) stack have need)
  pub sum : have + need ≡ count
  pub moved : bytes_moved os w.calls ≡ bytes_moved os old + have
  pub result : (val ≡ to_int (pos have)) ⊎ ((val ≡ minus_one) × (err ≢ 0))
  pub inside : Since (InBuffer buf count) old w.calls

module _ (os : Os) (d : Dir) (p : Ptr) (ms fd : ℤ) (buf count : ℕ) (old : List Call) (r : Ret)
    (stack : Ptr) where
  -- The transfer goes on.
  pub record Pending (have need : ℕ) (w : World) : Type 0 where
    pub here : w.tasks p ≡ some (io_task (io_action d) ms fd buf count r stack have need)
    pub sum : have + need ≡ count
    pub moved : bytes_moved os w.calls ≡ bytes_moved os old + have
    pub inside : Since (InBuffer buf count) old w.calls

  -- What a round leads to, from `need` bytes to move: `again` means progress or a signal.
  abbrev pub After : ℕ → World → Next → World → Type 0
  After need w done w' = Ended os p ms fd buf count old stack w' × Frame p w w'
  After need w again w' =
      Frame p w w'
      × ((n : ℕ) × (h : ℕ) × Pending h n w'
          × (w'.calls ≡ w.calls)
          × (((0 < n) × (n < need)) ⊎ ((n ≡ need) × (w.errno ≡ eintr))))
  After need w later w' = (w'.errno ≡ eagain) × Frame p w w' × ((h : ℕ) × Pending h need w')

unfoldable pub stop_calls : (me : ℕ) (p : Ptr) → ℤ → List Call → List Call
stop_calls me p ms cs =
    if is_zero ms then Call.io_stop me p ∷ cs else Call.timer_stop me p ∷ Call.io_stop me p ∷ cs

-- The state after `ev_sock_stop`.
abbrev pub stopped : ℕ → Ptr → ℤ → ℤ → ℕ → Task → World → World
stopped me p ms val err t w =
    with_task p (record t { ret = record { val = to_int val; err_code = err }; action = sock_done })
      (record w { calls = stop_calls me p ms w.calls })

abbrev to_stop : ℤ → ℕ → Task → Task
to_stop val err t = record t {
  ret = record { val = to_int val; err_code = err };
  action = sock_done;
}

pub ev_sock_stop_lem :
    (os : Os) (me : ℕ) (p : Ptr) (val : ℤ) (err : ℕ) (ms fd : ℤ) (buf count : ℕ) (act : Action)
    (r : Ret) (stack have need : ℕ) (w : World)
    → w.tasks p ≡ some (io_task act ms fd buf count r stack have need)
    → ev_sock_stop os me p val err w
      ≡ ok tt (stopped me p ms val err (io_task act ms fd buf count r stack have need) w)
unfolding ev_sock_stop stop_calls
ev_sock_stop_lem os me p val err ms fd buf count act r stack have need w e =
    let halted : World = record w { calls = Call.io_stop me p ∷ w.calls } in
    let timer_halted : World = record w {
      calls = Call.timer_stop me p ∷ Call.io_stop me p ∷ w.calls;
    } in
    rw (load-ok halted p e) (elim (Bool-cases (is_zero ms)) [
      | inl z ↦ rw (z, change-ok halted p (to_stop val err) e)
      | inr z ↦ rw (z, change-ok timer_halted p (to_stop val err) e)
    ])

Since-stop :
    (buf count : ℕ) (old : List Call) (me : ℕ) (p : Ptr) (ms : ℤ) (cs : List Call)
    → Since (InBuffer buf count) old cs
    → Since (InBuffer buf count) old (stop_calls me p ms cs)
unfolding stop_calls
Since-stop buf count old me p ms cs all = elim (Bool-cases (is_zero ms)) [
  | inl z ↦ rw z (one_more tt all)
  | inr z ↦ rw z (one_more tt (one_more tt all))
]

bytes_moved-stop :
    (os : Os) (me : ℕ) (p : Ptr) (ms : ℤ) (cs : List Call)
    → bytes_moved os (stop_calls me p ms cs) ≡ bytes_moved os cs
unfolding stop_calls
bytes_moved-stop os me p ms cs = elim (Bool-cases (is_zero ms)) [
  | inl z ↦ rw z refl
  | inr z ↦ rw z refl
]

module _ (os : Os) (me : ℕ) (d : Dir) (p : Ptr) (ms fd : ℤ) (buf count : ℕ) (old : List Call)
    (r : Ret) (stack : Ptr) where
  -- Stopping ends the transfer.
  pub stop-Ended :
      (act : Action) (val : ℤ) (err have need : ℕ) (w : World)
      → w.tasks p ≡ some (io_task act ms fd buf count r stack have need)
      → have + need ≡ count
      → bytes_moved os w.calls ≡ bytes_moved os old + have
      → Since (InBuffer buf count) old w.calls
      → (to_int val ≡ to_int (pos have)) ⊎ ((to_int val ≡ minus_one) × (err ≢ 0))
      → Returns
          (λ _ w'. Ended os p ms fd buf count old stack w' × Frame p w w')
          (ev_sock_stop os me p val err w)
  stop-Ended act val err have need w e sum tally all res =
      rw (ev_sock_stop_lem os me p val err ms fd buf count act r stack have need w e) (
        record {
          have = have;
          need = need;
          err = err;
          val = to_int val;
          here = rw (eq→== p p refl);
          sum = sum;
          moved = bytes_moved-stop os me p ms w.calls ∙ tally;
          result = res;
          inside = Since-stop buf count old me p ms w.calls all;
        },
        record { env = refl; sems = refl; others = λ q ne. rw ne },
      )

  Frame-refl : (w : World) → Frame p w w
  Frame-refl w = record { env = refl; sems = refl; others = λ q o. refl }

  stop-After :
      (val : ℤ) (err have need n : ℕ) (w w0 : World)
      → w.tasks p ≡ some (io_task (io_action d) ms fd buf count r stack have need)
      → have + need ≡ count
      → bytes_moved os w.calls ≡ bytes_moved os old + have
      → Since (InBuffer buf count) old w.calls
      → Frame p w0 w
      → (to_int val ≡ to_int (pos have)) ⊎ ((to_int val ≡ minus_one) × (err ≢ 0))
      → Returns
          (After os d p ms fd buf count old r stack n w0)
          (and_then (ev_sock_stop os me p val err w) (λ _. pure done))
  stop-After val err have need n w w0 e sum tally all fr res =
      Returns-bind (λ _ w'. Ended os p ms fd buf count old stack w' × Frame p w w') _
        (ev_sock_stop os me p val err w) _
        (stop-Ended (io_action d) val err have need w e sum tally all res)
        (λ _ w' (en, fr'). (en, Frame-trans p w0 w w' fr fr'))

  pub After-error :
      (have need : ℕ) (w : World)
      → Pending os d p ms fd buf count old r stack have need w
      → w.errno ≢ 0
      → Returns
          (After os d p ms fd buf count old r stack need w)
          (after_transfer os me p minus_one w)
  unfolding after_transfer
  After-error have need w pend ne = elim (Bool-cases (w.errno == eintr)) [
    | inl intr ↦
        rw intr (Frame-refl w, (need, have, pend, refl, inr (refl, ==→eq w.errno eintr intr)))
    | inr other ↦ rw other (elim (Bool-cases (w.errno == eagain)) [
      | inl wait ↦ rw wait (==→eq w.errno eagain wait, Frame-refl w, (have, pend))
      | inr bad ↦ rw bad (
          stop-After minus_one w.errno have need need w w pend.here pend.sum pend.moved pend.inside
            (Frame-refl w) (inr (to_int-minus_one, ne)))
    ])
  ]

  pub After-bytes :
      (n have need : ℕ) (w : World)
      → w.tasks p ≡ some (io_task (io_action d) ms fd buf count r stack have need)
      → have + need ≡ count
      → bytes_moved os w.calls ≡ bytes_moved os old + (have + n)
      → Since (InBuffer buf count) old w.calls
      → n ≤ need
      → 0 < need
      → Returns (After os d p ms fd buf count old r stack need w) (after_transfer os me p (pos n) w)
  unfolding after_transfer
  After-bytes n have need w before total tally all_in le some_left =
      rw (load-ok w p before) (elim (Bool-cases (n == need)) [
        | inl all ↦
            rw (all, change-ok w p (advance n) before, load-ok moved p here)
              (stop-After (pos (have + n)) 0 (have + n) (need - n) need moved w here sum tally
                all_in fr (inl refl))
        | inr part ↦ rw part (elim (Bool-cases (ltb 0 n)) [
          | inl more ↦
              rw (more, change-ok w p (advance n) before)
                (
                  fr,
                  (
                    need - n,
                    have + n,
                    record { here = here; sum = sum; moved = tally; inside = all_in },
                    refl,
                    inl (omega (arith, le, ==→ne n need part), omega (arith, ltb→lt 0 n more)),
                  ),
                )
          | inr nothing ↦ rw nothing (elim (Bool-cases (is_quiet w.errno)) [
            | inl quiet ↦ rw quiet (
                stop-After (pos have) w.errno have need need w w before total (none_moved nothing)
                  all_in (Frame-refl w) (inl refl))
            | inr loud ↦ rw loud (
                stop-After minus_one w.errno have need need w w before total (none_moved nothing)
                  all_in (Frame-refl w) (inr (to_int-minus_one, not_zero loud)))
          ])
        ])
      ])
    where
      moved : World
      moved = with_task p (advance n (io_task (io_action d) ms fd buf count r stack have need)) w

      here :
          moved.tasks p ≡ some (io_task (io_action d) ms fd buf count r stack (have + n) (need - n))
      here = rw (eq→== p p refl)

      sum : have + n + (need - n) ≡ count
      sum = omega (arith, total, le)

      fr : Frame p w moved
      fr = record { env = refl; sems = refl; others = λ q ne. rw ne }

      none_moved : ltb 0 n ≡ false → bytes_moved os w.calls ≡ bytes_moved os old + have
      none_moved nothing = ground arith

      not_zero : is_quiet w.errno ≡ false → w.errno ≢ 0
      not_zero loud = ground arith
