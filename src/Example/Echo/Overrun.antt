-- ===== src/Example/Echo/Overrun.antt =====
-- `echo_func` of example/echo_server.c when the peer sends more than its buffer holds.
use async_coro.Base.{
  ℕ, zero, suc, ◌+◌, ◌-◌, ◌<◌, ◌≡◌, ◌≢◌, refl, ap, ◌∙◌, arith, ℤ, pos, some, [], ◌∷◌, length, ne→==,
  ok, stop, Stop,
}
use async_coro.Example.Buffer.{
  Buffer, fresh, length-fresh, byte_at, store_all, fetch, store-inside, store-outside,
}
use async_coro.Example.Replies.{Reply, got, any_tcp}
use async_coro.Example.Echo.{newline, read_line, answer_line, echo_func}

-- The reads from the `n`-th call on give a byte each, none of which ends a line, `left` times.
abbrev pub GivesText : (ℕ → Reply) → (n left : ℕ) → Type 0
GivesText replies n zero = Unit
GivesText replies n (suc left) =
    ((c : ℕ) × (c ≢ newline) × (got 1 (replies n) ≡ record { nread = pos 1; bytes = c ∷ [] }))
    × GivesText replies (suc n) left

pub fetch-ok :
    {S : Type 0} (i c : ℕ) (b : Buffer) (s : S) → byte_at i b ≡ some c → fetch i b s ≡ ok c s
unfolding fetch
fetch-ok i c b s e = rw e refl

-- The same, and then a line end.
abbrev pub GivesLine : (ℕ → Reply) → (n left : ℕ) → Type 0
GivesLine replies n zero = got 1 (replies n) ≡ record { nread = pos 1; bytes = newline ∷ [] }
GivesLine replies n (suc left) =
    ((c : ℕ) × (c ≢ newline) × (got 1 (replies n) ≡ record { nread = pos 1; bytes = c ∷ [] }))
    × GivesLine replies (suc n) left

module _ (replies : ℕ → Reply) (results : ℕ → ℤ) (fd : ℤ) where
  -- The loop goes on for all its rounds.
  read_line-all :
      (left i : ℕ) (nread : ℤ) (b : Buffer) (n : ℕ)
      → i + left < length b
      → GivesText replies n left
      → (z : ℤ) × (b' : Buffer) × (m : ℕ) × (read_line (any_tcp replies results) fd left i nread b n
          ≡ ok (record { nread = z; i = i + left; buf = b' }) m)
        × (length b' ≡ length b)
  unfolding read_line store_all
  read_line-all zero i nread b n room text =
      (nread, b, n, ap (λ k. ok (record { nread = nread; i = k; buf = b }) n) (no_more i), refl)
    where
      no_more : (i : ℕ) → i ≡ i + 0
      no_more i = omega arith
  read_line-all (suc left) i nread b n room ((c, plain, reply), text) =
      let (b₁, stores, st) = store-inside i c b (suc n) (omega arith) in
      let (z, b', m, runs, same) =
        read_line-all left (i + 1) (pos 1) b₁ (suc n) (omega (arith, st.size)) text in
      (
        z,
        b',
        m,
        rw (reply, stores, fetch-ok i c b₁ (suc n) st.here, ne→== c newline plain, runs)
            (ap (λ k. ok (record { nread = z; i = k; buf = b' }) m) (further i left)),
        same ∙ st.size,
      )
    where
      further : (i left : ℕ) → i + 1 + left ≡ i + suc left
      further i left = omega arith

  -- Whatever else the calls answer, once the reads give as many bytes as the buffer has room for, less one, none of which ends
  -- a line, the byte 0 is written behind the buffer.
  pub echo-overrun :
      (room n : ℕ)
      → GivesText replies (suc n) room
      → echo_func (any_tcp replies results) fd (suc room) n ≡ stop Stop.fault
  unfolding echo_func answer_line
  echo-overrun room n text =
      let (z, b', m, runs, same) =
        read_line-all room 0 (pos 0) (fresh (suc room)) (suc n)
          (omega (arith, length-fresh (suc room))) text in
      rw
        (
          one_less room,
          runs,
          store-outside (0 + room + 1) 0 b' m (omega (arith, same, length-fresh (suc room))),
        )
        refl
    where
      one_less : (k : ℕ) → suc k - 1 ≡ k
      one_less k = omega arith
