-- ===== src/Example/Echo2/Overrun.antt =====
-- `connection_processor` of example/echo_server2.c when the line that the peer sends fills its buffer.
use async_coro.Base.{ℕ, zero, suc, ◌+◌, ◌≡◌, refl, arith, ℤ, length, ne→==, stop, Stop}
use async_coro.Example.Buffer.{Buffer, zeros, store_all, store-inside, store-outside}
use async_coro.Example.Replies.{Reply, any_tcp}
use async_coro.Example.Echo.{newline}
use async_coro.Example.Echo.Overrun.{GivesLine, fetch-ok}
use async_coro.Example.Echo2.{read_until, connection_processor}

length-zeros : (n : ℕ) → length (zeros n) ≡ n
length-zeros zero = refl
length-zeros (suc n) = omega (arith, length-zeros n)

module _ (replies : ℕ → Reply) (results : ℕ → ℤ) (fd : ℤ) where
  read_until-overrun :
      (left i : ℕ) (b : Buffer) (n : ℕ)
      → i + suc left ≡ length b
      → GivesLine replies n left
      → read_until (any_tcp replies results) fd (suc left) i b n ≡ stop Stop.fault
  unfolding read_until store_all
  read_until-overrun zero i b n full reply =
      let (b₁, stores, st) = store-inside i newline b (suc n) (omega arith) in
      rw
        (
          reply,
          stores,
          fetch-ok i newline b₁ (suc n) st.here,
          store-outside (i + 1) 0 b₁ (suc n) (omega (arith, st.size)),
        )
        refl
  read_until-overrun (suc left) i b n full ((c, plain, reply), line) =
      let (b₁, stores, st) = store-inside i c b (suc n) (omega arith) in
      rw (reply, stores, fetch-ok i c b₁ (suc n) st.here, ne→== c newline plain)
        (read_until-overrun left (i + 1) b₁ (suc n) (omega (arith, st.size)) line)

  -- Whatever else the calls answer, when the reads give a line whose end is the last byte that the buffer has room for, the
  -- byte 0 is written behind the buffer.
  pub processor-overrun :
      (room n : ℕ)
      → GivesLine replies n room
      → connection_processor (any_tcp replies results) fd (suc room) n ≡ stop Stop.fault
  unfolding connection_processor
  processor-overrun room n line =
      rw
        (read_until-overrun room 0 (zeros (suc room)) n (omega (arith, length-zeros (suc room)))
          line)
        refl
