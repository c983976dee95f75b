-- ===== src/Example/Echo2.antt =====
-- `connection_processor` of example/echo_server2.c: a coroutine that reads a line and sends it back. What it prints is
-- left out.
pub mod Overrun
use async_coro.Base.{ℕ, zero, suc, ◌+◌, ℤ, ◌==◌, if◌then◌else◌, Cmd, pure, ◌>>=◌, ◌>>◌}
use async_coro.Example.{Tcp}
use async_coro.Example.Buffer.{Buffer, zeros, store, fetch, store_all, strlen, text_of}
use async_coro.Example.Echo.{newline}

module _ {S : Type 0} (tcp : Tcp S) (fd : ℤ) where
  -- The loop, with `left` rounds to go. A read that fails is printed, and the loop goes on.
  unfoldable pub read_until : (left i : ℕ) → Buffer → Cmd S Buffer
  unfolding store store_all fetch
  read_until zero i buf = pure buf
  read_until (suc left) i buf = do
    g ← tcp.read fd 1
    buf' ← store_all i g.bytes buf
    c ← fetch i buf'
    if c == newline then store (i + 1) 0 buf' else read_until left (i + 1) buf'

  -- With `char buffer[size]`.
  unfoldable pub connection_processor : (size : ℕ) → Cmd S (Unit {0})
  unfolding read_until strlen
  connection_processor size = do
    buf ← read_until size 0 (zeros size)
    n ← strlen buf
    tcp.write fd (text_of n buf)
    tcp.sock_close fd
    tcp.exit
