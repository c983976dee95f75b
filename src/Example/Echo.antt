-- ===== src/Example/Echo.antt =====
-- `echo_func` of example/echo_server.c: a coroutine that reads a line and sends it back. What it prints, its
-- count of connections, and `malloc` and `free` of its buffer are left out: the buffer is there.
pub mod Overrun
use async_coro.Base.{
  ℕ, zero, suc, ◌+◌, ◌-◌, ◌*◌, ℤ, pos, not, ◌==◌, if◌then◌else◌, Stop, Cmd, pure, halt, ◌>>=◌, ◌>>◌,
}
use async_coro.Notify.{is_one}
use async_coro.Example.{Tcp}
use async_coro.Example.Buffer.{Buffer, fresh, store, fetch, store_all, strlen, text_of}

-- `MAX_BUF_LEN`.
abbrev pub max_buf_len : ℕ
max_buf_len = 1024 * 1024

abbrev pub newline : ℕ
newline = 10

-- The locals after the loop.
pub record Line : Type 0 where
  pub nread : ℤ
  pub i : ℕ
  pub buf : Buffer

module _ {S : Type 0} (tcp : Tcp S) (fd : ℤ) where
  -- The loop, with `left` rounds to go.
  unfoldable pub read_line : (left i : ℕ) (nread : ℤ) → Buffer → Cmd S Line
  unfolding store_all fetch
  read_line zero i nread buf = pure (record { nread = nread; i = i; buf = buf })
  read_line (suc left) i nread buf = do
    g ← tcp.read_to fd 1 (pos 5000)
    buf' ← store_all i g.bytes buf
    if not (is_one g.nread) then pure (record { nread = g.nread; i = i; buf = buf' }) else (do
      c ← fetch i buf'
      if c == newline
          then pure (record { nread = g.nread; i = i; buf = buf' })
          else read_line left (i + 1) g.nread buf')

  -- What follows the loop. `buf[strlen(buf) - 1]` is outside for an empty string.
  unfoldable pub answer_line : Line → Cmd S (Unit {0})
  unfolding store strlen
  answer_line l = do
    buf ← store (l.i + 1) 0 l.buf
    if not (is_one l.nread) then tcp.sock_close fd >> tcp.exit else (do
      buf' ← store (l.i + 1) 0 buf
      n ← strlen buf'
      tcp.write fd (text_of n buf')
      m ← strlen buf'
      if m == 0 then halt Stop.fault else store (m - 1) 0 buf'
      tcp.sock_close fd
      tcp.exit)

  -- With a buffer of `size` bytes.
  unfoldable pub echo_func : (size : ℕ) → Cmd S (Unit {0})
  unfolding read_line answer_line
  echo_func size = do
    tcp.set_nonblock fd
    l ← read_line (size - 1) 0 (pos 0) (fresh size)
    answer_line l
