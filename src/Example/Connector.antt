-- ===== src/Example/Connector.antt =====
-- `connector` of example/echo_client.c and of example/infinite_connector.c. What they print, and the count of the
-- live connections that `main` prints, are left out. `id`, which is printed only, has no place here.
pub mod Safety
use async_coro.Base.{
  subst, ℕ, zero, suc, ◌+◌, ◌-◌, ◌*◌, ◌<◌, ◌≤◌, ◌≡◌, ◌≢◌, ◌⊎◌, inl, inr, refl, ap, sym, ◌∙◌, arith,
  ℤ, pos, negsuc, minus_one, is_neg, is_zero, Bool, true, false, not, ◌&&◌, ◌||◌, Option, none,
  some, List, [], ◌∷◌, ◌++◌, has, has-append, length, length-append, ◌==◌, ltb, leb, if◌then◌else◌,
  Bool-cases, Option-cases, eq→==, ne→==, ==→eq, ==→ne, Run, ok, stop, Stop, Cmd, pure, halt, get,
  ◌>>=◌, ◌>>◌, and_then, modify, assert, Returns, Returns-bind, Returns-mono, Returns-stop,
}
use async_coro.Example.{Got, Tcp}
use async_coro.Example.Buffer.{Buffer, zeros, store, store_all, strlen, text_of}

-- Whether a result is the length `n`.
abbrev pub is_length : ℕ → ℤ → Bool
is_length n (pos k) = k == n
is_length n (negsuc k) = false

-- `buf[nread]` for a result that is no error.
abbrev pub index_of : ℤ → ℕ
index_of (pos k) = k
index_of (negsuc k) = 0

module _ {S : Type 0} (tcp : Tcp S) (ip port : ℕ) where
  -- example/echo_client.c: `number` is the text that `snprintf` makes of a random number, with its line end.
  unfoldable pub talk : (fd : ℤ) (number : List ℕ) → Cmd S (Unit {0})
  unfolding store store_all strlen
  talk fd number = do
    buf ← store_all 0 number (zeros 128)
    len ← strlen buf
    nwrite ← tcp.write fd (text_of len buf)
    assert (is_length len nwrite)
    g ← tcp.read fd len
    buf' ← store_all 0 g.bytes buf
    assert (is_length len g.nread)
    store (index_of g.nread) 0 buf'
    tcp.sock_close fd
    tcp.exit

  unfoldable pub echo_connector : (number : List ℕ) → Cmd S (Unit {0})
  unfolding talk
  echo_connector number = do
    fd ← tcp.connect ip port
    if is_neg fd then tcp.exit else talk fd number

  -- example/infinite_connector.c: the loop that waits for a message, with `fuel` rounds; `has_token` is
  -- `strstr(buf, "token")`.
  unfoldable pub wait_token :
      (has_token : Buffer → Bool) (fuel : ℕ) (fd : ℤ) → Buffer → Cmd S (Unit {0})
  unfolding store store_all
  wait_token has_token zero fd buf = halt Stop.out_of_fuel
  wait_token has_token (suc fuel) fd buf = do
    g ← tcp.read fd 20
    if is_neg g.nread then halt Stop.aborted else (do
      buf' ← store_all 0 g.bytes buf
      buf'' ← store (index_of g.nread) 0 buf'
      if has_token buf'' then pure tt else wait_token has_token fuel fd buf'')

  -- `request` is what `snprintf` makes of the header.
  unfoldable pub infinite_connector :
      (has_token : Buffer → Bool) (fuel : ℕ) (request : List ℕ) → Cmd S (Unit {0})
  unfolding wait_token strlen
  infinite_connector has_token fuel request = do
    buf ← store_all 0 request (zeros 2048)
    buf' ← store 2047 0 buf
    len ← strlen buf'
    fd ← tcp.connect ip port
    if is_neg fd then halt Stop.aborted else (do
      nwrite ← tcp.write_to fd (text_of len buf') (pos 10000)
      if not (is_length len nwrite)
          then halt Stop.aborted
          else (do wait_token has_token fuel fd buf'; tcp.sock_close fd; tcp.exit))
