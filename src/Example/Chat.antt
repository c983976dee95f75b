-- ===== src/Example/Chat.antt =====
-- `chat_server_func` of example/chat_server.c: a coroutine that reads lines and sends each to the client whose number it
-- starts with. What it prints is left out.

pub mod Laws
use async_coro.Base.{
  subst, ℕ, zero, suc, ◌+◌, ◌-◌, ◌*◌, ◌<◌, ◌≤◌, ◌≡◌, ◌≢◌, ◌⊎◌, inl, inr, refl, ap, sym, ◌∙◌, arith,
  ℤ, pos, negsuc, minus_one, is_neg, is_zero, Bool, true, false, not, ◌&&◌, ◌||◌, Option, none,
  some, List, [], ◌∷◌, ◌++◌, has, has-append, length, length-append, ◌==◌, ltb, leb, if◌then◌else◌,
  Bool-cases, Option-cases, eq→==, ne→==, ==→eq, ==→ne, Run, ok, stop, Stop, Cmd, pure, halt, get,
  ◌>>=◌, ◌>>◌, and_then, modify, assert, Returns, Returns-bind, Returns-mono, Returns-stop,
}
use async_coro.Notify.{is_one}
use async_coro.Queue.Mem.{update}
use async_coro.Example.{Got, Tcp}
use async_coro.Example.Buffer.{Buffer, fresh, store, strlen, text_of}
use async_coro.Example.Echo.{newline}

-- How one pass over the inner loop ends: the peer has gone, a line was empty, or there is a message.
pub data Heard : Type 0 where
  hung_up blank : Heard
  message : (cnt : ℕ) → Buffer → Heard

abbrev pub is_pos : ℤ → Bool
is_pos (pos zero) = false
is_pos (pos (suc n)) = true
is_pos (negsuc n) = false

-- The number of entries of `chat_client_fd`.
abbrev pub max_clients : ℕ
max_clients = 1024 * 1024

-- The bytes of "not online\n".
abbrev pub not_online : List ℕ
not_online = 110 ∷ 111 ∷ 116 ∷ 32 ∷ 111 ∷ 110 ∷ 108 ∷ 105 ∷ 110 ∷ 101 ∷ 10 ∷ []

-- `chat_client_fd`: whether each client is online.
abbrev pub Clients : Type 0
Clients = ℕ → Bool

-- Indexing it by an `int`.
abbrev pub client_of : ℤ → Option ℕ
client_of (pos n) = if ltb n max_clients then some n else none
client_of (negsuc n) = none

abbrev pub or_zero : Option ℤ → ℤ
or_zero none = pos 0
or_zero (some z) = z

-- The table after a pass, and whether another follows.
pub record Pass : Type 0 where
  pub again : Bool
  pub clients : Clients

-- `sscanf buf` is the number that `sscanf(buf, "%d", …)` stores, if it stores one.
module _ {S : Type 0} (tcp : Tcp S) (sscanf : Buffer → Option ℤ) (fd : ℤ) (size : ℕ) where
  -- `chat_client_fd[fd] = b`, where that is an entry: `mark` leaves the table alone for a number outside.
  abbrev pub mark : Bool → Clients → Clients
  mark b clients = mark_at (client_of fd)
    where
      mark_at : Option ℕ → Clients
      mark_at none = clients
      mark_at (some id) = update clients id b

  -- The end of a line of `cnt` bytes, the last of which is made the line end.
  unfoldable pub finish_line : (cnt : ℕ) → Buffer → Cmd S Heard
  unfolding store
  finish_line cnt buf = do
    b ← store (cnt - 1) 0 buf
    b' ← store (cnt - 1) newline b
    b'' ← store cnt 0 b'
    pure (message cnt b'')

  -- What follows the storing of the byte `c`; `rest` is the next round.
  unfoldable pub after_byte : (cnt c : ℕ) → Buffer → (rest : Cmd S Heard) → Cmd S Heard
  unfolding finish_line
  after_byte cnt c buf rest =
      if (c == newline) || (cnt == size - 1)
      then (if cnt == 1 then pure blank else finish_line cnt buf)
      else rest

  -- `buf[cnt++] = c` and what follows it.
  unfoldable pub take_byte :
      (cnt : ℕ) → Buffer → (rest : Buffer → Cmd S Heard) → List ℕ → Cmd S Heard
  unfolding after_byte store
  take_byte cnt buf rest [] = halt Stop.fault
  take_byte cnt buf rest (c ∷ _) = do
    buf' ← store cnt c buf
    after_byte (cnt + 1) c buf' (rest buf')

  -- The inner loop, with `left` rounds to go. A read gives one byte at most, and stores it in `c`.
  unfoldable pub read_message : (left cnt : ℕ) → Buffer → Cmd S Heard
  unfolding take_byte
  read_message zero cnt buf = halt Stop.out_of_fuel
  read_message (suc left) cnt buf = do
    g ← tcp.read fd 1
    if is_one g.nread
        then take_byte cnt buf (λ b. read_message left (cnt + 1) b) g.bytes
        else (if not (is_pos g.nread) then pure hung_up else halt Stop.aborted)

  -- What follows a message. The number of the client is 0 if `sscanf` finds none.
  unfoldable pub send_message : Clients → Buffer → Cmd S (Unit {0})
  unfolding strlen
  send_message clients buf = to_client (client_of (or_zero (sscanf buf)))
    where
      to_client : Option ℕ → Cmd S (Unit {0})
      to_client none = halt Stop.fault
      to_client (some id) =
          if clients id
          then (do n ← strlen buf; tcp.write (pos id) (text_of n buf); pure tt)
          else (do tcp.write fd not_online; pure tt)

  -- One pass from the label `go` on. What other coroutines do to the table of the clients in the
  -- meantime is left out.
  unfoldable pub chat_pass : Clients → Cmd S Pass
  unfolding read_message send_message
  chat_pass clients = do h ← read_message size 0 (fresh size); go_on h
    where
      go_on : Heard → Cmd S Pass
      go_on hung_up = do
        tcp.sock_close fd
        tcp.exit
        pure (record { again = false; clients = mark false clients })
      go_on blank = pure (record { again = true; clients = clients })
      go_on (message cnt buf) = do
        send_message clients buf
        pure (record { again = true; clients = clients })

  -- Passes, `fuel` at most, until the peer has gone.
  unfoldable pub chat_passes : (fuel : ℕ) → Clients → Cmd S Clients
  unfolding chat_pass
  chat_passes zero clients = halt Stop.out_of_fuel
  chat_passes (suc fuel) clients = do
    p ← chat_pass clients
    if p.again then chat_passes fuel p.clients else pure p.clients

  unfoldable pub chat_server_func : (fuel : ℕ) → Clients → Cmd S Clients
  unfolding chat_passes
  chat_server_func fuel clients = enter (client_of fd)
    where
      enter : Option ℕ → Cmd S Clients
      enter none = halt Stop.fault
      enter (some id) = do tcp.set_nonblock fd; chat_passes fuel (update clients id true)
