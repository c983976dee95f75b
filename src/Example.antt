-- ===== src/Example.antt =====
-- The programs of example/: the part of the interface of src/acoro.h that they use, and the buffers of
-- bytes that they keep.
pub mod Buffer
pub mod Echo
pub mod Chat
pub mod Echo2
pub mod Connector
pub mod Pingpong
pub mod Replies
pub mod Servers
pub mod Tests
use async_coro.Base.{
  subst, ℕ, zero, suc, ◌+◌, ◌-◌, ◌*◌, ◌<◌, ◌≤◌, ◌≡◌, ◌≢◌, ◌⊎◌, inl, inr, refl, ap, sym, ◌∙◌, arith,
  ℤ, pos, negsuc, minus_one, is_neg, is_zero, Bool, true, false, not, ◌&&◌, ◌||◌, Option, none,
  some, List, [], ◌∷◌, ◌++◌, has, has-append, length, length-append, ◌==◌, ltb, leb, if◌then◌else◌,
  Bool-cases, Option-cases, eq→==, ne→==, ==→eq, ==→ne, Run, ok, stop, Stop, Cmd, pure, halt, get,
  ◌>>=◌, ◌>>◌, and_then, modify, assert, Returns, Returns-bind, Returns-mono,
}
use async_coro.Queue.Mem.{Ptr, null}
use async_coro.Task.{Task}
use async_coro.World.Calls.{Call, Os}
use async_coro.World.State.{World, Co, tell, sys}
use async_coro.Notify.{is_one}
use async_coro.Flags.{crt_set_nonblock}
use async_coro.Api.{
  crt_exit, crt_create, crt_tcp_read, crt_tcp_read_to, crt_tcp_write, crt_tcp_write_to,
  crt_tcp_blocked_connect, crt_tcp_accept,
}

-- What a read returns, and the bytes that it has stored.
pub record Got : Type 0 where
  pub nread : ℤ
  pub bytes : List ℕ

-- The calls of the interface on a state `S`. Buffers are passed by their bytes.
pub record Tcp (S : Type 0) : Type 0 where
  pub read : (fd : ℤ) (count : ℕ) → Cmd S Got
  pub read_to : (fd : ℤ) (count : ℕ) (msec : ℤ) → Cmd S Got
  pub write : (fd : ℤ) → List ℕ → Cmd S ℤ
  pub write_to : (fd : ℤ) → List ℕ → (msec : ℤ) → Cmd S ℤ
  pub set_nonblock : (fd : ℤ) → Cmd S ℕ
  pub connect : (ip port : ℕ) → Cmd S ℤ
  pub sock_close : (fd : ℤ) → Cmd S (Unit {0})
  pub exit : Cmd S (Unit {0})

-- The interface as src/acoro.c implements it: `buf` is the address of the caller's buffer, and
-- `stored w` the bytes that the kernel put there last.
abbrev pub tcp_of : Os → (swap : Co (Unit {0})) (buf : ℕ) (stored : World → List ℕ) → Tcp World
tcp_of os swap buf stored = record {
  read = λ fd count. (do
    r ← crt_tcp_read os swap fd buf count
    w ← get
    pure (record { nread = r; bytes = stored w }));
  read_to = λ fd count msec. (do
    r ← crt_tcp_read_to os swap fd buf count msec
    w ← get
    pure (record { nread = r; bytes = stored w }));
  write = λ fd bytes. crt_tcp_write os swap fd buf (length bytes);
  write_to = λ fd bytes msec. crt_tcp_write_to os swap fd buf (length bytes) msec;
  set_nonblock = λ fd. crt_set_nonblock os fd;
  connect = λ ip port. crt_tcp_blocked_connect os swap ip port;
  sock_close = λ fd. (do sys os (Call.close fd); pure tt);
  exit = crt_exit;
}
