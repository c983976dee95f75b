-- ===== src/Socket.antt =====
-- `crt_tcp_prepare_sock` of src/acoro.c.
pub mod Laws
pub mod Tests
use async_coro.Base.{ℕ, ℤ, negsuc, is_neg, is_zero, not, ◌==◌, if◌then◌else◌, pure, ◌>>=◌, ◌>>◌}
use async_coro.World.Calls.{Call, Os}
use async_coro.World.State.{Co, change, get_errno, curr, sys}
use async_coro.Flags.{crt_set_nonblock}

-- `CRT_ERR_SOCKET` and the others, from -1 to -5.
abbrev pub err_socket : ℤ
err_socket = negsuc 0

abbrev pub err_bind : ℤ
err_bind = negsuc 1

abbrev pub err_listen : ℤ
err_listen = negsuc 2

abbrev pub err_set_nonblock : ℤ
err_set_nonblock = negsuc 3

abbrev pub err_setsockopt : ℤ
err_setsockopt = negsuc 4

module _ (os : Os) where
  -- The label `exception`.
  unfoldable pub give_up : (sockfd ret : ℤ) → Co ℤ
  give_up sockfd ret = do
    p ← curr
    e ← get_errno
    change p (λ t. record t { ret = record { val = t.ret.val; err_code = e } })
    if is_neg sockfd then pure tt else (do sys os (Call.close sockfd); pure tt)
    pure ret

  unfoldable pub crt_tcp_prepare_sock : (addr port : ℕ) → Co ℤ
  crt_tcp_prepare_sock addr port = do
    fd ← sys os Call.socket
    if is_neg fd then give_up fd err_socket else do
      o ← sys os (Call.setsockopt fd)
      if not (is_zero o) then give_up fd err_setsockopt else do
        b ← sys os (Call.bind fd addr port)
        if is_neg b then give_up fd err_bind else do
          l ← sys os (Call.listen fd)
          if is_neg l then give_up fd err_listen else do
            n ← crt_set_nonblock os fd
            if not (n == 0) then give_up fd err_set_nonblock else pure fd
