-- ===== src/Flags.antt =====
-- `crt_set_nonblock` and `crt_set_block` of src/acoro.c.
pub mod Laws
pub mod Tests
use async_coro.Base.{ℕ, ℤ, is_neg, if◌then◌else◌, pure, ◌>>=◌}
use async_coro.World.Calls.{Call, Os, nonblock_bit, set_bit, clear_bit}
use async_coro.World.State.{Co, get_errno, sys}

-- The result is 0, or the `errno` of the call that failed.
module _ (os : Os) (fd : ℤ) where
  abbrev set_flags : (ℤ → ℤ) → Co ℕ
  set_flags f = do
    flag ← sys os (Call.getfl fd)
    if is_neg flag
        then get_errno
        else do r ← sys os (Call.setfl fd (f flag)); if is_neg r then get_errno else pure 0

  unfoldable pub crt_set_nonblock : Co ℕ
  crt_set_nonblock = set_flags (set_bit nonblock_bit)

  unfoldable pub crt_set_block : Co ℕ
  crt_set_block = set_flags (clear_bit nonblock_bit)
