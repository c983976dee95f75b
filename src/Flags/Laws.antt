-- ===== src/Flags/Laws.antt =====
-- What `crt_set_nonblock` and `crt_set_block` of src/acoro.c ask the kernel for.
use async_coro.Base.{
  ◌+◌, ◌-◌, ◌^◌, ◌≤◌, ◌≡◌, refl, ap, arith, ℤ, pos, negsuc, is_neg, true, false, List, ◌∷◌, ◌>>◌,
  Returns,
}
use async_coro.World.Calls.{Call, Os, nonblock_bit, bit_at, has_bit, set_bit, clear_bit}
use async_coro.World.State.{World}
use async_coro.Flags.{crt_set_nonblock, crt_set_block}

-- The bit is set, and no other bit changes.
pub set_nonblock-has_bit : (z : ℤ) → has_bit nonblock_bit (set_bit nonblock_bit z) ≡ true
set_nonblock-has_bit (pos n) = ground arith
set_nonblock-has_bit (negsuc n) = ground arith

-- Clearing the bit that was set gives the old flags back, if it was not set before.
pub clear_set_nonblock :
    (z : ℤ) → has_bit nonblock_bit z ≡ false → clear_bit nonblock_bit (set_bit nonblock_bit z) ≡ z
clear_set_nonblock (pos n) h = rw (h, set_there) (ap pos (omega arith))
  where
    set_there : bit_at nonblock_bit (n + 2 ^ nonblock_bit) ≡ true
    set_there = ground arith
clear_set_nonblock (negsuc n) h = rw (set_there, gone) (ap negsuc (omega (arith, big)))
  where
    set_there : bit_at nonblock_bit n ≡ true
    set_there = ground arith

    big : 2 ^ nonblock_bit ≤ n
    big = ground arith

    gone : bit_at nonblock_bit (n - 2 ^ nonblock_bit) ≡ false
    gone = ground arith

module _ (os : Os) (fd : ℤ) (w : World) where
  -- The flags of `fd`, as the kernel tells them first.
  abbrev pub flags_of : ℤ
  flags_of = (os.answer w.calls (Call.getfl fd)).ret

  abbrev pub set_calls : List Call
  set_calls = Call.setfl fd (set_bit nonblock_bit flags_of) ∷ Call.getfl fd ∷ w.calls

  -- A descriptor made non-blocking and then blocking: the kernel is asked for the flags with the bit
  -- set, then for the flags that it had before, if it had blocked, the calls succeed, and the kernel
  -- gives back the flags it was asked to set.
  pub nonblock_block_lem :
      is_neg flags_of ≡ false
      → has_bit nonblock_bit flags_of ≡ false
      → is_neg
          (os.answer (Call.getfl fd ∷ w.calls) (Call.setfl fd (set_bit nonblock_bit flags_of))).ret
        ≡ false
      → (os.answer set_calls (Call.getfl fd)).ret ≡ set_bit nonblock_bit flags_of
      → is_neg (set_bit nonblock_bit flags_of) ≡ false
      → is_neg (os.answer (Call.getfl fd ∷ set_calls) (Call.setfl fd flags_of)).ret ≡ false
      → Returns
          (λ r w'.
            (r ≡ 0)
            × (has_bit nonblock_bit (set_bit nonblock_bit flags_of) ≡ true)
            × (w'.calls ≡ Call.setfl fd flags_of ∷ Call.getfl fd ∷ set_calls)
            × (w'.tasks ≡ w.tasks)
            × (w'.env ≡ w.env))
          ((crt_set_nonblock os fd >> crt_set_block os fd) w)
  unfolding crt_set_nonblock crt_set_block
  nonblock_block_lem fine blocks set told fine' reset =
      rw (fine, set, told, fine', clear_set_nonblock flags_of blocks, reset)
        (refl, set_nonblock-has_bit flags_of, refl, refl, refl)
