-- ===== src/Base/Int.antt =====
-- The signed results of system calls, and the conversion of an `ssize_t` to an `int`.
use Prim.Native.Nat.{ℕ, ◌-◌, ◌%◌, ◌^◌, ◌<◌}
use mathlib.Core.Path.{◌≡◌, refl}
use mathlib.Core.Logic.{inl, inr}
use mathlib.Core.Bool.{Bool, true, false}
use native.Mathlib.Omega.{arith}
use async_coro.Base.Tests.{ltb→lt, Bool-cases, ltb, ◌==◌, if◌then◌else◌}

-- `negsuc n` is -(n + 1).
pub data ℤ : Type 0 where
  pos : ℕ → ℤ
  negsuc : ℕ → ℤ

abbrev pub minus_one : ℤ
minus_one = negsuc 0

abbrev pub is_neg : ℤ → Bool
is_neg (pos n) = false
is_neg (negsuc n) = true

abbrev pub is_zero : ℤ → Bool
is_zero (pos n) = n == 0
is_zero (negsuc n) = false

-- The value that a 64-bit signed number has after it is stored in a 32-bit `int`.
pub to_int : ℤ → ℤ
to_int (pos n) = let r = n % 2 ^ 32 in if ltb r (2 ^ 31) then pos r else negsuc (2 ^ 32 - 1 - r)
to_int (negsuc n) = let r = n % 2 ^ 32 in if ltb r (2 ^ 31) then negsuc r else pos (2 ^ 32 - 1 - r)

pub to_int-pos : (n : ℕ) → n < 2 ^ 31 → to_int (pos n) ≡ pos n
unfolding to_int
to_int-pos n h = ground arith

pub to_int-negsuc : (n : ℕ) → n < 2 ^ 31 → to_int (negsuc n) ≡ negsuc n
unfolding to_int
to_int-negsuc n h = ground arith

pub to_int-minus_one : to_int minus_one ≡ minus_one
unfolding to_int
to_int-minus_one = refl

upper_half : (n : ℕ) → ltb (n % 2 ^ 32) (2 ^ 31) ≡ false → 2 ^ 32 - 1 - n % 2 ^ 32 < 2 ^ 31
upper_half n high = ground arith

-- What is stored in an `int` stays as it is.
pub to_int-to_int : (z : ℤ) → to_int (to_int z) ≡ to_int z
unfolding to_int
to_int-to_int (pos n) = elim (Bool-cases (ltb (n % 2 ^ 32) (2 ^ 31))) [
  | inl low ↦ rw (low, to_int-pos (n % 2 ^ 32) (ltb→lt (n % 2 ^ 32) (2 ^ 31) low)) refl
  | inr high ↦ rw (high, to_int-negsuc (2 ^ 32 - 1 - n % 2 ^ 32) (upper_half n high)) refl
]
to_int-to_int (negsuc n) = elim (Bool-cases (ltb (n % 2 ^ 32) (2 ^ 31))) [
  | inl low ↦ rw (low, to_int-negsuc (n % 2 ^ 32) (ltb→lt (n % 2 ^ 32) (2 ^ 31) low)) refl
  | inr high ↦ rw (high, to_int-pos (2 ^ 32 - 1 - n % 2 ^ 32) (upper_half n high)) refl
]

pub to_int-zero : to_int (pos 0) ≡ pos 0
unfolding to_int
to_int-zero = refl
