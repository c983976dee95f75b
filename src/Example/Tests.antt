-- ===== src/Example/Tests.antt =====
-- The programs of example/ with answers that come one after the other.
use async_coro.Base.{
  ◌≡◌, stop, Stop, ℕ, zero, suc, arith, refl, pos, ◌-◌, true, none, some, [], ◌∷◌, Option, ℤ,
  Returns,
}
use async_coro.Example.Buffer.{Buffer, fresh}
use async_coro.Example.Replies.{Reply, gives, fails, any_tcp}
use async_coro.Example.Echo.{echo_func}
use async_coro.Example.Echo.Overrun.{echo-overrun}
use async_coro.Example.Echo2.{connection_processor}
use async_coro.Example.Echo2.Overrun.{processor-overrun}
use async_coro.Example.Chat.{read_message}
use async_coro.Example.Chat.Laws.{Fits, read_message-Fits}
use async_coro.Example.Connector.{infinite_connector}
use async_coro.Example.Connector.Safety.{Sound, Anything, infinite_connector-Sound}

-- Dots, more than are asked for, and then an error.
abbrev dots : ℕ → Reply
dots zero = gives (46 ∷ 46 ∷ [])
dots (suc zero) = gives (46 ∷ [])
dots (suc (suc n)) = fails 0

abbrev digit_in : Buffer → Option ℤ
digit_in [] = none
digit_in (none ∷ b) = none
digit_in (some c ∷ b) = some (pos (c - 48))

read_message-Fits_example :
    Returns
      (λ h _. Fits 5 h)
      (read_message (any_tcp dots (λ _. pos 7)) digit_in (pos 8) 5 5 0 (fresh 5) 0)
read_message-Fits_example =
    read_message-Fits dots (λ _. pos 7) digit_in (pos 8) 5 5 0 (fresh 5) 0 (omega arith)
      (omega arith) refl

infinite_connector-Sound_example :
    Sound Anything
      (infinite_connector (any_tcp dots (λ _. pos 4)) 1 80 (λ _. true) 3 (71 ∷ 69 ∷ 84 ∷ 10 ∷ []) 0)
infinite_connector-Sound_example =
    infinite_connector-Sound dots (λ _. pos 4) 1 80 (λ _. true) 3 (71 ∷ 69 ∷ 84 ∷ 10 ∷ []) 0
      (omega arith)

-- A line of two bytes.
abbrev hi : ℕ → Reply
hi zero = gives (104 ∷ [])
hi (suc zero) = gives (105 ∷ [])
hi (suc (suc n)) = gives (10 ∷ [])

-- Another call comes before the reads of `echo_func`.
abbrev late : ℕ → Reply
late zero = fails 0
late (suc n) = hi n

echo-overrun_example : echo_func (any_tcp late (λ _. pos 0)) (pos 8) 3 0 ≡ stop Stop.fault
echo-overrun_example =
    echo-overrun late (λ _. pos 0) (pos 8) 2 0
      (
        (104, (λ e. absurd (omega (arith, e))), refl),
        ((105, (λ e. absurd (omega (arith, e))), refl), tt),
      )

processor-overrun_example :
    connection_processor (any_tcp hi (λ _. pos 0)) (pos 8) 3 0 ≡ stop Stop.fault
processor-overrun_example =
    processor-overrun hi (λ _. pos 0) (pos 8) 2 0
      (
        (104, (λ e. absurd (omega (arith, e))), refl),
        ((105, (λ e. absurd (omega (arith, e))), refl), refl),
      )
