-- ===== src/Base/Commands.antt =====
-- Commands over an explicit state: they return, or stop for one of four reasons.
use mathlib.Core.Path.{◌≡◌}
use mathlib.Core.Bool.{Bool, true, false}

pub data Stop : Type 0 where
  fault : Stop  -- an access through NULL, to memory that is not allocated, or of unset bytes
  aborted : Stop  -- `abort()`, or an `assert` that fails
  blocked : Stop  -- a wait that nothing has ended yet
  out_of_fuel : Stop  -- more rounds of a loop than the model was given

pub data Run (S A : Type 0) : Type 0 where
  ok : A → S → Run S A
  stop : Stop → Run S A

abbrev pub Cmd : Type 0 → Type 0 → Type 0
Cmd S A = S → Run S A

abbrev pub pure : {S A : Type 0} → A → Cmd S A
pure a s = ok a s

abbrev pub halt : {S A : Type 0} → Stop → Cmd S A
halt r s = stop r

module _ {S A B : Type 0} where
  abbrev pub and_then : Run S A → (A → Cmd S B) → Run S B
  and_then (ok a s) k = k a s
  and_then (stop r) k = stop r

  infixl 5 ◌>>=◌ ◌>>◌
  abbrev pub ◌>>=◌ : Cmd S A → (A → Cmd S B) → Cmd S B
  ◌>>=◌ m k s = and_then (m s) k

  abbrev pub ◌>>◌ : Cmd S A → Cmd S B → Cmd S B
  ◌>>◌ m n s = and_then (m s) λ _. n

abbrev pub get : {S : Type 0} → Cmd S S
get s = ok s s

abbrev pub modify : {S : Type 0} → (S → S) → Cmd S (Unit {0})
modify f s = ok tt (f s)

-- `assert(b)`.
abbrev pub assert : {S : Type 0} → Bool → Cmd S (Unit {0})
assert true s = ok tt s
assert false s = stop aborted

-- Total correctness of a run: it returns, and what it returns satisfies `P`.
abbrev pub Returns : {S A : Type 0} → (A → S → Type 0) → Run S A → Type 0
Returns P (ok a s) = P a s
Returns P (stop r) = ⊥

pub Returns-bind :
    {S A B : Type 0} (P : A → S → Type 0) (Q : B → S → Type 0) (r : Run S A) (k : A → Cmd S B)
    → Returns P r
    → ((a : A) (s : S) → P a s → Returns Q (k a s))
    → Returns Q (and_then r k)
Returns-bind P Q (ok a s) k p next = next a s p
Returns-bind P Q (stop r) k p next = absurd p

pub Returns-mono :
    {S A : Type 0} (P : A → S → Type 0) (Q : A → S → Type 0) (r : Run S A)
    → Returns P r
    → ((a : A) (s : S) → P a s → Q a s)
    → Returns Q r
Returns-mono P Q (ok a s) p weaken = weaken a s p
Returns-mono P Q (stop r) p weaken = absurd p

-- A run that returns gives the value and the state that it is said to give.
pub Returns-runs :
    {S A : Type 0} (P : A → S → Type 0) (r : Run S A)
    → Returns P r
    → Returns (λ a s. P a s × (r ≡ ok a s)) r
Returns-runs P (ok a s) p = (p, λ i. ok a s)
Returns-runs P (stop r) p = absurd p

-- A run that returns, and then stops.
pub Returns-stop :
    {S A B : Type 0} (P : A → S → Type 0) (why : Stop) (r : Run S A) (k : A → Cmd S B)
    → Returns P r
    → ((a : A) (s : S) → P a s → k a s ≡ stop why)
    → and_then r k ≡ stop why
Returns-stop P why (ok a s) k p next = next a s p
Returns-stop P why (stop r) k p next = absurd p
