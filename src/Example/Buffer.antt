-- ===== src/Example/Buffer.antt =====
-- The buffers of bytes of the programs of example/: an access outside a buffer, and the reading of a byte that was never
-- written, are faults.
use async_coro.Base.{
  ℕ, zero, suc, ◌+◌, ◌<◌, ◌≤◌, ◌≡◌, ◌≢◌, refl, ap, arith, Option, none, some, List, [], ◌∷◌, length,
  ok, stop, Stop, Cmd, pure, halt, ◌>>=◌,
}

abbrev pub Buffer : Type 0
Buffer = List (Option ℕ)

-- A buffer of `n` bytes that nothing has written.
abbrev pub fresh : ℕ → Buffer
fresh zero = []
fresh (suc n) = none ∷ fresh n

-- `char buffer[n] = {0}`.
abbrev pub zeros : ℕ → Buffer
zeros zero = []
zeros (suc n) = some 0 ∷ zeros n

abbrev pub some_cons : Option ℕ → Option Buffer → Option Buffer
some_cons x none = none
some_cons x (some b) = some (x ∷ b)

abbrev pub put : (i c : ℕ) → Buffer → Option Buffer
put i c [] = none
put zero c (x ∷ b) = some (some c ∷ b)
put (suc i) c (x ∷ b) = some_cons x (put i c b)

abbrev pub byte_at : ℕ → Buffer → Option ℕ
byte_at i [] = none
byte_at zero (x ∷ b) = x
byte_at (suc i) (x ∷ b) = byte_at i b

module _ {S : Type 0} where
  abbrev pub inside : {A : Type 0} → Option A → Cmd S A
  inside none = halt Stop.fault
  inside (some a) = pure a

  -- `b[i] = c`, and `b[i]`.
  unfoldable pub store : (i c : ℕ) → Buffer → Cmd S Buffer
  store i c b = inside (put i c b)

  unfoldable pub fetch : ℕ → Buffer → Cmd S ℕ
  fetch i b = inside (byte_at i b)

  -- What a read has stored from `i` on.
  unfoldable pub store_all : ℕ → List ℕ → Buffer → Cmd S Buffer
  unfolding store
  store_all i [] b = pure b
  store_all i (c ∷ cs) b = do b' ← store i c b; store_all (i + 1) cs b'

  -- `strlen`, which runs off a buffer that has no byte 0.
  unfoldable pub strlen : Buffer → Cmd S ℕ
  strlen [] = halt Stop.fault
  strlen (none ∷ b) = halt Stop.fault
  strlen (some zero ∷ b) = pure 0
  strlen (some (suc c) ∷ b) = do n ← strlen b; pure (n + 1)

-- The first `n` bytes.
abbrev pub text_of : ℕ → Buffer → List ℕ
text_of zero b = []
text_of (suc n) [] = []
text_of (suc n) (none ∷ b) = text_of n b
text_of (suc n) (some c ∷ b) = c ∷ text_of n b

pub put-outside : (i c : ℕ) (b : Buffer) → length b ≤ i → put i c b ≡ none
put-outside i c [] le = refl
put-outside zero c (x ∷ b) le = absurd (omega arith)
put-outside (suc i) c (x ∷ b) le = rw (put-outside i c b (omega arith)) refl

pub length-fresh : (n : ℕ) → length (fresh n) ≡ n
length-fresh zero = refl
length-fresh (suc n) = omega (arith, length-fresh n)

pub store-outside :
    {S : Type 0} (i c : ℕ) (b : Buffer) (s : S) → length b ≤ i → store i c b s ≡ stop Stop.fault
unfolding store
store-outside i c b s le = rw (put-outside i c b le) refl

-- What a write inside a buffer does.
pub record IsStored (i c : ℕ) (b b' : Buffer) : Type 0 where
  pub here : byte_at i b' ≡ some c
  pub elsewhere : (j : ℕ) → j ≢ i → byte_at j b' ≡ byte_at j b
  pub size : length b' ≡ length b

put-inside :
    (i c : ℕ) (b : Buffer)
    → i < length b
    → (b' : Buffer) × (put i c b ≡ some b') × IsStored i c b b'
put-inside i c [] lt = absurd (omega arith)
put-inside zero c (x ∷ b) lt =
    (some c ∷ b, refl, record { here = refl; elsewhere = other; size = refl })
  where
    other : (j : ℕ) → j ≢ 0 → byte_at j (some c ∷ b) ≡ byte_at j (x ∷ b)
    other zero ne = absurd (ne refl)
    other (suc j) ne = refl
put-inside (suc i) c (x ∷ b) lt = go (put-inside i c b (omega arith))
  where
    go :
        ((b' : Buffer) × (put i c b ≡ some b') × IsStored i c b b')
        → (b' : Buffer) × (put (suc i) c (x ∷ b) ≡ some b') × IsStored (suc i) c (x ∷ b) b'
    go (b', e, st) = (
      x ∷ b',
      rw e refl,
      record { here = st.here; elsewhere = other b' st; size = ap suc st.size },
    )
      where
        other :
            (b' : Buffer)
            → IsStored i c b b'
            → (j : ℕ) → j ≢ suc i
            → byte_at j (x ∷ b') ≡ byte_at j (x ∷ b)
        other b' st zero ne = refl
        other b' st (suc j) ne = st.elsewhere j (λ e. ne (ap suc e))

pub store-inside :
    {S : Type 0} (i c : ℕ) (b : Buffer) (s : S)
    → i < length b
    → (b' : Buffer) × (store i c b s ≡ ok b' s) × IsStored i c b b'
unfolding store
store-inside i c b s lt = let done = put-inside i c b lt in (done.0, rw done.1 refl, done.2)
