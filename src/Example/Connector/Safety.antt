-- ===== src/Example/Connector/Safety.antt =====
-- The clients of example/ stay inside their buffers.
use async_coro.Base.{
  ℕ, zero, suc, ◌+◌, ◌<◌, ◌≤◌, ◌≡◌, ◌⊎◌, inl, inr, refl, ap, ◌∙◌, arith, ℤ, pos, negsuc, is_neg,
  Bool, true, false, none, some, List, [], ◌∷◌, length, ◌==◌, Bool-cases, ==→eq, ==→ne, Run, ok,
  stop, Stop, Cmd, and_then, assert,
}
use async_coro.Example.{Got, Tcp}
use async_coro.Example.Replies.{Reply, gives, fails, length-firsts, got, any_tcp}
use async_coro.Example.Buffer.{
  Buffer, byte_at, zeros, store, store_all, strlen, text_of, IsStored, store-inside,
}
use async_coro.Example.Connector.{
  is_length, index_of, talk, echo_connector, wait_token, infinite_connector,
}

-- A run that does not fault; what it returns, if it does, satisfies `P`.
abbrev pub Sound : {S A : Type 0} → (A → S → Type 0) → Run S A → Type 0
Sound P (ok a s) = P a s
Sound P (stop Stop.fault) = ⊥
Sound P (stop Stop.aborted) = Unit
Sound P (stop Stop.blocked) = Unit
Sound P (stop Stop.out_of_fuel) = Unit

Sound-bind :
    {S A B : Type 0} (P : A → S → Type 0) (Q : B → S → Type 0) (r : Run S A) (k : A → Cmd S B)
    → Sound P r
    → ((a : A) (s : S) → P a s → Sound Q (k a s))
    → Sound Q (and_then r k)
Sound-bind P Q (ok a s) k p next = next a s p
Sound-bind P Q (stop Stop.fault) k p next = absurd p
Sound-bind P Q (stop Stop.aborted) k p next = tt
Sound-bind P Q (stop Stop.blocked) k p next = tt
Sound-bind P Q (stop Stop.out_of_fuel) k p next = tt

Sound-mono :
    {S A : Type 0} (P Q : A → S → Type 0) (r : Run S A)
    → Sound P r
    → ((a : A) (s : S) → P a s → Q a s)
    → Sound Q r
Sound-mono P Q (ok a s) p weaken = weaken a s p
Sound-mono P Q (stop Stop.fault) p weaken = absurd p
Sound-mono P Q (stop Stop.aborted) p weaken = tt
Sound-mono P Q (stop Stop.blocked) p weaken = tt
Sound-mono P Q (stop Stop.out_of_fuel) p weaken = tt

index_le :
    (g : Got)
    → is_neg g.nread ≡ false
    → (g.nread ≡ pos (length g.bytes)) ⊎ (is_neg g.nread ≡ true)
    → index_of g.nread ≤ length g.bytes
index_le g got (inl e) = rw e (omega arith)
index_le g got (inr error) = absurd (ground (arith, got, error))

abbrev pub Anything : {S A : Type 0} → A → S → Type 0
Anything a s = Unit

-- An interface whose calls do not fault, and whose reads store at most what was asked for and return its length, or are an error.
record IsSound {S : Type 0} (tcp : Tcp S) : Type 0 where
  reads :
      (fd : ℤ) (count : ℕ) (s : S)
      → Sound
          (λ g _.
            (length g.bytes ≤ count) × ((g.nread ≡ pos (length g.bytes)) ⊎ (is_neg g.nread ≡ true)))
          (tcp.read fd count s)
  writes : (fd : ℤ) (bytes : List ℕ) (s : S) → Sound Anything (tcp.write fd bytes s)
  writes_to :
      (fd : ℤ) (bytes : List ℕ) (msec : ℤ) (s : S) → Sound Anything (tcp.write_to fd bytes msec s)
  connects : (ip port : ℕ) (s : S) → Sound Anything (tcp.connect ip port s)
  closes : (fd : ℤ) (s : S) → Sound Anything (tcp.sock_close fd s)
  exits : (s : S) → Sound Anything (tcp.exit s)

-- A buffer of `size` bytes, all of which have been written.
pub record IsWhole (size : ℕ) (b : Buffer) : Type 0 where
  pub same_size : length b ≡ size
  pub set : (i : ℕ) → i < size → (c : ℕ) × (byte_at i b ≡ some c)

length-zeros : (n : ℕ) → length (zeros n) ≡ n
length-zeros zero = refl
length-zeros (suc n) = omega (arith, length-zeros n)

byte_at-zeros : (n i : ℕ) → i < n → byte_at i (zeros n) ≡ some 0
byte_at-zeros zero i lt = absurd (omega arith)
byte_at-zeros (suc n) zero lt = refl
byte_at-zeros (suc n) (suc i) lt = byte_at-zeros n i (omega arith)

zeros-IsWhole : (n : ℕ) → IsWhole n (zeros n)
zeros-IsWhole n = record { same_size = length-zeros n; set = λ i lt. (0, byte_at-zeros n i lt) }

stored-IsWhole :
    (size i c : ℕ) (b b' : Buffer) → IsWhole size b → IsStored i c b b' → IsWhole size b'
stored-IsWhole size i c b b' whole st = record {
  same_size = st.size ∙ whole.same_size;
  set = all_set;
}
  where
    all_set : (j : ℕ) → j < size → (d : ℕ) × (byte_at j b' ≡ some d)
    all_set j lt = elim (Bool-cases (j == i)) [
      | inl here ↦ (c, ap (λ k. byte_at k b') (==→eq j i here) ∙ st.here)
      | inr there ↦ let old = whole.set j lt in (old.0, st.elsewhere j (==→ne j i there) ∙ old.1)
    ]

module _ {S : Type 0} (size : ℕ) where
  store-Sound :
      (i c : ℕ) (b : Buffer) (s : S)
      → IsWhole size b
      → i < size
      → Sound (λ b' _. IsWhole size b' × IsStored i c b b') (store i c b s)
  store-Sound i c b s whole lt =
      let done = store-inside i c b s (omega (arith, whole.same_size)) in
      rw done.1 (stored-IsWhole size i c b done.0 whole done.2, done.2)

  store_all-Sound :
      (cs : List ℕ) (i : ℕ) (b : Buffer) (s : S)
      → IsWhole size b
      → i + length cs ≤ size
      → Sound
          (λ b' _. IsWhole size b' × ((j : ℕ) → i + length cs ≤ j → byte_at j b' ≡ byte_at j b))
          (store_all i cs b s)
  unfolding store_all
  store_all-Sound [] i b s whole le = (whole, λ j out. refl)
  store_all-Sound (c ∷ cs) i b s whole le =
      Sound-bind _ _ (store i c b s) _ (store-Sound i c b s whole (omega arith))
        (λ b' t (whole', st).
          Sound-mono _ _ (store_all (i + 1) cs b' t)
            (store_all-Sound cs (i + 1) b' t whole' (omega arith))
            (λ b'' u (whole'', kept). (
              whole'',
              λ j out. kept j (omega arith) ∙ st.elsewhere j (λ e. absurd (omega (arith, e))),
            )))

  -- `strlen` on a buffer with a byte 0 stays inside it.
  strlen-Sound :
      (j : ℕ) (b : Buffer) (s : S)
      → ((i : ℕ) → i ≤ j → (c : ℕ) × (byte_at i b ≡ some c))
      → byte_at j b ≡ some 0
      → Sound (λ n _. n ≤ j) (strlen b s)
  unfolding strlen
  strlen-Sound j [] s set ends = absurd (ground (arith, ends))
  strlen-Sound j (none ∷ b) s set ends = absurd (ground (arith, (set 0 (omega arith)).1))
  strlen-Sound j (some zero ∷ b) s set ends = omega arith
  strlen-Sound zero (some (suc c) ∷ b) s set ends = absurd (ground (arith, ends))
  strlen-Sound (suc j) (some (suc c) ∷ b) s set ends =
      Sound-bind _ _ (strlen b s) _ (strlen-Sound j b s (λ i le. set (suc i) (omega arith)) ends)
        (λ n t le. omega arith)

assert-Sound : {S : Type 0} (b : Bool) (s : S) → Sound (λ _ _. b ≡ true) (assert b s)
assert-Sound true s = refl
assert-Sound false s = tt

length_index : (n : ℕ) (z : ℤ) → is_length n z ≡ true → index_of z ≡ n
length_index n (pos k) e = ==→eq k n e
length_index n (negsuc k) e = absurd (ground (arith, e))

module _ {S : Type 0} (tcp : Tcp S) (sound : IsSound tcp) (ip port : ℕ) where
  wait_token-Sound :
      (has_token : Buffer → Bool) (fuel : ℕ) (fd : ℤ) (b : Buffer) (s : S)
      → IsWhole 2048 b
      → Sound Anything (wait_token tcp ip port has_token fuel fd b s)
  unfolding wait_token
  wait_token-Sound has_token zero fd b s whole = tt
  wait_token-Sound has_token (suc fuel) fd b s whole =
      Sound-bind _ _ (tcp.read fd 20 s) _ (sound.reads fd 20 s) (λ g t (fits, result).
        elim (Bool-cases (is_neg g.nread)) [
          | inl error ↦ rw error tt
          | inr got ↦ rw got (
              Sound-bind _ _ (store_all 0 g.bytes b t) _
                (store_all-Sound 2048 g.bytes 0 b t whole (omega arith))
                (λ b' u (whole', _).
                  Sound-bind _ _ (store (index_of g.nread) 0 b' u) _
                    (store-Sound 2048 (index_of g.nread) 0 b' u whole'
                      (omega (arith, index_le g got result)))
                    (λ b'' v (whole'', _). elim (Bool-cases (has_token b'')) [
                      | inl found ↦ rw found tt
                      | inr more ↦ rw more (wait_token-Sound has_token fuel fd b'' v whole'')
                    ])))
        ])

  infinite_connector-in_buffer :
      (has_token : Buffer → Bool) (fuel : ℕ) (request : List ℕ) (s : S)
      → length request < 2048
      → Sound Anything (infinite_connector tcp ip port has_token fuel request s)
  unfolding infinite_connector
  infinite_connector-in_buffer has_token fuel request s fits =
      Sound-bind _ _ (store_all 0 request (zeros 2048) s) _
        (store_all-Sound 2048 request 0 (zeros 2048) s (zeros-IsWhole 2048) (omega arith))
        (λ b t (whole, _).
          Sound-bind _ _ (store 2047 0 b t) _ (store-Sound 2048 2047 0 b t whole (omega arith))
            (λ b' u (whole', st).
              Sound-bind _ _ (strlen b' u) _
                (strlen-Sound 2048 2047 b' u (λ i le. whole'.set i (omega arith)) st.here)
                (λ len v _.
                  Sound-bind _ _ (tcp.connect ip port v) _ (sound.connects ip port v) (λ fd x _.
                    elim (Bool-cases (is_neg fd)) [
                      | inl refused ↦ rw refused tt
                      | inr connected ↦ rw connected (
                          Sound-bind _ _ (tcp.write_to fd (text_of len b') (pos 10000) x) _
                            (sound.writes_to fd (text_of len b') (pos 10000) x)
                            (λ nwrite y _. elim (Bool-cases (is_length len nwrite)) [
                              | inr less ↦ rw less tt
                              | inl all ↦ rw all (
                                  Sound-bind _ _ (wait_token tcp ip port has_token fuel fd b' y) _
                                    (wait_token-Sound has_token fuel fd b' y whole')
                                    (λ _ z _.
                                      Sound-bind _ _ (tcp.sock_close fd z) _ (sound.closes fd z)
                                        (λ _ z' _. sound.exits z')))
                            ]))
                    ]))))

  talk-Sound :
      (number : List ℕ) (fd : ℤ) (s : S)
      → length number < 128
      → Sound Anything (talk tcp ip port fd number s)
  unfolding talk
  talk-Sound number fd s fits =
      Sound-bind _ _ (store_all 0 number (zeros 128) s) _
        (store_all-Sound 128 number 0 (zeros 128) s (zeros-IsWhole 128) (omega arith))
        (λ b t (whole, kept).
          Sound-bind _ _ (strlen b t) _
            (strlen-Sound 128 127 b t (λ i le. whole.set i (omega arith))
              (kept 127 (omega arith) ∙ byte_at-zeros 128 127 (omega arith)))
            (λ len u short.
              Sound-bind _ _ (tcp.write fd (text_of len b) u) _ (sound.writes fd (text_of len b) u)
                (λ nwrite v _.
                  Sound-bind _ _ (assert (is_length len nwrite) v) _
                    (assert-Sound (is_length len nwrite) v)
                    (λ _ x _.
                      Sound-bind _ _ (tcp.read fd len x) _ (sound.reads fd len x) (λ g y (room, _).
                        Sound-bind _ _ (store_all 0 g.bytes b y) _
                          (store_all-Sound 128 g.bytes 0 b y whole (omega arith))
                          (λ b' z (whole', _).
                            Sound-bind _ _ (assert (is_length len g.nread) z) _
                              (assert-Sound (is_length len g.nread) z)
                              (λ _ z' all.
                                Sound-bind _ _ (store (index_of g.nread) 0 b' z') _
                                  (store-Sound 128 (index_of g.nread) 0 b' z' whole'
                                    (omega (arith, short, length_index len g.nread all)))
                                  (λ _ z'' _.
                                    Sound-bind _ _ (tcp.sock_close fd z'') _ (sound.closes fd z'')
                                      (λ _ v' _. sound.exits v')))))))))

  echo_connector-in_buffer :
      (number : List ℕ) (s : S)
      → length number < 128
      → Sound Anything (echo_connector tcp ip port number s)
  unfolding echo_connector
  echo_connector-in_buffer number s fits =
      Sound-bind _ _ (tcp.connect ip port s) _ (sound.connects ip port s) (λ fd t _.
        elim (Bool-cases (is_neg fd)) [
          | inl refused ↦ rw refused (sound.exits t)
          | inr connected ↦ rw connected (talk-Sound number fd t fits)
        ])

-- A read stores at most what was asked for and returns its length, or is an error.
reads_within :
    (count : ℕ) (r : Reply)
    → (length (got count r).bytes ≤ count)
      × (((got count r).nread ≡ pos (length (got count r).bytes))
          ⊎ (is_neg (got count r).nread ≡ true))
reads_within count (gives l) = (length-firsts count l, inl refl)
reads_within count (fails k) = (omega arith, inr refl)

any_tcp-IsSound : (replies : ℕ → Reply) (results : ℕ → ℤ) → IsSound (any_tcp replies results)
any_tcp-IsSound replies results = record {
  reads = λ fd count n. reads_within count (replies n);
  writes = λ fd bytes n. tt;
  writes_to = λ fd bytes msec n. tt;
  connects = λ ip port n. tt;
  closes = λ fd n. tt;
  exits = λ n. tt;
}

module _ (replies : ℕ → Reply) (results : ℕ → ℤ) (ip port : ℕ) where
  -- Whatever the calls answer, the connector of example/infinite_connector.c never leaves its buffer, however many messages it
  -- waits for, if its request leaves room for a byte 0.
  pub infinite_connector-Sound :
      (has_token : Buffer → Bool) (fuel : ℕ) (request : List ℕ) (n : ℕ)
      → length request < 2048
      → Sound Anything
          (infinite_connector (any_tcp replies results) ip port has_token fuel request n)
  infinite_connector-Sound =
      infinite_connector-in_buffer (any_tcp replies results) (any_tcp-IsSound replies results) ip
        port

  -- Whatever the calls answer, the connector of example/echo_client.c never leaves its buffer, if the text of its number
  -- leaves room for a byte 0.
  echo_connector-Sound :
      (number : List ℕ) (n : ℕ)
      → length number < 128
      → Sound Anything (echo_connector (any_tcp replies results) ip port number n)
  echo_connector-Sound =
      echo_connector-in_buffer (any_tcp replies results) (any_tcp-IsSound replies results) ip port
