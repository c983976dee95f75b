-- ===== src/Example/Chat/Laws.antt =====
-- `chat_server_func` of example/chat_server.c stays inside its buffer, but not inside its table.
use async_coro.Base.{
  ℕ, zero, suc, ◌+◌, ◌-◌, ◌<◌, ◌≤◌, ◌≡◌, ◌⊎◌, inl, inr, refl, ◌∙◌, arith, ℤ, pos, negsuc, false,
  not, ◌||◌, Option, some, [], ◌∷◌, length, ◌==◌, if◌then◌else◌, Bool-cases, ==→ne, ok, Stop, Cmd,
  pure, halt, ◌>>=◌, Returns, Returns-bind,
}
use async_coro.Notify.{is_one}
use async_coro.Example.{Got, Tcp}
use async_coro.Example.Replies.{Reply, gives, fails, got, any_tcp}
use async_coro.Example.Buffer.{Buffer, byte_at, store, IsStored, store-inside}
use async_coro.Example.Echo.{newline}
use async_coro.Example.Chat.{
  Heard, hung_up, blank, message, is_pos, finish_line, after_byte, take_byte, read_message,
}

-- Every read of one byte returns it, or a result that is not positive.
record IsReader {S : Type 0} (tcp : Tcp S) : Type 0 where
  reads :
      (fd : ℤ) (s : S)
      → Returns
          (λ g _.
            ((c : ℕ) × (g ≡ record { nread = pos 1; bytes = c ∷ [] })) ⊎ (is_pos g.nread ≡ false))
          (tcp.read fd 1 s)

-- A message is a line of at least two bytes, with its end, in a buffer of `size` bytes, and the byte 0 behind it.
pub record IsMessage (size cnt : ℕ) (b : Buffer) : Type 0 where
  pub more_than_end : 1 < cnt
  pub room : cnt < size
  pub same_size : length b ≡ size
  pub ends : byte_at (cnt - 1) b ≡ some newline
  pub terminated : byte_at cnt b ≡ some 0

abbrev pub Fits : ℕ → Heard → Type 0
Fits size hung_up = Unit
Fits size blank = Unit
Fits size (message cnt b) = IsMessage size cnt b

not_one : (z : ℤ) → is_pos z ≡ false → is_one z ≡ false
not_one (pos zero) e = refl
not_one (pos (suc n)) e = absurd (ground (arith, e))
not_one (negsuc n) e = refl

module _ {S : Type 0} (tcp : Tcp S) (reader : IsReader tcp) (sscanf : Buffer → Option ℤ) (fd : ℤ)
    (size : ℕ) where
  finish_line-Fits :
      (cnt : ℕ) (b : Buffer) (s : S)
      → 1 < cnt
      → cnt < size
      → length b ≡ size
      → Returns (λ h _. Fits size h) (finish_line tcp sscanf fd size cnt b s)
  unfolding finish_line
  finish_line-Fits cnt b s many fits same = go (store-inside (cnt - 1) 0 b s (omega arith))
    where
      third :
          (b₁ b₂ : Buffer)
          → IsStored (cnt - 1) newline b₁ b₂
          → length b₁ ≡ size
          → ((b₃ : Buffer) × (store cnt 0 b₂ s ≡ ok b₃ s) × IsStored cnt 0 b₂ b₃)
          → Returns (λ h _. Fits size h) ((store cnt 0 b₂ >>= λ b. pure (message cnt b)) s)
      third b₁ b₂ st len (b₃, e, st') = rw e (record {
        more_than_end = many;
        room = fits;
        same_size = st'.size ∙ st.size ∙ len;
        ends = st'.elsewhere (cnt - 1) (λ z. absurd (omega (arith, z))) ∙ st.here;
        terminated = st'.here;
      })

      second :
          (b₁ : Buffer)
          → length b₁ ≡ size
          → ((b₂ : Buffer) × (store (cnt - 1) newline b₁ s ≡ ok b₂ s)
              × IsStored (cnt - 1) newline b₁ b₂)
          → Returns
              (λ h _. Fits size h)
              ((do b' ← store (cnt - 1) newline b₁; b'' ← store cnt 0 b'; pure (message cnt b'')) s)
      second b₁ len (b₂, e, st) =
          rw e (third b₁ b₂ st len (store-inside cnt 0 b₂ s (omega (arith, st.size))))

      go :
          ((b₁ : Buffer) × (store (cnt - 1) 0 b s ≡ ok b₁ s) × IsStored (cnt - 1) 0 b b₁)
          → Returns
              (λ h _. Fits size h)
              ((do
                b₁ ← store (cnt - 1) 0 b
                b' ← store (cnt - 1) newline b₁
                b'' ← store cnt 0 b'
                pure (message cnt b''))
                s)
      go (b₁, e, st) = rw e (
          second b₁ (st.size ∙ same) (store-inside (cnt - 1) newline b₁ s (omega (arith, st.size))))

  after_byte-Fits :
      (cnt c : ℕ) (b : Buffer) (rest : Cmd S Heard) (s : S)
      → 0 < cnt
      → cnt < size
      → length b ≡ size
      → (cnt < size - 1 → Returns (λ h _. Fits size h) (rest s))
      → Returns (λ h _. Fits size h) (after_byte tcp sscanf fd size cnt c b rest s)
  unfolding after_byte
  after_byte-Fits cnt c b rest s some_byte fits same next =
      elim (Bool-cases ((c == newline) || (cnt == size - 1))) [
        | inl over ↦ elim (Bool-cases (cnt == 1)) [
          | inl only_end ↦ rw (over, only_end) tt
          | inr text ↦
              rw (over, text) (finish_line-Fits cnt b s (omega (arith, ==→ne cnt 1 text)) fits same)
        ]
        | inr goes_on ↦
            rw goes_on (next (omega (arith, ==→ne cnt (size - 1) (ground (arith, goes_on)))))
      ]

  read_message-in_buffer :
      (left cnt : ℕ) (b : Buffer) (s : S)
      → cnt + 1 < size
      → size ≤ left + cnt + 1
      → length b ≡ size
      → Returns (λ h _. Fits size h) (read_message tcp sscanf fd size left cnt b s)
  unfolding read_message take_byte
  read_message-in_buffer zero cnt b s fits fuel same = absurd (omega arith)
  read_message-in_buffer (suc left) cnt b s fits fuel same =
      Returns-bind _ _ (tcp.read fd 1 s) _ (reader.reads fd s)
        (λ g t result. read_result g t result (λ b'. read_message-in_buffer left (cnt + 1) b' t))
    where
      stored :
          (c : ℕ) (t : S)
          → ((b' : Buffer)
              → cnt + 1 + 1 < size
              → size ≤ left + (cnt + 1) + 1
              → length b' ≡ size
              → Returns (λ h _. Fits size h) (read_message tcp sscanf fd size left (cnt + 1) b' t))
          → ((b' : Buffer) × (store cnt c b t ≡ ok b' t) × IsStored cnt c b b')
          → Returns
              (λ h _. Fits size h)
              (take_byte tcp sscanf fd size cnt b
                (λ b. read_message tcp sscanf fd size left (cnt + 1) b)
                (c ∷ [])
                t)
      stored c t rest (b', e, st) = rw e (
          after_byte-Fits (cnt + 1) c b' (read_message tcp sscanf fd size left (cnt + 1) b') t
            (omega arith) (omega arith) (st.size ∙ same)
            (λ lt. rest b' (omega arith) (omega arith) (st.size ∙ same)))

      read_result :
          (g : Got) (t : S)
          → ((c : ℕ) × (g ≡ record { nread = pos 1; bytes = c ∷ [] })) ⊎ (is_pos g.nread ≡ false)
          → ((b' : Buffer)
              → cnt + 1 + 1 < size
              → size ≤ left + (cnt + 1) + 1
              → length b' ≡ size
              → Returns (λ h _. Fits size h) (read_message tcp sscanf fd size left (cnt + 1) b' t))
          → Returns
              (λ h _. Fits size h)
              ((if is_one g.nread
                  then take_byte tcp sscanf fd size cnt b
                      (λ b. read_message tcp sscanf fd size left (cnt + 1) b)
                      g.bytes
                  else (if not (is_pos g.nread) then pure hung_up else halt Stop.aborted))
                t)
      read_result g t (inl (c, e)) rest =
          rw e (stored c t rest (store-inside cnt c b t (omega arith)))
      read_result g t (inr none_left) rest = rw (not_one g.nread none_left, none_left) tt

reads_one :
    (r : Reply)
    → ((c : ℕ) × (got 1 r ≡ record { nread = pos 1; bytes = c ∷ [] }))
      ⊎ (is_pos (got 1 r).nread ≡ false)
reads_one (gives []) = inr refl
reads_one (gives (c ∷ cs)) = inl (c, refl)
reads_one (fails k) = inr refl

-- Whatever the reads answer, the loop that reads a message into a buffer of two bytes at least ends and never leaves it: what
-- it gives is that the peer has gone, a line end, or a message that fits the buffer with the byte 0 behind it.
pub read_message-Fits :
    (replies : ℕ → Reply) (results : ℕ → ℤ) (sscanf : Buffer → Option ℤ) (fd : ℤ)
    (size left cnt : ℕ) (b : Buffer) (n : ℕ)
    → cnt + 1 < size
    → size ≤ left + cnt + 1
    → length b ≡ size
    → Returns
        (λ h _. Fits size h)
        (read_message (any_tcp replies results) sscanf fd size left cnt b n)
read_message-Fits replies results sscanf fd size =
    read_message-in_buffer (any_tcp replies results)
      (record { reads = λ fd n. reads_one (replies n) }) sscanf fd size
