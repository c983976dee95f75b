-- ===== src/Queue/Join.antt =====
-- `list_cat` and `list_insert` of src/bsdqueue.h, and what a second push of the last item does.
use async_coro.Base.{
  ap, sym, ℕ, ◌+◌, ◌%◌, ◌^◌, ◌≡◌, refl, ◌≢◌, true, false, List, [], ◌∷◌, ◌++◌, some, arith, ◌==◌,
  eq→==, has, has-append, distinct, length, length-append, Returns, ok,
}
use mathlib.Core.List.{append-nil}
use async_coro.Queue.Mem.{Ptr, null, Slot, first_of, next_of, Mem}
use async_coro.Queue.Ops.{concat, init, empty_head}
use async_coro.Queue.Rep.{
  IsQueue, head_or, last_of, last_slot, Linked, with_next, with_head, load_head-ok,
  Linked-with_next, Linked-with_head, Linked-relink, Linked-append, last_of-ne-null,
}

distinct-append :
    (x : ℕ) (xs ys : List ℕ)
    → distinct (x ∷ xs ++ ys) ≡ true
    → (distinct (xs ++ ys) ≡ true) × (has x xs ≡ false) × (has x ys ≡ false)
distinct-append x xs ys d = ground (arith, has-append x xs ys)

distinct-left : (xs ys : List ℕ) → distinct (xs ++ ys) ≡ true → distinct xs ≡ true
distinct-left [] ys d = refl
distinct-left (x ∷ xs) ys d =
    let (d', out, _) = distinct-append x xs ys d in ground (arith, distinct-left xs ys d')

last_of-out :
    (x : ℕ) (xs ys : List ℕ) → distinct (x ∷ xs ++ ys) ≡ true → has (last_of x xs) ys ≡ false
last_of-out x [] ys d = (distinct-append x [] ys d).2
last_of-out x (y ∷ zs) ys d = last_of-out y zs ys (distinct-append x (y ∷ zs) ys d).0

last_of-append : (x y : ℕ) (xs ys : List ℕ) → last_of x (xs ++ y ∷ ys) ≡ last_of y ys
last_of-append x y [] ys = refl
last_of-append x y (z ∷ zs) ys = last_of-append z y zs ys

size_sum : (a b c : ℕ) → c ≡ a + b → (a % 2 ^ 32 + b % 2 ^ 32) % 2 ^ 32 ≡ c % 2 ^ 32
size_sum a b c e = omega arith

-- The first head holds `xs`, the second nothing.
abbrev pub Joined : ℕ → ℕ → List Ptr → Mem → Type 0
Joined h1 h2 xs b = IsQueue b h1 xs × IsQueue b h2 []

module _ (m : Mem) (h1 h2 : ℕ) (two : (h1 == h2) ≡ false) where
  concat-run-nil :
      (y : Ptr) (l2 : Slot) (n2 : ℕ)
      → y ≢ null
      → m.head h1 ≡ some (empty_head h1)
      → m.head h2 ≡ some (record { first = y; last = l2; size = n2 })
      → concat h1 h2 m
        ≡ ok tt (
            with_head
              (with_head
                (with_head m h1 (some (record { first = y; last = first_of h1; size = 0 })))
                h1
                (some (record { first = y; last = l2; size = n2 % 2 ^ 32 })))
              h2
              (some (empty_head h2)))
  unfolding concat init
  concat-run-nil y l2 n2 ny t1 t2 = ground arith

  concat-none : m.head h2 ≡ some (empty_head h2) → concat h1 h2 m ≡ ok tt m
  unfolding concat
  concat-none t2 = rw (load_head-ok m h2 t2)

  concat-run-cons :
      (x a w y : Ptr) (n1 : ℕ) (l2 : Slot) (n2 : ℕ)
      → y ≢ null
      → a ≢ null
      → m.next a ≡ some w
      → m.head h1 ≡ some (record { first = x; last = next_of a; size = n1 })
      → m.head h2 ≡ some (record { first = y; last = l2; size = n2 })
      → concat h1 h2 m
        ≡ ok tt (
            with_head
              (with_head
                (with_next m a (some y))
                h1
                (some (record { first = x; last = l2; size = (n1 + n2) % 2 ^ 32 })))
              h2
              (some (empty_head h2)))
  unfolding concat init
  concat-run-cons x a w y n1 l2 n2 ny na la t1 t2 = ground arith

  joined :
      (base : Mem) (f : Ptr) (l : Slot) (n : ℕ) (zs : List Ptr)
      → Linked base null zs
      → distinct zs ≡ true
      → f ≡ head_or null zs
      → l ≡ last_slot h1 zs
      → n ≡ length zs % 2 ^ 32
      → Joined h1 h2 zs (
          with_head
            (with_head base h1 (some (record { first = f; last = l; size = n })))
            h2
            (some (empty_head h2)))
  joined base f l n zs links d ef el en = (
    record {
      top =
          rw (two', eq→== h1 h1 refl)
            (λ i. some (record { first = ef i; last = el i; size = en i }));
      linked =
          Linked-with_head (with_head base h1 (some (record { first = f; last = l; size = n }))) h2
            (some (empty_head h2)) null zs
            (Linked-with_head base h1 (some (record { first = f; last = l; size = n })) null zs
              links);
      apart = d;
    },
    record { top = rw (eq→== h2 h2 refl); linked = tt; apart = refl },
  )
    where
      two' : (h2 == h1) ≡ false
      two' = ground arith

  concat-some :
      (xs : List Ptr) (y : Ptr) (ys : List Ptr)
      → distinct (xs ++ y ∷ ys) ≡ true
      → IsQueue m h1 xs
      → IsQueue m h2 (y ∷ ys)
      → Returns (λ _. Joined h1 h2 (xs ++ y ∷ ys)) (concat h1 h2 m)
  concat-some [] y ys d q r =
      rw
        (concat-run-nil y (next_of (last_of y ys)) (length (y ∷ ys) % 2 ^ 32) r.linked.0 q.top
          r.top)
        (joined (with_head m h1 (some (record { first = y; last = first_of h1; size = 0 }))) y
          (next_of (last_of y ys)) (length (y ∷ ys) % 2 ^ 32 % 2 ^ 32) (y ∷ ys)
          (Linked-with_head m h1 (some (record { first = y; last = first_of h1; size = 0 })) null
            (y ∷ ys) r.linked)
          d refl refl (omega arith))
  concat-some (x ∷ xs) y ys d q r =
      let (na, la) = last_of-ne-null m null x xs q.linked in
      let base = with_next m (last_of x xs) (some y) in
      rw
        (concat-run-cons x (last_of x xs) null y (length (x ∷ xs) % 2 ^ 32) (next_of (last_of y ys))
          (length (y ∷ ys) % 2 ^ 32) r.linked.0 na la q.top r.top)
        (joined base x (next_of (last_of y ys))
          ((length (x ∷ xs) % 2 ^ 32 + length (y ∷ ys) % 2 ^ 32) % 2 ^ 32) (x ∷ xs ++ y ∷ ys)
          (Linked-append base null (x ∷ xs) (y ∷ ys)
            (Linked-relink m null y x xs (distinct-left (x ∷ xs) (y ∷ ys) d) q.linked)
            (Linked-with_next m (last_of x xs) (some y) null (y ∷ ys) (last_of-out x xs (y ∷ ys) d)
              r.linked))
          d refl (ap next_of (sym (last_of-append x y xs ys)))
          (size_sum (length (x ∷ xs)) (length (y ∷ ys)) (length (x ∷ xs ++ y ∷ ys))
            (length-append (x ∷ xs) (y ∷ ys))))

  -- Joining two queues that share no item moves the items of the second behind those of the
  -- first, counts them, and leaves the second empty.
  pub concat_lem :
      (xs ys : List Ptr)
      → distinct (xs ++ ys) ≡ true
      → IsQueue m h1 xs
      → IsQueue m h2 ys
      → Returns (λ _. Joined h1 h2 (xs ++ ys)) (concat h1 h2 m)
  concat_lem xs [] d q r = rw (concat-none r.top, append-nil) (q, r)
  concat_lem xs (y ∷ ys) d q r = concat-some xs y ys d q r
