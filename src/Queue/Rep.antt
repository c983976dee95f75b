-- ===== src/Queue/Rep.antt =====
-- What a queue in memory stands for: `IsQueue m h xs` says that the head `h` holds the items `xs`.
use async_coro.Base.{
  ℕ, suc, ◌%◌, ◌^◌, ◌≡◌, refl, ◌≢◌, true, false, List, [], ◌∷◌, ◌++◌, some, Option, arith, ◌==◌,
  eq→==, ne→==, has, distinct, length, ok,
}
use async_coro.Queue.Mem.{
  Ptr, null, Slot, first_of, next_of, Head, Mem, update, load_head, store_head, load_next,
  store_next,
}
use async_coro.Queue.Ops.{inc, dec}

-- The first of the items `xs`, or what stands behind them.
abbrev pub head_or : Ptr → List Ptr → Ptr
head_or d [] = d
head_or d (x ∷ xs) = x

-- The last of the items `x ∷ xs`.
abbrev pub last_of : Ptr → List Ptr → Ptr
last_of x [] = x
last_of x (y ∷ ys) = last_of y ys

abbrev pub last_slot : ℕ → List Ptr → Slot
last_slot h [] = first_of h
last_slot h (x ∷ xs) = next_of (last_of x xs)

-- The `next` pointers lead through `xs`, and from the last of them to `end`.
abbrev pub Linked : Mem → Ptr → List Ptr → Type 0
Linked m end [] = Unit
Linked m end (x ∷ xs) = (x ≢ null) × (m.next x ≡ some (head_or end xs)) × Linked m end xs

abbrev pub head_of : ℕ → List Ptr → Head
head_of h xs = record { first = head_or null xs; last = last_slot h xs; size = length xs % 2 ^ 32 }

pub record IsQueue (m : Mem) (h : ℕ) (xs : List Ptr) : Type 0 where
  pub top : m.head h ≡ some (head_of h xs)
  pub linked : Linked m null xs
  pub apart : distinct xs ≡ true

-- `b` differs from `m` at most at the items of `xs` and at the head `h`.
pub record SameOutside (h : ℕ) (xs : List Ptr) (m b : Mem) : Type 0 where
  pub items : (p : Ptr) → has p xs ≡ false → b.next p ≡ m.next p
  pub heads : (g : ℕ) → (h == g) ≡ false → b.head g ≡ m.head g

-- The memory with one link and one head written.
abbrev pub with_next : Mem → Ptr → Option Ptr → Mem
with_next m p q = record m { next = update m.next p q }

abbrev pub with_head : Mem → ℕ → Option Head → Mem
with_head m h d = record m { head = update m.head h d }

-- Each access, where what it reads is known.
pub load_head-ok : (m : Mem) (h : ℕ) {d : Head} → m.head h ≡ some d → load_head h m ≡ ok d m
unfolding load_head
load_head-ok m h e = rw (e, load_head)

pub store_head-ok :
    (m : Mem) (h : ℕ) {d : Head} (d' : Head)
    → m.head h ≡ some d
    → store_head h d' m ≡ ok tt (with_head m h (some d'))
unfolding store_head
store_head-ok m h d' e = rw (e, store_head)

pub load_next-ok :
    (m : Mem) (p : Ptr) {q : Ptr} → p ≢ null → m.next p ≡ some q → load_next p m ≡ ok q m
unfolding load_next
load_next-ok m p n e = rw (ne→== p null n, e, load_next)

pub store_next-ok :
    (m : Mem) (p : Ptr) {q : Ptr} (q' : Ptr)
    → p ≢ null
    → m.next p ≡ some q
    → store_next p q' m ≡ ok tt (with_next m p (some q'))
unfolding store_next
store_next-ok m p q' n e = rw (ne→== p null n, e, store_next)

-- A segment survives a write to an item that it does not hold.
pub Linked-with_next :
    (m : Mem) (a : Ptr) (v : Option Ptr) (end : Ptr) (xs : List Ptr)
    → has a xs ≡ false
    → Linked m end xs
    → Linked (with_next m a v) end xs
Linked-with_next m a v end [] out l = tt
Linked-with_next m a v end (x ∷ xs) out l =
    (l.0, ground arith, Linked-with_next m a v end xs (ground arith) l.2)

-- A write to the head is no write to an item.
pub Linked-with_head :
    (m : Mem) (h : ℕ) (d : Option Head) (end : Ptr) (xs : List Ptr)
    → Linked m end xs
    → Linked (with_head m h d) end xs
Linked-with_head m h d end [] l = tt
Linked-with_head m h d end (x ∷ xs) l = (l.0, l.1, Linked-with_head m h d end xs l.2)

pub distinct-cons :
    (x : Ptr) (xs : List Ptr) → distinct (x ∷ xs) ≡ true → (has x xs ≡ false) × (distinct xs ≡ true)
distinct-cons x xs d = ground arith

pub last_of-ne : (a y : Ptr) (ys : List Ptr) → has a (y ∷ ys) ≡ false → (last_of y ys == a) ≡ false
last_of-ne a y [] out = ground arith
last_of-ne a y (z ∷ zs) out = last_of-ne a z zs (ground arith)

-- The last item, linked to another item, ends the segment there.
pub Linked-relink :
    (m : Mem) (end e : Ptr) (x : Ptr) (xs : List Ptr)
    → distinct (x ∷ xs) ≡ true
    → Linked m end (x ∷ xs)
    → Linked (with_next m (last_of x xs) (some e)) e (x ∷ xs)
Linked-relink m end e x [] d l = (l.0, rw (eq→== x x refl), tt)
Linked-relink m end e x (y ∷ ys) d l =
    let (out, d') = distinct-cons x (y ∷ ys) d in
    (l.0, rw (last_of-ne x y ys out) l.1, Linked-relink m end e y ys d' l.2)

pub Linked-append :
    (m : Mem) (end : Ptr) (xs ys : List Ptr)
    → Linked m (head_or end ys) xs
    → Linked m end ys
    → Linked m end (xs ++ ys)
Linked-append m end [] ys a b = b
Linked-append m end (x ∷ []) ys a b = (a.0, a.1, b)
Linked-append m end (x ∷ y ∷ xs) ys a b = (a.0, a.1, Linked-append m end (y ∷ xs) ys a.2 b)

pub last_of-snoc : (x : Ptr) (xs : List Ptr) (e : Ptr) → last_of x (xs ++ e ∷ []) ≡ e
last_of-snoc x [] e = refl
last_of-snoc x (y ∷ ys) e = last_of-snoc y ys e

pub last_of-ne-null :
    (m : Mem) (end : Ptr) (x : Ptr) (xs : List Ptr)
    → Linked m end (x ∷ xs)
    → (last_of x xs ≢ null) × (m.next (last_of x xs) ≡ some end)
last_of-ne-null m end x [] l = (l.0, l.1)
last_of-ne-null m end x (y ∷ ys) l = last_of-ne-null m end y ys l.2

-- The unsigned size of one item more, and of one item less.
pub inc-mod_eq : (n k : ℕ) → k ≡ suc n → inc (n % 2 ^ 32) ≡ k % 2 ^ 32
inc-mod_eq n k e = omega arith

pub dec-mod_eq : (n k : ℕ) → n ≡ suc k → dec (n % 2 ^ 32) ≡ k % 2 ^ 32
dec-mod_eq n k e = omega arith

-- What stands at a head after it is written.
pub head_at-path :
    (m : Mem) (h : ℕ) (f : Ptr) {a b : Slot} {s t : ℕ}
    → a ≡ b
    → s ≡ t
    → (with_head m h (some (record { first = f; last = a; size = s }))).head h
      ≡ some (record { first = f; last = b; size = t })
head_at-path m h f p q =
    rw (eq→== h h refl) (λ i. some (record { first = f; last = p i; size = q i }))
