-- ===== src/Queue/Walk.antt =====
-- `list_foreach`, `list_addr`, `list_clear` and `list_destroy` of src/bsdqueue.h: loops over a queue.
use async_coro.Base.{
  distinct, ◌∙◌, ℕ, zero, suc, ◌%◌, ◌^◌, ◌<◌, ◌≤◌, ◌≡◌, refl, ◌≢◌, inl, inr, true, false, List, [],
  ◌∷◌, some, none, arith, leb, leb→le, leb→lt, eq→==, ne→==, has, get_or, length, Bool-cases,
  Returns, Returns-bind, Returns-mono, ok,
}
use async_coro.Queue.Mem.{Ptr, null, Mem, free_item}
use async_coro.Queue.Ops.{
  size_of, walk, foreach, follow, addr, remove_head, delete_head, clear, destroy, walk_safe,
  foreach_safe,
}
use async_coro.Queue.Rep.{
  IsQueue, SameOutside, head_or, Linked, with_next, load_head-ok, load_next-ok, Linked-with_next,
  distinct-cons,
}
use async_coro.Queue.Shift.{first-ok, remove_head-cons}

walk_lem :
    (m : Mem) (k : ℕ) (xs : List Ptr)
    → length xs < k
    → Linked m null xs
    → walk k (head_or null xs) m ≡ ok xs m
unfolding walk
walk_lem m zero xs lt l = elim lt [ ]
walk_lem m (suc k) [] lt l = refl
walk_lem m (suc k) (x ∷ xs) lt l =
    rw (ne→== x null l.0, load_next-ok m x l.0 l.1, walk_lem m k xs (omega arith) l.2)

-- With fuel for the items the loop visits every item once, in order, and changes nothing.
pub foreach_lem :
    (m : Mem) (h : ℕ) (fuel : ℕ) (xs : List Ptr)
    → length xs < fuel
    → IsQueue m h xs
    → foreach fuel h m ≡ ok xs m
unfolding foreach
foreach_lem m h fuel xs lt q = rw (first-ok m h xs q, walk_lem m fuel xs lt q.linked)

follow_lem :
    (m : Mem) (n : ℕ) (xs : List Ptr)
    → n < length xs
    → Linked m null xs
    → follow n (head_or null xs) m ≡ ok (get_or xs n null) m
unfolding follow
follow_lem m n [] lt l = elim lt [ ]
follow_lem m zero (x ∷ xs) lt l = refl
follow_lem m (suc n) (x ∷ xs) lt l =
    rw (load_next-ok m x l.0 l.1, follow_lem m n xs (omega arith) l.2)

get_or-beyond : (xs : List Ptr) (n : ℕ) → length xs ≤ n → get_or xs n null ≡ null
get_or-beyond [] n le = refl
get_or-beyond (x ∷ xs) zero le = elim le [ ]
get_or-beyond (x ∷ xs) (suc n) le = get_or-beyond xs n (omega arith)

-- `list_addr` finds the item at an index, and NULL from the size on.
pub addr_lem :
    (m : Mem) (h n : ℕ) (xs : List Ptr)
    → length xs < 2 ^ 31
    → IsQueue m h xs
    → addr h n m ≡ ok (get_or xs n null) m
unfolding addr size_of
addr_lem m h n xs small q =
    let fits : length xs % 2 ^ 32 ≡ length xs = omega arith in
    rw (load_head-ok m h q.top, fits)
      (elim (Bool-cases (leb (length xs) n)) [
        | inl over ↦ rw (over, get_or-beyond xs n (leb→le (length xs) n over))
        | inr under ↦
            rw (under, first-ok m h xs q, follow_lem m n xs (leb→lt (length xs) n under) q.linked)
      ])

-- The memory after the items `xs` are freed.
pub record Freed (xs : List Ptr) (m b : Mem) : Type 0 where
  pub gone : (p : Ptr) → has p xs ≡ true → b.next p ≡ none
  pub kept : (p : Ptr) → has p xs ≡ false → b.next p ≡ m.next p

Freed-cons :
    {m b c : Mem} (x : Ptr) (xs : List Ptr) → Freed (x ∷ []) m b → Freed xs b c → Freed (x ∷ xs) m c
Freed-cons x xs f g = record {
  gone = λ p o. ground (arith, f.gone p, g.gone p, g.kept p);
  kept = λ p o. ground (arith, f.kept p, g.kept p);
}

free_item-ok :
    (m : Mem) (p : Ptr) {q : Ptr}
    → p ≢ null
    → m.next p ≡ some q
    → free_item p m ≡ ok tt (with_next m p none)
unfolding free_item
free_item-ok m p ne e = rw (load_next-ok m p ne e)

delete_head_lem :
    (m : Mem) (h : ℕ) (x : Ptr) (xs : List Ptr)
    → IsQueue m h (x ∷ xs)
    → Returns (λ _ b. IsQueue b h xs × Freed (x ∷ []) m b) (delete_head h m)
unfolding delete_head
delete_head_lem m h x xs q = rw (first-ok m h (x ∷ xs) q) (
    Returns-bind (λ _ b. IsQueue b h xs × SameOutside h [] m b) _ (remove_head h m) _
      (remove_head-cons m h x xs q)
      λ _ b (is, same). rw (free_item-ok b x q.linked.0 (same.items x refl ∙ q.linked.1)) (
        record {
          top = is.top;
          linked = Linked-with_next b x none null xs (distinct-cons x xs q.apart).0 is.linked;
          apart = is.apart;
        },
        record { gone = ground arith; kept = λ p o. ground (arith, same.items p) },
      ))

-- Clearing frees every item of the queue and no other, and leaves it empty.
pub clear_lem :
    (fuel : ℕ) (m : Mem) (h : ℕ) (xs : List Ptr)
    → length xs < fuel
    → IsQueue m h xs
    → Returns (λ _ b. IsQueue b h [] × Freed xs m b) (clear fuel h m)
unfolding clear
clear_lem zero m h xs lt q = elim lt [ ]
clear_lem (suc k) m h [] lt q =
    rw (first-ok m h [] q) (q, record { gone = λ p o. cc; kept = λ p o. refl })
clear_lem (suc k) m h (x ∷ xs) lt q =
    rw (first-ok m h (x ∷ xs) q, ne→== x null q.linked.0)
      (Returns-bind (λ _ b. IsQueue b h xs × Freed (x ∷ []) m b) _ (delete_head h m) _
        (delete_head_lem m h x xs q)
        λ _ b (is, fr).
          Returns-mono _ _ (clear k h b) (clear_lem k b h xs (omega arith) is)
            λ _ c (is', fr'). (is', Freed-cons x xs fr fr'))

-- Destroying, with fuel for the items, frees every item of the queue and the head.
pub destroy_lem :
    (fuel : ℕ) (m : Mem) (h : ℕ) (xs : List Ptr)
    → length xs < fuel
    → IsQueue m h xs
    → Returns (λ _ b. (b.head h ≡ none) × Freed xs m b) (destroy fuel h m)
unfolding destroy
destroy_lem fuel m h xs lt q =
    Returns-bind (λ _ b. IsQueue b h [] × Freed xs m b) _ (clear fuel h m) _
      (clear_lem fuel m h xs lt q)
      λ _ b (is, fr). (rw (eq→== h h refl), record { gone = fr.gone; kept = fr.kept })

free_walk :
    (k : ℕ) (m : Mem) (xs : List Ptr)
    → length xs < k
    → distinct xs ≡ true
    → Linked m null xs
    → Returns (λ _ b. Freed xs m b × (b.head ≡ m.head)) (walk_safe k free_item (head_or null xs) m)
unfolding walk_safe
free_walk zero m xs lt apart links = absurd (omega arith)
free_walk (suc k) m [] lt apart links = (record { gone = λ p o. cc; kept = λ p o. refl }, refl)
free_walk (suc k) m (x ∷ xs) lt apart (ne, e, links) =
    rw (ne→== x null ne, load_next-ok m x ne e, free_item-ok m x ne e)
      (Returns-mono (λ _ b. Freed xs m' b × (b.head ≡ m.head)) _
        (walk_safe k free_item (head_or null xs) m')
        (free_walk k m' xs (omega arith) (distinct-cons x xs apart).1
          (Linked-with_next m x none null xs (distinct-cons x xs apart).0 links))
        (λ _ b (fr, same). (Freed-cons x xs first_gone fr, same)))
  where
    m' : Mem
    m' = with_next m x none

    first_gone : Freed (x ∷ []) m m'
    first_gone = record { gone = ground arith; kept = ground arith }

-- A loop of `list_foreach_safe`, with fuel for the items, may free the item it is at: when every item
-- is freed, exactly the items of the queue are gone, and the head is as it was.
pub foreach_safe_lem :
    (fuel : ℕ) (m : Mem) (h : ℕ) (xs : List Ptr)
    → length xs < fuel
    → IsQueue m h xs
    → Returns (λ _ b. Freed xs m b × (b.head ≡ m.head)) (foreach_safe fuel h free_item m)
unfolding foreach_safe
foreach_safe_lem fuel m h xs lt q = rw (first-ok m h xs q) (free_walk fuel m xs lt q.apart q.linked)
