-- ===== src/Queue/Remove.antt =====
-- `list_remove` and `list_pop` of src/bsdqueue.h take out a given item and the last item.
use async_coro.Base.{
  sym, ℕ, zero, suc, ◌%◌, ◌^◌, ◌<◌, ◌≤◌, ◌≡◌, refl, ◌≢◌, inl, inr, Bool, true, false, List, [], ◌∷◌,
  ◌++◌, some, arith, ◌==◌, eq→==, ne→==, has, has-cons, has-append, distinct, erase, length,
  length-append, if◌then◌else◌, Bool-cases, Returns, Returns-mono, Returns-bind, ok, stop, Stop,
}
use async_coro.Queue.Mem.{Ptr, null, next_of, Head, Mem, load_next}
use async_coro.Queue.Ops.{last, remove_head, find_before, remove, pop, dec}
use async_coro.Queue.Rep.{
  IsQueue, SameOutside, head_or, last_of, Linked, with_next, load_head-ok, store_head-ok,
  load_next-ok, store_next-ok, Linked-with_next, Linked-with_head, distinct-cons, last_of-snoc,
  dec-mod_eq, head_at-path,
}
use async_coro.Queue.Shift.{remove_head-cons}

-- The item before `e` in `x ∷ xs`, and the item behind it.
abbrev pub pred_of : Ptr → Ptr → List Ptr → Ptr
pred_of e x [] = x
pred_of e x (y ∷ ys) = if y == e then x else pred_of e y ys

abbrev pub succ_of : Ptr → List Ptr → Ptr
succ_of e [] = null
succ_of e (y ∷ ys) = if y == e then head_or null ys else succ_of e ys

module _ (m : Mem) (e : Ptr) where
  find_before_lem :
      (k : ℕ) (x : Ptr) (xs : List Ptr)
      → length xs < k
      → has e xs ≡ true
      → Linked m null (x ∷ xs)
      → find_before k x e m ≡ ok (pred_of e x xs) m
  unfolding find_before
  find_before_lem zero x xs fuel mem l = elim fuel [ ]
  find_before_lem (suc k) x [] fuel mem l = cc
  find_before_lem (suc k) x (y ∷ ys) fuel mem l =
      rw (load_next-ok m x l.0 l.1) (elim (Bool-cases (y == e)) [
        | inl hit ↦ rw hit
        | inr miss ↦ rw miss (find_before_lem k y ys (omega arith) (ground arith) l.2)
      ])

  find_before-absent :
      (k : ℕ) (x : Ptr) (xs : List Ptr)
      → suc (length xs) < k
      → has e xs ≡ false
      → e ≢ null
      → Linked m null (x ∷ xs)
      → find_before k x e m ≡ stop Stop.fault
  unfolding find_before
  find_before-absent zero x xs fuel out ne l = elim fuel [ ]
  find_before-absent (suc zero) x xs fuel out ne l = absurd (omega arith)
  find_before-absent (suc (suc k)) x [] fuel out ne l =
      rw (load_next-ok m x l.0 l.1, ne→== null e (λ n. ne (sym n))) refl
  find_before-absent (suc (suc k)) x (y ∷ ys) fuel out ne l =
      rw (load_next-ok m x l.0 l.1, ne→== y e (ground arith))
        (find_before-absent (suc k) y ys (omega arith) (ground arith) ne l.2)

  find_before-null : (k : ℕ) → 0 < k → find_before k null e m ≡ stop Stop.fault
  unfolding find_before load_next
  find_before-null zero lt = elim lt [ ]
  find_before-null (suc k) lt = refl

  pred_of-ne : (a y : Ptr) (ys : List Ptr) → has a (y ∷ ys) ≡ false → (pred_of e y ys == a) ≡ false
  pred_of-ne a y [] out = ground arith
  pred_of-ne a y (z ∷ zs) out = ground (arith, pred_of-ne a z zs)

  -- Taking `e` out relinks the item before it.
  Linked-unlink :
      (x : Ptr) (xs : List Ptr)
      → has e xs ≡ true
      → distinct (x ∷ xs) ≡ true
      → Linked m null (x ∷ xs)
      → Linked (with_next m (pred_of e x xs) (some (succ_of e xs))) null (x ∷ erase e xs)
  Linked-unlink x [] mem d l = cc
  Linked-unlink x (y ∷ ys) mem d l = go (Linked-unlink y ys) (y == e) refl
    where
      go :
          (has e ys ≡ true
            → distinct (y ∷ ys) ≡ true
            → Linked m null (y ∷ ys)
            → Linked (with_next m (pred_of e y ys) (some (succ_of e ys))) null (y ∷ erase e ys))
          → (b : Bool) → (y == e) ≡ b
          → Linked
              (with_next m
                (if b then x else pred_of e y ys)
                (some (if b then head_or null ys else succ_of e ys)))
              null
              (x ∷ (if b then ys else y ∷ erase e ys))
      go ih true hit =
          let (out, d') = distinct-cons x (y ∷ ys) d in
          (
            l.0,
            rw (eq→== x x refl),
            Linked-with_next m x (some (head_or null ys)) null ys (ground arith) l.2.2,
          )
      go ih false miss =
          let (out, d') = distinct-cons x (y ∷ ys) d in
          (l.0, rw (pred_of-ne x y ys out) l.1, ih (ground arith) d' l.2)

  last_slot-unlink :
      (x : Ptr) (xs : List Ptr)
      → has e xs ≡ true
      → Linked m null (x ∷ xs)
      → (if succ_of e xs == null then next_of (pred_of e x xs) else next_of (last_of x xs))
        ≡ next_of (last_of x (erase e xs))
  last_slot-unlink x [] mem l = cc
  last_slot-unlink x (y ∷ []) mem l = ground arith
  last_slot-unlink x (y ∷ z ∷ zs) mem l = elim (Bool-cases (y == e)) [
    | inl hit ↦ rw (hit, ne→== z null l.2.2.0)
    | inr miss ↦ rw miss (last_slot-unlink y (z ∷ zs) (ground arith) l.2)
  ]

  pred_of-allocated :
      (x : Ptr) (xs : List Ptr)
      → has e xs ≡ true
      → Linked m null (x ∷ xs)
      → (pred_of e x xs ≢ null)
        × (m.next (pred_of e x xs) ≡ some e)
        × (e ≢ null)
        × (m.next e ≡ some (succ_of e xs))
  pred_of-allocated x [] mem l = cc
  pred_of-allocated x (y ∷ ys) mem l = elim (Bool-cases (y == e)) [
    | inl hit ↦
        let same : y ≡ e = ground arith in
        rw hit (l.0, rw (← same) l.1, rw (← same) l.2.0, rw (← same) l.2.1)
    | inr miss ↦ rw miss (pred_of-allocated y ys (ground arith) l.2)
  ]

length-erase : (e : ℕ) (xs : List ℕ) → has e xs ≡ true → length xs ≡ suc (length (erase e xs))
length-erase e [] mem = cc
length-erase e (x ∷ xs) mem = ground (arith, length-erase e xs)

distinct-erase : (e a : ℕ) (xs : List ℕ) → (has a xs ≡ false) → has a (erase e xs) ≡ false
distinct-erase e a [] d = refl
distinct-erase e a (x ∷ xs) d = ground (arith, distinct-erase e a xs)

erase-distinct : (e : ℕ) (xs : List ℕ) → distinct xs ≡ true → distinct (erase e xs) ≡ true
erase-distinct e [] d = refl
erase-distinct e (x ∷ xs) d = ground (arith, distinct-erase e x xs, erase-distinct e xs)

module _ (m : Mem) (h : ℕ) (e : Ptr) (fuel : ℕ) where
  remove-first : (xs : List Ptr) → IsQueue m h (e ∷ xs) → remove fuel h e m ≡ remove_head h m
  unfolding remove
  remove-first xs q = rw (load_head-ok m h q.top, eq→== e e refl)

  remove-later :
      (x : Ptr) (xs : List Ptr)
      → length xs < fuel
      → has e xs ≡ true
      → (x == e) ≡ false
      → IsQueue m h (x ∷ xs)
      → Returns
          (λ _ b. IsQueue b h (x ∷ erase e xs) × SameOutside h (x ∷ xs) m b)
          (remove fuel h e m)
  unfolding remove
  remove-later x xs lt mem other q =
      let (np, lp, ne, le) = pred_of-allocated m e x xs mem q.linked in
      let base = with_next m (pred_of e x xs) (some (succ_of e xs)) in
      let d : Head = record {
        first = x;
        last = if succ_of e xs == null then next_of (pred_of e x xs) else next_of (last_of x xs);
        size = dec (length (x ∷ xs) % 2 ^ 32);
      } in
      rw
        (
          load_head-ok m h q.top,
          other,
          find_before_lem m e fuel x xs lt mem q.linked,
          load_next-ok m (pred_of e x xs) np lp,
          load_next-ok m e ne le,
          store_next-ok m (pred_of e x xs) (succ_of e xs) np lp,
          store_head-ok base h d q.top,
        )
        (
          record {
            top = head_at-path base h x (last_slot-unlink m e x xs mem q.linked) (
                dec-mod_eq (length (x ∷ xs)) (length (x ∷ erase e xs))
                  (omega (arith, length-erase e xs mem)));
            linked =
                Linked-with_head base h (some d) null (x ∷ erase e xs)
                  (Linked-unlink m e x xs mem q.apart q.linked);
            apart = ground (arith, q.apart, distinct-erase e x xs, erase-distinct e xs);
          },
          record { items = λ p o. rw (pred_of-ne m e p x xs o); heads = ground arith },
        )

  -- Removing an item that the queue holds, with fuel for its items, takes out that item alone.
  pub remove_lem :
      (xs : List Ptr)
      → length xs ≤ fuel
      → has e xs ≡ true
      → IsQueue m h xs
      → Returns (λ _ b. IsQueue b h (erase e xs) × SameOutside h xs m b) (remove fuel h e m)
  remove_lem [] lt mem q = cc
  remove_lem (x ∷ xs) lt mem q = elim (Bool-cases (x == e)) [
    | inl hit ↦
        let same : x ≡ e = ground arith in
        rw hit (
          rw (remove-first xs (rw same at q)) (
            Returns-mono (λ _ b. IsQueue b h xs × SameOutside h [] m b) _ (remove_head h m)
              (remove_head-cons m h x xs q)
              (λ _ b (is, same).
                (is, record { items = λ p o. same.items p refl; heads = same.heads }))))
    | inr miss ↦ rw miss (remove-later x xs lt (ground arith) miss q)
  ]

  -- Removing an item that the queue does not hold, with fuel for its items, reads through NULL.
  pub remove-absent :
      (xs : List Ptr)
      → length xs < fuel
      → has e xs ≡ false
      → e ≢ null
      → IsQueue m h xs
      → remove fuel h e m ≡ stop Stop.fault
  unfolding remove
  remove-absent [] lt out ne q =
      rw (load_head-ok m h q.top, ne→== null e (λ n. ne (sym n)), find_before-null m e fuel lt)
  remove-absent (x ∷ xs) lt out ne q =
      let (other, out') = has-cons e x xs out in
      rw (
        load_head-ok m h q.top,
        ne→== x e (λ n. other (sym n)),
        find_before-absent m e fuel x xs lt out' ne q.linked,
      )

erase-snoc : (e : ℕ) (xs : List ℕ) → has e xs ≡ false → erase e (xs ++ e ∷ []) ≡ xs
erase-snoc e [] out = rw (eq→== e e refl)
erase-snoc e (x ∷ xs) out = ground (arith, erase-snoc e xs)

has-snoc : (e : ℕ) (xs : List ℕ) → has e (xs ++ e ∷ []) ≡ true
has-snoc e [] = rw (eq→== e e refl)
has-snoc e (x ∷ xs) = ground (arith, has-snoc e xs)

distinct-snoc⁻¹ : (e : ℕ) (xs : List ℕ) → distinct (xs ++ e ∷ []) ≡ true → has e xs ≡ false
distinct-snoc⁻¹ e [] d = refl
distinct-snoc⁻¹ e (x ∷ xs) d = ground (arith, has-append x xs (e ∷ []), distinct-snoc⁻¹ e xs)

module _ (m : Mem) (h : ℕ) (e : Ptr) (fuel : ℕ) where
  last-ok : (xs : List Ptr) → IsQueue m h (xs ++ e ∷ []) → last h m ≡ ok e m
  unfolding last
  last-ok [] q = rw (load_head-ok m h q.top, ne→== e null q.linked.0)
  last-ok (x ∷ xs) q = rw (load_head-ok m h q.top, ne→== x null q.linked.0, last_of-snoc x xs e)

  -- Popping, with fuel for the items, hands out the last item and leaves the others.
  pub pop_lem :
      (xs : List Ptr)
      → length xs < fuel
      → IsQueue m h (xs ++ e ∷ [])
      → Returns (λ p b. (p ≡ e) × IsQueue b h xs × SameOutside h (xs ++ e ∷ []) m b) (pop fuel h m)
  unfolding pop
  pop_lem xs lt q = rw (last-ok xs q) (
      Returns-bind _ _ (remove fuel h e m) _
        (remove_lem m h e fuel (xs ++ e ∷ []) (omega (arith, length-append xs (e ∷ [])))
          (has-snoc e xs) q)
        (λ _ b (is, same). (refl, rw (erase-snoc e xs (distinct-snoc⁻¹ e xs q.apart)) at is, same)))
