-- ===== src/Queue/Insert.antt =====
-- `list_push`, `list_unshift` and `list_insert` of src/bsdqueue.h put an item at the back, at the
-- front and behind a given item.
use async_coro.Base.{
  ℕ, ◌%◌, ◌^◌, ◌≡◌, refl, ap, sym, ◌≢◌, false, List, [], ◌∷◌, ◌++◌, some, arith, ◌==◌, eq→==, ne→==,
  has, distinct-snoc, length, length-append, if◌then◌else◌, Returns, ok,
}
use async_coro.Queue.Mem.{Ptr, null, next_of, Head, Mem}
use async_coro.Queue.Ops.{push, unshift, inc}
use async_coro.Queue.Rep.{
  inc-mod_eq, head_at-path, IsQueue, SameOutside, last_of, with_next, with_head, load_head-ok,
  store_head-ok, store_next-ok, Linked-with_next, Linked-with_head, Linked-relink, Linked-append,
  last_of-ne, last_of-snoc, last_of-ne-null,
}

-- `e` stands behind the items `xs` of the head `h`, and nothing else has changed since `m`.
abbrev pub Pushed : Mem → ℕ → Ptr → List Ptr → Mem → Type 0
Pushed m h e xs b = IsQueue b h (xs ++ e ∷ []) × SameOutside h (e ∷ xs) m b

module _ (m : Mem) (h : ℕ) (e v : Ptr) (valid : e ≢ null) (alloc : m.next e ≡ some v) where
  push-nil : IsQueue m h [] → Returns (λ _. Pushed m h e []) (push h e m)
  unfolding push
  push-nil q = ground (arith, q.top)

  -- The memory after a push behind the item `a`, of a queue that begins with `x`.
  abbrev pub appended : (x a : Ptr) → ℕ → Mem
  appended x a n =
      with_head (with_next (with_next m e (some null)) a (some e)) h
        (some (record { first = x; last = next_of e; size = inc n }))

  pub push-run :
      (x a w n : Ptr)
      → a ≢ null
      → m.next a ≡ some w
      → m.head h ≡ some (record { first = x; last = next_of a; size = n })
      → push h e m ≡ ok tt (appended x a n)
  unfolding push
  push-run x a w n na la top = ground (arith, valid, alloc)

  push-cons :
      (x : Ptr) (xs : List Ptr)
      → has e (x ∷ xs) ≡ false
      → IsQueue m h (x ∷ xs)
      → Returns (λ _. Pushed m h e (x ∷ xs)) (push h e m)
  push-cons x xs out q =
      let (n, l) = last_of-ne-null m null x xs q.linked in
      let cleared = with_next m e (some null) in
      let base = with_next cleared (last_of x xs) (some e) in
      let d : Head = record {
        first = x;
        last = next_of e;
        size = inc (length (x ∷ xs) % 2 ^ 32);
      } in
      let front =
        Linked-relink cleared null e x xs q.apart
          (Linked-with_next m e (some null) null (x ∷ xs) out q.linked) in
      rw (push-run x (last_of x xs) null (length (x ∷ xs) % 2 ^ 32) n l q.top) (
        record {
          top = head_at-path base h x (ap next_of (sym (last_of-snoc x xs e))) (
              inc-mod_eq (length (x ∷ xs)) (length (x ∷ xs ++ e ∷ []))
                (omega (arith, length-append xs (e ∷ []))));
          linked =
              Linked-append (with_head base h (some d)) null (x ∷ xs) (e ∷ [])
                (Linked-with_head base h (some d) e (x ∷ xs) front)
                (valid, rw (last_of-ne e x xs out, eq→== e e refl), tt);
          apart = distinct-snoc (x ∷ xs) e q.apart out;
        },
        record { items = λ p o. ground (arith, last_of-ne p x xs); heads = ground arith },
      )

  -- Pushing an allocated item that is not in the queue puts it at the back, counts it, and
  -- touches nothing but that item, the items of the queue and the head.
  pub push_lem :
      (xs : List Ptr)
      → has e xs ≡ false
      → IsQueue m h xs
      → Returns (λ _. Pushed m h e xs) (push h e m)
  push_lem [] out q = push-nil q
  push_lem (x ∷ xs) out q = push-cons x xs out q

  -- Unshifting an allocated item that is not in the queue puts it at the front, and touches only that
  -- item and the head.
  pub unshift_lem :
      (xs : List Ptr)
      → has e xs ≡ false
      → IsQueue m h xs
      → Returns (λ _ b. IsQueue b h (e ∷ xs) × SameOutside h (e ∷ []) m b) (unshift h e m)
  unfolding unshift
  unshift_lem [] out q = ground (arith, q.top)
  unshift_lem (x ∷ xs) out q =
      let base = with_next m e (some x) in
      let l = Linked-with_next m e (some x) null (x ∷ xs) out q.linked in
      let d : Head = record {
        first = e;
        last = if x == null then next_of e else next_of (last_of x xs);
        size = inc (length (x ∷ xs) % 2 ^ 32);
      } in
      rw (load_head-ok m h q.top, store_next-ok m e x valid alloc, store_head-ok base h d q.top)
        (
          record {
            top =
                head_at-path base h e (rw (ne→== x null q.linked.0))
                  (inc-mod_eq (length (x ∷ xs)) (length (e ∷ x ∷ xs)) refl);
            linked = (valid, rw (eq→== e e refl), Linked-with_head base h (some d) null (x ∷ xs) l);
            apart = ground arith;
          },
          record { items = ground arith; heads = ground arith },
        )
