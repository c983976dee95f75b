-- ===== src/Queue/Shift.antt =====
-- `list_first`, `list_remove_head` and `list_shift` of src/bsdqueue.h.
use async_coro.Base.{
  ℕ, ◌%◌, ◌^◌, ◌≡◌, refl, List, [], ◌∷◌, some, arith, ◌==◌, ne→==, length, if◌then◌else◌, Returns,
  Returns-bind, Run, ok, stop, Stop,
}
use async_coro.Queue.Mem.{Ptr, null, first_of, next_of, Head, Mem}
use async_coro.Queue.Ops.{first, shift, remove_head, dec}
use async_coro.Queue.Rep.{
  IsQueue, SameOutside, head_or, last_of, load_head-ok, store_head-ok, load_next-ok,
  Linked-with_head, distinct-cons, dec-mod_eq, head_at-path,
}

-- A queue without its first item, which is handed out; a read through NULL if there is none.
abbrev pub AfterShift : Mem → ℕ → List Ptr → Run Mem Ptr → Type 0
AfterShift m h [] r = r ≡ stop Stop.fault
AfterShift m h (x ∷ xs) r = Returns (λ p b. (p ≡ x) × IsQueue b h xs × SameOutside h [] m b) r

module _ (m : Mem) (h : ℕ) where
  remove_head-nil : IsQueue m h [] → remove_head h m ≡ stop Stop.fault
  unfolding remove_head
  remove_head-nil q = ground (arith, q.top)

  pub remove_head-cons :
      (x : Ptr) (xs : List Ptr)
      → IsQueue m h (x ∷ xs)
      → Returns (λ _ b. IsQueue b h xs × SameOutside h [] m b) (remove_head h m)
  unfolding remove_head
  remove_head-cons x [] q =
      rw (load_head-ok m h q.top, load_next-ok m x q.linked.0 q.linked.1) (ground (arith, q.top))
  remove_head-cons x (y ∷ ys) q =
      let d : Head = record {
        first = y;
        last = if y == null then first_of h else next_of (last_of y ys);
        size = dec (length (x ∷ y ∷ ys) % 2 ^ 32);
      } in
      rw (load_head-ok m h q.top, load_next-ok m x q.linked.0 q.linked.1, store_head-ok m h d q.top)
        (
          record {
            top =
                head_at-path m h y (rw (ne→== y null q.linked.2.0))
                  (dec-mod_eq (length (x ∷ y ∷ ys)) (length (y ∷ ys)) refl);
            linked = Linked-with_head m h (some d) null (y ∷ ys) q.linked.2;
            apart = (distinct-cons x (y ∷ ys) q.apart).1;
          },
          record { items = ground arith; heads = ground arith },
        )

  pub first-ok : (xs : List Ptr) → IsQueue m h xs → first h m ≡ ok (head_or null xs) m
  unfolding first
  first-ok xs q = rw (load_head-ok m h q.top)

  -- Shifting hands out the first item and leaves the others, and faults on an empty queue.
  pub shift_lem : (xs : List Ptr) → IsQueue m h xs → AfterShift m h xs (shift h m)
  unfolding shift
  shift_lem [] q = rw (first-ok [] q, remove_head-nil q)
  shift_lem (x ∷ xs) q = rw (first-ok (x ∷ xs) q) (
      Returns-bind (λ _ b. IsQueue b h xs × SameOutside h [] m b) _ (remove_head h m) _
        (remove_head-cons x xs q) (λ _ b (is, same). (refl, is, same)))
