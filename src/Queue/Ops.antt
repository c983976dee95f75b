-- ===== src/Queue/Ops.antt =====
-- The macros of src/bsdqueue.h over the memory of `Mem`, each in the order of its assignments.
use async_coro.Base.{
  ℕ, zero, suc, ◌+◌, ◌-◌, ◌%◌, ◌^◌, Bool, List, [], ◌∷◌, none, some, ◌==◌, leb, if◌then◌else◌, Stop,
  pure, halt, ◌>>=◌, ◌>>◌, modify,
}
use async_coro.Queue.Mem.{
  Ptr, null, Slot, first_of, next_of, Head, update, Qm, load_head, store_head, load_next,
  store_next, store_slot, free_item,
}

-- `size ++` and `size --` on an unsigned int.
abbrev pub inc : ℕ → ℕ
inc n = (n + 1) % 2 ^ 32

abbrev pub dec : ℕ → ℕ
dec n = (n + 2 ^ 32 - 1) % 2 ^ 32

-- A head of an empty queue, as `STAILQ_INIT` leaves it.
abbrev pub empty_head : ℕ → Head
empty_head h = record { first = null; last = first_of h; size = 0 }

unfoldable pub init : ℕ → Qm (Unit {0})
unfolding store_head
init h = store_head h (empty_head h)

-- `list_new`, for the address `h` that the allocator returns.
unfoldable pub new : ℕ → Qm (Unit {0})
unfolding init
new h = do modify (λ m. record m { head = update m.head h (some (empty_head h)) }); init h

-- `list_first`.
unfoldable pub first : ℕ → Qm Ptr
unfolding load_head
first h = do d ← load_head h; pure d.first

-- `list_last`: the item whose `stqe_next` the head's `stqh_last` points to.
slot_item : Slot → Ptr
slot_item (first_of _) = null
slot_item (next_of p) = p

unfoldable pub last : ℕ → Qm Ptr
unfolding load_head slot_item
last h = do d ← load_head h; pure (if d.first == null then null else slot_item d.last)

unfoldable pub is_empty : ℕ → Qm Bool
unfolding load_head
is_empty h = do d ← load_head h; pure (d.first == null)

unfoldable pub size_of : ℕ → Qm ℕ
unfolding load_head
size_of h = do d ← load_head h; pure d.size

-- `STAILQ_INSERT_TAIL`.
unfoldable pub push : ℕ → Ptr → Qm (Unit {0})
unfolding load_head store_head store_next store_slot
push h e = do
  store_next e null
  d ← load_head h
  store_slot d.last e
  d' ← load_head h
  store_head h (record d' { last = next_of e; size = inc d'.size })

-- `STAILQ_INSERT_HEAD`.
unfoldable pub unshift : ℕ → Ptr → Qm (Unit {0})
unfolding load_head store_head store_next
unshift h e = do
  d ← load_head h
  store_next e d.first
  store_head h (record d {
    first = e;
    last = if d.first == null then next_of e else d.last;
    size = inc d.size;
  })

-- `STAILQ_INSERT_AFTER`.
unfoldable pub insert : ℕ → (after : Ptr) → Ptr → Qm (Unit {0})
unfolding load_head store_head load_next store_next
insert h after e = do
  q ← load_next after
  store_next e q
  d ← load_head h
  store_next after e
  store_head h (record d { last = if q == null then next_of e else d.last; size = inc d.size })

-- `STAILQ_REMOVE_HEAD`. On an empty queue it reads through NULL.
unfoldable pub remove_head : ℕ → Qm (Unit {0})
unfolding load_head store_head load_next
remove_head h = do
  d ← load_head h
  q ← load_next d.first
  store_head h
      (record d { first = q; last = if q == null then first_of h else d.last; size = dec d.size })

-- `list_shift`.
unfoldable pub shift : ℕ → Qm Ptr
shift h = do p ← first h; remove_head h; pure p

-- The walk of `STAILQ_REMOVE` to the item before `e`, on fuel.
unfoldable pub find_before : ℕ → (cur e : Ptr) → Qm Ptr
unfolding load_next
find_before zero cur e = halt Stop.out_of_fuel
find_before (suc k) cur e = do q ← load_next cur; if q == e then pure cur else find_before k q e

-- `STAILQ_REMOVE`.
unfoldable pub remove : (fuel : ℕ) → ℕ → Ptr → Qm (Unit {0})
unfolding load_head store_head load_next store_next
remove fuel h e = do
  d ← load_head h
  if d.first == e then remove_head h else do
    cur ← find_before fuel d.first e
    gone ← load_next cur
    q ← load_next gone
    store_next cur q
    store_head h (record d { last = if q == null then next_of cur else d.last; size = dec d.size })

-- `list_pop`.
unfoldable pub pop : (fuel : ℕ) → ℕ → Qm Ptr
pop fuel h = do p ← last h; remove fuel h p; pure p

-- `STAILQ_CONCAT`.
unfoldable pub concat : ℕ → ℕ → Qm (Unit {0})
unfolding load_head store_head store_slot
concat h1 h2 = do
  b ← load_head h2
  if b.first == null then pure tt else do
    a ← load_head h1
    store_slot a.last b.first
    a' ← load_head h1
    store_head h1 (record a' { last = b.last; size = (a'.size + b.size) % 2 ^ 32 })
    init h2

-- `list_delete_head`, and the loop of `list_clear` and `list_destroy`.
unfoldable pub delete_head : ℕ → Qm (Unit {0})
delete_head h = do p ← first h; remove_head h; free_item p

unfoldable pub clear : (fuel : ℕ) → ℕ → Qm (Unit {0})
clear zero h = halt Stop.out_of_fuel
clear (suc k) h = do p ← first h; if p == null then pure tt else do delete_head h; clear k h

unfoldable pub destroy : (fuel : ℕ) → ℕ → Qm (Unit {0})
destroy fuel h = do clear fuel h; modify (λ m. record m { head = update m.head h none })

-- `list_foreach`: the items that the loop visits.
unfoldable pub walk : (fuel : ℕ) → Ptr → Qm (List Ptr)
unfolding load_next
walk zero p = halt Stop.out_of_fuel
walk (suc k) p = if p == null then pure [] else do q ← load_next p; rest ← walk k q; pure (p ∷ rest)

unfoldable pub foreach : (fuel : ℕ) → ℕ → Qm (List Ptr)
foreach fuel h = do p ← first h; walk fuel p

-- `list_foreach_safe`: the item may be freed by `body`, since its successor is read first.
unfoldable pub walk_safe : (fuel : ℕ) → (body : Ptr → Qm (Unit {0})) → Ptr → Qm (Unit {0})
unfolding load_next
walk_safe zero body p = halt Stop.out_of_fuel
walk_safe (suc k) body p =
    if p == null then pure tt else do q ← load_next p; body p; walk_safe k body q

unfoldable pub foreach_safe : (fuel : ℕ) → ℕ → (body : Ptr → Qm (Unit {0})) → Qm (Unit {0})
foreach_safe fuel h body = do p ← first h; walk_safe fuel body p

-- `list_delete`.
unfoldable pub delete : (fuel : ℕ) → ℕ → Ptr → Qm (Unit {0})
delete fuel h e = do remove fuel h e; free_item e

-- `STAILQ_REMOVE_HEAD_UNTIL`, which leaves the size as it was.
unfoldable pub remove_head_until : ℕ → Ptr → Qm (Unit {0})
remove_head_until h e = do
  d ← load_head h
  q ← load_next e
  store_head h (record d { first = q; last = if q == null then first_of h else d.last })

-- `list_addr`, for `n` below 2^31: `while (--m >= 0)` follows `next` that many times.
unfoldable pub follow : ℕ → Ptr → Qm Ptr
unfolding load_next
follow zero p = pure p
follow (suc n) p = do q ← load_next p; follow n q

unfoldable pub addr : ℕ → ℕ → Qm Ptr
addr h n = do s ← size_of h; if leb s n then pure null else do p ← first h; follow n p
