-- ===== src/Queue/Mem.antt =====
-- The memory of the singly-linked tail queues of src/bsdqueue.h: heads, items, and the accesses
-- that the macros make. `stqh_last` holds the address of a pointer, which is a `Slot`.
use async_coro.Base.{
  ℕ, Option, none, some, ◌==◌, if◌then◌else◌, ok, stop, Stop, Cmd, ◌>>=◌, ◌>>◌, modify,
}

-- The address of an item, or NULL.
abbrev pub Ptr : Type 0
Ptr = ℕ

abbrev pub null : Ptr
null = 0

-- `struct type **`: the address of a head's `stqh_first`, or of an item's `stqe_next`.
pub data Slot : Type 0 where
  first_of : ℕ → Slot
  next_of : Ptr → Slot

-- `STAILQ_HEAD`, less its lock.
pub record Head : Type 0 where
  pub first : Ptr
  pub last : Slot
  pub size : ℕ  -- unsigned int

-- `none` is memory that is not allocated. `next p` is `p->LINK_NEXT_PTR.stqe_next`.
pub record Mem : Type 0 where
  pub next : Ptr → Option Ptr
  pub head : ℕ → Option Head

abbrev pub update {ℓ} : {A : Type ℓ} → (ℕ → A) → ℕ → A → ℕ → A
update f a v b = if a == b then v else f b

abbrev pub Qm : Type 0 → Type 0
Qm A = Cmd Mem A

-- `*h`.
unfoldable pub load_head : ℕ → Qm Head
load_head h m = elim (m.head h) [ none ↦ stop Stop.fault | some d ↦ ok d m ]

unfoldable pub store_head : ℕ → Head → Qm (Unit {0})
store_head h d m = elim (m.head h) [
  | none ↦ stop Stop.fault
  | some _ ↦ ok tt (record m { head = update m.head h (some d) })
]

-- `STAILQ_NEXT(p)`, a fault at NULL and at an item that is not allocated.
unfoldable pub load_next : Ptr → Qm Ptr
load_next p m =
    if p == null
    then stop Stop.fault
    else elim (m.next p) [ none ↦ stop Stop.fault | some q ↦ ok q m ]

-- `STAILQ_NEXT(p) = q`.
unfoldable pub store_next : Ptr → Ptr → Qm (Unit {0})
store_next p q m = if p == null then stop Stop.fault else elim (m.next p) [
  | none ↦ stop Stop.fault
  | some _ ↦ ok tt (record m { next = update m.next p (some q) })
]

-- `*slot = q`.
unfoldable pub store_slot : Slot → Ptr → Qm (Unit {0})
unfolding load_head store_head store_next
store_slot (first_of h) q = do d ← load_head h; store_head h (record d { first = q })
store_slot (next_of p) q = store_next p q

-- `mem_free` of an item.
unfoldable pub free_item : Ptr → Qm (Unit {0})
unfolding load_next
free_item p = load_next p >> modify (λ m. record m { next = update m.next p none })
