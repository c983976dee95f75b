-- ===== src/Queue/Tests.antt =====
-- Runs of the macros of src/bsdqueue.h on a queue of three items, and the theorems at that queue.
use async_coro.Base.{
  zero, suc, ◌≡◌, refl, List, [], ◌∷◌, Option, none, some, arith, ok, stop, Stop, Returns, ◌>>=◌,
  ◌>>◌,
}
use async_coro.Queue.Mem.{
  free_item, next_of, Ptr, null, Mem, update, Qm, load_head, store_head, load_next, store_next,
  store_slot,
}
use async_coro.Queue.Ops.{
  foreach_safe, delete, remove_head_until, new, init, first, last, push, unshift, insert, shift,
  remove_head, find_before, remove, pop, concat, destroy, walk, foreach, addr,
}
use async_coro.Queue.Rep.{IsQueue, SameOutside, head_of}
use async_coro.Queue.Insert.{push_lem, unshift_lem, Pushed}
use async_coro.Queue.Shift.{shift_lem, AfterShift}
use async_coro.Queue.Remove.{remove_lem, remove-absent, pop_lem}
use async_coro.Queue.Join.{concat_lem, Joined}
use async_coro.Queue.Walk.{foreach_safe_lem, foreach_lem, addr_lem, destroy_lem, Freed}
use async_coro.Queue.Refine.{
  put, put_front, take, abstract_run, memory_run, Refines, memory_run-Refines,
}
use async_coro.Queue.Twice.{push-twice, Endless}

-- Head 9 holds the items 1, 2 and 3, head 8 the item 5; item 4 is allocated and in no queue.
abbrev items : Ptr → Option Ptr
items zero = none
items (suc zero) = some 2
items (suc (suc zero)) = some 3
items (suc (suc (suc zero))) = some null
items (suc (suc (suc (suc zero)))) = some 77
items (suc (suc (suc (suc (suc zero))))) = some null
items _ = none

abbrev three : List Ptr
three = 1 ∷ 2 ∷ 3 ∷ []

abbrev five : List Ptr
five = 5 ∷ []

abbrev memory : Mem
memory = record {
  next = items;
  head = update (update (λ _. none) 9 (some (head_of 9 three))) 8 (some (head_of 8 five));
}

three-IsQueue : IsQueue memory 9 three
three-IsQueue = record {
  top = refl;
  linked = (ground arith, refl, (ground arith, refl, (ground arith, refl, tt)));
  apart = refl;
}

five-IsQueue : IsQueue memory 8 five
five-IsQueue = record { top = refl; linked = (ground arith, refl, tt); apart = refl }

-- What a caller sees of a session: the items, after operations of every kind.
session : Qm (List Ptr)
session = do
  new 7
  push 7 4
  unshift 9 4
  p ← shift 9
  push 9 p
  concat 9 8
  remove 10 9 2
  q ← pop 10 9
  insert 9 3 q
  foreach 10 9

session_result : Returns (λ xs _. xs ≡ 1 ∷ 3 ∷ 5 ∷ 4 ∷ []) (session memory)
unfolding session new init push unshift shift first remove_head concat remove find_before pop last
    insert foreach walk load_head store_head load_next store_next store_slot
session_result = refl

pop_empty : (new 7 >> pop 10 7) memory ≡ stop Stop.fault
unfolding new init pop last remove remove_head load_head store_head load_next
pop_empty = refl

push_lem_example : Returns (λ _. Pushed memory 9 4 three) (push 9 4 memory)
push_lem_example = push_lem memory 9 4 77 (ground arith) refl three refl three-IsQueue

unshift_lem_example :
    Returns (λ _ b. IsQueue b 9 (4 ∷ three) × SameOutside 9 (4 ∷ []) memory b) (unshift 9 4 memory)
unshift_lem_example = unshift_lem memory 9 4 77 (ground arith) refl three refl three-IsQueue

shift_lem_example : AfterShift memory 9 three (shift 9 memory)
shift_lem_example = shift_lem memory 9 three three-IsQueue

remove_lem_example :
    Returns (λ _ b. IsQueue b 9 (1 ∷ 3 ∷ []) × SameOutside 9 three memory b) (remove 5 9 2 memory)
remove_lem_example = remove_lem memory 9 2 5 three (omega arith) refl three-IsQueue

remove-absent_example : remove 5 9 4 memory ≡ stop Stop.fault
remove-absent_example =
    remove-absent memory 9 4 5 three (omega arith) refl (ground arith) three-IsQueue

pop_lem_example :
    Returns
      (λ p b. (p ≡ 3) × IsQueue b 9 (1 ∷ 2 ∷ []) × SameOutside 9 three memory b)
      (pop 5 9 memory)
pop_lem_example = pop_lem memory 9 3 5 (1 ∷ 2 ∷ []) (omega arith) three-IsQueue

concat_lem_example : Returns (λ _. Joined 9 8 (1 ∷ 2 ∷ 3 ∷ 5 ∷ [])) (concat 9 8 memory)
concat_lem_example = concat_lem memory 9 8 refl three five refl three-IsQueue five-IsQueue

foreach_lem_example : foreach 5 9 memory ≡ ok three memory
foreach_lem_example = foreach_lem memory 9 5 three (omega arith) three-IsQueue

addr_lem_example : addr 9 2 memory ≡ ok 3 memory
addr_lem_example = addr_lem memory 9 2 three (omega arith) three-IsQueue

destroy_lem_example : Returns (λ _ b. (b.head 9 ≡ none) × Freed three memory b) (destroy 5 9 memory)
destroy_lem_example = destroy_lem 5 memory 9 three (omega arith) three-IsQueue

foreach_safe_lem_example :
    Returns
      (λ _ b. Freed three memory b × (b.head ≡ memory.head))
      (foreach_safe 5 9 free_item memory)
foreach_safe_lem_example = foreach_safe_lem 5 memory 9 three (omega arith) three-IsQueue

-- Deleting the middle item leaves the others and frees it; it is freed once.
delete_middle :
    Returns (λ xs b. (xs ≡ 1 ∷ 3 ∷ []) × (b.next 2 ≡ none)) ((delete 5 9 2 >> foreach 5 9) memory)
unfolding delete remove remove_head find_before first foreach walk free_item load_head store_head
    load_next store_next
delete_middle = (refl, refl)

-- Removing up to item 2 leaves item 3, and a size of 3.
until_middle :
    Returns
      (λ xs b. (xs ≡ 3 ∷ []) × (b.head 9 ≡ some (record { first = 3; last = next_of 3; size = 3 })))
      ((remove_head_until 9 2 >> foreach 5 9) memory)
unfolding remove_head_until first foreach walk load_head store_head load_next
until_middle = (refl, refl)

push-twice_example : Endless 3 (push 9 3 memory)
push-twice_example = push-twice memory 9 (1 ∷ 2 ∷ []) 3 three-IsQueue

memory_run-Refines_example :
    Refines 9
      (some (1 ∷ 4 ∷ 2 ∷ [], 3 ∷ 1 ∷ []))
      (memory_run 9 (take ∷ put 1 ∷ put_front 4 ∷ take ∷ take ∷ []) memory)
unfolding abstract_run
memory_run-Refines_example =
    memory_run-Refines memory 9 (take ∷ put 1 ∷ put_front 4 ∷ take ∷ take ∷ []) three three-IsQueue
      ((ground arith, (2, refl)), ((ground arith, (77, refl)), tt))
