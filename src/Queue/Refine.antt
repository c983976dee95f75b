-- ===== src/Queue/Refine.antt =====
-- The part of src/bsdqueue.h that src/acoro.c uses, against its abstract view: a list at whose
-- ends items are put and from whose front they are taken.
use async_coro.Base.{
  ℕ, ◌≡◌, ◌≢◌, refl, ◌∙◌, inl, inr, true, List, [], ◌∷◌, ◌++◌, Option, none, some, arith, has,
  has-append, ap, ◌==◌, if◌then◌else◌, Bool-cases, Run, ok, stop, Returns, Returns-bind, ◌>>=◌,
  ◌>>◌, and_then, pure,
}
use mathlib.Core.Path.{ap₂}
use async_coro.Queue.Mem.{Ptr, null, Mem, Qm}
use async_coro.Queue.Ops.{push, unshift, shift}
use async_coro.Queue.Rep.{head_or, IsQueue, SameOutside, Linked}
use async_coro.Queue.Insert.{push_lem, unshift_lem, Pushed}
use async_coro.Queue.Shift.{shift_lem}

pub data Op : Type 0 where
  put put_front : Ptr → Op
  take : Op

-- The abstract queue: the items handed out and the items left, or `none` where an item would be
-- put twice or taken from an empty queue.
abbrev pub abstract_op : Op → List Ptr → Option (List Ptr × List Ptr)
abstract_op (put e) q = if has e q then none else some ([], q ++ e ∷ [])
abstract_op (put_front e) q = if has e q then none else some ([], e ∷ q)
abstract_op take [] = none
abstract_op take (x ∷ q) = some (x ∷ [], q)

abbrev pub then_run : List Ptr → Option (List Ptr × List Ptr) → Option (List Ptr × List Ptr)
then_run out none = none
then_run out (some (more, q)) = some (out ++ more, q)

unfoldable pub abstract_run : List Op → List Ptr → Option (List Ptr × List Ptr)
abstract_run [] q = some ([], q)
abstract_run (o ∷ os) q = elim (abstract_op o q) [
  | none ↦ none
  | some (out, q') ↦ then_run out (abstract_run os q')
]

-- The same operations in memory.
unfoldable pub memory_op : ℕ → Op → Qm (List Ptr)
memory_op h (put e) = do push h e; pure []
memory_op h (put_front e) = do unshift h e; pure []
memory_op h take = do p ← shift h; pure (p ∷ [])

unfoldable pub memory_run : ℕ → List Op → Qm (List Ptr)
memory_run h [] = pure []
memory_run h (o ∷ os) = do out ← memory_op h o; more ← memory_run h os; pure (out ++ more)

-- The item is not NULL and is allocated.
abbrev pub IsItem : Mem → Ptr → Type 0
IsItem m e = (e ≢ null) × ((v : Ptr) × (m.next e ≡ some v))

-- Every item that the operations put is one.
abbrev pub AllItems : Mem → List Op → Type 0
AllItems m [] = Unit
AllItems m (put e ∷ os) = IsItem m e × AllItems m os
AllItems m (put_front e ∷ os) = IsItem m e × AllItems m os
AllItems m (take ∷ os) = AllItems m os

-- What a run in memory must do, where the abstract queue gives a result.
abbrev pub Refines : ℕ → Option (List Ptr × List Ptr) → Run Mem (List Ptr) → Type 0
Refines h none r = Unit
Refines h (some (out, q)) r = Returns (λ o b. (o ≡ out) × IsQueue b h q) r

-- What is allocated stays allocated.
abbrev Keeps : Mem → Mem → Type 0
Keeps m b = (p v : Ptr) → m.next p ≡ some v → (v' : Ptr) × (b.next p ≡ some v')

Linked-allocated :
    (m : Mem) (p : Ptr) (xs : List Ptr)
    → has p xs ≡ true
    → Linked m null xs
    → (v : Ptr) × (m.next p ≡ some v)
Linked-allocated m p [] mem l = cc
Linked-allocated m p (x ∷ xs) mem l = elim (Bool-cases (p == x)) [
  | inl hit ↦ let same : x ≡ p = ground arith in (head_or null xs, rw (← same) l.1)
  | inr miss ↦ Linked-allocated m p xs (ground arith) l.2
]

Keeps-SameOutside :
    (m b : Mem) (h : ℕ) (xs ys : List Ptr)
    → ((p : Ptr) → has p xs ≡ true → has p ys ≡ true)
    → Linked b null ys
    → SameOutside h xs m b
    → Keeps m b
Keeps-SameOutside m b h xs ys within l same p v e = elim (Bool-cases (has p xs)) [
  | inl mem ↦ Linked-allocated b p ys (within p mem) l
  | inr out ↦ (v, same.items p out ∙ e)
]

AllItems-Keeps : (m b : Mem) (os : List Op) → Keeps m b → AllItems m os → AllItems b os
AllItems-Keeps m b [] k a = tt
AllItems-Keeps m b (put e ∷ os) k ((ne, (v, al)), a) = ((ne, k e v al), AllItems-Keeps m b os k a)
AllItems-Keeps m b (put_front e ∷ os) k ((ne, (v, al)), a) =
    ((ne, k e v al), AllItems-Keeps m b os k a)
AllItems-Keeps m b (take ∷ os) k a = AllItems-Keeps m b os k a

abbrev RefinesOp : Mem → ℕ → Option (List Ptr × List Ptr) → Run Mem (List Ptr) → Type 0
RefinesOp m h none r = Unit
RefinesOp m h (some (out, q)) r = Returns (λ o b. (o ≡ out) × IsQueue b h q × Keeps m b) r

has-grown : (e p : Ptr) (q : List Ptr) → has p (e ∷ q) ≡ true → has p (q ++ e ∷ []) ≡ true
has-grown e p q mem = ground (arith, has-append p q (e ∷ []))

memory_op_lem :
    (m : Mem) (h : ℕ) (o : Op) (q : List Ptr)
    → IsQueue m h q
    → AllItems m (o ∷ [])
    → RefinesOp m h (abstract_op o q) (memory_op h o m)
unfolding memory_op
memory_op_lem m h (put e) q is ((ne, (v, al)), _) = elim (Bool-cases (has e q)) [
  | inl mem ↦ rw mem tt
  | inr out ↦ rw out (
      Returns-bind (λ _. Pushed m h e q) _ (push h e m) _ (push_lem m h e v ne al q out is)
        λ _ b (is', same). (
          refl,
          is',
          Keeps-SameOutside m b h (e ∷ q) (q ++ e ∷ []) (λ p. has-grown e p q) is'.linked same,
        ))
]
memory_op_lem m h (put_front e) q is ((ne, (v, al)), _) = elim (Bool-cases (has e q)) [
  | inl mem ↦ rw mem tt
  | inr out ↦ rw out (
      Returns-bind (λ _ b. IsQueue b h (e ∷ q) × SameOutside h (e ∷ []) m b) _ (unshift h e m) _
        (unshift_lem m h e v ne al q out is)
        λ _ b (is', same). (
          refl,
          is',
          Keeps-SameOutside m b h (e ∷ []) (e ∷ q) (λ p i. ground arith) is'.linked same,
        ))
]
memory_op_lem m h take [] is a = tt
memory_op_lem m h take (x ∷ q) is a =
    Returns-bind (λ p b. (p ≡ x) × IsQueue b h q × SameOutside h [] m b) _ (shift h m) _
      (shift_lem m h (x ∷ q) is)
      λ p b (e, is', same). (ap (λ a. a ∷ []) e, is', λ p' v al. (v, same.items p' refl ∙ al))

after_op :
    (m : Mem) (h : ℕ) (os : List Op) (r : Option (List Ptr × List Ptr)) (run : Run Mem (List Ptr))
    → RefinesOp m h r run
    → ((b : Mem) (q : List Ptr)
        → IsQueue b h q
        → Keeps m b
        → Refines h (abstract_run os q) (memory_run h os b))
    → Refines h
        (elim r [ none ↦ none | some (out, q') ↦ then_run out (abstract_run os q') ])
        (and_then run (λ out. do more ← memory_run h os; pure (out ++ more)))
after_op m h os none run ref next = tt
after_op m h os (some (out, q)) (stop s) ref next = absurd ref
after_op m h os (some (out, q)) (ok o b) (e, is, keeps) next =
    finish (abstract_run os q) (next b q is keeps)
  where
    finish :
        (r : Option (List Ptr × List Ptr))
        → Refines h r (memory_run h os b)
        → Refines h (then_run out r) (and_then (memory_run h os b) (λ more. pure (o ++ more)))
    finish none ref = tt
    finish (some (more, q')) ref =
        Returns-bind _ _ (memory_run h os b) _ ref λ more' b' (e', is'). (ap₂ ◌++◌ e e', is')

-- Any run of operations that the abstract queue allows, on items that are allocated, hands out in
-- memory the items that the abstract queue hands out, in that order, and leaves a queue of the
-- items that it leaves.
pub memory_run-Refines :
    (m : Mem) (h : ℕ) (os : List Op) (q : List Ptr)
    → IsQueue m h q
    → AllItems m os
    → Refines h (abstract_run os q) (memory_run h os m)
unfolding abstract_run memory_run
memory_run-Refines m h [] q is a = (refl, is)
memory_run-Refines m h (o ∷ os) q is a =
    after_op m h os (abstract_op o q) (memory_op h o m)
      (memory_op_lem m h o q is (first_item o os a))
      (λ b q' is' keeps.
        memory_run-Refines b h os q' is' (AllItems-Keeps m b os keeps (other_items o os a)))
  where
    first_item : (o : Op) (os : List Op) → AllItems m (o ∷ os) → AllItems m (o ∷ [])
    first_item (put e) os a = (a.0, tt)
    first_item (put_front e) os a = (a.0, tt)
    first_item take os a = tt

    other_items : (o : Op) (os : List Op) → AllItems m (o ∷ os) → AllItems m os
    other_items (put e) os a = a.1
    other_items (put_front e) os a = a.1
    other_items take os a = a
