-- ===== src/Queue/Twice.antt =====
-- What `list_push` of src/bsdqueue.h does to an item that is the last of the queue already.
use async_coro.Base.{
  ℕ, zero, suc, ◌≡◌, refl, ◌≢◌, List, [], ◌∷◌, ◌++◌, some, eq→==, ne→==, length, Returns, Run, stop,
  Stop, ◌%◌, ◌^◌,
}
use async_coro.Queue.Mem.{Ptr, null, Mem}
use async_coro.Queue.Ops.{push, walk}
use async_coro.Queue.Rep.{IsQueue, last_of, load_next-ok, last_of-snoc, last_of-ne-null}
use async_coro.Queue.Insert.{push-run}

walk_self :
    (m : Mem) (e : Ptr) (k : ℕ) → e ≢ null → m.next e ≡ some e → walk k e m ≡ stop Stop.out_of_fuel
unfolding walk
walk_self m e zero ne own = refl
walk_self m e (suc k) ne own = rw (ne→== e null ne, load_next-ok m e ne own, walk_self m e k ne own)

-- A run that leaves an item behind which a walk never ends.
abbrev pub Endless : Ptr → Run Mem (Unit {0}) → Type 0
Endless e r =
    Returns (λ _ b. (b.next e ≡ some e) × ((k : ℕ) → walk k e b ≡ stop Stop.out_of_fuel)) r

Endless-push :
    (m : Mem) (h x : ℕ) (xs : List Ptr) (e : Ptr)
    → IsQueue m h (x ∷ xs)
    → last_of x xs ≡ e
    → Endless e (push h e m)
Endless-push m h x xs e q at_end =
    let (ne, le) = last_of-ne-null m null x xs q.linked in
    let ne' : e ≢ null = rw (← at_end) ne in
    let le' : m.next e ≡ some null = rw (← at_end) le in
    rw
      (push-run m h e null ne' le' x e null (length (x ∷ xs) % 2 ^ 32) ne' le' (rw at_end at q.top))
      (rw (eq→== e e refl) (refl, λ k. walk_self _ e k ne' (rw (eq→== e e refl))))

-- Pushing the last item of a queue again makes it its own successor, and no walk that reaches it
-- ends.
pub push-twice :
    (m : Mem) (h : ℕ) (xs : List Ptr) (e : Ptr)
    → IsQueue m h (xs ++ e ∷ [])
    → Endless e (push h e m)
push-twice m h [] e q = Endless-push m h e [] e q refl
push-twice m h (x ∷ xs) e q = Endless-push m h x (xs ++ e ∷ []) e q (last_of-snoc x xs e)
