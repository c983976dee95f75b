-- ===== src/System/Count.antt =====
-- How many bytes the workers of src/acoro.c have in their pipes.
use async_coro.Base.{
  ==→eq, ==→ne, ℕ, zero, suc, ◌+◌, ◌<◌, ◌≤◌, ◌≡◌, inl, inr, refl, ap, arith, List, length, ◌==◌,
  Bool-cases, ne→==,
}
use async_coro.Queue.Mem.{update}

-- The bytes in the pipes of the first `n` workers.
abbrev pub total : (ℕ → List ℕ) → ℕ → ℕ
total f zero = 0
total f (suc n) = length (f n) + total f n

total-update_out :
    (f : ℕ → List ℕ) (k : ℕ) (x : List ℕ) (n : ℕ) → n ≤ k → total (update f k x) n ≡ total f n
total-update_out f k x zero le = refl
total-update_out f k x (suc n) le =
    rw (ne→== k n (omega arith))
      (ap (λ m. length (f n) + m) (total-update_out f k x n (omega arith)))

pub total-update :
    (f : ℕ → List ℕ) (k : ℕ) (x : List ℕ) (n : ℕ)
    → k < n
    → total (update f k x) n + length (f k) ≡ total f n + length x
total-update f k x zero lt = absurd (omega arith)
total-update f k x (suc n) lt = elim (Bool-cases (k == n)) [
  | inl here ↦
      rw (here, total-update_out f k x n (omega (arith, ==→eq k n here)))
        (omega (arith, ap (λ i. length (f i)) (==→eq k n here)))
  | inr there ↦ rw there (omega (arith, total-update f k x n (omega (arith, ==→ne k n there))))
]
