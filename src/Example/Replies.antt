-- ===== src/Example/Replies.antt =====
-- Whatever the calls of src/acoro.h answer to the programs of example/: any answers, one for each
-- call, with nothing asked of them but that a read stores as many bytes as it returns, and no more than it was asked for.
use async_coro.Base.{ℕ, zero, suc, ◌≤◌, arith, ℤ, pos, negsuc, List, [], ◌∷◌, length, ok, Cmd}
use async_coro.Example.{Got, Tcp}

-- What a read answers: bytes, of which it stores as many as it was asked for at most, or an error.
pub data Reply : Type 0 where
  gives : List ℕ → Reply
  fails : ℕ → Reply

abbrev pub firsts : ℕ → List ℕ → List ℕ
firsts zero l = []
firsts (suc n) [] = []
firsts (suc n) (c ∷ cs) = c ∷ firsts n cs

pub length-firsts : (n : ℕ) (l : List ℕ) → length (firsts n l) ≤ n
length-firsts zero l = omega arith
length-firsts (suc n) [] = omega arith
length-firsts (suc n) (c ∷ cs) = omega (arith, length-firsts n cs)

abbrev pub got : ℕ → Reply → Got
got count (gives l) = record { nread = pos (length (firsts count l)); bytes = firsts count l }
got count (fails k) = record { nread = negsuc k; bytes = [] }

abbrev reads : (ℕ → Reply) → ℕ → Cmd ℕ Got
reads replies count n = ok (got count (replies n)) (suc n)

abbrev results_at : (ℕ → ℤ) → Cmd ℕ ℤ
results_at results n = ok (results n) (suc n)

-- The state is the number of calls so far.
abbrev pub any_tcp : (replies : ℕ → Reply) (results : ℕ → ℤ) → Tcp ℕ
any_tcp replies results = record {
  read = λ fd count. reads replies count;
  read_to = λ fd count msec. reads replies count;
  write = λ fd bytes. results_at results;
  write_to = λ fd bytes msec. results_at results;
  set_nonblock = λ fd n. ok 0 (suc n);
  connect = λ ip port. results_at results;
  sock_close = λ fd n. ok tt (suc n);
  exit = λ n. ok tt (suc n);
}
