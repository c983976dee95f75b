-- ===== src/Setup/Closing.antt =====
-- The second half of `destroy_coroutine_env` of src/acoro.c: threads end, pipes are closed, loops are destroyed.
use async_coro.Base.{
  ==→ne, ==→eq, ◌*◌, ℕ, zero, suc, ◌+◌, ◌<◌, ◌≤◌, ◌≡◌, inl, inr, refl, ap, ◌∙◌, arith, ℤ, pos, some,
  ◌∷◌, ◌==◌, Bool-cases, Returns, Returns-bind, Returns-mono,
}
use async_coro.World.Calls.{Call, Os}
use async_coro.World.State.{World, errno_after}
use async_coro.Setup.{channel, cancel_workers, close_ends, destroy_loops, end_threads}
use async_coro.Setup.Init.{Made, latest, earlier}

-- The part of a state that the calls at the end leave alone, and the calls that stay recorded.
pub record Only (w w' : World) : Type 0 where
  pub tasks : w'.tasks ≡ w.tasks
  pub channels : w'.pipe_channel ≡ w.pipe_channel
  pub workers : w'.worker_count ≡ w.worker_count
  pub grows : (c : Call) → Made c w.calls → Made c w'.calls

Only-trans : (u v w : World) → Only u v → Only v w → Only u w
Only-trans u v w a b = record {
  tasks = b.tasks ∙ a.tasks;
  channels = b.channels ∙ a.channels;
  workers = b.workers ∙ a.workers;
  grows = λ c m. b.grows c (a.grows c m);
}

two_told : (w : World) (c d : Call) → Only w (record w { calls = d ∷ c ∷ w.calls })
two_told w c d = record {
  tasks = refl;
  channels = refl;
  workers = refl;
  grows = λ e m. earlier _ _ (earlier _ _ m);
}

cancel_workers-Only : (n i : ℕ) (w : World) → Returns (λ _. Only w) (cancel_workers n i w)
unfolding cancel_workers
cancel_workers-Only zero i w = record {
  tasks = refl;
  channels = refl;
  workers = refl;
  grows = λ c m. m;
}
cancel_workers-Only (suc n) i w =
    Returns-mono _ _ (cancel_workers n (i + 1) _) (cancel_workers-Only n (i + 1) _)
      (λ _ w'. Only-trans w _ w' (two_told w _ _))

destroy_loops-Only : (n i : ℕ) (w : World) → Returns (λ _. Only w) (destroy_loops n i w)
unfolding destroy_loops
destroy_loops-Only zero i w = record {
  tasks = refl;
  channels = refl;
  workers = refl;
  grows = λ c m. m;
}
destroy_loops-Only (suc n) i w =
    Returns-mono _ _ (destroy_loops n (i + 1) _) (destroy_loops-Only n (i + 1) _)
      (λ _ w'. Only-trans w _ w' (two_told w _ _))

-- End `j` is the descriptor `fd`, which has been closed.
abbrev pub IsShut : ℕ → World → Type 0
IsShut j w = (fd : ℤ) × (w.pipe_channel j ≡ some fd) × Made (Call.close fd) w.calls

unfoldable pub Shut : (n k : ℕ) → World → Type 0
Shut n k w = (j : ℕ) → k ≤ j → j < k + n → IsShut j w

Shut-Only : (n k : ℕ) (w w' : World) → Only w w' → Shut n k w → Shut n k w'
unfolding Shut
Shut-Only n k w w' only shut j le lt = go (shut j le lt)
  where
    go : IsShut j w → IsShut j w'
    go (fd, e, m) = (fd, ap (λ f. f j) only.channels ∙ e, only.grows (Call.close fd) m)

module _ (os : Os) where
  abbrev closing : ℤ → World → World
  closing fd w = record w {
    calls = Call.close fd ∷ w.calls;
    errno = errno_after (os.answer w.calls (Call.close fd)).errno w.errno;
  }

  closing-Only : (fd : ℤ) (w : World) → Only w (closing fd w)
  closing-Only fd w = record {
    tasks = refl;
    channels = refl;
    workers = refl;
    grows = λ c m. earlier _ _ m;
  }

  Shut-first :
      (n k : ℕ) (fd : ℤ) (w w' : World)
      → w.pipe_channel k ≡ some fd
      → Only (closing fd w) w' × Shut n (k + 1) w'
      → Only w w' × Shut (suc n) k w'
  unfolding Shut
  Shut-first n k fd w w' e (only, shut) =
      (Only-trans w (closing fd w) w' (closing-Only fd w) only, each)
    where
      each : (j : ℕ) → k ≤ j → j < k + suc n → IsShut j w'
      each j le lt = elim (Bool-cases (j == k)) [
        | inl here ↦
            rw (==→eq j k here)
              (fd, ap (λ f. f k) only.channels ∙ e, only.grows (Call.close fd) (latest w.calls))
        | inr later ↦ shut j (omega (arith, ==→ne j k later)) (omega arith)
      ]

  close_ends-Shut :
      (n k : ℕ) (w : World)
      → ((j : ℕ) → k ≤ j → j < k + n → (fd : ℤ) × (w.pipe_channel j ≡ some fd))
      → Returns (λ _ w'. Only w w' × Shut n k w') (close_ends os n k w)
  unfolding close_ends channel Shut
  close_ends-Shut zero k w stored = (
    record { tasks = refl; channels = refl; workers = refl; grows = λ c m. m },
    λ j le lt. absurd (omega arith),
  )
  close_ends-Shut (suc n) k w stored =
      let found = stored k (omega arith) (omega arith) in
      rw found.1 (
        Returns-mono _ _ (close_ends os n (k + 1) (closing found.0 w))
          (close_ends-Shut n (k + 1) (closing found.0 w)
            (λ j le lt. stored j (omega arith) (omega arith)))
          (λ _ w'. Shut-first n k found.0 w w' found.1))

-- The threads are cancelled, the ends closed, and the loops destroyed.
pub threads_end :
    (os : Os) (n : ℕ) (w : World)
    → ((k : ℕ) → k < n * 2 → (fd : ℤ) × (w.pipe_channel k ≡ some fd))
    → Returns (λ r w'. (r ≡ pos 0) × Only w w' × Shut (n * 2) 0 w') (end_threads os n w)
unfolding end_threads
threads_end os n w stored =
    Returns-bind _ _ (cancel_workers n 0 cancelling) _ (cancel_workers-Only n 0 cancelling)
      (λ _ v only.
        Returns-bind _ _ (close_ends os (n * 2) 0 v) _
          (close_ends-Shut os (n * 2) 0 v (λ k le lt. seen v only k (stored k (omega arith))))
          (λ _ u (closed, shut).
            Returns-bind _ _ (destroy_loops n 0 u) _ (destroy_loops-Only n 0 u) (λ _ t ended. (
              refl,
              Only-trans w cancelling t told
                  (Only-trans cancelling v t only (Only-trans v u t closed ended)),
              Shut-Only (n * 2) 0 u t ended shut,
            ))))
  where
    cancelling : World
    cancelling = record w {
      calls = Call.join_manager ∷ Call.destroy_manager_sem ∷ Call.cancel_manager ∷ w.calls;
    }

    told : Only w cancelling
    told = record {
      tasks = refl;
      channels = refl;
      workers = refl;
      grows = λ c m. earlier _ _ (earlier _ _ (earlier _ _ m));
    }

    seen :
        (v : World)
        → Only cancelling v
        → (k : ℕ) → ((fd : ℤ) × (w.pipe_channel k ≡ some fd))
        → (fd : ℤ) × (v.pipe_channel k ≡ some fd)
    seen v only k (fd, e) = (fd, ap (λ f. f k) only.channels ∙ e)
