-- ===== src/Setup/Init.antt =====
-- `init_coroutine_env` of src/acoro.c sets up every worker's pipe.
use async_coro.Base.{
  ==→ne, ==→eq, ◌*◌, ℕ, zero, suc, ◌+◌, ◌<◌, ◌≡◌, inl, inr, refl, ap, sym, ◌∙◌, arith, ℤ, pos,
  is_neg, is_zero, true, false, some, List, [], ◌∷◌, length, ◌==◌, if◌then◌else◌, Bool-cases, eq→==,
  ne→==, ok, stop, Stop, Returns, Returns-bind, Returns-mono,
}
use async_coro.World.Calls.{Call, Os, nonblock_bit, set_bit}
use async_coro.World.State.{World, errno_after}
use async_coro.Setup.{
  default_workers, set_channel, channel, make_pipe, nonblock_end, start_worker, start_workers,
  new_background_worker, init_coroutine_env,
}
use async_coro.System.Keeps.{Inv}
use async_coro.System.Steps.{SameQueues}
use async_coro.System.Count.{total}

-- A kernel that makes every pipe and keeps the flags of every descriptor.
pub record IsGenerous (os : Os) : Type 0 where
  pub pipes : (h : List Call) (i : ℕ) → is_zero (os.answer h (Call.pipe i)).ret ≡ true
  pub gets_flags : (h : List Call) (fd : ℤ) → is_neg (os.answer h (Call.getfl fd)).ret ≡ false
  pub sets_flags :
      (h : List Call) (fd flags : ℤ) → is_zero (os.answer h (Call.setfl fd flags)).ret ≡ true

pub data Made (c : Call) : List Call → Type 0 where
  latest : (h : List Call) → Made c (c ∷ h)
  earlier : (d : Call) (h : List Call) → Made c h → Made c (d ∷ h)

ruleset made = (latest, earlier)

-- End `k` is an open descriptor that has been made not to block.
pub record IsOpen (k : ℕ) (w : World) : Type 0 where
  pub fd : ℤ
  pub stored : w.pipe_channel k ≡ some fd
  pub flags : ℤ
  pub unblocked : Made (Call.setfl fd (set_bit nonblock_bit flags)) w.calls

module _ (os : Os) where
  abbrev asked : Call → World → World
  asked c w = record w {
    calls = c ∷ w.calls;
    errno = errno_after (os.answer w.calls c).errno w.errno;
  }

  abbrev piped : ℕ → World → World
  piped i w =
      let a = os.answer w.calls (Call.pipe i) in
      set_channel (2 * i + 1) (pos a.out2) (set_channel (2 * i) (pos a.out) (asked (Call.pipe i) w))

  abbrev flags_of : ℤ → World → ℤ
  flags_of fd w = (os.answer w.calls (Call.getfl fd)).ret

  abbrev unblocked_end : ℤ → World → World
  unblocked_end fd w =
      asked (Call.setfl fd (set_bit nonblock_bit (flags_of fd w))) (asked (Call.getfl fd) w)

  module _ (generous : IsGenerous os) where
    make_pipe-ok : (i : ℕ) (w : World) → make_pipe os i w ≡ ok tt (piped i w)
    unfolding make_pipe
    make_pipe-ok i w = rw (generous.pipes w.calls i) refl

    nonblock_end-ok :
        (k : ℕ) (fd : ℤ) (w : World)
        → w.pipe_channel k ≡ some fd
        → nonblock_end os k w ≡ ok tt (unblocked_end fd w)
    unfolding nonblock_end
    nonblock_end-ok k fd w e =
        rw
          (
            e,
            generous.gets_flags w.calls fd,
            e,
            generous.sets_flags (Call.getfl fd ∷ w.calls) fd (set_bit nonblock_bit (flags_of fd w)),
          )
          refl

    module _ (i : ℕ) (w : World) where
      abbrev read_end : ℤ
      read_end = pos (os.answer w.calls (Call.pipe i)).out

      abbrev write_end : ℤ
      write_end = pos (os.answer w.calls (Call.pipe i)).out2

      abbrev one_unblocked : World
      one_unblocked = unblocked_end read_end (piped i w)

      abbrev started : World
      started =
          let v = unblocked_end write_end one_unblocked in
          record v { calls = Call.yield_cpu ∷ Call.start_worker i ∷ v.calls }

      has_read_end : started.pipe_channel (2 * i) ≡ some read_end
      has_read_end = rw (ne→== (2 * i + 1) (2 * i) (omega arith), eq→== (2 * i) (2 * i) refl) refl

      has_write_end : started.pipe_channel (2 * i + 1) ≡ some write_end
      has_write_end = rw (eq→== (2 * i + 1) (2 * i + 1) refl) refl

      end_kept : (k : ℕ) → k < 2 * i → started.pipe_channel k ≡ w.pipe_channel k
      end_kept k lt = rw (ne→== (2 * i + 1) k (omega arith), ne→== (2 * i) k (omega arith)) refl

      start_worker-ok : start_worker os i w ≡ ok tt started
      unfolding start_worker
      start_worker-ok =
          rw
            (
              make_pipe-ok i w,
              nonblock_end-ok (2 * i) read_end (piped i w) has_read_end,
              nonblock_end-ok (2 * i + 1) write_end one_unblocked has_write_end,
            )
            refl

      started-IsOpen :
          ((k : ℕ) → k < 2 * i → IsOpen k w) → (k : ℕ) → k < 2 * (i + 1) → IsOpen k started
      started-IsOpen before k lt = elim (Bool-cases (k == 2 * i)) [
        | inl here ↦ record {
          fd = read_end;
          stored = rw (==→eq k (2 * i) here) has_read_end;
          flags = flags_of read_end (piped i w);
          unblocked = search made depth 12;
        }
        | inr other ↦ elim (Bool-cases (k == 2 * i + 1)) [
          | inl here ↦ record {
            fd = write_end;
            stored = rw (==→eq k (2 * i + 1) here) has_write_end;
            flags = flags_of write_end one_unblocked;
            unblocked = search made depth 12;
          }
          | inr neither ↦
              let lower : k < 2 * i =
                omega (arith, ==→ne k (2 * i) other, ==→ne k (2 * i + 1) neither) in
              let old = before k lower in
              record {
                fd = old.fd;
                stored = end_kept k lower ∙ old.stored;
                flags = old.flags;
                unblocked = search (made, old.unblocked) depth 12;
              }
        ]
      ]

    -- What a run of the loop has done for the ends from `2 * i` on, and what it has left alone.
    start_workers-Opens :
        (n i : ℕ) (w : World)
        → ((k : ℕ) → k < 2 * i → IsOpen k w)
        → Returns
            (λ _ w'. SameQueues w w' × ((k : ℕ) → k < 2 * (i + n) → IsOpen k w'))
            (start_workers os n i w)
    unfolding start_workers
    start_workers-Opens zero i w before = (
      record { worker_count = refl; manager_sem = refl; pipe = refl; todo = refl; doing = refl },
      λ k lt. before k (omega arith),
    )
    start_workers-Opens (suc n) i w before = rw (start_worker-ok i w) (
        Returns-mono _ _ (start_workers os n (i + 1) (started i w))
          (start_workers-Opens n (i + 1) (started i w) (started-IsOpen i w before))
          (λ _ w' (same, opens). (
            record {
              worker_count = same.worker_count;
              manager_sem = same.manager_sem;
              pipe = same.pipe;
              todo = same.todo;
              doing = same.doing;
            },
            λ k lt. opens k (omega arith),
          )))

abbrev pub chosen : ℕ → ℕ
chosen n = if n == 0 then default_workers else n

chosen_pos : (n : ℕ) → 0 < chosen n
chosen_pos n = ground arith

total-empty : (n : ℕ) → total (λ _. []) n ≡ 0
total-empty zero = refl
total-empty (suc n) = omega (arith, total-empty n)

-- With a kernel that makes every pipe and keeps every flag, `init_coroutine_env` returns 0, whatever
-- there was before: it has the number of workers asked for, or the default for 0, both ends of the pipe of
-- each worker are open and do not block, nothing is queued, and the invariant of the threads holds.
pub init_coroutine_env_lem :
    (os : Os) (ev_size n : ℕ) (w : World)
    → IsGenerous os
    → Returns
        (λ r w'.
          (r ≡ pos 0)
          × (w'.worker_count ≡ chosen n)
          × (w'.todo ≡ [])
          × (w'.doing ≡ [])
          × Inv w'
          × ((k : ℕ) → k < 2 * chosen n → IsOpen k w'))
        (init_coroutine_env os ev_size n w)
unfolding init_coroutine_env
init_coroutine_env_lem os ev_size n w generous =
    Returns-bind _ _ (start_workers os (chosen n) 0 _) _
      (start_workers-Opens os generous (chosen n) 0 _ (λ k lt. absurd (omega arith)))
      (λ _ w' (same, opens). (
        refl,
        same.worker_count,
        same.todo,
        same.doing,
        record {
          posts = same.manager_sem ∙ ap length (sym same.todo);
          bytes =
              ap (λ f. total f w'.worker_count) same.pipe
              ∙ total-empty w'.worker_count
              ∙ ap length (sym same.doing);
          workers = omega (arith, same.worker_count, chosen_pos n);
        },
        λ k lt. opens k (omega arith),
      ))

-- `init_coroutine_env` does not look at the result of `pipe`: if the kernel refuses the first, it goes on
-- with a descriptor that was never stored.
pub init_coroutine_env-no_pipe :
    (os : Os) (ev_size n : ℕ) (w : World)
    → ((h : List Call) → is_zero (os.answer h (Call.pipe 0)).ret ≡ false)
    → init_coroutine_env os ev_size n w ≡ stop Stop.fault
unfolding init_coroutine_env start_workers start_worker make_pipe nonblock_end channel
init_coroutine_env-no_pipe os ev_size zero w refused = rw (refused _) refl
init_coroutine_env-no_pipe os ev_size (suc n) w refused =
    rw (ne→== (suc n) 0 (omega arith), refused _) refl

-- A worker thread that is started watches the read end of its own pipe, if libev gives it a loop.
pub new_background_worker_lem :
    (os : Os) (me : ℕ) (w : World) (end : IsOpen (me * 2) w)
    → is_zero (os.answer w.calls (Call.loop_new me)).ret ≡ false
    → Returns
        (λ _ w'.
          w'.calls ≡ Call.loop_run me ∷ Call.watch_pipe me end.fd ∷ Call.loop_new me ∷ w.calls)
        (new_background_worker os me w)
unfolding new_background_worker channel
new_background_worker_lem os me w end given = rw (given, end.stored) refl
