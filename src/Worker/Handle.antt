-- ===== src/Worker/Handle.antt =====
-- `new_event_handler` of src/acoro.c with an operation that blocks: a byte on the pipe takes the task
-- at the front of the doing queue through the operation and back to the manager.
use async_coro.Base.{ℕ, ◌≡◌, is_neg, to_int, true, false, none, some, List, ◌∷◌, if◌then◌else◌, ok}
use async_coro.Queue.Mem.{Ptr, update}
use async_coro.Task.{
  disk_open, disk_read, disk_write, disk_open_done, disk_read_done, disk_write_done, bg_run,
  bg_run_done, open_arg, OpenArg, io_arg, IoArg, routine_arg, RoutineArg, Ret, Task,
}
use async_coro.World.Calls.{Event, Call, Os, creat_bit, bit_at}
use async_coro.World.State.{World, errno_after, with_task, load-ok, change-ok, with_task-here}
use async_coro.Notify.{linked, with_env, wake_byte, shift_doing}
use async_coro.Notify.Laws.{ready, notify_manager_lem}
use async_coro.Worker.Disk.{do_disk_open, do_disk_read, do_disk_write, do_bg_run}
use async_coro.Worker.Events.{read_pipe, new_event_handler, do_task, do_task_for}

-- The event that libev reports when there is a byte on the pipe.
abbrev pub byte_came : Event
byte_came = record { readable = true; writable = false; timeout = false; error = false }

-- The state after worker `me` has taken the byte and the task.
abbrev pub received : (me : ℕ) (cs : List ℕ) (ps : List Ptr) → World → World
received me cs ps = with_env (λ e. record e { pipe = update e.pipe me cs; doing = ps })

-- The state after a call.
abbrev pub asked : Os → Call → World → World
asked os c w = record w {
  calls = c ∷ w.calls;
  errno = errno_after (os.answer w.calls c).errno w.errno;
}

-- What a system call's answer leaves in `ret`: its result, and `errno` if the result is negative.
abbrev pub ret_of : Os → Call → World → Ret
ret_of os c w =
    let r = (os.answer w.calls c).ret in
    record { val = r; err_code = if is_neg r then (asked os c w).errno else 0 }

-- The operations that block the worker, with their arguments; what a task asks for, the call that
-- serves it, and what the task is told.
pub data Work : Type 0 where
  opens : OpenArg → Work
  reads writes : IoArg → Work
  runs : RoutineArg → Work

abbrev pub call_of : Work → Call
call_of (opens a) =
    Call.open_file a.pathname a.flags (if bit_at creat_bit a.flags then some a.mode else none)
call_of (reads a) = Call.read_fd a.fd a.buf 0 a.count
call_of (writes a) = Call.write_fd a.fd a.buf 0 a.count
call_of (runs a) = Call.run_routine a.func a.arg a.result

abbrev pub asking : Work → Task → Task
asking (opens a) t = record t { action = disk_open; args = open_arg a }
asking (reads a) t = record t { action = disk_read; args = io_arg a }
asking (writes a) t = record t { action = disk_write; args = io_arg a }
asking (runs a) t = record t { action = bg_run; args = routine_arg a }

abbrev pub told : Os → Work → World → Task → Task
told os (opens a) w t = record t { ret = ret_of os (call_of (opens a)) w; action = disk_open_done }
told os (reads a) w t = record t { ret = ret_of os (call_of (reads a)) w; action = disk_read_done }
told os (writes a) w t = record t {
  ret = ret_of os (call_of (writes a)) w;
  action = disk_write_done;
}
told os (runs a) w t = record t {
  ret = record { val = to_int (os.answer w.calls (call_of (runs a))).ret; err_code = 0 };
  action = bg_run_done;
}

module _ (os : Os) (me : ℕ) (p : Ptr) where
  -- Serving a task is one call, whose result is stored in the task.
  served :
      (q : Work) (t : Task) (w : World)
      → w.tasks p ≡ some (asking q t)
      → do_task os me p w ≡ ok 0 (with_task p (told os q w (asking q t)) (asked os (call_of q) w))
  unfolding do_task do_task_for do_disk_open do_disk_read do_disk_write do_bg_run
  served (opens a) t w e = rw (
    load-ok w p e,
    load-ok w p e,
    change-ok (asked os (call_of (opens a)) w) p (told os (opens a) w) e,
  )
  served (reads a) t w e = rw (
    load-ok w p e,
    load-ok w p e,
    change-ok (asked os (call_of (reads a)) w) p (told os (reads a) w) e,
  )
  served (writes a) t w e = rw (
    load-ok w p e,
    load-ok w p e,
    change-ok (asked os (call_of (writes a)) w) p (told os (writes a) w) e,
  )
  served (runs a) t w e = rw (
    load-ok w p e,
    load-ok w p e,
    change-ok (asked os (call_of (runs a)) w) p (told os (runs a) w) e,
  )

  -- A byte on the pipe of a worker, with an operation that blocks at the front of the doing queue and
  -- its task queued once:
  -- the worker takes the byte and the task, makes exactly the call that the task asks for, with its
  -- arguments, and makes the task ready with what the call gave.
  pub handler_lem :
      (q : Work) (t : Task) (cs : List ℕ) (ps : List Ptr) (w : World)
      → w.pipe me ≡ wake_byte ∷ cs
      → w.doing ≡ p ∷ ps
      → w.tasks p ≡ some (asking q t)
      → linked p (received me cs ps w) ≡ false
      → new_event_handler os me byte_came w
        ≡ ok tt (
            ready p (
              with_task p
                (told os q (received me cs ps w) (asking q t))
                (asked os (call_of q) (received me cs ps w))))
  unfolding new_event_handler read_pipe shift_doing linked
  handler_lem q t cs ps w byte front alloc out =
      rw (byte, front, served q t (received me cs ps w) alloc)
        (notify_manager_lem p after
          (with_task-here (asked os (call_of q) (received me cs ps w)) p _) out)
    where
      after : World
      after =
          with_task p (told os q (received me cs ps w) (asking q t))
            (asked os (call_of q) (received me cs ps w))
