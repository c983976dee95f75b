-- ===== src/Worker/Disk.antt =====
-- The operations of src/acoro.c that a worker thread finishes at once: disk and background routines.
use async_coro.Base.{ℤ, is_neg, to_int, none, some, if◌then◌else◌, Stop, pure, halt, ◌>>=◌}
use async_coro.Queue.Mem.{Ptr}
use async_coro.Task.{
  Action, disk_open_done, disk_read_done, disk_write_done, bg_run_done, Args, open_arg, OpenArg,
  routine_arg, RoutineArg,
}
use async_coro.World.Calls.{Call, Os, creat_bit, bit_at}
use async_coro.World.State.{Co, load, change, as_io, get_errno, sys}

abbrev pub as_open : Args → Co OpenArg
as_open (open_arg a) = pure a
as_open _ = halt Stop.fault

abbrev pub as_routine : Args → Co RoutineArg
as_routine (routine_arg a) = pure a
as_routine _ = halt Stop.fault

-- The result of a call that failed if it is negative, and the action that tells of it.
abbrev pub finish_with : Ptr → ℤ → Action → Co (Unit {0})
finish_with p r act = do
  e ← get_errno
  change p (λ t. record t {
    ret = record { val = r; err_code = if is_neg r then e else 0 };
    action = act;
  })

module _ (os : Os) where
  unfoldable pub do_disk_open : Ptr → Co (Unit {0})
  do_disk_open p = do
    t ← load p
    a ← as_open t.args
    r ←
        sys os (
          Call.open_file a.pathname a.flags
            (if bit_at creat_bit a.flags then some a.mode else none))
    finish_with p r disk_open_done

  unfoldable pub do_disk_read : Ptr → Co (Unit {0})
  do_disk_read p = do
    t ← load p
    a ← as_io t.args
    r ← sys os (Call.read_fd a.fd a.buf 0 a.count)
    finish_with p r disk_read_done

  unfoldable pub do_disk_write : Ptr → Co (Unit {0})
  do_disk_write p = do
    t ← load p
    a ← as_io t.args
    r ← sys os (Call.write_fd a.fd a.buf 0 a.count)
    finish_with p r disk_write_done

  -- The routine's result is an `int`.
  unfoldable pub do_bg_run : Ptr → Co (Unit {0})
  do_bg_run p = do
    t ← load p
    a ← as_routine t.args
    r ← sys os (Call.run_routine a.func a.arg a.result)
    change p (λ t. record t { ret = record { val = to_int r; err_code = 0 }; action = bg_run_done })
