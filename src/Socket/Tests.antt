-- ===== src/Socket/Tests.antt =====
-- `crt_tcp_prepare_sock` of src/acoro.c on a kernel where every call succeeds.
use async_coro.Base.{refl, Returns}
use async_coro.World.Samples.{kernel, sample_task, alone}
use async_coro.Socket.{crt_tcp_prepare_sock}
use async_coro.Socket.Laws.{Prepared, prepare_sock_lem}

prepare_sock_lem_example :
    Returns
      (Prepared kernel 0 80 sample_task (alone sample_task))
      (crt_tcp_prepare_sock kernel 0 80 (alone sample_task))
prepare_sock_lem_example = prepare_sock_lem kernel 0 80 sample_task (alone sample_task) refl
