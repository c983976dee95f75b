-- ===== src/Notify/Tests.antt =====
-- The hand-overs of src/acoro.c between two sample coroutines and a worker.
use async_coro.Base.{◌≡◌, refl, false, ok}
use async_coro.World.Samples.{kernel, sample_task, alone}
use async_coro.Notify.{linked, coroutine_notify_manager, coroutine_notify_background_worker}
use async_coro.Notify.Laws.{ready, submitted, notify_manager_lem, notify_worker_lem}

free_to_go : linked 3 (alone sample_task) ≡ false
unfolding linked
free_to_go = refl

notify_manager_lem_example :
    coroutine_notify_manager 3 (alone sample_task) ≡ ok tt (ready 3 (alone sample_task))
notify_manager_lem_example = notify_manager_lem 3 (alone sample_task) refl free_to_go

notify_worker_lem_example :
    coroutine_notify_background_worker kernel (alone sample_task)
    ≡ ok tt (submitted kernel (alone sample_task))
notify_worker_lem_example = notify_worker_lem kernel (alone sample_task) refl free_to_go refl
