-- ===== src/Example/Servers/Tests.antt =====
-- The server of example/echo_server.c with two workers and three connections.
use async_coro.Base.{none, ◌>>◌}
use async_coro.World.Samples.{alone, sample_task}
use async_coro.Setup.{init_coroutine_env}
use async_coro.Setup.Tests.{roomy, roomy-IsGenerous}
use async_coro.System.Keeps.{Inv, Leaves}
use async_coro.Example.Servers.{server, init-server}

init-server_example : Leaves Inv (
    (init_coroutine_env roomy 100 2 >> server roomy sample_task 77 none 2000 0 0 3)
      (alone sample_task))
init-server_example =
    init-server roomy sample_task 77 none 2000 0 0 3 100 2 (alone sample_task) roomy-IsGenerous
