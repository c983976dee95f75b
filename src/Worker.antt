-- ===== src/Worker.antt =====
-- The background workers of src/acoro.c: what they do with a task, and the callbacks of libev.
pub mod Handle
pub mod Connect
pub mod Disk
pub mod Events
pub mod Sock
pub mod Tests
