-- ===== src/World.antt =====
-- The state that the threads of src/acoro.c share, and the calls that the code makes of the
-- kernel, the C library and libev.
pub mod Samples
pub mod Calls
pub mod State
