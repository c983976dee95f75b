-- ===== src/System.antt =====
-- The threads of src/acoro.c together: what holds of the queues, the pipes and the manager's
-- semaphore in every state that they reach.
pub mod Count
pub mod Keeps
pub mod Owed
pub mod Rules
pub mod Callbacks
pub mod Calls
pub mod Moves
pub mod Steps
pub mod Round
pub mod Tests
