-- ===== src/World.antt =====
-- The state that the components share, and what the environment answers. A handler is a function
-- from the state to its result and the next state; what was written before a raise stays written.
pub mod Events
pub mod Exec
pub mod Keeps
pub mod Grows
pub mod Views
pub mod Atomic
