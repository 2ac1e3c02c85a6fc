-- ===== src/Server/Registry.antt =====
-- The names that are published, in every state that the server comes to.
pub mod Frame
pub mod Invariant
pub mod Reached
