-- ===== src/Rudp/Queue.antt =====
-- src/rudp.rs: the queue of reliable packets over the life of a session: the invariant of the
-- queue, the methods that keep it, and a session as a state machine over all its methods.
mod Keeps
pub mod Invariant
mod Reach
pub mod Steps
