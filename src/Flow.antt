-- ===== src/Flow.antt =====
-- The parts together: what goes from one program to another.
pub mod Watch
pub mod Reception
pub mod Session
pub mod Arrival
pub mod Prefix
pub mod Recording
pub mod Hunting
pub mod Joint
pub mod Answering
pub mod Pids
pub mod Refused
pub mod Commanding
pub mod Joining
pub mod Query
