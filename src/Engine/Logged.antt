-- ===== src/Engine/Logged.antt =====
-- storage/engine.rs: a running engine and its log. The tasks of an engine are those that the
-- records written so far tell of, taken at the instant of its last start.
pub mod Lists
pub mod Moves
pub mod Steps
pub mod Failing
pub mod Run
pub mod Rounds
pub mod Agreement
pub mod Following
pub mod Growth
pub mod NewSegment
pub mod Rotation
pub mod Restart
pub mod SameTasks
pub mod Payload
pub mod Keeping
pub mod Places
pub mod Live
pub mod Popping
pub mod Survival
mod Runs
