-- ===== src/Startup.antt =====
-- src/disk/web/startup-prefetch.js: the download that goes ahead of a resumed machine. `Target` is
-- what it downloads, `Job` the object and its methods, and the other modules say what they keep.
pub mod Target
pub mod Limits
pub mod Pieces
pub mod Union
pub mod Job
pub mod Keeps
pub mod Runs
pub mod Once
pub mod Progress
pub mod Attempts
mod Tests
