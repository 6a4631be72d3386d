-- ===== src/Chardev.antt =====
-- The character drivers of day_02 to day_05.
pub mod Defs
pub mod Load
pub mod Static
pub mod Dynamic
pub mod Sem
pub mod Spin
pub mod Completion
pub mod Seqlock
pub mod Ioctl
pub mod WaitQueue
pub mod Poll
pub mod Seek
pub mod Drivers
pub mod Fops
pub mod Content
pub mod Copy
pub mod RoundTrip
pub mod Loading
pub mod Exclusion
pub mod Atomic
pub mod Sleepers
