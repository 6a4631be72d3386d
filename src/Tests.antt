-- ===== src/Tests.antt =====
-- The models at concrete inputs.
mod Instances
mod Chardev
mod Tty
mod Storage
mod Modules
mod Deferred
mod Sleepers
mod Programs
