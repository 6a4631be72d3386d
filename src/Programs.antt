-- ===== src/Programs.antt =====
-- The programs beside the drivers, over the table of functions of whatever driver stands behind the
-- device that they open. A program's output is a value, and it ends with an exit status.
pub mod WriteRead
pub mod PollTest
pub mod MapFile
pub mod ReadOnce
