-- ===== src/Kernel.antt =====
-- What the drivers use of the kernel and that is not in the repository: records of operations with
-- the documented laws that the proofs rely on.
pub mod Boot
pub mod Copied
pub mod Errno
pub mod FileOps
pub mod Ioctl
pub mod Processes
pub mod Semaphore
pub mod SeqOps
pub mod Uaccess
pub mod Simple
