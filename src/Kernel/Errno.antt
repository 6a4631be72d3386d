-- ===== src/Kernel/Errno.antt =====
-- The error numbers that the drivers return, and a result that is a count or a negated error.
use ldd3_examples.Common.{ℕ}

pub data Errno : Type 0 where
  enomem efault enotty enodev einval eio enospc eagain erestartsys enoioctlcmd : Errno

pub data Ret : Type 0 where
  ret : ℕ → Ret
  err : Errno → Ret
