-- ===== src/Kernel/FileOps.antt =====
-- struct file_operations: the functions that a driver gives the kernel for an open file, on a state `S`,
-- with results `R`. An entry that is NULL is none.
use ldd3_examples.Common.{ℕ, Bool, List, Option, Run}
use ldd3_examples.Common.Int.{ℤ}
use ldd3_examples.Kernel.Errno.{Ret}

pub record FileOps (E S R : Type 0) : Type 0 where
  pub on_open : S → Run E (S × R)
  pub on_release : S → Run E (S × R)
  -- the user's new bytes, and the return value
  pub on_read : S → (user : List ℕ) (count : ℕ) → Run E (S × List ℕ × R)
  pub on_write : S → (user : List ℕ) (count : ℕ) → Run E (S × R)
  -- the mask
  pub on_poll : Option (S → Run E ℕ)
  -- the new f_pos, from the offset, the f_pos and the whence
  pub on_llseek : Option ((off f_pos : ℤ) → (whence : ℕ) → ℤ)
  -- `user` is what stands at the address `arg`
  pub on_ioctl : Option (S → (user : List ℕ) (cmd arg : ℕ) → Run E (S × Ret))
  -- `remap_ok`: whether the kernel maps the memory
  pub on_mmap : Option (S → (remap_ok : Bool) → Run E R)
