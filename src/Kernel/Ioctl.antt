-- ===== src/Kernel/Ioctl.antt =====
-- The encoding of ioctl commands (asm/ioctl.h) and access_ok (asm/uaccess.h).
use ldd3_examples.Common.{ℕ, Bool, true, false, ◌<◌, ◌≡◌}

pub record IoctlAbi : Type 0 where
  -- _IOC_TYPE, _IOC_NR, _IOC_SIZE, and the tests of _IOC_DIR against _IOC_READ and _IOC_WRITE
  pub ioc_type : ℕ → ℕ
  pub ioc_nr : ℕ → ℕ
  pub ioc_size : ℕ → ℕ
  pub dir_read : ℕ → Bool
  pub dir_write : ℕ → Bool
  -- _IO and _IOW
  pub io : (type nr : ℕ) → ℕ
  pub iow : (type nr size : ℕ) → ℕ
  pub io_type : (t n : ℕ) → t < 256 → n < 256 → ioc_type (io t n) ≡ t
  pub io_nr : (t n : ℕ) → t < 256 → n < 256 → ioc_nr (io t n) ≡ n
  pub io_dir_read : (t n : ℕ) → t < 256 → n < 256 → dir_read (io t n) ≡ false
  pub io_dir_write : (t n : ℕ) → t < 256 → n < 256 → dir_write (io t n) ≡ false
  pub iow_type : (t n s : ℕ) → t < 256 → n < 256 → s < 2 → ioc_type (iow t n s) ≡ t
  pub iow_nr : (t n s : ℕ) → t < 256 → n < 256 → s < 2 → ioc_nr (iow t n s) ≡ n
  pub iow_size : (t n s : ℕ) → t < 256 → n < 256 → s < 2 → ioc_size (iow t n s) ≡ s
  pub iow_dir_read : (t n s : ℕ) → t < 256 → n < 256 → s < 2 → dir_read (iow t n s) ≡ false
  pub iow_dir_write : (t n s : ℕ) → t < 256 → n < 256 → s < 2 → dir_write (iow t n s) ≡ true
  -- whether the user may write (or read) so many bytes at an address
  pub access_ok_write : (addr size : ℕ) → Bool
  pub access_ok_read : (addr size : ℕ) → Bool
