-- ===== src/Kernel/Boot.antt =====
-- What the kernel answers while a character driver's module is loaded.
use ldd3_examples.Common.{ℕ, ◌≡◌, Bool, List, Option, some, length}
use ldd3_examples.Common.Int.{ℤ}

pub record Boot : Type 0 where
  -- the results of (al)loc_chrdev_region, cdev_alloc (not NULL) and cdev_add
  pub region_ret : ℤ
  pub cdev_ok : Bool
  pub add_ret : ℤ
  -- kmalloc by size and flags: NULL, or a new object with what it happens to hold
  pub kmalloc : ℕ → ℕ → Option (List ℕ)
  -- the object has the size that was asked for
  pub kmalloc_size : (size flags : ℕ) (b : List ℕ) → kmalloc size flags ≡ some b → length b ≡ size
  -- the flag word GFP_KERNEL
  pub gfp_kernel : ℕ
