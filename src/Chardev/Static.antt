-- ===== src/Chardev/Static.antt =====
-- day_02/ex3.c: a static device number, no locking.
use ldd3_examples.Common.{ℕ, List, [], Run, ◌>>=◌, pure, none}
use ldd3_examples.Common.Int.{ℤ}
use ldd3_examples.Kernel.Uaccess.{Uaccess}
use ldd3_examples.Kernel.Boot.{Boot}
use ldd3_examples.Kernel.FileOps.{FileOps}
use ldd3_examples.Chardev.Defs.{
  Call, Buffer, clamp, sub64, copy_out, copy_in, register_chrdev_region,
}
use ldd3_examples.Chardev.Load.{load, unload}

module _ (u : Uaccess) where
  -- The user's new bytes, and the return value.
  unfoldable pub read : Buffer → List ℕ → ℕ → Run Call (List ℕ × ℕ)
  read buffer user count = do
    let len = clamp count
    (user', ret_len) ← copy_out u buffer user len
    pure (user', sub64 len ret_len)

  -- The new buffer, and the return value.
  unfoldable pub write : Buffer → List ℕ → ℕ → Run Call (Buffer × ℕ)
  write buffer user count = do
    let len = clamp count
    (buffer', ret_len) ← copy_in u buffer user len
    pure (buffer', sub64 len ret_len)

unfoldable pub char_drv_open : Run Call ℕ
char_drv_open = pure 0

unfoldable pub char_drv_release : Run Call ℕ
char_drv_release = pure 0

abbrev pub sample_char_drv_fops : Uaccess → FileOps Call Buffer ℕ
sample_char_drv_fops u = record {
  on_open = λ s. (char_drv_open >>= λ r. pure (s, r));
  on_release = λ s. (char_drv_release >>= λ r. pure (s, r));
  on_read = λ s user count. (read u s user count >>= λ (user', n). pure (s, user', n));
  on_write = write u;
  on_poll = none;
  on_llseek = none;
  on_ioctl = none;
  on_mmap = none;
}

unfoldable pub module_init : Boot → Run Call (ℤ × Buffer)
unfolding load
module_init = load register_chrdev_region ([])

unfoldable pub module_exit : Run Call Buffer
unfolding unload
module_exit = unload
