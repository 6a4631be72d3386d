-- ===== src/Chardev/Seqlock.antt =====
-- day_04/ex10.c: a read is retried as the seqlock says; a write takes the semaphore.
pub mod Retry
pub mod Torn
use ldd3_examples.Common.{
  ℕ, Bool, true, false, List, [], ◌∷◌, Option, none, some, Run, ◌>>=◌, ◌>>◌, pure, emit, deref,
}
use ldd3_examples.Common.Int.{ℤ}
use ldd3_examples.Kernel.Uaccess.{Uaccess}
use ldd3_examples.Kernel.Boot.{Boot}
use ldd3_examples.Kernel.FileOps.{FileOps}
use ldd3_examples.Chardev.Defs.{
  Call, Buffer, clamp, sub64, copy_out, copy_in, alloc_chrdev_region, down, up, sema_init,
  seqlock_init, read_seqbegin, read_seqretry,
}
use ldd3_examples.Chardev.Load.{load, unload}

module _ (u : Uaccess) where
  -- The loop, by the answers of read_seqretry; `none` while it has not ended.
  unfoldable pub read : List Bool → Buffer → List ℕ → ℕ → Run Call (Option (List ℕ × ℕ))
  read [] buffer user count = pure none
  read (retry ∷ rest) buffer user count = do
    emit read_seqbegin
    let len = clamp count
    (user', ret_len) ← copy_out u buffer user len
    emit read_seqretry
    elim retry [
      | true ↦ read rest buffer user' count
      | false ↦ pure (some (user', sub64 len ret_len))
    ]

  -- The new buffer, and the return value.
  unfoldable pub write : Buffer → List ℕ → ℕ → Run Call (Buffer × ℕ)
  write buffer user count = do
    emit down
    let len = clamp count
    (buffer', ret_len) ← copy_in u buffer user len
    emit up
    pure (buffer', sub64 len ret_len)

unfoldable pub char_drv_open : Run Call ℕ
char_drv_open = pure 0

unfoldable pub char_drv_release : Run Call ℕ
char_drv_release = pure 0

-- No writer takes the seqlock, so that read_seqretry tells no reader to retry.
abbrev pub sample_char_drv_fops : Uaccess → FileOps Call Buffer ℕ
sample_char_drv_fops u = record {
  on_open = λ s. (char_drv_open >>= λ r. pure (s, r));
  on_release = λ s. (char_drv_release >>= λ r. pure (s, r));
  on_read = λ s user count.
      (read u (false ∷ []) s user count >>= deref >>= λ (user', n). pure (s, user', n));
  on_write = write u;
  on_poll = none;
  on_llseek = none;
  on_ioctl = none;
  on_mmap = none;
}

unfoldable pub module_init : Boot → Run Call (ℤ × Buffer)
unfolding load
module_init = load alloc_chrdev_region (sema_init 1 ∷ seqlock_init ∷ [])

unfoldable pub module_exit : Run Call Buffer
unfolding unload
module_exit = unload
