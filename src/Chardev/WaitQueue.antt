-- ===== src/Chardev/WaitQueue.antt =====
-- day_04/ex12.c: a read waits until a write has set `condition`.
use ldd3_examples.Common.{ℕ, List, [], ◌∷◌, Run, ◌>>=◌, ◌>>◌, pure, emit, none}
use ldd3_examples.Common.Int.{ℤ}
use ldd3_examples.Kernel.Uaccess.{Uaccess}
use ldd3_examples.Kernel.Boot.{Boot}
use ldd3_examples.Kernel.FileOps.{FileOps}
use ldd3_examples.Chardev.Defs.{
  Call, Buffer, Waiting, clamp, sub64, copy_out, copy_in, alloc_chrdev_region, down, up, sema_init,
  assign_condition, init_waitqueue_head, wait_event_interruptible, wake_up_interruptible,
}
use ldd3_examples.Chardev.Load.{load, unload}

module _ (u : Uaccess) where
  -- What runs once wait_event_interruptible has returned: its result, which tells a wake-up from
  -- a signal, is ignored.
  unfoldable pub read : Waiting → List ℕ → ℕ → Run Call (Waiting × List ℕ × ℕ)
  read s user count = do
    emit wait_event_interruptible
    let len = clamp count
    (user', ret_len) ← copy_out u s.buffer user len
    emit (assign_condition 0)
    pure (record s { condition = 0 }, user', sub64 len ret_len)

  unfoldable pub write : Waiting → List ℕ → ℕ → Run Call (Waiting × ℕ)
  write s user count = do
    emit down
    let len = clamp count
    (buffer', ret_len) ← copy_in u s.buffer user len
    emit up
    emit (assign_condition 1)
    emit wake_up_interruptible
    pure (record { buffer = buffer'; condition = 1 }, sub64 len ret_len)

unfoldable pub char_drv_open : Run Call ℕ
char_drv_open = pure 0

unfoldable pub char_drv_release : Run Call ℕ
char_drv_release = pure 0

abbrev pub sample_char_drv_fops : Uaccess → FileOps Call Waiting ℕ
sample_char_drv_fops u = record {
  on_open = λ s. (char_drv_open >>= λ r. pure (s, r));
  on_release = λ s. (char_drv_release >>= λ r. pure (s, r));
  on_read = read u;
  on_write = write u;
  on_poll = none;
  on_llseek = none;
  on_ioctl = none;
  on_mmap = none;
}

unfoldable pub module_init : Boot → Run Call (ℤ × Buffer)
unfolding load
module_init = load alloc_chrdev_region (sema_init 1 ∷ init_waitqueue_head ∷ [])

unfoldable pub module_exit : Run Call Buffer
unfolding unload
module_exit = unload
