-- ===== src/Chardev/Poll.antt =====
-- day_05/ex13.c: the driver of ex12.c with poll.
pub mod Missed
use ldd3_examples.Common.{
  ℕ, bit_or, List, [], ◌∷◌, Run, ◌>>=◌, ◌>>◌, pure, emit, ◌==◌, if◌then◌else◌, none, some, Option,
}
use ldd3_examples.Common.Int.{ℤ}
use ldd3_examples.Kernel.Uaccess.{Uaccess}
use ldd3_examples.Kernel.Boot.{Boot}
use ldd3_examples.Kernel.FileOps.{FileOps}
use ldd3_examples.Chardev.Defs.{
  Call, Buffer, Waiting, clamp, sub64, copy_out, copy_in, alloc_chrdev_region, down, up, sema_init,
  assign_condition, init_waitqueue_head, wait_event_interruptible, wake_up_interruptible, poll_wait,
}
use ldd3_examples.Chardev.Load.{load, unload}

-- The second half of a read, on the state as it then is.
abbrev pub cleared : Waiting → Waiting
cleared s = record s { condition = 0 }

module _ (u : Uaccess) where
  -- The first half of a read, up to the copy, once wait_event_interruptible has returned: its result,
  -- which tells a wake-up from a signal, is ignored.
  abbrev pub read_copy : Waiting → List ℕ → ℕ → Run Call (List ℕ × ℕ)
  read_copy s user count = do
    emit wait_event_interruptible
    let len = clamp count
    (user', ret_len) ← copy_out u s.buffer user len
    pure (user', sub64 len ret_len)

  unfoldable pub read : Waiting → List ℕ → ℕ → Run Call (Waiting × List ℕ × ℕ)
  read s user count = do
    (user', n) ← read_copy s user count
    emit (assign_condition 0)
    pure (cleared s, user', n)

  unfoldable pub write : Waiting → List ℕ → ℕ → Run Call (Waiting × ℕ)
  write s user count = do
    emit down
    let len = clamp count
    (buffer', ret_len) ← copy_in u s.buffer user len
    emit up
    emit (assign_condition 1)
    emit wake_up_interruptible
    pure (record { buffer = buffer'; condition = 1 }, sub64 len ret_len)

-- The mask; POLLIN and POLLRDNORM are the kernel's.
unfoldable pub poll : (pollin pollrdnorm : ℕ) → Waiting → Run Call ℕ
poll pollin pollrdnorm s = do
  emit poll_wait
  pure (if s.condition == 1 then bit_or pollin pollrdnorm else 0)

unfoldable pub char_drv_open : Run Call ℕ
char_drv_open = pure 0

unfoldable pub char_drv_release : Run Call ℕ
char_drv_release = pure 0

abbrev pub sample_char_drv_fops : Uaccess → (pollin pollrdnorm : ℕ) → FileOps Call Waiting ℕ
sample_char_drv_fops u pollin pollrdnorm = record {
  on_open = λ s. (char_drv_open >>= λ r. pure (s, r));
  on_release = λ s. (char_drv_release >>= λ r. pure (s, r));
  on_read = read u;
  on_write = write u;
  on_poll = some (poll pollin pollrdnorm);
  on_llseek = none;
  on_ioctl = none;
  on_mmap = none;
}

unfoldable pub module_init : Boot → Run Call (ℤ × Buffer)
unfolding load
module_init = load alloc_chrdev_region (sema_init 1 ∷ init_waitqueue_head ∷ [])

unfoldable pub module_exit : Run Call Buffer
unfolding unload
module_exit = unload
