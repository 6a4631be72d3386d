-- ===== src/Chardev/Seek.antt =====
-- day_05/ex14.c: the driver of ex12.c with llseek.
pub mod Position
use ldd3_examples.Common.{
  ℕ, zero, suc, List, [], ◌∷◌, Run, ◌>>=◌, ◌>>◌, pure, emit, if◌then◌else◌, none, some, Option,
}
use ldd3_examples.Common.Int.{ℤ, pos, ◌+ℤ◌, ltb_ℤ}
use ldd3_examples.Kernel.Uaccess.{Uaccess}
use ldd3_examples.Kernel.Boot.{Boot}
use ldd3_examples.Kernel.FileOps.{FileOps}
use ldd3_examples.Chardev.Defs.{
  Call, Buffer, Waiting, buffer_len, clamp, sub64, copy_out, copy_in, alloc_chrdev_region, down, up,
  sema_init, assign_condition, init_waitqueue_head, wait_event_interruptible, wake_up_interruptible,
}
use ldd3_examples.Chardev.Load.{load, unload}

module _ (u : Uaccess) where
  -- What runs once wait_event_interruptible has returned: its result, which tells a wake-up from
  -- a signal, is ignored.
  unfoldable pub read : Waiting → List ℕ → ℕ → Run Call (Waiting × List ℕ × ℕ)
  read s user count = do
    emit wait_event_interruptible
    let len = clamp count
    (user', ret_len) ← copy_out u s.buffer user len
    emit (assign_condition 0)
    pure (record s { condition = 0 }, user', sub64 len ret_len)

  unfoldable pub write : Waiting → List ℕ → ℕ → Run Call (Waiting × ℕ)
  write s user count = do
    emit down
    let len = clamp count
    (buffer', ret_len) ← copy_in u s.buffer user len
    emit up
    emit (assign_condition 1)
    emit wake_up_interruptible
    pure (record { buffer = buffer'; condition = 1 }, sub64 len ret_len)

-- The `switch` on `whence`; on any other value `new_pos` keeps what it happens to hold.
unfoldable pub seek_target : (new_pos off f_pos : ℤ) → (whence : ℕ) → ℤ
unfolding ◌+ℤ◌
seek_target new_pos off f_pos zero = off
seek_target new_pos off f_pos (suc zero) = f_pos +ℤ off
seek_target new_pos off f_pos (suc (suc zero)) = pos buffer_len +ℤ off
seek_target new_pos off f_pos (suc (suc (suc w))) = new_pos

-- `if(new_pos > buffer_len);`: the test guards an empty statement, and what
-- follows, `new_pos=buffer_len;`, always runs.
unfoldable pub seek_cap : ℤ → ℤ
seek_cap new_pos = pos buffer_len

-- The new f_pos, which is also the return value.
unfoldable pub seek : (uninit off f_pos : ℤ) → (whence : ℕ) → ℤ
unfolding seek_target seek_cap
seek uninit off f_pos whence =
    let new_pos = seek_cap (seek_target uninit off f_pos whence) in
    if ltb_ℤ new_pos (pos 0) then pos 0 else new_pos

unfoldable pub char_drv_open : Run Call ℕ
char_drv_open = pure 0

unfoldable pub char_drv_release : Run Call ℕ
char_drv_release = pure 0

abbrev pub sample_char_drv_fops : Uaccess → (uninit : ℤ) → FileOps Call Waiting ℕ
sample_char_drv_fops u uninit = record {
  on_open = λ s. (char_drv_open >>= λ r. pure (s, r));
  on_release = λ s. (char_drv_release >>= λ r. pure (s, r));
  on_read = read u;
  on_write = write u;
  on_poll = none;
  on_llseek = some (seek uninit);
  on_ioctl = none;
  on_mmap = none;
}

unfoldable pub module_init : Boot → Run Call (ℤ × Buffer)
unfolding load
module_init = load alloc_chrdev_region (sema_init 1 ∷ init_waitqueue_head ∷ [])

unfoldable pub module_exit : Run Call Buffer
unfolding unload
module_exit = unload
