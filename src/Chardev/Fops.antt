-- ===== src/Chardev/Fops.antt =====
-- The tables sample_char_drv_fops of ex3.c to ex14.c as one family, and what a program finds behind them.
use ldd3_examples.Common.{
  ℕ, ◌≤◌, ◌≡◌, refl, List, [], Option, none, some, length, Run, done, ◌>>=◌, pure,
}
use ldd3_examples.Common.Int.{ℤ}
use ldd3_examples.Kernel.Uaccess.{Uaccess}
use ldd3_examples.Kernel.Errno.{Ret}
use ldd3_examples.Kernel.Ioctl.{IoctlAbi}
use ldd3_examples.Kernel.FileOps.{FileOps}
use ldd3_examples.Chardev.Defs.{Call, Buffer, Waiting, bytes, clamp, sub64}
use ldd3_examples.Chardev.Drivers.{
  Driver, ex3, ex4, ex7, ex8, ex9, ex10, ex11, ex12, ex13, ex14, read_calls, write_calls,
  read_condition, write_condition,
}
use ldd3_examples.Chardev.Copy.{copy_out-done, copy_in-done}
use ldd3_examples.Chardev.Static
use ldd3_examples.Chardev.Dynamic
use ldd3_examples.Chardev.Sem
use ldd3_examples.Chardev.Spin
use ldd3_examples.Chardev.Completion
use ldd3_examples.Chardev.Seqlock
use ldd3_examples.Chardev.Ioctl
use ldd3_examples.Chardev.WaitQueue
use ldd3_examples.Chardev.Poll
use ldd3_examples.Chardev.Seek

-- What the tables take of the kernel, and what an unset variable of ex14.c happens to hold.
pub record FopsEnv : Type 0 where
  pub uaccess : Uaccess
  pub abi : IoctlAbi
  pub pollin : ℕ
  pub pollrdnorm : ℕ
  pub uninit : ℤ

abbrev with_waiting : {A : Type 0} → Waiting → Run Call (Buffer × A) → Run Call (Waiting × A)
with_waiting s m = m >>= λ (b, a). pure (record s { buffer = b }, a)

abbrev ioctl_waiting :
    Option (Buffer → List ℕ → ℕ → ℕ → Run Call (Buffer × Ret))
    → Option (Waiting → List ℕ → ℕ → ℕ → Run Call (Waiting × Ret))
ioctl_waiting none = none
ioctl_waiting (some f) = some (λ s user cmd arg. with_waiting s (f s.buffer user cmd arg))

-- A driver that has no `condition` leaves it.
abbrev on_waiting : FileOps Call Buffer ℕ → FileOps Call Waiting ℕ
on_waiting ops = record {
  on_open = λ s. with_waiting s (ops.on_open s.buffer);
  on_release = λ s. with_waiting s (ops.on_release s.buffer);
  on_read = λ s user count.
      (ops.on_read s.buffer user count >>= λ (b, user', n).
      pure (record s { buffer = b }, user', n));
  on_write = λ s user count. with_waiting s (ops.on_write s.buffer user count);
  on_poll = none;
  on_llseek = ops.on_llseek;
  on_ioctl = ioctl_waiting ops.on_ioctl;
  on_mmap = none;
}

abbrev pub fops_of : FopsEnv → Driver → FileOps Call Waiting ℕ
fops_of e ex3 = on_waiting (Static.sample_char_drv_fops e.uaccess)
fops_of e ex4 = on_waiting (Dynamic.sample_char_drv_fops e.uaccess)
fops_of e ex7 = on_waiting (Sem.sample_char_drv_fops e.uaccess)
fops_of e ex8 = on_waiting (Spin.sample_char_drv_fops e.uaccess)
fops_of e ex9 = on_waiting (Completion.sample_char_drv_fops e.uaccess)
fops_of e ex10 = on_waiting (Seqlock.sample_char_drv_fops e.uaccess)
fops_of e ex11 = on_waiting (Ioctl.sample_char_drv_fops e.uaccess e.abi)
fops_of e ex12 = WaitQueue.sample_char_drv_fops e.uaccess
fops_of e ex13 = Poll.sample_char_drv_fops e.uaccess e.pollin e.pollrdnorm
fops_of e ex14 = Seek.sample_char_drv_fops e.uaccess e.uninit

module _ (e : FopsEnv) where
  pub on_open-done : (d : Driver) (s : Waiting) → (fops_of e d).on_open s ≡ done [] (s, 0)
  unfolding Static.char_drv_open Dynamic.char_drv_open Sem.char_drv_open Spin.char_drv_open
      Completion.char_drv_open Seqlock.char_drv_open Ioctl.char_drv_open WaitQueue.char_drv_open
      Poll.char_drv_open Seek.char_drv_open
  on_open-done ex3 s = refl
  on_open-done ex4 s = refl
  on_open-done ex7 s = refl
  on_open-done ex8 s = refl
  on_open-done ex9 s = refl
  on_open-done ex10 s = refl
  on_open-done ex11 s = refl
  on_open-done ex12 s = refl
  on_open-done ex13 s = refl
  on_open-done ex14 s = refl

  pub on_release-done : (d : Driver) (s : Waiting) → (fops_of e d).on_release s ≡ done [] (s, 0)
  unfolding Static.char_drv_release Dynamic.char_drv_release Sem.char_drv_release
      Spin.char_drv_release Completion.char_drv_release Seqlock.char_drv_release
      Ioctl.char_drv_release WaitQueue.char_drv_release Poll.char_drv_release Seek.char_drv_release
  on_release-done ex3 s = refl
  on_release-done ex4 s = refl
  on_release-done ex7 s = refl
  on_release-done ex8 s = refl
  on_release-done ex9 s = refl
  on_release-done ex10 s = refl
  on_release-done ex11 s = refl
  on_release-done ex12 s = refl
  on_release-done ex13 s = refl
  on_release-done ex14 s = refl

  pub on_read-done :
      (d : Driver) (s : Waiting) (user : List ℕ) (count : ℕ)
      → clamp count ≤ length (bytes s.buffer)
      → (fops_of e d).on_read s user count
        ≡ done (read_calls d (clamp count)) (
          record s { condition = read_condition d s.condition },
          (e.uaccess.copy_to_user user (bytes s.buffer) (clamp count)).0,
          sub64 (clamp count) (e.uaccess.copy_to_user user (bytes s.buffer) (clamp count)).1,
        )
  unfolding Static.read Dynamic.read Sem.read Spin.read Completion.read Seqlock.read Ioctl.read
      WaitQueue.read Poll.read Seek.read
  on_read-done ex3 s user count h = rw (copy_out-done e.uaccess s.buffer user (clamp count) h)
  on_read-done d s user count h = rw (copy_out-done e.uaccess s.buffer user (clamp count) h)

  pub on_write-done :
      (d : Driver) (s : Waiting) (b user : List ℕ) (count : ℕ)
      → s.buffer ≡ some b
      → clamp count ≤ length b
      → (fops_of e d).on_write s user count
        ≡ done (write_calls d (clamp count)) (
          record {
            buffer = some (e.uaccess.copy_from_user b user (clamp count)).0;
            condition = write_condition d s.condition;
          },
          sub64 (clamp count) (e.uaccess.copy_from_user b user (clamp count)).1,
        )
  unfolding Static.write Dynamic.write Sem.write Spin.write Completion.write Seqlock.write
      Ioctl.write WaitQueue.write Poll.write Seek.write
  on_write-done ex3 s b user count q h = rw (q, copy_in-done e.uaccess b user (clamp count) h)
  on_write-done d s b user count q h = rw (q, copy_in-done e.uaccess b user (clamp count) h)
