-- ===== src/Chardev/Drivers.antt =====
-- The drivers of ex3.c to ex14.c as one family. The read of ex10.c is the one that is not retried.
use ldd3_examples.Common.{ℕ, false, List, [], ◌∷◌, Run, ◌>>=◌, pure, deref}
use ldd3_examples.Common.Int.{ℤ}
use ldd3_examples.Kernel.Uaccess.{Uaccess}
use ldd3_examples.Kernel.Boot.{Boot}
use ldd3_examples.Chardev.Defs.{
  Call, Buffer, Waiting, down, up, spin_lock, spin_unlock, wait_for_completion, complete,
  assign_condition, wait_event_interruptible, wake_up_interruptible, read_seqbegin, read_seqretry,
  copy_to_user, copy_from_user,
}
use ldd3_examples.Chardev.Static
use ldd3_examples.Chardev.Dynamic
use ldd3_examples.Chardev.Sem
use ldd3_examples.Chardev.Spin
use ldd3_examples.Chardev.Completion
use ldd3_examples.Chardev.Seqlock
use ldd3_examples.Chardev.Ioctl
use ldd3_examples.Chardev.WaitQueue
use ldd3_examples.Chardev.Poll
use ldd3_examples.Chardev.Seek

pub data Driver : Type 0 where
  ex3 ex4 ex7 ex8 ex9 ex10 ex11 ex12 ex13 ex14 : Driver

abbrev pub with_state : Waiting → Run Call (List ℕ × ℕ) → Run Call (Waiting × List ℕ × ℕ)
with_state s m = m >>= λ (user, n). pure (s, user, n)

abbrev pub with_buffer : Waiting → Run Call (Buffer × ℕ) → Run Call (Waiting × ℕ)
with_buffer s m = m >>= λ (b, n). pure (record s { buffer = b }, n)

module _ (u : Uaccess) where
  unfoldable pub read_of : Driver → Waiting → List ℕ → ℕ → Run Call (Waiting × List ℕ × ℕ)
  unfolding Static.read Dynamic.read Sem.read Spin.read Completion.read Seqlock.read Ioctl.read
      WaitQueue.read Poll.read Seek.read
  read_of ex3 s user count = with_state s (Static.read u s.buffer user count)
  read_of ex4 s user count = with_state s (Dynamic.read u s.buffer user count)
  read_of ex7 s user count = with_state s (Sem.read u s.buffer user count)
  read_of ex8 s user count = with_state s (Spin.read u s.buffer user count)
  read_of ex9 s user count = with_state s (Completion.read u s.buffer user count)
  read_of ex10 s user count =
      with_state s (Seqlock.read u (false ∷ []) s.buffer user count >>= deref)
  read_of ex11 s user count = with_state s (Ioctl.read u s.buffer user count)
  read_of ex12 s user count = WaitQueue.read u s user count
  read_of ex13 s user count = Poll.read u s user count
  read_of ex14 s user count = Seek.read u s user count

  unfoldable pub write_of : Driver → Waiting → List ℕ → ℕ → Run Call (Waiting × ℕ)
  unfolding Static.write Dynamic.write Sem.write Spin.write Completion.write Seqlock.write
      Ioctl.write WaitQueue.write Poll.write Seek.write
  write_of ex3 s user count = with_buffer s (Static.write u s.buffer user count)
  write_of ex4 s user count = with_buffer s (Dynamic.write u s.buffer user count)
  write_of ex7 s user count = with_buffer s (Sem.write u s.buffer user count)
  write_of ex8 s user count = with_buffer s (Spin.write u s.buffer user count)
  write_of ex9 s user count = with_buffer s (Completion.write u s.buffer user count)
  write_of ex10 s user count = with_buffer s (Seqlock.write u s.buffer user count)
  write_of ex11 s user count = with_buffer s (Ioctl.write u s.buffer user count)
  write_of ex12 s user count = WaitQueue.write u s user count
  write_of ex13 s user count = Poll.write u s user count
  write_of ex14 s user count = Seek.write u s user count

unfoldable pub init_of : Driver → Boot → Run Call (ℤ × Buffer)
unfolding Static.module_init Dynamic.module_init Sem.module_init Spin.module_init
    Completion.module_init Seqlock.module_init Ioctl.module_init WaitQueue.module_init
    Poll.module_init Seek.module_init
init_of ex3 = Static.module_init
init_of ex4 = Dynamic.module_init
init_of ex7 = Sem.module_init
init_of ex8 = Spin.module_init
init_of ex9 = Completion.module_init
init_of ex10 = Seqlock.module_init
init_of ex11 = Ioctl.module_init
init_of ex12 = WaitQueue.module_init
init_of ex13 = Poll.module_init
init_of ex14 = Seek.module_init

unfoldable pub exit_of : Driver → Run Call Buffer
unfolding Static.module_exit Dynamic.module_exit Sem.module_exit Spin.module_exit
    Completion.module_exit Seqlock.module_exit Ioctl.module_exit WaitQueue.module_exit
    Poll.module_exit Seek.module_exit
exit_of ex3 = Static.module_exit
exit_of ex4 = Dynamic.module_exit
exit_of ex7 = Sem.module_exit
exit_of ex8 = Spin.module_exit
exit_of ex9 = Completion.module_exit
exit_of ex10 = Seqlock.module_exit
exit_of ex11 = Ioctl.module_exit
exit_of ex12 = WaitQueue.module_exit
exit_of ex13 = Poll.module_exit
exit_of ex14 = Seek.module_exit

-- The kernel calls around a copy of `n` bytes.
abbrev pub read_calls : Driver → ℕ → List Call
read_calls ex3 n = copy_to_user n ∷ []
read_calls ex4 n = copy_to_user n ∷ []
read_calls ex7 n = down ∷ copy_to_user n ∷ up ∷ []
read_calls ex8 n = spin_lock ∷ copy_to_user n ∷ spin_unlock ∷ []
read_calls ex9 n = wait_for_completion ∷ copy_to_user n ∷ []
read_calls ex10 n = read_seqbegin ∷ copy_to_user n ∷ read_seqretry ∷ []
read_calls ex11 n = down ∷ copy_to_user n ∷ up ∷ []
read_calls ex12 n = wait_event_interruptible ∷ copy_to_user n ∷ assign_condition 0 ∷ []
read_calls ex13 n = wait_event_interruptible ∷ copy_to_user n ∷ assign_condition 0 ∷ []
read_calls ex14 n = wait_event_interruptible ∷ copy_to_user n ∷ assign_condition 0 ∷ []

abbrev pub write_calls : Driver → ℕ → List Call
write_calls ex3 n = copy_from_user n ∷ []
write_calls ex4 n = copy_from_user n ∷ []
write_calls ex7 n = down ∷ copy_from_user n ∷ up ∷ []
write_calls ex8 n = spin_lock ∷ copy_from_user n ∷ spin_unlock ∷ []
write_calls ex9 n = copy_from_user n ∷ complete ∷ []
write_calls ex10 n = down ∷ copy_from_user n ∷ up ∷ []
write_calls ex11 n = down ∷ copy_from_user n ∷ up ∷ []
write_calls ex12 n = down ∷ copy_from_user n ∷ up ∷ assign_condition 1 ∷ wake_up_interruptible ∷ []
write_calls ex13 n = down ∷ copy_from_user n ∷ up ∷ assign_condition 1 ∷ wake_up_interruptible ∷ []
write_calls ex14 n = down ∷ copy_from_user n ∷ up ∷ assign_condition 1 ∷ wake_up_interruptible ∷ []

-- The `condition` that a read or a write leaves.
abbrev pub read_condition : Driver → ℕ → ℕ
read_condition ex12 c = 0
read_condition ex13 c = 0
read_condition ex14 c = 0
read_condition _ c = c

abbrev pub write_condition : Driver → ℕ → ℕ
write_condition ex12 c = 1
write_condition ex13 c = 1
write_condition ex14 c = 1
write_condition _ c = c
