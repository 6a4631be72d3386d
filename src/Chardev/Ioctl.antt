-- ===== src/Chardev/Ioctl.antt =====
-- day_04/ex11.c and day_04/driver_ioctl_const.h: reads and writes under a semaphore, and an ioctl
-- that clears or fills the buffer.
pub mod Commands
pub mod Shown
use ldd3_examples.Common.{
  ℕ, ◌%◌, List, [], ◌∷◌, ◌++◌, length, drop, replicate, ltb, leb, ◌==◌, not, ◌&&◌, if◌then◌else◌,
  Run, ◌>>=◌, ◌>>◌, pure, emit, require, none, some, Option,
}
use ldd3_examples.Common.Int.{ℤ}
use ldd3_examples.Kernel.Uaccess.{Uaccess}
use ldd3_examples.Kernel.Boot.{Boot}
use ldd3_examples.Kernel.FileOps.{FileOps}
use ldd3_examples.Kernel.Errno.{Ret, ret, err, efault, enotty}
use ldd3_examples.Kernel.Ioctl.{IoctlAbi}
use ldd3_examples.Chardev.Defs.{
  Call, Buffer, bytes, store, buffer_len, clamp, sub64, copy_out, copy_in, alloc_chrdev_region,
  down, up, copy_from_user, memset, sema_init,
}
use ldd3_examples.Chardev.Load.{load, unload}

module _ (u : Uaccess) where
  -- The user's new bytes, and the return value.
  unfoldable pub read : Buffer → List ℕ → ℕ → Run Call (List ℕ × ℕ)
  read buffer user count = do
    emit down
    let len = clamp count
    (user', ret_len) ← copy_out u buffer user len
    emit up
    pure (user', sub64 len ret_len)

  -- The new buffer, and the return value.
  unfoldable pub write : Buffer → List ℕ → ℕ → Run Call (Buffer × ℕ)
  write buffer user count = do
    emit down
    let len = clamp count
    (buffer', ret_len) ← copy_in u buffer user len
    emit up
    pure (buffer', sub64 len ret_len)

abbrev pub magic_num : ℕ
magic_num = b'm'

abbrev pub ioctl_nums : ℕ
ioctl_nums = 3

abbrev pub clear_buffer : IoctlAbi → ℕ
clear_buffer abi = abi.io magic_num 1

-- The header's name is FILL_BUFFFER; a char has one byte.
abbrev pub fill_buffer : IoctlAbi → ℕ
fill_buffer abi = abi.iow magic_num 2 1

-- The bytes after memset of the first `n` to `ch`.
unfoldable pub filled : (n ch : ℕ) → List ℕ → List ℕ
filled n ch b = replicate n ch ++ drop n b

-- `memset(buffer,ch,buffer_len)`
unfoldable pub set_buffer : Buffer → ℕ → Run Call Buffer
set_buffer buffer ch = do
  require (leb buffer_len (length (bytes buffer)))
  emit (memset buffer_len)
  pure (store buffer (filled buffer_len ch (bytes buffer)))

-- The byte that `ch` holds after the copy, whose result is ignored.
abbrev pub first_or : ℕ → List ℕ → ℕ
first_or d [] = d
first_or d (x ∷ xs) = x

-- `case 1` and `case 2`; `user` is what stands at the address `arg`.
unfoldable pub clear : Buffer → Run Call (Buffer × Ret)
unfolding set_buffer
clear buffer = do buffer' ← set_buffer buffer 0; pure (buffer', ret 0)

unfoldable pub fill : Uaccess → Buffer → List ℕ → ℕ → Run Call (Buffer × Ret)
unfolding set_buffer
fill u buffer user arg = do
  emit (copy_from_user 1)
  let ch = arg % 256
  let (got, left) = u.copy_from_user (ch ∷ []) user 1
  buffer' ← set_buffer buffer (first_or ch got)
  pure (buffer', ret 0)

module _ (u : Uaccess) (abi : IoctlAbi) where
  unfoldable pub ioctl_switch : Buffer → List ℕ → ℕ → ℕ → Run Call (Buffer × Ret)
  unfolding clear fill
  ioctl_switch buffer user num arg =
      if num == 1
      then clear buffer
      else if num == 2
      then fill u buffer user arg
      else pure (buffer, err enotty)

  unfoldable pub ioctl : Buffer → List ℕ → ℕ → ℕ → Run Call (Buffer × Ret)
  unfolding ioctl_switch
  ioctl buffer user cmd arg =
      if not (abi.ioc_type cmd == magic_num)
      then pure (buffer, err enotty)
      else if ltb ioctl_nums (abi.ioc_nr cmd)
      then pure (buffer, err enotty)
      else if abi.dir_read cmd && not (abi.access_ok_write arg (abi.ioc_size cmd))
      then pure (buffer, err efault)
      else if abi.dir_write cmd && not (abi.access_ok_read arg (abi.ioc_size cmd))
      then pure (buffer, err efault)
      else ioctl_switch buffer user (abi.ioc_nr cmd) arg

unfoldable pub char_drv_open : Run Call ℕ
char_drv_open = pure 0

unfoldable pub char_drv_release : Run Call ℕ
char_drv_release = pure 0

abbrev pub sample_char_drv_fops : Uaccess → IoctlAbi → FileOps Call Buffer ℕ
sample_char_drv_fops u abi = record {
  on_open = λ s. (char_drv_open >>= λ r. pure (s, r));
  on_release = λ s. (char_drv_release >>= λ r. pure (s, r));
  on_read = λ s user count. (read u s user count >>= λ (user', n). pure (s, user', n));
  on_write = write u;
  on_poll = none;
  on_llseek = none;
  on_ioctl = some (ioctl u abi);
  on_mmap = none;
}

unfoldable pub module_init : Boot → Run Call (ℤ × Buffer)
unfolding load
module_init = load alloc_chrdev_region (sema_init 1 ∷ [])

unfoldable pub module_exit : Run Call Buffer
unfolding unload
module_exit = unload
