-- ===== src/Chardev/Ioctl/Commands.antt =====
-- What the ioctl of day_04/ex11.c does on each command.
use ldd3_examples.Common.{
  ℕ, ◌-◌, ◌%◌, ◌≤◌, ◌<◌, ◌≡◌, refl, ◌∙◌, ◌⊎◌, true, List, [], ◌∷◌, some, length, take, done, fault,
  arith,
}
use ldd3_examples.Kernel.Uaccess.{Uaccess}
use ldd3_examples.Kernel.Errno.{Ret, ret, err, efault, enotty}
use ldd3_examples.Kernel.Ioctl.{IoctlAbi}
use ldd3_examples.Chardev.Defs.{Call, Buffer, bytes, buffer_len, copy_from_user, memset}
use ldd3_examples.Chardev.Ioctl.{
  magic_num, clear_buffer, fill_buffer, set_buffer, filled, first_or, clear, fill, ioctl_switch,
  ioctl,
}

set_buffer-done :
    (b : List ℕ) (ch : ℕ)
    → buffer_len ≤ length b
    → set_buffer (some b) ch ≡ done (memset buffer_len ∷ []) (some (filled buffer_len ch b))
unfolding set_buffer
set_buffer-done b ch h = ground arith

first_or_lem : (d ch : ℕ) (got rest : List ℕ) → take 1 got ≡ ch ∷ [] → first_or d got ≡ ch
first_or_lem d ch [] rest e = cc
first_or_lem d ch (x ∷ xs) rest e = ground arith

module _ (u : Uaccess) (abi : IoctlAbi) (b user : List ℕ) (arg : ℕ)
    (room : buffer_len ≤ length b) where
  -- On an object of at least `buffer_len` bytes, CLEAR_BUFFER zeroes the first `buffer_len`, needs no
  -- access to the user's memory, and returns 0.
  pub ioctl-clear :
      ioctl u abi (some b) user (clear_buffer abi) arg
      ≡ done (memset buffer_len ∷ []) (some (filled buffer_len 0 b), ret 0)
  unfolding ioctl ioctl_switch clear
  ioctl-clear = ground (
    arith,
    set_buffer-done b 0 room,
    abi.io_type magic_num 1,
    abi.io_nr magic_num 1,
    abi.io_dir_read magic_num 1,
    abi.io_dir_write magic_num 1,
  )

  -- On an object of at least `buffer_len` bytes, FILL_BUFFFER with a readable byte `ch` sets the
  -- first `buffer_len` to it and returns 0.
  pub ioctl-fill :
      (ch : ℕ) (rest : List ℕ)
      → user ≡ ch ∷ rest
      → abi.access_ok_read arg 1 ≡ true
      → (u.copy_from_user (arg % 256 ∷ []) user 1).1 ≡ 0
      → ioctl u abi (some b) user (fill_buffer abi) arg
        ≡ done (copy_from_user 1 ∷ memset buffer_len ∷ []) (some (filled buffer_len ch b), ret 0)
  unfolding ioctl ioctl_switch fill
  ioctl-fill ch rest e ok full = ground (
    arith,
    byte,
    set_buffer-done b ch room,
    abi.iow_type magic_num 2 1,
    abi.iow_nr magic_num 2 1,
    abi.iow_size magic_num 2 1,
    abi.iow_dir_read magic_num 2 1,
    abi.iow_dir_write magic_num 2 1,
  )
    where
      one : 1 - (u.copy_from_user (arg % 256 ∷ []) user 1).1 ≡ 1
      one = omega arith

      copied : take 1 (u.copy_from_user (arg % 256 ∷ []) user 1).0 ≡ take 1 user
      copied = rw one at (u.from_copied (arg % 256 ∷ []) user 1 (omega arith))

      byte : first_or (arg % 256) (u.copy_from_user (arg % 256 ∷ []) user 1).0 ≡ ch
      byte = first_or_lem _ ch _ rest (copied ∙ rw e refl)

-- A command that fails changes nothing and makes no call; it fails with ENOTTY or EFAULT. One that
-- succeeds has the driver's type and number 1 or 2.
pub ioctl-cases :
    (u : Uaccess) (abi : IoctlAbi) (buffer buffer' : Buffer) (user : List ℕ) (cmd arg : ℕ)
    (t : List Call) (r : Ret)
    → ioctl u abi buffer user cmd arg ≡ done t (buffer', r)
    → (((r ≡ err enotty) ⊎ (r ≡ err efault)) × (buffer' ≡ buffer) × (t ≡ []))
      ⊎ ((r ≡ ret 0)
          × (abi.ioc_type cmd ≡ magic_num)
          × ((abi.ioc_nr cmd ≡ 1) ⊎ (abi.ioc_nr cmd ≡ 2)))
unfolding ioctl ioctl_switch clear fill set_buffer
ioctl-cases u abi buffer buffer' user cmd arg t r e = ground arith

-- On a shorter object, such as one of GFP_KERNEL bytes, CLEAR_BUFFER writes past its end.
pub ioctl_overrun :
    (u : Uaccess) (abi : IoctlAbi) (buffer : Buffer) (user : List ℕ) (arg : ℕ)
    → length (bytes buffer) < buffer_len
    → ioctl u abi buffer user (clear_buffer abi) arg ≡ fault
unfolding ioctl ioctl_switch clear set_buffer
ioctl_overrun u abi buffer user arg short = ground (
  arith,
  abi.io_type magic_num 1,
  abi.io_nr magic_num 1,
  abi.io_dir_read magic_num 1,
  abi.io_dir_write magic_num 1,
)
