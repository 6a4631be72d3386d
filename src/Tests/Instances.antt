-- ===== src/Tests/Instances.antt =====
-- Concrete kernels for the tests.
use mathlib.Core.Option.{some-injective}
use ldd3_examples.Common.{
  ℕ, zero, suc, ◌+◌, ◌*◌, ◌/◌, ◌%◌, ◌^◌, ◌≡◌, refl, sym, ap, ◌∙◌, true, false, ◌<◌, List, Option,
  none, some, replicate, length, length-replicate, leb, arith,
}
use ldd3_examples.Common.Int.{pos}
use ldd3_examples.Kernel.Copied.{IsComplete}
use ldd3_examples.Kernel.Simple.{simple_uaccess, put-length}
use ldd3_examples.Kernel.Boot.{Boot}
use ldd3_examples.Kernel.Semaphore.{Semaphore}
use ldd3_examples.Kernel.Ioctl.{IoctlAbi}

pub replicated : (size : ℕ) (b : List ℕ) → some (replicate size 0) ≡ some b → length b ≡ size
replicated size b e = ap length (sym (some-injective _ _ e)) ∙ length-replicate {A = ℕ} size 0

-- Every request is granted; kmalloc gives zero bytes, and GFP_KERNEL is 0xd0.
abbrev pub boot : Boot
boot = record {
  region_ret = pos 0;
  cdev_ok = true;
  add_ret = pos 0;
  kmalloc = λ size flags. some (replicate size 0);
  kmalloc_size = λ size flags b e. replicated size b e;
  gfp_kernel = 208;
}

abbrev pub take_one : ℕ → Option ℕ
take_one zero = none
take_one (suc n) = some n

pub taken : (s t : ℕ) → take_one s ≡ some t → s ≡ suc t
taken zero t e = cc
taken (suc n) t e = ap suc (some-injective _ _ e)

pub may_take : (s n : ℕ) → s ≡ suc n → (t : ℕ) × (take_one s ≡ some t)
may_take zero n e = cc
may_take (suc s) n e = (s, refl)

abbrev pub counter : Semaphore
counter = record {
  State = ℕ;
  init = λ n. n;
  acquire = take_one;
  release = suc;
  free = λ n. n;
  free-init = λ n. refl;
  free-acquire = taken;
  acquire-free = may_take;
  free-release = λ n. refl;
}

-- The direction bits of the commands of type `t` and number `n`.
pub no_read : (t n : ℕ) → t < 256 → n < 256 → leb 1 ((t * 2 ^ 8 + n) / 2 ^ 31 % 2) ≡ false
no_read t n h k = ground arith

pub no_write : (t n : ℕ) → t < 256 → n < 256 → leb 1 ((t * 2 ^ 8 + n) / 2 ^ 30 % 2) ≡ false
no_write t n h k = ground arith

pub no_read_sized :
    (t n s : ℕ)
    → t < 256
    → n < 256
    → s < 2
    → leb 1 ((2 ^ 30 + s * 2 ^ 16 + t * 2 ^ 8 + n) / 2 ^ 31 % 2) ≡ false
no_read_sized t n s h k l = ground arith

pub write_sized :
    (t n s : ℕ)
    → t < 256
    → n < 256
    → s < 2
    → leb 1 ((2 ^ 30 + s * 2 ^ 16 + t * 2 ^ 8 + n) / 2 ^ 30 % 2) ≡ true
write_sized t n s h k l = ground arith

-- The encoding of asm-generic/ioctl.h, for a user whose memory may all be accessed.
abbrev pub generic_abi : IoctlAbi
generic_abi = record {
  ioc_type = λ c. c / 2 ^ 8 % 2 ^ 8;
  ioc_nr = λ c. c % 2 ^ 8;
  ioc_size = λ c. c / 2 ^ 16 % 2 ^ 14;
  dir_read = λ c. leb 1 (c / 2 ^ 31 % 2);
  dir_write = λ c. leb 1 (c / 2 ^ 30 % 2);
  io = λ t n. t * 2 ^ 8 + n;
  iow = λ t n s. 2 ^ 30 + s * 2 ^ 16 + t * 2 ^ 8 + n;
  io_type = λ t n h k. omega arith;
  io_nr = λ t n h k. omega arith;
  io_dir_read = no_read;
  io_dir_write = no_write;
  iow_type = λ t n s h k l. omega arith;
  iow_nr = λ t n s h k l. omega arith;
  iow_size = λ t n s h k l. omega arith;
  iow_dir_read = no_read_sized;
  iow_dir_write = write_sized;
  access_ok_write = λ addr size. true;
  access_ok_read = λ addr size. true;
}

pub complete : IsComplete simple_uaccess
complete = record {
  to_all = λ to from n h k. omega arith;
  to_length = put-length;
  from_all = λ to from n h k. omega arith;
}
