-- ===== src/Chardev/Copy.antt =====
-- What a read and a write of each driver do, once the object is known to hold enough bytes or not.
use ldd3_examples.Common.{ℕ, ◌-◌, ◌≤◌, ◌<◌, ◌≡◌, List, [], ◌∷◌, some, length, done, fault, arith}
use ldd3_examples.Kernel.Uaccess.{Uaccess}
use ldd3_examples.Chardev.Defs.{
  Buffer, Waiting, buffer_len, bytes, clamp, sub64, copy_out, copy_in, copy_to_user, copy_from_user,
}
use ldd3_examples.Chardev.Drivers.{
  Driver, ex3, read_of, write_of, read_calls, write_calls, read_condition, write_condition,
}

pub clamp-le : (c : ℕ) → clamp c ≤ buffer_len
unfolding clamp
clamp-le c = ground arith

pub clamp-le_self : (c : ℕ) → clamp c ≤ c
unfolding clamp
clamp-le_self c = ground arith

pub clamp_mono : (c d : ℕ) → c ≤ d → clamp c ≤ clamp d
unfolding clamp
clamp_mono c d h = ground arith

pub sub64_lem : (len left : ℕ) → left ≤ len → len ≤ buffer_len → sub64 len left ≡ len - left
sub64_lem len left h k = omega arith

module _ (u : Uaccess) where
  pub copy_out-done :
      (buf : Buffer) (user : List ℕ) (n : ℕ)
      → n ≤ length (bytes buf)
      → copy_out u buf user n ≡ done (copy_to_user n ∷ []) (u.copy_to_user user (bytes buf) n)
  unfolding copy_out
  copy_out-done buf user n h = ground arith

  pub copy_out-fault :
      (buf : Buffer) (user : List ℕ) (n : ℕ)
      → length (bytes buf) < n
      → copy_out u buf user n ≡ fault
  unfolding copy_out
  copy_out-fault buf user n h = ground arith

  pub copy_in-done :
      (b user : List ℕ) (n : ℕ)
      → n ≤ length b
      → copy_in u (some b) user n
        ≡ done
            (copy_from_user n ∷ [])
            (some (u.copy_from_user b user n).0, (u.copy_from_user b user n).1)
  unfolding copy_in
  copy_in-done b user n h = ground arith

  pub copy_in-fault :
      (buf : Buffer) (user : List ℕ) (n : ℕ) → length (bytes buf) < n → copy_in u buf user n ≡ fault
  unfolding copy_in
  copy_in-fault buf user n h = ground arith

  -- A read of a buffer that has the clamped count of bytes copies that many out, between the driver's
  -- own calls, and returns how many were copied.
  pub read_of-done :
      (d : Driver) (s : Waiting) (user : List ℕ) (count : ℕ)
      → clamp count ≤ length (bytes s.buffer)
      → read_of u d s user count
        ≡ done (read_calls d (clamp count)) (
          record s { condition = read_condition d s.condition },
          (u.copy_to_user user (bytes s.buffer) (clamp count)).0,
          sub64 (clamp count) (u.copy_to_user user (bytes s.buffer) (clamp count)).1,
        )
  unfolding read_of
  read_of-done ex3 s user count h = rw (copy_out-done s.buffer user (clamp count) h)
  read_of-done d s user count h = rw (copy_out-done s.buffer user (clamp count) h)

  -- A write to a buffer that has the clamped count of bytes copies that many in, between the
  -- driver's own calls, and returns how many were copied.
  pub write_of-done :
      (d : Driver) (s : Waiting) (b user : List ℕ) (count : ℕ)
      → s.buffer ≡ some b
      → clamp count ≤ length b
      → write_of u d s user count
        ≡ done (write_calls d (clamp count)) (
          record {
            buffer = some (u.copy_from_user b user (clamp count)).0;
            condition = write_condition d s.condition;
          },
          sub64 (clamp count) (u.copy_from_user b user (clamp count)).1,
        )
  unfolding write_of
  write_of-done ex3 s b user count e h = rw (e, copy_in-done b user (clamp count) h)
  write_of-done d s b user count e h = rw (e, copy_in-done b user (clamp count) h)

  -- An object that is shorter than the clamped count is overrun.
  pub read_of-fault :
      (d : Driver) (s : Waiting) (user : List ℕ) (count : ℕ)
      → length (bytes s.buffer) < clamp count
      → read_of u d s user count ≡ fault
  unfolding read_of
  read_of-fault ex3 s user count h = rw (copy_out-fault s.buffer user (clamp count) h)
  read_of-fault d s user count h = rw (copy_out-fault s.buffer user (clamp count) h)

  pub write_of-fault :
      (d : Driver) (s : Waiting) (user : List ℕ) (count : ℕ)
      → length (bytes s.buffer) < clamp count
      → write_of u d s user count ≡ fault
  unfolding write_of
  write_of-fault ex3 s user count h = rw (copy_in-fault s.buffer user (clamp count) h)
  write_of-fault d s user count h = rw (copy_in-fault s.buffer user (clamp count) h)
