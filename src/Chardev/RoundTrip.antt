-- ===== src/Chardev/RoundTrip.antt =====
-- A read gives back what a write has put into the buffer.
use ldd3_examples.Common.{ℕ, ◌-◌, ◌≤◌, ◌≡◌, ◌∙◌, List, some, length, take, Run, done, arith}
use ldd3_examples.Kernel.Uaccess.{Uaccess}
use ldd3_examples.Kernel.Copied.{prefix-copied}
use ldd3_examples.Chardev.Defs.{Call, Waiting, clamp, sub64}
use ldd3_examples.Chardev.Drivers.{Driver, read_of, write_of, read_calls, write_calls}
use ldd3_examples.Chardev.Copy.{clamp-le, clamp_mono, sub64_lem, read_of-done, write_of-done}

-- The call ends, makes these kernel calls, and has this result.
abbrev pub Ends : {A : Type 0} → Run Call A → List Call → (A → Type 0) → Type 0
Ends {A} m t P = (a : A) × (m ≡ done t a) × P a

module _ (u : Uaccess) (d : Driver) where
  -- After a write of `count` bytes to a buffer that has the clamped count, if it copies all it asks
  -- for, a read of no more bytes (that of ex10.c without a retry) gives the user a prefix of what was
  -- written, as long as what it returns. Both end, and make the driver's own calls.
  pub read-write :
      (s : Waiting) (b user user' : List ℕ) (count count' : ℕ)
      → s.buffer ≡ some b
      → clamp count ≤ length b
      → count' ≤ count
      → (u.copy_from_user b user (clamp count)).1 ≡ 0
      → Ends (write_of u d s user count) (write_calls d (clamp count)) (λ (s', n).
        (n ≡ clamp count)
        × Ends
            (read_of u d s' user' count')
            (read_calls d (clamp count'))
            (λ (s'', got, m). (m ≤ clamp count') × (take m got ≡ take m user)))
  read-write s b user user' count count' e h k full = (
    _,
    write_of-done u d s b user count e h,
    (
      wrote,
      (
        _,
        read_of-done u d _ user' count' room,
        (
          bounded,
          rw m_eq (
              u.to_copied user' b' n' room
              ∙ prefix-copied u b user n _ h full (omega (arith, clamp_mono count' count k))),
        ),
      ),
    ),
  )
    where
      n : ℕ
      n = clamp count

      n' : ℕ
      n' = clamp count'

      b' : List ℕ
      b' = (u.copy_from_user b user n).0

      left' : ℕ
      left' = (u.copy_to_user user' b' n').1

      room : n' ≤ length b'
      room = omega (arith, u.from_length b user n h, clamp_mono count' count k)

      m_eq : sub64 n' left' ≡ n' - left'
      m_eq = sub64_lem n' left' (u.to_left user' b' n') (clamp-le count')

      wrote : sub64 n (u.copy_from_user b user n).1 ≡ n
      wrote = sub64_lem n _ (u.from_left b user n) (clamp-le count) ∙ omega arith

      bounded : sub64 n' left' ≤ n'
      bounded = rw m_eq (omega arith)
