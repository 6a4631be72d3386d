-- ===== src/Chardev/Ioctl/Shown.antt =====
-- What a read of day_04/ex11.c shows after an ioctl.
use ldd3_examples.Common.{
  ℕ, zero, suc, ◌-◌, ◌%◌, ◌≤◌, ◌≡◌, refl, ap, ◌∙◌, true, List, [], ◌∷◌, ◌++◌, some, length, take,
  drop, replicate, length-append, length-replicate, Run, done, fault, ◌>>=◌, pure, arith,
}
use ldd3_examples.Kernel.Uaccess.{Uaccess}
use ldd3_examples.Kernel.Errno.{Ret, ret}
use ldd3_examples.Kernel.Ioctl.{IoctlAbi}
use ldd3_examples.Chardev.Defs.{Call, Buffer, buffer_len, clamp, memset, copy_from_user}
use ldd3_examples.Chardev.Copy.{clamp-le, sub64_lem, copy_out-done}
use ldd3_examples.Chardev.Ioctl.{clear_buffer, fill_buffer, filled, ioctl, read}
use ldd3_examples.Chardev.Ioctl.Commands.{ioctl-clear, ioctl-fill}

-- A read of `count` bytes into `out`, after an ioctl.
abbrev pub then_read :
    Uaccess → (out : List ℕ) (count : ℕ) → Run Call (Buffer × Ret) → Run Call (Ret × List ℕ × ℕ)
then_read u out count m = do (buffer, r) ← m; (out', n) ← read u buffer out count; pure (r, out', n)

-- The ioctl returned 0, and the read gave `ch` again and again, as far as it copied.
abbrev pub ShowsAll : (count ch left : ℕ) → Run Call (Ret × List ℕ × ℕ) → Type 0
ShowsAll count ch left (done t (r, out, n)) =
    (r ≡ ret 0) × (n ≡ clamp count - left) × (take n out ≡ replicate n ch)
ShowsAll count ch left fault = ⊥

take-replicate : (m n ch : ℕ) (xs : List ℕ) → m ≤ n → take m (replicate n ch ++ xs) ≡ replicate m ch
take-replicate zero n ch xs h = refl
take-replicate (suc m) zero ch xs h = elim h [ ]
take-replicate (suc m) (suc n) ch xs h = ap (◌∷◌ ch) (take-replicate m n ch xs (omega arith))

module _ (u : Uaccess) (abi : IoctlAbi) (b user out : List ℕ) (arg count : ℕ)
    (room : buffer_len ≤ length b) where
  abbrev pub left_of : ℕ → ℕ
  left_of ch = (u.copy_to_user out (filled buffer_len ch b) (clamp count)).1

  read-filled :
      (ch : ℕ) (t : List Call)
      → ShowsAll count ch
          (left_of ch)
          (then_read u out count (done t (some (filled buffer_len ch b), ret 0)))
  unfolding read filled
  read-filled ch t =
      rw
        (
          copy_out-done u (some (filled buffer_len ch b)) out (clamp count) size,
          sub64_lem (clamp count) (left_of ch) (u.to_left _ _ _) (clamp-le count),
        )
        (
          refl,
          refl,
          u.to_copied out (filled buffer_len ch b) (clamp count) size
              ∙ take-replicate _ buffer_len ch _ (omega (arith, clamp-le count)),
        )
    where
      size : clamp count ≤ length (filled buffer_len ch b)
      size = omega (
        arith,
        clamp-le count,
        length-append (replicate {A = ℕ} buffer_len ch) (drop buffer_len b),
        length-replicate {A = ℕ} buffer_len ch,
      )

  -- On a buffer of at least 4000 bytes, and where the user's byte `ch` can be read: after CLEAR_BUFFER a
  -- read shows zero bytes, and after FILL_BUFFFER that byte, as far as it copies; both ioctls return 0.
  pub ioctl-read :
      (ch : ℕ) (rest : List ℕ)
      → user ≡ ch ∷ rest
      → abi.access_ok_read arg 1 ≡ true
      → (u.copy_from_user (arg % 256 ∷ []) user 1).1 ≡ 0
      → ShowsAll count 0
          (left_of 0)
          (then_read u out count (ioctl u abi (some b) user (clear_buffer abi) arg))
        × ShowsAll count ch
            (left_of ch)
            (then_read u out count (ioctl u abi (some b) user (fill_buffer abi) arg))
  ioctl-read ch rest e ok full = (
    rw (ioctl-clear u abi b user arg room) (read-filled 0 (memset buffer_len ∷ [])),
    rw (ioctl-fill u abi b user arg room ch rest e ok full)
        (read-filled ch (copy_from_user 1 ∷ memset buffer_len ∷ [])),
  )
