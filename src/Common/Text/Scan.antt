-- ===== src/Common/Text/Scan.antt =====
-- A printed int is scanned back.
use Prim.Native.Nat.{ℕ, zero, suc, ◌+◌, ◌/◌, ◌%◌, ◌≤◌, ◌<◌}
use mathlib.Core.Path.{◌≡◌, refl}
use mathlib.Core.Logic.{inl, inr}
use mathlib.Core.Bool.{true, false}
use mathlib.Core.Option.{some}
use mathlib.Core.List.{[], ◌∷◌}
use native.Mathlib.Omega.{arith}
use ldd3_examples.Common.Tests.{ltb, Bool-cases, ◌==◌}
use ldd3_examples.Common.Runs.{done}
use ldd3_examples.Common.Int.{ℤ, pos, negsuc}
use ldd3_examples.Common.Text.{
  Bytes, is_digit, is_space, skip_spaces, read_digits, negated, to_int, scan_digits, scan_signed,
  scan_int, digits, print_int, IsInt,
}

to_int-IsInt : (z : ℤ) → IsInt z → to_int z ≡ z
to_int-IsInt (pos n) h = ground arith
to_int-IsInt (negsuc n) h = ground arith

pub digits-head :
    (f n : ℕ) (out : Bytes)
    → n < f
    → (c : ℕ) × (cs : Bytes) × (digits f n out ≡ c ∷ cs) × (b'0' ≤ c) × (c ≤ b'9')
unfolding digits
digits-head zero n out h = absurd (omega arith)
digits-head (suc f) n out h = elim (Bool-cases (ltb n 10)) [
  | inl e ↦ rw (e, digits) (b'0' + n, out, refl, omega arith, ground arith)
  | inr e ↦ rw (e, digits) (digits-head f (n / 10) ((b'0' + n % 10) ∷ out) (ground arith))
]

module _ (E : Type 0) where
  -- Reading the digits of `n` is to have read `n`.
  pub read_digits-digits :
      (f n : ℕ) (out : Bytes) → n < f → read_digits {E = E} 0 (digits f n out) ≡ read_digits n out
  unfolding read_digits digits
  read_digits-digits zero n out h = absurd (omega arith)
  read_digits-digits (suc f) n out h =
      ground (arith, read_digits-digits f (n / 10) ((b'0' + n % 10) ∷ out))

  pub read_digits-stop :
      (n c : ℕ) (cs : Bytes)
      → is_digit c ≡ false
      → read_digits {E = E} n (c ∷ cs) ≡ done [] (n, c ∷ cs)
  unfolding read_digits
  read_digits-stop n c cs h = rw h

  -- The digits of `n` are read back, up to a byte that is no digit.
  scan_digits-digits :
      (sign : ℕ → ℤ) (f n c : ℕ) (out : Bytes)
      → n < f
      → is_digit c ≡ false
      → scan_digits {E = E} sign (digits f n (c ∷ out)) ≡ done [] (some (to_int (sign n), c ∷ out))
  scan_digits-digits sign f n c out h k =
      let (d, ds, e, lo, hi) = digits-head f n (c ∷ out) h in
      let digit : is_digit d ≡ true = ground arith in
      let all : read_digits {E = E} 0 (d ∷ ds) ≡ done [] (n, c ∷ out) =
        rw (← e, read_digits-digits f n (c ∷ out) h) (read_digits-stop n c out k) in
      rw e (unfold scan_digits in rw (digit, all) refl)

  skip_spaces-stop :
      (c : ℕ) (cs : Bytes) → is_space c ≡ false → skip_spaces {E = E} (c ∷ cs) ≡ done [] (c ∷ cs)
  unfolding skip_spaces
  skip_spaces-stop c cs h = rw h

  -- A printed int is read back, up to a byte that is no digit.
  pub scan_int-print_int :
      (z : ℤ) (c : ℕ) (out : Bytes)
      → IsInt z
      → is_digit c ≡ false
      → scan_int {E = E} (print_int z (c ∷ out)) ≡ done [] (some (z, c ∷ out))
  unfolding scan_int scan_signed
  scan_int-print_int (pos n) c out h k =
      let (d, ds, e, lo, hi) = digits-head (suc n) n (c ∷ out) (omega arith) in
      let no_space : is_space d ≡ false = ground arith in
      let no_sign : (d == b'-') ≡ false = ground arith in
      rw
        (
          e,
          skip_spaces-stop d ds no_space,
          no_sign,
          ← e,
          scan_digits-digits pos (suc n) n c out (omega arith) k,
          to_int-IsInt (pos n) h,
        )
        refl
  scan_int-print_int (negsuc n) c out h k =
      rw
        (
          skip_spaces-stop b'-' (digits (suc (suc n)) (suc n) (c ∷ out)) refl,
          scan_digits-digits negated (suc (suc n)) (suc n) c out (omega arith) k,
          to_int-IsInt (negsuc n) h,
        )
        refl

  -- The blank between two ints.
  pub skip_spaces-print_int :
      (z : ℤ) (c : ℕ) (out : Bytes)
      → skip_spaces {E = E} (b' ' ∷ print_int z (c ∷ out)) ≡ done [] (print_int z (c ∷ out))
  unfolding skip_spaces
  skip_spaces-print_int (pos n) c out =
      let (d, ds, e, lo, hi) = digits-head (suc n) n (c ∷ out) (omega arith) in
      rw e (skip_spaces-stop d ds (ground arith))
  skip_spaces-print_int (negsuc n) c out =
      skip_spaces-stop b'-' (digits (suc (suc n)) (suc n) (c ∷ out)) refl
