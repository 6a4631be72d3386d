-- ===== src/Common/Text/Print.antt =====
-- The bytes of a printed int, and the length of a string that begins with it.
use Prim.Native.Nat.{ℕ, zero, suc, ◌+◌, ◌/◌, ◌%◌, ◌≤◌, ◌<◌}
use mathlib.Core.Path.{sym, ◌∙◌, ◌≡◌, refl, ap}
use mathlib.Core.Logic.{inl, inr}
use mathlib.Core.Bool.{false}
use mathlib.Core.List.{append_assoc, [], ◌∷◌, ◌++◌}
use native.Mathlib.Omega.{arith}
use ldd3_examples.Common.Tests.{ltb, Bool-cases, ◌==◌}
use ldd3_examples.Common.Lists.{take, drop, take-drop, take-append, length}
use ldd3_examples.Common.Runs.{done}
use ldd3_examples.Common.Int.{ℤ, pos, negsuc}
use ldd3_examples.Common.Text.{c_string, Bytes, strlen, digits, print_int, IsInt, NonZero}

digits-NonZero : (f n : ℕ) (out : Bytes) → NonZero out → NonZero (digits f n out)
unfolding digits
digits-NonZero zero n out h = h
digits-NonZero (suc f) n out h = elim (Bool-cases (ltb n 10)) [
  | inl e ↦ rw (e, digits) (omega arith, h)
  | inr e ↦ rw (e, digits) (digits-NonZero f (n / 10) ((b'0' + n % 10) ∷ out) (omega arith, h))
]

pub print_int-NonZero : (z : ℤ) (out : Bytes) → NonZero out → NonZero (print_int z out)
print_int-NonZero (pos n) out h = digits-NonZero (suc n) n out h
print_int-NonZero (negsuc n) out h = (omega arith, digits-NonZero (suc (suc n)) (suc n) out h)

digits-append : (f n : ℕ) (out rest : Bytes) → digits f n out ++ rest ≡ digits f n (out ++ rest)
unfolding digits
digits-append zero n out rest = refl
digits-append (suc f) n out rest = elim (Bool-cases (ltb n 10)) [
  | inl e ↦ rw (e, digits) refl
  | inr e ↦ rw (e, digits) (digits-append f (n / 10) ((b'0' + n % 10) ∷ out) rest)
]

pub print_int-append :
    (z : ℤ) (out rest : Bytes) → print_int z out ++ rest ≡ print_int z (out ++ rest)
print_int-append (pos n) out rest = digits-append (suc n) n out rest
print_int-append (negsuc n) out rest = ap (◌∷◌ b'-') (digits-append (suc (suc n)) (suc n) out rest)

-- A string of bytes other than 0 is passed over.
pub strlen-append :
    {E : Type 0} (s rest : Bytes) (n : ℕ)
    → NonZero s
    → strlen {E = E} rest ≡ done [] n
    → strlen {E = E} (s ++ rest) ≡ done [] (length s + n)
unfolding strlen
strlen-append [] rest n h e = rw e (ap (done []) (omega arith))
strlen-append {E} (c ∷ cs) rest n (h, hs) e =
    let nonzero : (c == 0) ≡ false = ground arith in
    let sum : suc (length cs + n) ≡ suc (length cs) + n = omega arith in
    rw (nonzero, strlen-append {E = E} cs rest n hs e, sum) refl

-- A number of at most k + 1 digits.
abbrev Below : (k n : ℕ) → Type 0
Below zero n = n < 10
Below (suc k) n = Below k (n / 10)

length-digits : (k f n : ℕ) (out : Bytes) → Below k n → length (digits f n out) ≤ length out + suc k
unfolding digits
length-digits k zero n out h = omega arith
length-digits zero (suc f) n out h = ground arith
length-digits (suc k) (suc f) n out h = elim (Bool-cases (ltb n 10)) [
  | inl e ↦ rw (e, digits) (omega arith)
  | inr e ↦ rw (e, digits) (omega (arith, length-digits k f (n / 10) ((b'0' + n % 10) ∷ out) h))
]

-- An int takes at most eleven bytes.
pub length-print_int : (z : ℤ) (out : Bytes) → IsInt z → length (print_int z out) ≤ length out + 11
length-print_int (pos n) out h = omega (arith, length-digits 9 (suc n) n out (omega arith))
length-print_int (negsuc n) out h =
    omega (arith, length-digits 9 (suc (suc n)) (suc n) out (omega arith))

-- Bytes that begin with a string and its NUL are printed as that string.
pub c_string-prefix :
    {E : Type 0} (text xs : Bytes)
    → NonZero text
    → take (length text + 1) xs ≡ text ++ 0 ∷ []
    → c_string {E = E} xs ≡ done [] text
unfolding c_string
c_string-prefix {E} text xs h e = rw (size, front) refl
  where
    rest : Bytes
    rest = drop (length text + 1) xs

    whole : xs ≡ text ++ 0 ∷ rest
    whole =
        sym (take-drop (length text + 1) xs)
        ∙ ap (λ (ys : Bytes). ys ++ rest) e
        ∙ append_assoc text (0 ∷ []) rest

    none_left : length text + 0 ≡ length text
    none_left = omega arith

    size : strlen {E = E} xs ≡ done [] (length text)
    size =
        rw whole
          (rw none_left at (strlen-append {E = E} text (0 ∷ rest) 0 h (unfold strlen in refl)))

    front : take (length text) xs ≡ text
    front = rw whole (take-append text (0 ∷ rest))
