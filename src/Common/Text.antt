-- ===== src/Common/Text.antt =====
-- C strings in a buffer, and the conversions of decimal integers: strlen, `%d` of sprintf and of
-- sscanf. A string that is not ended within the buffer is read past it, which is a fault.
pub mod Scan
pub mod Print
pub mod Compare
use Prim.Native.Nat.{ℕ, zero, suc, ◌+◌, ◌-◌, ◌*◌, ◌/◌, ◌%◌, ◌^◌, ◌≤◌, ◌<◌}
use Prim.Native.Char.{code}
use Prim.Native.String.{String}
use mathlib.Core.Path.{◌≡◌, refl, ap}
use mathlib.Core.Logic.{inl, inr}
use mathlib.Core.Bool.{Bool, true, false, ◌&&◌, ◌||◌}
use mathlib.Core.Option.{Option, none, some}
use mathlib.Core.List.{List, [], ◌∷◌, ◌++◌}
use native.Mathlib.Omega.{arith}
use ldd3_examples.Common.Tests.{ltb, leb, Bool-cases, ◌==◌, if◌then◌else◌}
use ldd3_examples.Common.Lists.{length, take}
use ldd3_examples.Common.Runs.{Run, done, fault, pure, ◌>>=◌}
use ldd3_examples.Common.Int.{ℤ, pos, negsuc, sub_ℕ}

abbrev pub Bytes : Type 0
Bytes = List ℕ

abbrev pub is_digit : ℕ → Bool
is_digit c = leb b'0' c && leb c b'9'

-- isspace
abbrev pub is_space : ℕ → Bool
is_space c = c == 32 || (leb 9 c && leb c 13)

-- The number of bytes before the NUL.
unfoldable pub strlen : {E : Type 0} → Bytes → Run E ℕ
strlen [] = fault
strlen (c ∷ cs) = let rest = strlen cs >>= λ n. pure (suc n) in if c == 0 then pure 0 else rest

-- The bytes before the NUL, as `%s` prints them.
unfoldable pub c_string : {E : Type 0} → Bytes → Run E Bytes
unfolding strlen
c_string s = do n ← strlen s; pure (take n s)

unfoldable pub skip_spaces : {E : Type 0} → Bytes → Run E Bytes
skip_spaces [] = fault
skip_spaces (c ∷ cs) = let rest = skip_spaces cs in if is_space c then rest else pure (c ∷ cs)

-- The number that the digits spell, and what follows them.
unfoldable pub read_digits : {E : Type 0} → ℕ → Bytes → Run E (ℕ × Bytes)
read_digits n [] = fault
read_digits n (c ∷ cs) =
    let rest = read_digits (n * 10 + (c - b'0')) cs in if is_digit c then rest else pure (n, c ∷ cs)

abbrev pub negated : ℕ → ℤ
negated zero = pos zero
negated (suc n) = negsuc n

-- The int with the lowest 32 bits of an integer.
abbrev pub word : ℕ → ℤ
word w = if ltb w (2 ^ 31) then pos w else negsuc (2 ^ 32 - w - 1)

abbrev pub to_int : ℤ → ℤ
to_int (pos n) = word (n % 2 ^ 32)
to_int (negsuc n) = word (2 ^ 32 - 1 - n % 2 ^ 32)

-- The digits after an optional sign; none if there is no digit.
unfoldable pub scan_digits : {E : Type 0} → (ℕ → ℤ) → Bytes → Run E (Option (ℤ × Bytes))
scan_digits sign [] = fault
scan_digits sign (c ∷ cs) =
    if is_digit c
    then (read_digits 0 (c ∷ cs) >>= λ (n, rest). pure (some (to_int (sign n), rest)))
    else pure none

unfoldable pub scan_signed : {E : Type 0} → Bytes → Run E (Option (ℤ × Bytes))
scan_signed [] = fault
scan_signed (c ∷ cs) = if c == b'-' then scan_digits negated cs else scan_digits pos (c ∷ cs)

-- One `%d`: the int and what follows it, or none.
unfoldable pub scan_int : {E : Type 0} → Bytes → Run E (Option (ℤ × Bytes))
scan_int s = skip_spaces s >>= scan_signed

-- The decimal digits of `n` in front of `out`, on fuel above `n`.
unfoldable pub digits : (fuel n : ℕ) → Bytes → Bytes
digits zero n out = out
digits (suc f) n out = elim (ltb n 10) [
  | true ↦ (b'0' + n) ∷ out
  | false ↦ digits f (n / 10) ((b'0' + n % 10) ∷ out)
]

-- `%d` in front of `out`
abbrev pub print_int : ℤ → Bytes → Bytes
print_int (pos n) out = digits (suc n) n out
print_int (negsuc n) out = b'-' ∷ digits (suc (suc n)) (suc n) out

-- An int of 32 bits.
abbrev pub IsInt : ℤ → Type 0
IsInt (pos n) = n < 2 ^ 31
IsInt (negsuc n) = n < 2 ^ 31

-- The bytes of a literal.
abbrev pub codes : String → Bytes
codes String.[] = []
codes (String.◌∷◌ c s) = code c ∷ codes s

abbrev pub NonZero : Bytes → Type 0
NonZero [] = Unit {0}
NonZero (c ∷ cs) = (0 < c) × NonZero cs

-- strncmp of strings that are given without their NUL: 0, or the difference of the first two bytes
-- that differ.
unfoldable pub strncmp : Bytes → Bytes → ℕ → ℤ
strncmp a b zero = pos 0
strncmp [] [] (suc n) = pos 0
strncmp [] (d ∷ ds) (suc n) = sub_ℕ 0 d
strncmp (c ∷ cs) [] (suc n) = sub_ℕ c 0
strncmp (c ∷ cs) (d ∷ ds) (suc n) = let rest = strncmp cs ds n in if c == d then rest else sub_ℕ c d
