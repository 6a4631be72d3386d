-- ===== src/Common/Text/Compare.antt =====
-- What strncmp says of a prefix.
use mathlib.Core.Path.{◌≡◌, refl}
use mathlib.Core.Logic.{inl, inr}
use mathlib.Core.List.{[], ◌∷◌, ◌++◌}
use native.Mathlib.Omega.{arith}
use ldd3_examples.Common.Tests.{Bool-cases, ◌==◌}
use ldd3_examples.Common.Lists.{length}
use ldd3_examples.Common.Int.{pos}
use ldd3_examples.Common.Text.{Bytes, NonZero, strncmp}

-- It is 0 on the length of the second string exactly if that is a prefix of the first.
pub strncmp_prefix :
    (a b : Bytes) → NonZero b → strncmp a b (length b) ≡ pos 0 → (rest : Bytes) × (a ≡ b ++ rest)
unfolding strncmp
strncmp_prefix a [] h e = (a, refl)
strncmp_prefix [] (d ∷ ds) h e = ground arith
strncmp_prefix (c ∷ cs) (d ∷ ds) (h, hs) e = elim (Bool-cases (c == d)) [
  | inl p ↦ let (rest, q) = strncmp_prefix cs ds hs (ground arith) in (rest, ground (arith, q))
  | inr p ↦ ground arith
]

pub prefix-strncmp : (b rest : Bytes) → strncmp (b ++ rest) b (length b) ≡ pos 0
unfolding strncmp
prefix-strncmp [] rest = refl
prefix-strncmp (d ∷ ds) rest = ground (arith, prefix-strncmp ds rest)
