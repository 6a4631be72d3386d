-- ===== src/Bus/Match.antt =====
-- The match of devices and drivers in day_10/ex24.c.
use ldd3_examples.Common.{not, true, ◌≡◌, refl, ◌↔◌, ◌++◌, arith}
use ldd3_examples.Common.Int.{ℤ, pos, nonzero}
use ldd3_examples.Common.Text.{Bytes, NonZero}
use ldd3_examples.Common.Text.Compare.{strncmp_prefix, prefix-strncmp}
use ldd3_examples.Bus.{ldd_match}

is_zero : (z : ℤ) → not (nonzero z) ≡ true → z ≡ pos 0
is_zero z e = ground arith

-- A driver, whose name is a C string, matches a device exactly if its name is a prefix of the
-- device's.
pub ldd_match_iff :
    (dev_name driver_name : Bytes)
    → NonZero driver_name
    → (ldd_match dev_name driver_name ≡ true) ↔ ((rest : Bytes) × (dev_name ≡ driver_name ++ rest))
unfolding ldd_match
ldd_match_iff dev_name driver_name h = (
  λ e. strncmp_prefix dev_name driver_name h (is_zero _ e),
  λ (rest, e). rw (e, prefix-strncmp driver_name rest) refl,
)
