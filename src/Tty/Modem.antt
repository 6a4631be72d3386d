-- ===== src/Tty/Modem.antt =====
-- tiny_tiocmget and tiny_tiocmset of day_12/ex29.c.
use Prim.Native.Nat.{bit_and-bitwise, bit_or-bitwise}
use ldd3_examples.Common.{
  ℕ, Bool, true, false, ◌+◌, ◌-◌, ◌*◌, ◌/◌, ◌%◌, ◌≡◌, bit_and, bit_or, ◌||◌, ◌&&◌, refl, not, ◌==◌,
  if◌then◌else◌, arith,
}
use ldd3_examples.Tty.Defs.{TinySerial}

-- The modem lines of linux/termios.h.
pub record Tiocm : Type 0 where
  pub dtr : ℕ
  pub rts : ℕ
  pub loop : ℕ
  pub cts : ℕ
  pub car : ℕ
  pub ri : ℕ
  pub dsr : ℕ

-- `x & mask`, as a condition
abbrev pub test : (mask x : ℕ) → Bool
test mask x = not (bit_and mask x == 0)

-- `x & ~mask`: the bits of the mask are taken off.
abbrev pub and_not : (x mask : ℕ) → ℕ
and_not x mask = x - bit_and mask x

abbrev pub mcr_dtr : ℕ
mcr_dtr = 0x01

abbrev pub mcr_rts : ℕ
mcr_rts = 0x02

abbrev pub mcr_loop : ℕ
mcr_loop = 0x04

abbrev pub msr_cts : ℕ
msr_cts = 0x08

abbrev pub msr_cd : ℕ
msr_cd = 0x10

abbrev pub msr_ri : ℕ
msr_ri = 0x20

abbrev pub msr_dsr : ℕ
msr_dsr = 0x40

unfoldable pub tiny_tiocmget : Tiocm → TinySerial → ℕ
tiny_tiocmget k tiny =
    bit_or
      (bit_or
        (bit_or
          (bit_or
            (bit_or
              (bit_or (if test mcr_dtr tiny.mcr then k.dtr else 0)
                (if test mcr_rts tiny.mcr then k.rts else 0))
              (if test mcr_loop tiny.mcr then k.loop else 0))
            (if test msr_cts tiny.msr then k.cts else 0))
          (if test msr_cd tiny.msr then k.car else 0))
        (if test msr_ri tiny.msr then k.ri else 0))
      (if test msr_dsr tiny.msr then k.dsr else 0)

-- The four tests of tiny_tiocmset, which all change MCR_RTS.
unfoldable pub set_rts : Bool → ℕ → ℕ
set_rts true mcr = bit_or mcr_rts mcr
set_rts false mcr = mcr

unfoldable pub clear_rts : Bool → ℕ → ℕ
clear_rts true mcr = and_not mcr mcr_rts
clear_rts false mcr = mcr

unfoldable pub tiny_tiocmset : Tiocm → TinySerial → (set clear : ℕ) → TinySerial
tiny_tiocmset k tiny set clear =
    let mcr₁ = set_rts (test k.rts set) tiny.mcr in
    let mcr₂ = set_rts (test k.dtr set) mcr₁ in
    let mcr₃ = clear_rts (test k.rts clear) mcr₂ in
    let mcr₄ = clear_rts (test k.dtr clear) mcr₃ in record tiny { mcr = mcr₄ }

-- The second lowest bit of a number.
abbrev bit₁ : ℕ → ℕ
bit₁ x = x / 2 % 2

and_rts : (x : ℕ) → bit_and mcr_rts x ≡ 2 * bit₁ x
and_rts x = omega (arith, bit_and-bitwise 2 x)

or_rts : (x : ℕ) → bit_or mcr_rts x ≡ x + 2 - 2 * bit₁ x
or_rts x = omega (arith, bit_or-bitwise 2 x)

-- What one of the tests does to MCR_RTS, and to all other bits.
set_rts-test : (b : Bool) (x : ℕ) → test mcr_rts (set_rts b x) ≡ (b || test mcr_rts x)
unfolding set_rts
set_rts-test true x = ground (arith, or_rts x, and_rts (bit_or mcr_rts x))
set_rts-test false x = refl

set_rts-rest : (b : Bool) (x : ℕ) → and_not (set_rts b x) mcr_rts ≡ and_not x mcr_rts
unfolding set_rts
set_rts-rest true x = omega (arith, or_rts x, and_rts x, and_rts (bit_or mcr_rts x))
set_rts-rest false x = refl

clear_rts-test : (b : Bool) (x : ℕ) → test mcr_rts (clear_rts b x) ≡ (not b && test mcr_rts x)
unfolding clear_rts
clear_rts-test true x = ground (arith, and_rts x, and_rts (x - bit_and mcr_rts x))
clear_rts-test false x = refl

clear_rts-rest : (b : Bool) (x : ℕ) → and_not (clear_rts b x) mcr_rts ≡ and_not x mcr_rts
unfolding clear_rts
clear_rts-rest true x = omega (arith, and_rts x, and_rts (x - bit_and mcr_rts x))
clear_rts-rest false x = refl

-- tiocmset moves MCR_RTS alone: it is set for TIOCM_RTS and for TIOCM_DTR, a clear of either wins,
-- and every other bit of the register, MCR_DTR among them, stays.
pub tiny_tiocmset-rts :
    (k : Tiocm) (tiny : TinySerial) (set clear : ℕ)
    → (test mcr_rts (tiny_tiocmset k tiny set clear).mcr ≡ (
        not (test k.dtr clear)
        && (not (test k.rts clear)
            && (test k.dtr set || (test k.rts set || test mcr_rts tiny.mcr)))))
      × (and_not (tiny_tiocmset k tiny set clear).mcr mcr_rts ≡ and_not tiny.mcr mcr_rts)
unfolding tiny_tiocmset
tiny_tiocmset-rts k tiny set clear =
    (simp (clear_rts-test, set_rts-test), simp (clear_rts-rest, set_rts-rest))
