-- ===== src/Tty/Termios.antt =====
-- tiny_set_termios of day_12/ex29.c, which changes nothing and logs what it is asked for.
pub mod Unseen
use ldd3_examples.Common.{
  ℕ, Bool, true, false, bit_and, bit_or, ◌||◌, ◌&&◌, Option, none, some, ◌==◌, if◌then◌else◌, Run,
  ◌>>=◌, ◌>>◌, pure, emit, when,
}
use ldd3_examples.Tty.Modem.{test}

-- The flags of linux/termios.h.
pub record TermBits : Type 0 where
  pub csize : ℕ
  pub cs5 : ℕ
  pub cs6 : ℕ
  pub cs7 : ℕ
  pub parenb : ℕ
  pub parodd : ℕ
  pub cstopb : ℕ
  pub crtscts : ℕ
  pub ignbrk : ℕ
  pub brkint : ℕ
  pub ignpar : ℕ
  pub parmrk : ℕ
  pub inpck : ℕ
  pub ixon : ℕ
  pub ixoff : ℕ

-- What is read of struct ktermios.
pub record Termios : Type 0 where
  pub c_cflag : ℕ
  pub c_iflag : ℕ
  pub start_char : ℕ
  pub stop_char : ℕ

pub data Parity : Type 0 where
  parity_odd parity_even parity_none : Parity

pub data Log : Type 0 where
  nothing_to_change : Log
  data_bits : ℕ → Log
  parity : Parity → Log
  stop_bits : ℕ → Log
  rts_cts : (enabled : Bool) → Log
  -- with the two characters, where it is enabled
  inbound outbound : Option (ℕ × ℕ) → Log
  baud_rate : ℕ → Log

unfoldable pub relevant_iflag : TermBits → ℕ → ℕ
relevant_iflag k iflag =
    bit_and iflag (bit_or (bit_or (bit_or (bit_or k.ignbrk k.brkint) k.ignpar) k.parmrk) k.inpck)

abbrev pub bits_of : TermBits → (cflag : ℕ) → ℕ
bits_of k cflag =
    let size = bit_and cflag k.csize in
    if size == k.cs5 then 5 else if size == k.cs6 then 6 else if size == k.cs7 then 7 else 8

abbrev pub parity_of : TermBits → (cflag : ℕ) → Parity
parity_of k cflag =
    if test k.parenb cflag
    then (if test k.parodd cflag then parity_odd else parity_even)
    else parity_none

-- After the test of the old settings.
unfoldable pub report : TermBits → (baud : ℕ) → Termios → Run Log (Unit {0})
report k baud t = do
  emit (data_bits (bits_of k t.c_cflag))
  emit (parity (parity_of k t.c_cflag))
  emit (stop_bits (if test k.cstopb t.c_cflag then 2 else 1))
  emit (rts_cts (test k.crtscts t.c_cflag))
  let chars : Option (ℕ × ℕ) = some (t.start_char, t.stop_char)
  when (test k.ixoff t.c_iflag || test k.ixon t.c_iflag) (do
    emit (inbound (if test k.ixoff t.c_iflag then chars else none))
    emit (outbound (if test k.ixon t.c_iflag then chars else none)))
  emit (baud_rate baud)

unfoldable pub tiny_set_termios :
    TermBits → (baud : ℕ) → Termios → (old : Option Termios) → Run Log (Unit {0})
tiny_set_termios k baud t none = report k baud t
tiny_set_termios k baud t (some old) =
    if (t.c_cflag == old.c_cflag) && (relevant_iflag k t.c_iflag == relevant_iflag k old.c_iflag)
    then emit nothing_to_change
    else report k baud t
