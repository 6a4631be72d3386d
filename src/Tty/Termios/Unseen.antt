-- ===== src/Tty/Termios/Unseen.antt =====
-- What tiny_set_termios takes for no change.
use ldd3_examples.Common.{ℕ, ◌≡◌, ◌↔◌, [], ◌∷◌, some, done, arith}
use ldd3_examples.Tty.Termios.{
  TermBits, Termios, nothing_to_change, relevant_iflag, report, tiny_set_termios,
}

-- Given old settings, tiny_set_termios logs that there is nothing to change exactly where c_cflag and
-- the five flags of c_iflag that it looks at are the old ones.
pub tiny_set_termios_iff :
    (k : TermBits) (baud : ℕ) (t old : Termios)
    → (tiny_set_termios k baud t (some old) ≡ done (nothing_to_change ∷ []) tt)
      ↔ ((t.c_cflag ≡ old.c_cflag) × (relevant_iflag k t.c_iflag ≡ relevant_iflag k old.c_iflag))
unfolding tiny_set_termios report
tiny_set_termios_iff k baud t old = (λ e. ground arith, λ (a, b). ground arith)
