-- ===== src/Chardev/Seek/Position.antt =====
-- What llseek of day_05/ex14.c returns.
use ldd3_examples.Common.{◌≡◌, ◌↔◌, refl, ℕ, arith, if◌then◌else◌}
use ldd3_examples.Common.Int.{ℤ, pos, ltb_ℤ, ◌≤ℤ◌}
use ldd3_examples.Chardev.Defs.{buffer_len}
use ldd3_examples.Chardev.Seek.{seek, seek_target, seek_cap}

-- The position that the tests of the source aim at: the target, kept within the buffer.
abbrev pub clamped : ℤ → ℤ
clamped p =
    if ltb_ℤ (pos buffer_len) p then pos buffer_len else if ltb_ℤ p (pos 0) then pos 0 else p

clamped_end :
    (p : ℤ)
    → (pos buffer_len ≡ clamped p → pos buffer_len ≤ℤ p)
      × (pos buffer_len ≤ℤ p → pos buffer_len ≡ clamped p)
clamped_end p = (λ e. ground arith, λ h. ground arith)

-- Whatever is asked, the new position is the buffer's end; and the position that the tests aim at is
-- reached exactly when the target lies at the end or past it.
pub seek-end :
    (uninit off f_pos : ℤ) (whence : ℕ)
    → (seek uninit off f_pos whence ≡ pos buffer_len)
      × ((seek uninit off f_pos whence ≡ clamped (seek_target uninit off f_pos whence))
          ↔ (pos buffer_len ≤ℤ seek_target uninit off f_pos whence))
unfolding seek seek_cap
seek-end uninit off f_pos whence = (refl, clamped_end (seek_target uninit off f_pos whence))
