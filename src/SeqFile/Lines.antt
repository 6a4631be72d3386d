-- ===== src/SeqFile/Lines.antt =====
-- What day_03/ex6.c shows each time that its sequence is started at position 0.
use ldd3_examples.Common.{
  ℕ, zero, suc, true, false, ◌+◌, ◌%◌, ◌^◌, ◌<◌, ◌≡◌, refl, ◌∙◌, [], ◌∷◌, ◌==◌, if◌then◌else◌, Run,
  done, fault, ◌>>=◌, pure, arith,
}
use ldd3_examples.Common.Int.{ℤ, pos, negsuc}
use ldd3_examples.Common.Text.{Bytes, read_digits, negated, digits, print_int}
use ldd3_examples.Common.Text.Scan.{digits-head, read_digits-digits, read_digits-stop}
use ldd3_examples.SeqFile.{
  State, Call, long, my_seq_ops, my_seq_start, my_seq_next, my_seq_stop, my_seq_show,
}

-- The number that a text begins with, and the rest.
unfoldable pub read_number : Bytes → Run Call (ℤ × Bytes)
read_number [] = fault
read_number (c ∷ cs) =
    if c == b'-'
    then (read_digits 0 cs >>= λ (n, rest). pure (negated n, rest))
    else (read_digits 0 (c ∷ cs) >>= λ (n, rest). pure (pos n, rest))

digits-read :
    (f n : ℕ) → n < f → read_digits {E = Call} 0 (digits f n (10 ∷ [])) ≡ done [] (n, 10 ∷ [])
digits-read f n h = read_digits-digits Call f n (10 ∷ []) h ∙ read_digits-stop Call n 10 [] refl

read_number-print_int : (z : ℤ) → read_number (print_int z (10 ∷ [])) ≡ done [] (z, 10 ∷ [])
unfolding read_number
read_number-print_int (pos n) =
    let (c, cs, e, lo, hi) = digits-head (suc n) n (10 ∷ []) (omega arith) in
    let no_sign : (c == b'-') ≡ false = ground arith in
    rw (e, no_sign, ← e, digits-read (suc n) n (omega arith)) refl
read_number-print_int (negsuc n) = rw (digits-read (suc (suc n)) (suc n) (omega arith)) refl

-- The state after the sequence has been started at position 0, shown and moved on so many times.
unfoldable pub moved_on : ℕ → State → State
moved_on zero s = s
moved_on (suc n) s =
    let (_, started) = my_seq_ops.on_start (record s { index = 0 }) in
    let (_, next) = my_seq_ops.on_next started in moved_on n (my_seq_ops.on_stop next)

moved_on-counter :
    (n c i : ℕ)
    → c < 2 ^ 64
    → (moved_on n (record { counter = c; index = i })).counter ≡ (c + n) % 2 ^ 64
unfolding moved_on my_seq_start my_seq_next my_seq_stop
moved_on-counter zero c i h = omega arith
moved_on-counter (suc n) c i h =
    moved_on-counter n ((c + 1) % 2 ^ 64) (0 + 1) (omega arith) ∙ omega arith

-- Started at position 0, the sequence has one element: it shows `z` and a newline, the sequence then ends,
-- and started at the position that it has moved to it has none.
abbrev pub ShowsOne : (z : ℤ) → State → Type 0
ShowsOne z s =
    let (present, started) = my_seq_ops.on_start (record s { index = 0 }) in
    let (further, next) = my_seq_ops.on_next started in
    (present ≡ true)
    × (read_number (my_seq_ops.on_show started) ≡ done [] (z, 10 ∷ []))
    × (further ≡ false)
    × ((my_seq_ops.on_start (my_seq_ops.on_stop next)).0 ≡ false)

-- However often the sequence has been started at position 0, shown and moved on, from any counter below
-- 2 ^ 64: started at position 0 again it has one element, which shows, in decimal and with a newline, the
-- counter at the beginning and the number of times, modulo 2 ^ 64 and as a signed number; the sequence
-- then ends, and started at the position that it has moved to it has no element.
pub my_seq_show-moved_on :
    (n c i : ℕ)
    → c < 2 ^ 64
    → ShowsOne (long ((c + n) % 2 ^ 64)) (moved_on n (record { counter = c; index = i }))
unfolding my_seq_start my_seq_next my_seq_stop my_seq_show
my_seq_show-moved_on n c i h = (
  refl,
  rw (moved_on-counter n c i h) (read_number-print_int (long ((c + n) % 2 ^ 64))),
  refl,
  refl,
)
