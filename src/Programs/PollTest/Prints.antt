-- ===== src/Programs/PollTest/Prints.antt =====
-- What day_05/polltest.c prints on the driver of ex13.c.
use Prim.Native.Nat.{bit_and-bitwise}
use ldd3_examples.Common.{
  ℕ, ◌+◌, ◌≤◌, ◌<◌, ◌≡◌, refl, ap, ◌∙◌, true, false, List, [], ◌∷◌, ◌++◌, Option, none, some,
  bit_and, bit_or, length, length-append, take_all, map, Run, done, fault, prepend, ◌>>=◌, pure,
  arith, ◌==◌,
}
use ldd3_examples.Common.Text.{Bytes, c_string, NonZero}
use ldd3_examples.Common.Text.Print.{c_string-prefix}
use ldd3_examples.Kernel.Uaccess.{Uaccess}
use ldd3_examples.Kernel.Copied.{IsComplete, prefix-copied, prefix-shown}
use ldd3_examples.Chardev.Defs.{
  assign_condition, copy_from_user, copy_to_user, down, up, wait_event_interruptible,
  wake_up_interruptible, poll_wait, Call, Waiting, clamp,
}
use ldd3_examples.Chardev.Copy.{copy_out-done, copy_in-done}
use ldd3_examples.Chardev.Poll
use ldd3_examples.Chardev.Poll.{sample_char_drv_fops, poll}
use ldd3_examples.Programs.PollTest.{
  Output, timed_out, poll_returns, reading, Round, quiet, writes, Progress, after_output, ready,
  polled, rounds, main,
}

-- The masks of asm/poll.h.
pub record PollBits : Type 0 where
  pub pollin : ℕ
  pub pollrdnorm : ℕ
  pub pollin_set : bit_and (bit_or pollin pollrdnorm) pollin ≡ pollin
  pub pollin_twice : bit_and pollin pollin ≡ pollin
  pub pollin_some : (pollin == 0) ≡ false

-- A round in which nothing, or a text with its NUL, is written.
abbrev pub round_of : Option Bytes → Round
round_of none = quiet
round_of (some text) = writes (text ++ 0 ∷ [])

abbrev pub AllShort : List (Option Bytes) → Type 0
AllShort [] = Unit {0}
AllShort (none ∷ ts) = AllShort ts
AllShort (some text ∷ ts) = NonZero text × (length text < 32) × AllShort ts

-- Each text is printed once, and where there is none the program prints that it timed out.
abbrev pub expected : (pollin : ℕ) → List (Option Bytes) → List Output
expected p [] = []
expected p (none ∷ ts) = timed_out ∷ expected p ts
expected p (some text ∷ ts) = poll_returns 1 p ∷ reading 32 text ∷ expected p ts

abbrev pub Shows : List Output → Run Call (Progress Waiting) → Type 0
Shows out (done t p) = (p.output ≡ out) × (p.status ≡ none)
Shows out fault = ⊥

Shows-calls :
    (out : List Output) (t : List Call) (m : Run Call (Progress Waiting))
    → Shows out m
    → Shows out (prepend t m)
Shows-calls out t (done t' p) v = v
Shows-calls out t fault v = v

Shows-after :
    (more out : List Output) (m : Run Call (Progress Waiting))
    → Shows out m
    → Shows (more ++ out) (m >>= λ p. pure (after_output more p))
Shows-after more out (done t' p) (e, n) = (ap (λ (o : List Output). more ++ o) e, n)
Shows-after more out fault v = v

module _ (u : Uaccess) (all : IsComplete u) (k : PollBits) (default_mask : ℕ) where
  rounds-Shows :
      (ts : List (Option Bytes)) (b buffer : Bytes)
      → AllShort ts
      → 32 ≤ length b
      → 32 ≤ length buffer
      → Shows (expected k.pollin ts) (
          rounds
            (sample_char_drv_fops u k.pollin k.pollrdnorm)
            k.pollin
            default_mask
            (map round_of ts)
            (record { buffer = some b; condition = 0 })
            buffer)
  unfolding rounds polled ready poll Poll.read Poll.write clamp
  rounds-Shows [] b buffer short room room' = (refl, refl)
  rounds-Shows (none ∷ ts) b buffer short room room' = rw no_event (
      Shows-calls _ [] _ (
        Shows-calls _ (poll_wait ∷ []) _ (
          Shows-after (timed_out ∷ []) (expected k.pollin ts) _
            (rounds-Shows ts b buffer short room room'))))
    where
      no_event : (bit_and 0 k.pollin == 0) ≡ true
      no_event = ground (arith, bit_and-bitwise 0 k.pollin)
  rounds-Shows (some text ∷ ts) b buffer (nz, small, short) room room' =
      rw
        (
          whole,
          copy_in-done u b message n fits,
          k.pollin_set,
          k.pollin_twice,
          k.pollin_some,
          copy_out-done u (some b') buffer 32 room_after,
          shown,
          all.to_all buffer b' 32 room' room_after,
        )
        (Shows-calls _ write_calls _ (
          Shows-calls _ read_calls _ (
            Shows-after (poll_returns 1 k.pollin ∷ reading 32 text ∷ []) (expected k.pollin ts) _ (
              rounds-Shows ts b' got short room_after
                (omega (arith, all.to_length buffer b' 32 room' room_after))))))
    where
      message : Bytes
      message = text ++ 0 ∷ []

      n : ℕ
      n = length message

      length_n : n ≡ length text + 1
      length_n = length-append text (0 ∷ [])

      fits : n ≤ length b
      fits = omega (arith, length_n)

      whole : clamp n ≡ n
      whole = ground (arith, length_n)

      b' : Bytes
      b' = (u.copy_from_user b message n).0

      room_after : 32 ≤ length b'
      room_after = omega (arith, u.from_length b message n fits)

      got : Bytes
      got = (u.copy_to_user buffer b' 32).0

      write_calls : List Call
      write_calls = down ∷ copy_from_user n ∷ up ∷ assign_condition 1 ∷ wake_up_interruptible ∷ []

      read_calls : List Call
      read_calls = poll_wait ∷ wait_event_interruptible ∷ copy_to_user 32 ∷ assign_condition 0 ∷ []

      shown : c_string {E = Call} got ≡ done [] text
      shown = c_string-prefix text _ nz (
          rw (← length_n) (
            prefix-shown u buffer b' 32 n room_after (all.to_all buffer b' 32 room' room_after)
              (omega (arith, length_n))
            ∙ prefix-copied u b message n n fits (all.from_all b message n fits (omega arith))
                (omega arith)
            ∙ take_all message))

-- With a buffer of at least 32 bytes, nothing to read at first, and copies that are complete within both
-- objects, whatever texts of less than 32 bytes other processes write with their NUL, one before each
-- return of poll or none: on the driver of ex13.c day_05/polltest.c goes on for all the rounds and never
-- faults, prints every text once and in order, and that poll timed out where nothing was written.
pub main-Shows :
    (u : Uaccess) (k : PollBits) (default_mask : ℕ) (ts : List (Option Bytes)) (b buffer : Bytes)
    → IsComplete u
    → AllShort ts
    → 32 ≤ length b
    → 32 ≤ length buffer
    → Shows (expected k.pollin ts) (
        main
          (sample_char_drv_fops u k.pollin k.pollrdnorm)
          k.pollin
          default_mask
          (map round_of ts)
          (record { buffer = some b; condition = 0 })
          buffer)
unfolding main Poll.char_drv_open
main-Shows u k default_mask ts b buffer all short room room' =
    Shows-calls _ [] _ (rounds-Shows u all k default_mask ts b buffer short room room')
