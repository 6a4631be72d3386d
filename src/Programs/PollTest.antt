-- ===== src/Programs/PollTest.antt =====
-- day_05/polltest.c: wait for data and print it, for ever. What other processes do while it waits stands
-- in a list of rounds.
pub mod Prints
use ldd3_examples.Common.{
  ℕ, Bool, true, false, List, [], ◌∷◌, ◌++◌, Option, none, some, length, ◌==◌, bit_and,
  if◌then◌else◌, Run, ◌>>=◌, pure,
}
use ldd3_examples.Common.Text.{Bytes, c_string}
use ldd3_examples.Kernel.FileOps.{FileOps}

pub data Output : Type 0 where
  failure_in_poll timed_out pollin_not_set : Output
  poll_returns : (rc revents : ℕ) → Output
  reading : (rc : ℕ) → Bytes → Output

-- poll is interrupted, runs out of time, or another process writes to the device.
pub data Round : Type 0 where
  interrupted quiet : Round
  writes : Bytes → Round

-- The output and how the program ended, if it did: with an exit status.
pub record Progress (S : Type 0) : Type 0 where
  pub state : S
  pub output : List Output
  pub status : Option ℕ

abbrev after_output : {S : Type 0} → List Output → Progress S → Progress S
after_output out p = record p { output = out ++ p.output }

-- `pollin` is POLLIN, and `default_mask` what the kernel takes of a driver without poll.
module _ {E S : Type 0} (ops : FileOps E S ℕ) (pollin default_mask : ℕ) where
  abbrev mask_of : S → Run E ℕ
  mask_of s = elim ops.on_poll [ none ↦ pure default_mask | some poll ↦ poll s ]

  -- The body of the loop once poll has returned 1 with `revents`: the state, the buffer and the output.
  unfoldable pub ready : (revents : ℕ) → S → (buffer : Bytes) → Run E (S × Bytes × List Output)
  ready revents s buffer =
      if bit_and revents pollin == 0
      then pure (s, buffer, poll_returns 1 revents ∷ pollin_not_set ∷ [])
      else (ops.on_read s buffer 32 >>= λ (s', buffer', rc). c_string buffer' >>= λ shown.
          pure (s', buffer', poll_returns 1 revents ∷ reading rc shown ∷ []))

  -- poll tells of the events that were asked for, POLLIN; with none of them it waits until it times out.
  unfoldable pub polled : S → (buffer : Bytes) → Run E (S × Bytes × List Output)
  unfolding ready
  polled s buffer = do
    mask ← mask_of s
    if bit_and mask pollin == 0
        then pure (s, buffer, timed_out ∷ [])
        else ready (bit_and mask pollin) s buffer

  abbrev written : Round → S → Run E S
  written (writes m) s = ops.on_write s m (length m) >>= λ (s', n). pure s'
  written _ s = pure s

  unfoldable pub rounds : List Round → S → (buffer : Bytes) → Run E (Progress S)
  rounds [] s buffer = pure (record { state = s; output = []; status = none })
  rounds (interrupted ∷ rs) s buffer =
      pure (record { state = s; output = failure_in_poll ∷ []; status = some 1 })
  rounds (r ∷ rs) s buffer = do
    s₁ ← written r s
    (s₂, buffer', out) ← polled s₁ buffer
    rest ← rounds rs s₂ buffer'
    pure (after_output out rest)

  -- The result of open is not looked at.
  unfoldable pub main : List Round → S → (buffer : Bytes) → Run E (Progress S)
  unfolding rounds
  main rs s buffer = do (s', r) ← ops.on_open s; rounds rs s' buffer
