-- ===== src/Kernel/Semaphore.antt =====
-- A counting semaphore or a spinlock, with its documented behaviour.
use ldd3_examples.Common.{ℕ, suc, ◌≡◌, Option, some}

pub record Semaphore : Type 1 where
  pub State : Type 0
  pub init : ℕ → State
  -- `none` while the caller has to wait
  pub acquire : State → Option State
  pub release : State → State
  -- how many callers may still enter
  pub free : State → ℕ
  pub free-init : (n : ℕ) → free (init n) ≡ n
  pub free-acquire : (s t : State) → acquire s ≡ some t → free s ≡ suc (free t)
  -- a caller does not wait while there is a place
  pub acquire-free : (s : State) (n : ℕ) → free s ≡ suc n → (t : State) × (acquire s ≡ some t)
  pub free-release : (s : State) → free (release s) ≡ suc (free s)
