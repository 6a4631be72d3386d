-- ===== src/Kernel/Uaccess.antt =====
-- copy_to_user and copy_from_user (asm/uaccess.h).
use ldd3_examples.Common.{ℕ, ◌-◌, ◌≤◌, ◌≡◌, List, length, take, drop}

-- A copy takes the bytes at the destination, those at the source and the number of bytes to copy.
-- It returns the destination's new bytes and the number of bytes that could not be copied.
pub record Uaccess : Type 0 where
  pub copy_to_user : List ℕ → List ℕ → ℕ → List ℕ × ℕ
  pub copy_from_user : List ℕ → List ℕ → ℕ → List ℕ × ℕ
  pub to_left : (to from : List ℕ) (n : ℕ) → (copy_to_user to from n).1 ≤ n
  pub to_copied :
      (to from : List ℕ) (n : ℕ)
      → n ≤ length from
      → take (n - (copy_to_user to from n).1) (copy_to_user to from n).0
        ≡ take (n - (copy_to_user to from n).1) from
  pub from_left : (to from : List ℕ) (n : ℕ) → (copy_from_user to from n).1 ≤ n
  pub from_copied :
      (to from : List ℕ) (n : ℕ)
      → n ≤ length to
      → take (n - (copy_from_user to from n).1) (copy_from_user to from n).0
        ≡ take (n - (copy_from_user to from n).1) from
  -- The bytes past the first `n` are not touched.
  pub from_rest :
      (to from : List ℕ) (n : ℕ) → n ≤ length to → drop n (copy_from_user to from n).0 ≡ drop n to
  pub from_length :
      (to from : List ℕ) (n : ℕ) → n ≤ length to → length (copy_from_user to from n).0 ≡ length to
