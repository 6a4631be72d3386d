-- ===== src/Kernel/Copied.antt =====
-- A copy from the user that leaves nothing, read back.
use ldd3_examples.Common.{
  ℕ, ◌-◌, ◌≤◌, ◌≡◌, sym, ap, ◌∙◌, List, length, take, drop, ◌++◌, take-drop, take-take, arith,
}
use ldd3_examples.Kernel.Uaccess.{Uaccess}

-- A prefix of the copied bytes is a prefix of the source.
pub prefix-copied :
    (u : Uaccess) (b user : List ℕ) (n m : ℕ)
    → n ≤ length b
    → (u.copy_from_user b user n).1 ≡ 0
    → m ≤ n
    → take m (u.copy_from_user b user n).0 ≡ take m user
prefix-copied u b user n m h full le =
    sym (take-take m n _ le) ∙ ap (take m) copied ∙ take-take m n user le
  where
    zero_left : n - (u.copy_from_user b user n).1 ≡ n
    zero_left = omega arith

    copied : take n (u.copy_from_user b user n).0 ≡ take n user
    copied = rw zero_left at (u.from_copied b user n h)

-- A prefix of what a complete copy gives the user.
pub prefix-shown :
    (u : Uaccess) (user b : List ℕ) (n m : ℕ)
    → n ≤ length b
    → (u.copy_to_user user b n).1 ≡ 0
    → m ≤ n
    → take m (u.copy_to_user user b n).0 ≡ take m b
prefix-shown u user b n m h full le =
    sym (take-take m n _ le) ∙ ap (take m) copied ∙ take-take m n b le
  where
    zero_left : n - (u.copy_to_user user b n).1 ≡ n
    zero_left = omega arith

    copied : take n (u.copy_to_user user b n).0 ≡ take n b
    copied = rw zero_left at (u.to_copied user b n h)

-- Copies that stay within both objects are complete, and leave the user's object its size.
pub record IsComplete (u : Uaccess) : Type 0 where
  pub to_all :
      (to from : List ℕ) (n : ℕ)
      → n ≤ length to
      → n ≤ length from
      → (u.copy_to_user to from n).1 ≡ 0
  pub to_length :
      (to from : List ℕ) (n : ℕ)
      → n ≤ length to
      → n ≤ length from
      → length (u.copy_to_user to from n).0 ≡ length to
  pub from_all :
      (to from : List ℕ) (n : ℕ)
      → n ≤ length to
      → n ≤ length from
      → (u.copy_from_user to from n).1 ≡ 0

-- A complete copy from the user gives the source's bytes, and the old ones after them.
pub complete-copied :
    (u : Uaccess) (b user : List ℕ) (n : ℕ)
    → n ≤ length b
    → (u.copy_from_user b user n).1 ≡ 0
    → (u.copy_from_user b user n).0 ≡ take n user ++ drop n b
complete-copied u b user n h full =
    let same = prefix-copied u b user n n h full (omega arith) in
    rw (← same, ← u.from_rest b user n h) (sym (take-drop n _))
