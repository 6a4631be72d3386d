-- ===== src/Chardev/Seqlock/Retry.antt =====
-- The retry loop of the read of day_04/ex10.c.
use ldd3_examples.Common.{
  ℕ, zero, suc, ◌≤◌, ◌≡◌, refl, true, false, List, [], ◌∷◌, ◌++◌, none, some, length, replicate,
  done,
}
use ldd3_examples.Kernel.Uaccess.{Uaccess}
use ldd3_examples.Chardev.Defs.{
  Call, Buffer, bytes, clamp, sub64, copy_to_user, read_seqbegin, read_seqretry,
}
use ldd3_examples.Chardev.Seqlock.{read}
use ldd3_examples.Chardev.Copy.{copy_out-done}

-- The calls of `k` rounds.
abbrev pub rounds : ℕ → ℕ → List Call
rounds zero n = []
rounds (suc k) n = read_seqbegin ∷ copy_to_user n ∷ read_seqretry ∷ rounds k n

-- The user's bytes after `k` copies of the same buffer.
abbrev pub copied : Uaccess → ℕ → Buffer → List ℕ → ℕ → List ℕ
copied u zero buffer user n = user
copied u (suc k) buffer user n = copied u k buffer (u.copy_to_user user (bytes buffer) n).0 n

-- A read that is told to retry `k` times and then not ends after k + 1 rounds; what it returns
-- counts the last round alone.
pub read-retries :
    (u : Uaccess) (k : ℕ) (buffer : Buffer) (user : List ℕ) (count : ℕ)
    → clamp count ≤ length (bytes buffer)
    → read u (replicate k true ++ false ∷ []) buffer user count
      ≡ done (rounds (suc k) (clamp count)) (
          some (
            copied u (suc k) buffer user (clamp count),
            sub64
                (clamp count)
                (u.copy_to_user
                  (copied u k buffer user (clamp count))
                  (bytes buffer)
                  (clamp count)).1,
          ))
unfolding read
read-retries u zero buffer user count h = rw (copy_out-done u buffer user (clamp count) h)
read-retries u (suc k) buffer user count h = rw (
  copy_out-done u buffer user (clamp count) h,
  read-retries u k buffer (u.copy_to_user user (bytes buffer) (clamp count)).0 count h,
)

-- While every answer is to retry, the read does not return.
pub read-spins :
    (u : Uaccess) (k : ℕ) (buffer : Buffer) (user : List ℕ) (count : ℕ)
    → clamp count ≤ length (bytes buffer)
    → read u (replicate k true) buffer user count ≡ done (rounds k (clamp count)) none
unfolding read
read-spins u zero buffer user count h = refl
read-spins u (suc k) buffer user count h = rw (
  copy_out-done u buffer user (clamp count) h,
  read-spins u k buffer (u.copy_to_user user (bytes buffer) (clamp count)).0 count h,
)
