-- ===== src/Kernel/Simple.antt =====
-- An instance of `Uaccess`, for the tests: a copy goes as far as the user's memory does, and a
-- short copy from the user is padded with zero bytes.
use mathlib.Core.List.{append_assoc}
use ldd3_examples.Common.{
  ℕ, zero, suc, ◌-◌, ◌≤◌, min, ◌≡◌, refl, ap, List, [], ◌∷◌, ◌++◌, length, take, drop, replicate,
  length-append, length-take, length-drop, length-replicate, arith,
}
use ldd3_examples.Kernel.Uaccess.{Uaccess}

abbrev pub put : List ℕ → List ℕ → ℕ → List ℕ × ℕ
put to from n = let k = min n (length to) in (take k from ++ drop k to, n - k)

abbrev pub get : List ℕ → List ℕ → ℕ → List ℕ × ℕ
get to from n =
    let k = min n (length from) in (take k from ++ (replicate (n - k) 0 ++ drop n to), n - k)

take-take-append : (k : ℕ) (xs ys : List ℕ) → k ≤ length xs → take k (take k xs ++ ys) ≡ take k xs
take-take-append zero xs ys h = refl
take-take-append (suc k) [] ys h = elim h [ ]
take-take-append (suc k) (x ∷ xs) ys h = ap (◌∷◌ x) (take-take-append k xs ys (omega arith))

drop-append_length : (n : ℕ) (xs ys : List ℕ) → length xs ≡ n → drop n (xs ++ ys) ≡ ys
drop-append_length zero [] ys h = refl
drop-append_length zero (x ∷ xs) ys h = absurd (omega arith)
drop-append_length (suc n) [] ys h = absurd (omega arith)
drop-append_length (suc n) (x ∷ xs) ys h = drop-append_length n xs ys (omega arith)

pub put-copied :
    (to from : List ℕ) (n : ℕ)
    → n ≤ length from
    → take (n - (put to from n).1) (put to from n).0 ≡ take (n - (put to from n).1) from
put-copied to from n h =
    let e : n - (n - min n (length to)) ≡ min n (length to) = omega arith in
    rw e (take-take-append (min n (length to)) from (drop (min n (length to)) to) (omega arith))

pub get-copied :
    (to from : List ℕ) (n : ℕ)
    → n ≤ length to
    → take (n - (get to from n).1) (get to from n).0 ≡ take (n - (get to from n).1) from
get-copied to from n h =
    let e : n - (n - min n (length from)) ≡ min n (length from) = omega arith in
    rw e (take-take-append (min n (length from)) from _ (omega arith))

get_prefix :
    (from : List ℕ) (n : ℕ)
    → length (take (min n (length from)) from ++ replicate {A = ℕ} (n - min n (length from)) 0) ≡ n
get_prefix from n = omega (
  arith,
  length-append (take (min n (length from)) from) (replicate {A = ℕ} (n - min n (length from)) 0),
  length-take (min n (length from)) from,
  length-replicate {A = ℕ} (n - min n (length from)) 0,
)

pub get-rest : (to from : List ℕ) (n : ℕ) → n ≤ length to → drop n (get to from n).0 ≡ drop n to
get-rest to from n h =
    let k = min n (length from) in
    rw (← append_assoc)
      (drop-append_length n (take k from ++ replicate (n - k) 0) (drop n to) (get_prefix from n))

pub get-length : (to from : List ℕ) (n : ℕ) → n ≤ length to → length (get to from n).0 ≡ length to
get-length to from n h = omega (
  arith,
  length-append (take (min n (length from)) from)
      (replicate {A = ℕ} (n - min n (length from)) 0 ++ drop n to),
  length-append (replicate {A = ℕ} (n - min n (length from)) 0) (drop n to),
  length-take (min n (length from)) from,
  length-replicate {A = ℕ} (n - min n (length from)) 0,
  length-drop n to,
)

pub put-length :
    (to from : List ℕ) (n : ℕ)
    → n ≤ length to
    → n ≤ length from
    → length (put to from n).0 ≡ length to
put-length to from n h k = omega (
  arith,
  length-append (take (min n (length to)) from) (drop (min n (length to)) to),
  length-take (min n (length to)) from,
  length-drop (min n (length to)) to,
)

abbrev pub simple_uaccess : Uaccess
simple_uaccess = record {
  copy_to_user = put;
  copy_from_user = get;
  to_left = λ to from n. omega arith;
  to_copied = put-copied;
  from_left = λ to from n. omega arith;
  from_copied = get-copied;
  from_rest = get-rest;
  from_length = get-length;
}
