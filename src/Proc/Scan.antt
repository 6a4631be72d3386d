-- ===== src/Proc/Scan.antt =====
-- What sscanf finds in the array of day_03/ex5.c after a copy of two printed ints.
use ldd3_examples.Common.{
  take-drop, take_all, ℕ, ◌+◌, ◌-◌, ◌≤◌, ◌≡◌, refl, sym, ap, ◌∙◌, false, [], ◌∷◌, ◌++◌, some,
  length, take, drop, done, arith, ltb,
}
use ldd3_examples.Common.Int.{ℤ}
use ldd3_examples.Common.Text.{Bytes, strlen, print_int, is_digit, IsInt, NonZero}
use ldd3_examples.Common.Text.Print.{
  print_int-NonZero, print_int-append, strlen-append, length-print_int,
}
use ldd3_examples.Common.Text.Scan.{scan_int-print_int, skip_spaces-print_int}
use ldd3_examples.Kernel.Uaccess.{Uaccess}
use ldd3_examples.Kernel.Errno.{ret}
use ldd3_examples.Proc.{Call, copy_from_user, Params, bufsize, scan_two, set_params, mywrite}

-- Two ints with a blank between, in front of what follows.
abbrev pub two_ints : ℤ → ℤ → Bytes → Bytes
two_ints i m rest = print_int i (b' ' ∷ print_int m rest)

scan_two-two_ints :
    (i m : ℤ) (c : ℕ) (rest : Bytes)
    → IsInt i
    → IsInt m
    → is_digit c ≡ false
    → scan_two (two_ints i m (c ∷ rest)) ≡ done [] (some (i, m))
unfolding scan_two
scan_two-two_ints i m c rest hi hm h =
    rw
      (
        scan_int-print_int Call i b' ' (print_int m (c ∷ rest)) hi refl,
        skip_spaces-print_int Call m c rest,
        scan_int-print_int Call m c rest hm h,
      )
      refl

pub two_ints-append : (i m : ℤ) (rest : Bytes) → two_ints i m rest ≡ two_ints i m [] ++ rest
two_ints-append i m rest =
    rw (print_int-append i (b' ' ∷ print_int m []) rest, print_int-append m [] rest) refl

set_params-two_ints :
    (s : Params) (i m : ℤ) (c : ℕ) (rest : Bytes) (ppos k : ℕ)
    → IsInt i
    → IsInt m
    → is_digit c ≡ false
    → strlen {E = Call} (c ∷ rest) ≡ done [] k
    → set_params s (two_ints i m (c ∷ rest)) ppos
      ≡ done [] (
        record { irq = i; mode = m },
        length (two_ints i m []) + k,
        ret (length (two_ints i m []) + k),
      )
unfolding set_params
set_params-two_ints s i m c rest ppos k hi hm h e =
    rw (scan_two-two_ints i m c rest hi hm h, size) refl
  where
    all_NonZero : NonZero (two_ints i m [])
    all_NonZero =
        print_int-NonZero i (b' ' ∷ print_int m []) (omega arith, print_int-NonZero m [] tt)

    size : strlen {E = Call} (two_ints i m (c ∷ rest)) ≡ done [] (length (two_ints i m []) + k)
    size =
        rw (two_ints-append i m (c ∷ rest))
          (strlen-append (two_ints i m []) (c ∷ rest) k all_NonZero e)

length-two_ints :
    (i m : ℤ) (rest : Bytes) → IsInt i → IsInt m → length (two_ints i m rest) ≤ length rest + 23
length-two_ints i m rest hi hm =
    omega (arith, length-print_int i (b' ' ∷ print_int m rest) hi, length-print_int m rest hm)

module _ (u : Uaccess) (s : Params) (stack : Bytes) (size : length stack ≡ bufsize) where
  -- The array after a complete copy of `text`.
  copied :
      (text : Bytes)
      → length text ≤ bufsize
      → (u.copy_from_user stack text (length text)).1 ≡ 0
      → (u.copy_from_user stack text (length text)).0 ≡ text ++ drop (length text) stack
  copied text fits full =
      sym (take-drop n got)
      ∙ ap (λ (xs : Bytes). xs ++ drop n got) front
      ∙ ap (λ (ys : Bytes). text ++ ys) (u.from_rest stack text n (omega arith))
    where
      n : ℕ
      n = length text

      got : Bytes
      got = (u.copy_from_user stack text n).0

      all : n - (u.copy_from_user stack text n).1 ≡ n
      all = omega arith

      front : take n got ≡ text
      front = rw all at (u.from_copied stack text n (omega arith)) ∙ take_all text

  -- A write of two ints and a byte `c` sets the parameters, and returns the length of the string that
  -- the array then holds.
  pub mywrite-two_ints :
      (i m : ℤ) (c k : ℕ)
      → IsInt i
      → IsInt m
      → is_digit c ≡ false
      → (u.copy_from_user stack (two_ints i m (c ∷ [])) (length (two_ints i m (c ∷ [])))).1 ≡ 0
      → strlen {E = Call} (c ∷ drop (length (two_ints i m (c ∷ []))) stack) ≡ done [] k
      → mywrite u s stack (two_ints i m (c ∷ [])) (length (two_ints i m (c ∷ []))) 0
        ≡ done (copy_from_user (length (two_ints i m (c ∷ []))) ∷ []) (
          record { irq = i; mode = m },
          length (two_ints i m []) + k,
          ret (length (two_ints i m []) + k),
        )
  mywrite-two_ints i m c k hi hm h full e =
      unfold mywrite in
      (rw
        (
          small,
          full,
          copied text fits full,
          joined,
          set_params-two_ints s i m c (drop n stack) 0 k hi hm h e,
        )
        refl)
    where
      text : Bytes
      text = two_ints i m (c ∷ [])

      n : ℕ
      n = length text

      fits : n ≤ bufsize
      fits = omega (arith, length-two_ints i m (c ∷ []) hi hm)

      small : ltb bufsize n ≡ false
      small = ground (arith, fits)

      joined : text ++ drop n stack ≡ two_ints i m (c ∷ drop n stack)
      joined =
          rw
            (
              print_int-append i (b' ' ∷ print_int m (c ∷ [])) (drop n stack),
              print_int-append m (c ∷ []) (drop n stack),
            )
            refl
