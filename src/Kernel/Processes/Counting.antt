-- ===== src/Kernel/Processes/Counting.antt =====
-- How many of a list of processes are in a place.
use ldd3_examples.Common.{
  ℕ, suc, ◌+◌, ◌≤◌, ◌≡◌, ◌≢◌, refl, inl, inr, Bool, true, Bool-cases, List, [], ◌∷◌, some,
  get_elem?, if◌then◌else◌, arith,
}

module _ {A : Type 0} (test : A → Bool) where
  abbrev pub how_many : List A → ℕ
  how_many [] = 0
  how_many (x ∷ xs) = (if test x then 1 else 0) + how_many xs

  how_many_none :
      (xs : List A) → ((i : ℕ) (x : A) → get_elem? xs i ≡ some x → test x ≢ true) → how_many xs ≡ 0
  how_many_none [] none = refl
  how_many_none (x ∷ xs) none =
      ground (arith, none 0 x refl, how_many_none xs (λ i y e. none (suc i) y e))

  -- Where any two are the same, there is at most one.
  pub how_many_unique :
      (xs : List A)
      → ((i j : ℕ) (x y : A)
          → get_elem? xs i ≡ some x
          → get_elem? xs j ≡ some y
          → test x ≡ true
          → test y ≡ true
          → i ≡ j)
      → how_many xs ≤ 1
  how_many_unique [] same = omega arith
  how_many_unique (x ∷ xs) same = elim (Bool-cases (test x)) [
    | inl h ↦
        let rest : how_many xs ≡ 0 =
          how_many_none xs (λ i y e h'. omega (arith, same 0 (suc i) x y refl e h h')) in
        rw h (omega (arith, rest))
    | inr h ↦
        let rest : how_many xs ≤ 1 =
          how_many_unique xs
            (λ i j y z e e' g g'. omega (arith, same (suc i) (suc j) y z e e' g g')) in
        rw h (omega (arith, rest))
  ]
