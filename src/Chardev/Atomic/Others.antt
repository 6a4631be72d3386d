-- ===== src/Chardev/Atomic/Others.antt =====
-- Lists of processes of which one changes.
use mathlib.Core.Path.{subst}
use mathlib.Core.Option.{some-injective}
use ldd3_examples.Common.{
  ℕ, zero, suc, ◌≡◌, ◌≢◌, refl, ap, ◌⊎◌, inl, inr, List, [], ◌∷◌, some, get_elem?, set, arith,
}

module _ {A : Type 0} where
  pub get-set :
      (xs : List A) (i j : ℕ) (y x : A)
      → get_elem? (set xs i y) j ≡ some x
      → ((j ≡ i) × (y ≡ x)) ⊎ ((j ≢ i) × (get_elem? xs j ≡ some x))
  get-set [] i j y x e = cc
  get-set (z ∷ xs) zero zero y x e = inl (refl, some-injective _ _ e)
  get-set (z ∷ xs) zero (suc j) y x e = inr ((λ q. omega (arith, q)), e)
  get-set (z ∷ xs) (suc i) zero y x e = inr ((λ q. omega (arith, q)), e)
  get-set (z ∷ xs) (suc i) (suc j) y x e = elim (get-set xs i j y x e) [
    | inl (q, r) ↦ inl (ap suc q, r)
    | inr (q, r) ↦ inr ((λ q'. q (omega (arith, q'))), r)
  ]

  pub get_at :
      (xs : List A) (i : ℕ) (y x : A) → get_elem? xs i ≡ some x → get_elem? (set xs i y) i ≡ some y
  get_at [] i y x e = cc
  get_at (z ∷ xs) zero y x e = refl
  get_at (z ∷ xs) (suc i) y x e = get_at xs i y x e

  pub get_past :
      (xs : List A) (i j : ℕ) (y x : A)
      → j ≢ i
      → get_elem? xs j ≡ some x
      → get_elem? (set xs i y) j ≡ some x
  get_past [] i j y x n e = e
  get_past (z ∷ xs) zero zero y x n e = absurd (n refl)
  get_past (z ∷ xs) zero (suc j) y x n e = e
  get_past (z ∷ xs) (suc i) zero y x n e = e
  get_past (z ∷ xs) (suc i) (suc j) y x n e = get_past xs i j y x (λ q. n (ap suc q)) e

  module _ (P : A → Type 0) where
    abbrev pub All : List A → Type 0
    All xs = (j : ℕ) (x : A) → get_elem? xs j ≡ some x → P x

    abbrev pub AllBut : ℕ → List A → Type 0
    AllBut i xs = (j : ℕ) (x : A) → j ≢ i → get_elem? xs j ≡ some x → P x

    pub set-All : (xs : List A) (i : ℕ) (y : A) → All xs → P y → All (set xs i y)
    set-All xs i y all p j x e = elim (get-set xs i j y x e) [
      | inl (q, r) ↦ subst P r p
      | inr (q, r) ↦ all j x r
    ]

    -- The one that is left out may become anything, and where it becomes a `P`, all are.
    pub set-AllBut : (xs : List A) (i : ℕ) (y : A) → AllBut i xs → AllBut i (set xs i y)
    set-AllBut xs i y all j x n e = elim (get-set xs i j y x e) [
      | inl (q, r) ↦ absurd (n q)
      | inr (q, r) ↦ all j x n r
    ]

    pub set_other-AllBut :
        (xs : List A) (i k : ℕ) (y : A) → AllBut i xs → P y → AllBut i (set xs k y)
    set_other-AllBut xs i k y all p j x n e = elim (get-set xs k j y x e) [
      | inl (q, r) ↦ subst P r p
      | inr (q, r) ↦ all j x n r
    ]

    pub set_back-All : (xs : List A) (i : ℕ) (y : A) → AllBut i xs → P y → All (set xs i y)
    set_back-All xs i y all p j x e = elim (get-set xs i j y x e) [
      | inl (q, r) ↦ subst P r p
      | inr (q, r) ↦ all j x q r
    ]
