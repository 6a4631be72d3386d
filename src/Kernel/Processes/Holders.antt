-- ===== src/Kernel/Processes/Holders.antt =====
-- Lists of processes that keep to the discipline of a lock.
use mathlib.Core.Path.{subst}
use mathlib.Core.Option.{some-injective}
use ldd3_examples.Common.{
  ℕ, zero, suc, ◌+◌, ◌≤◌, ◌≡◌, refl, ap, Bool, true, false, List, [], ◌∷◌, some, get_elem?, set,
  length, arith,
}
use ldd3_examples.Kernel.Processes.{acquires, releases, other, Discipline, Process, idles, Guarded}

module _ {E : Type 0} (d : Discipline E) where
  pub Guarded-acquires :
      (h : Bool) (c : E) (cs : List E)
      → d.kind c ≡ acquires
      → Guarded d h (c ∷ cs)
      → (h ≡ false) × Guarded d true cs
  Guarded-acquires h c cs e g = rw (e, Guarded) at g

  pub Guarded-releases :
      (h : Bool) (c : E) (cs : List E)
      → d.kind c ≡ releases
      → Guarded d h (c ∷ cs)
      → (h ≡ true) × Guarded d false cs
  Guarded-releases h c cs e g = rw (e, Guarded) at g

  pub Guarded-other :
      (h : Bool) (c : E) (cs : List E)
      → d.kind c ≡ other
      → Guarded d h (c ∷ cs)
      → (d.IsCritical c → h ≡ true) × Guarded d h cs
  Guarded-other h c cs e g = rw (e, Guarded) at g

  abbrev pub AllGuarded : List (Process E) → Type 0
  AllGuarded [] = Unit {0}
  AllGuarded (p ∷ ps) = Guarded d p.held p.calls × AllGuarded ps

  pub get-Guarded :
      (ps : List (Process E)) (i : ℕ) (p : Process E)
      → AllGuarded ps
      → get_elem? ps i ≡ some p
      → Guarded d p.held p.calls
  get-Guarded [] i p g e = cc
  get-Guarded (x ∷ ps) zero p g e =
      subst (λ (q : Process E). Guarded d q.held q.calls) (some-injective _ _ e) g.0
  get-Guarded (x ∷ ps) (suc i) p g e = get-Guarded ps i p g.1 e

  pub set-AllGuarded :
      (ps : List (Process E)) (i : ℕ) (p : Process E)
      → AllGuarded ps
      → Guarded d p.held p.calls
      → AllGuarded (set ps i p)
  set-AllGuarded [] i p g h = tt
  set-AllGuarded (x ∷ ps) zero p g h = (h, g.1)
  set-AllGuarded (x ∷ ps) (suc i) p g h = (g.0, set-AllGuarded ps i p g.1 h)

  pub idles-AllGuarded : (n : ℕ) → AllGuarded (idles n)
  idles-AllGuarded zero = tt
  idles-AllGuarded (suc n) = (refl, idles-AllGuarded n)

abbrev pub weight : Bool → ℕ
weight true = 1
weight false = 0

-- A number of each process, added up.
module _ {E : Type 0} (f : Process E → ℕ) where
  abbrev pub total : List (Process E) → ℕ
  total [] = 0
  total (p ∷ ps) = f p + total ps

  pub total-set :
      (ps : List (Process E)) (i : ℕ) (p q : Process E)
      → get_elem? ps i ≡ some p
      → total (set ps i q) + f p ≡ total ps + f q
  total-set [] i p q e = cc
  total-set (x ∷ ps) zero p q e = let same = ap f (some-injective _ _ e) in omega arith
  total-set (x ∷ ps) (suc i) p q e = omega (arith, total-set ps i p q e)

  pub total-get :
      (ps : List (Process E)) (i : ℕ) (p : Process E) → get_elem? ps i ≡ some p → f p ≤ total ps
  total-get [] i p e = cc
  total-get (x ∷ ps) zero p e = let same = ap f (some-injective _ _ e) in omega arith
  total-get (x ∷ ps) (suc i) p e = omega (arith, total-get ps i p e)

-- The number of processes in the lock, and the number of calls that are left.
abbrev pub holders : {E : Type 0} → List (Process E) → ℕ
holders ps = total (λ p. weight p.held) ps

abbrev pub left : {E : Type 0} → List (Process E) → ℕ
left ps = total (λ p. length p.calls) ps

pub holders-idles : (E : Type 0) (n : ℕ) → holders (idles {E = E} n) ≡ 0
holders-idles E zero = refl
holders-idles E (suc n) = omega (arith, holders-idles E n)

module _ {E : Type 0} where
  -- Two processes in the lock are two holders.
  pub holders_unique :
      (ps : List (Process E)) (i j : ℕ) (p q : Process E)
      → get_elem? ps i ≡ some p
      → get_elem? ps j ≡ some q
      → p.held ≡ true
      → q.held ≡ true
      → holders ps ≤ 1
      → i ≡ j
  holders_unique [] i j p q e f a b h = cc
  holders_unique (x ∷ ps) zero zero p q e f a b h = refl
  holders_unique (x ∷ ps) zero (suc j) p q e f a b h = ground (
    arith,
    ap (λ (r : Process E). weight r.held) (some-injective _ _ e),
    total-get (λ (r : Process E). weight r.held) ps j q f,
  )
  holders_unique (x ∷ ps) (suc i) zero p q e f a b h = ground (
    arith,
    ap (λ (r : Process E). weight r.held) (some-injective _ _ f),
    total-get (λ (r : Process E). weight r.held) ps i p e,
  )
  holders_unique (x ∷ ps) (suc i) (suc j) p q e f a b h =
      ap suc (holders_unique ps i j p q e f a b (omega arith))
