-- ===== src/Block/Order/Exchange.antt =====
-- Lists up to exchanges of neighbours, as the schedules of day_13/ex30.c and their results are.
use mathlib.Core.Quot
use mathlib.Core.Quot.{Quot, Quot-set}
use ldd3_examples.Common.{List, [], ◌∷◌}

-- Two neighbours that are related change places.
pub data Exchanged {A : Type 0} (R : A → A → Type 0) : List A → List A → Type 0 where
  here : {a b : A} {xs : List A} → R a b → Exchanged R (a ∷ b ∷ xs) (b ∷ a ∷ xs)
  later : {x : A} {xs ys : List A} → Exchanged R xs ys → Exchanged R (x ∷ xs) (x ∷ ys)

module _ {A : Type 0} where
  abbrev pub Any : A → A → Type 0
  Any a b = Unit {0}

-- A list whose order is forgotten.
abbrev pub Bag : Type 0 → Type 0
Bag A = Quot (Exchanged {A = A} Any)

module _ {A : Type 0} where
  abbrev pub put : A → Bag A → Bag A
  put x = Quot.lift Quot-set (λ xs. Quot.mk (x ∷ xs)) (λ xs ys e. Quot.sound (later e))

abbrev pub zip : {A B : Type 0} → List A → List B → List (A × B)
zip [] ys = []
zip (x ∷ xs) [] = []
zip (x ∷ xs) (y ∷ ys) = (x, y) ∷ zip xs ys
