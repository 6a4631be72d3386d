-- ===== src/Common/Runs.antt =====
-- One call of a driver's function: the kernel calls that it makes, in order, and its result, or a
-- fault, where the function touches memory that is not its own (a NULL pointer, or bytes past the
-- end of an allocation).
use mathlib.Core.Bool.{Bool, true, false}
use mathlib.Core.List.{List, [], ◌∷◌, ◌++◌}
use mathlib.Core.Option.{Option, none, some}

pub data Run (E A : Type 0) : Type 0 where
  done : List E → A → Run E A
  fault : Run E A

abbrev pub prepend : {E A : Type 0} → List E → Run E A → Run E A
prepend t (done t' a) = done (t ++ t') a
prepend t fault = fault

infixl 5 ◌>>=◌ ◌>>◌
abbrev pub ◌>>=◌ : {E A B : Type 0} → Run E A → (A → Run E B) → Run E B
done t a >>= f = prepend t (f a)
fault >>= f = fault

abbrev pub ◌>>◌ : {E A B : Type 0} → Run E A → Run E B → Run E B
m >> k = m >>= λ _. k

abbrev pub pure : {E A : Type 0} → A → Run E A
pure a = done [] a

abbrev pub emit : {E : Type 0} → E → Run E (Unit {0})
emit e = done (e ∷ []) tt

-- A pointer that is followed: NULL is a fault.
abbrev pub deref : {E A : Type 0} → Option A → Run E A
deref none = fault
deref (some a) = pure a

-- An access that needs `ok`.
abbrev pub require : {E : Type 0} → Bool → Run E (Unit {0})
require true = pure tt
require false = fault

abbrev pub when : {E : Type 0} → Bool → Run E (Unit {0}) → Run E (Unit {0})
when true m = m
when false m = pure tt
