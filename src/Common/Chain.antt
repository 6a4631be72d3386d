-- ===== src/Common/Chain.antt =====
-- Any number of steps of a relation.
pub data Steps {S : Type 0} (R : S → S → Type 0) : S → S → Type 0 where
  here : {s : S} → Steps R s s
  also : {s t t' : S} → R s t → Steps R t t' → Steps R s t'

module _ {S : Type 0} {R : S → S → Type 0} where
  pub join : {s t t' : S} → Steps R s t → Steps R t t' → Steps R s t'
  join here k = k
  join (also x xs) k = also x (join xs k)
