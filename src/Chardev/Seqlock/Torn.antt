-- ===== src/Chardev/Seqlock/Torn.antt =====
-- A read of day_04/ex10.c while a write copies. The kernel copies byte by byte; no writer takes the
-- seqlock, so that its count stays what the reader began with.
pub mod Mixed
use mathlib.Core.Option.{some-injective}
use ldd3_examples.Common.{
  ℕ, zero, suc, ◌+◌, ◌-◌, ◌≤◌, ◌<◌, ◌≡◌, ◌≢◌, refl, subst, sym, ap, ◌∙◌, false, ◌⊎◌, inl, inr, List,
  [], ◌∷◌, ◌++◌, Option, none, some, get_elem?, set, take, drop, length, length-append, length-take,
  length-drop, Run, done, arith, Steps, here, also, join,
}
use ldd3_examples.Kernel.Uaccess.{Uaccess}
use ldd3_examples.Chardev.Defs.{
  Call, bytes, clamp, sub64, down, up, read_seqbegin, read_seqretry, copy_to_user, copy_from_user,
}
use ldd3_examples.Chardev.Copy.{copy_out-done, copy_in-done}
use ldd3_examples.Chardev.Seqlock.{read, write}

-- The seqlock's count, the bytes of `buffer`, the calls left of one reader and of one writer, and how
-- far their copies are: the bytes that the reader's user has, and the number that the writer has put.
pub record Machine : Type 0 where
  pub seq : ℕ
  pub content : List ℕ
  pub reading : List Call
  pub begun : ℕ
  pub shown : List ℕ
  pub writing : List Call
  pub source : List ℕ
  pub put : ℕ

abbrev pub quiet : (seq : ℕ) → List ℕ → Machine
quiet seq content = record {
  seq = seq;
  content = content;
  reading = [];
  begun = seq;
  shown = [];
  writing = [];
  source = [];
  put = 0;
}

module _ (u : Uaccess) where
  pub data Step : Machine → Machine → Type 0 where
    reads :
        {m : Machine} (user : List ℕ) (count : ℕ) {t : List Call} {r : Option (List ℕ × ℕ)}
        → m.reading ≡ []
        → read u (false ∷ []) (some m.content) user count ≡ done t r
        → Step m (record m { reading = t; shown = [] })
    writes :
        {m : Machine} (user : List ℕ) (count : ℕ) {t : List Call} {r : Option (List ℕ) × ℕ}
        → m.writing ≡ []
        → write u (some m.content) user count ≡ done t r
        → Step m (record m { writing = t; source = user; put = 0 })
    begins :
        {m : Machine} {cs : List Call}
        → m.reading ≡ read_seqbegin ∷ cs
        → Step m (record m { reading = cs; begun = m.seq })
    shows :
        {m : Machine} {n c : ℕ} {cs : List Call}
        → m.reading ≡ copy_to_user n ∷ cs
        → length m.shown < n
        → get_elem? m.content (length m.shown) ≡ some c
        → Step m (record m { shown = m.shown ++ c ∷ [] })
    has_shown :
        {m : Machine} {cs : List Call}
        → m.reading ≡ copy_to_user (length m.shown) ∷ cs
        → Step m (record m { reading = cs })
    -- read_seqretry: the count is as it was
    accepts :
        {m : Machine} {cs : List Call}
        → m.reading ≡ read_seqretry ∷ cs
        → m.begun ≡ m.seq
        → Step m (record m { reading = cs })
    retries :
        {m : Machine} (user : List ℕ) (count : ℕ) {cs t : List Call} {r : Option (List ℕ × ℕ)}
        → m.reading ≡ read_seqretry ∷ cs
        → m.begun ≢ m.seq
        → read u (false ∷ []) (some m.content) user count ≡ done t r
        → Step m (record m { reading = t; shown = [] })
    -- the semaphore, which the only writer always gets
    locks :
        {m : Machine} {c : Call} {cs : List Call}
        → m.writing ≡ c ∷ cs
        → (c ≡ down) ⊎ (c ≡ up)
        → Step m (record m { writing = cs })
    puts :
        {m : Machine} {n c : ℕ} {cs : List Call}
        → m.writing ≡ copy_from_user n ∷ cs
        → m.put < n
        → get_elem? m.source m.put ≡ some c
        → Step m (record m { content = set m.content m.put c; put = suc m.put })
    has_put :
        {m : Machine} {cs : List Call}
        → m.writing ≡ copy_from_user m.put ∷ cs
        → Step m (record m { writing = cs })

-- The first `k` bytes of the one and the others of the other.
abbrev pub mix : ℕ → List ℕ → List ℕ → List ℕ
mix k new old = take k new ++ drop k old
