-- ===== src/Chardev/Atomic/Holder.antt =====
-- Who has the lock in the processes of Chardev/Atomic, and what the buffer holds meanwhile.
use mathlib.Core.Path.{subst}
use mathlib.Core.Option.{some-injective}
use ldd3_examples.Common.{
  ℕ, zero, suc, ◌≡◌, ◌≢◌, ◌<◌, refl, sym, ap, ◌∙◌, true, false, List, [], ◌∷◌, some, get_elem?, set,
  length, ℕ_discrete, arith,
}
use ldd3_examples.Kernel.Processes.{acquires}
use ldd3_examples.Chardev.Defs.{Call}
use ldd3_examples.Chardev.Exclusion.{kind}
use ldd3_examples.Chardev.Seqlock.Torn.Mixed.{length-mix}
use ldd3_examples.Chardev.Atomic.{Process, idles, System, Sequential}
use ldd3_examples.Chardev.Atomic.Others.{get_past, All, AllBut, set-All, set_other-AllBut}
use ldd3_examples.Chardev.Atomic.Phases.{
  Outside, rests, will_read, will_write, Inside, is_reading, is_writing, will_leave,
  Outside-acquires, Inside-busy,
}

pub idles-All : (size n : ℕ) → All (Outside size) (idles n)
idles-All size zero j x e = cc
idles-All size (suc n) zero x e = subst (Outside size) (some-injective _ _ e) (rests refl)
idles-All size (suc n) (suc j) x e = idles-All size n j x e

pub get_elem-lt : (xs : List ℕ) (i c : ℕ) → get_elem? xs i ≡ some c → i < length xs
get_elem-lt [] i c e = cc
get_elem-lt (x ∷ xs) zero c e = omega arith
get_elem-lt (x ∷ xs) (suc i) c e = omega (arith, get_elem-lt xs i c e)

pub Outside-Inside :
    (size : ℕ) (base : List ℕ) (p : Process) (c : Call) (cs : List Call)
    → Outside size p
    → p.calls ≡ c ∷ cs
    → Inside size base base (record p { calls = cs })
Outside-Inside size base p c cs (rests e) e' = ground arith
Outside-Inside size base p c cs (will_read a z n e k k' h) e' =
    is_reading z n (ground arith) k' refl (rw h refl)
Outside-Inside size base p c cs (will_write a z n e k k' h h') e' =
    is_writing z n (ground arith) k' (rw h refl) (omega (arith, h)) (omega (arith, h)) h'

Inside-length :
    (size : ℕ) (base content : List ℕ) (p : Process)
    → length base ≡ size
    → Inside size base content p
    → length content ≡ size
Inside-length size base content p n (is_reading z m e k h i) = rw h n
Inside-length size base content p n (is_writing z m e k h i l m') =
    rw h (length-mix p.put p.source base i (omega arith) ∙ n)
Inside-length size base content p n (will_leave z e k h) = rw h n

-- What the completed copies have left, and that process `i`, which is `p`, has the lock.
pub record Holder (b : List ℕ) (s : System) (i : ℕ) (p : Process) : Type 0 where
  pub base : List ℕ
  pub sequential : Sequential b s.log base
  pub sized : length base ≡ length b
  pub taken : s.taken ≡ true
  pub there : get_elem? s.procs i ≡ some p
  pub inside : Inside (length b) base s.content p
  pub others : AllBut (Outside (length b)) i s.procs

pub data Inv (b : List ℕ) (s : System) : Type 0 where
  free :
      Sequential b s.log s.content
      → length s.content ≡ length b
      → s.taken ≡ false
      → All (Outside (length b)) s.procs
      → Inv b s
  held : (i : ℕ) (p : Process) → Holder b s i p → Inv b s

pub Inv-length : (b : List ℕ) (s : System) → Inv b s → length s.content ≡ length b
Inv-length b s (free l n t all) = n
Inv-length b s (held i p h) = Inside-length (length b) h.base s.content p h.sized h.inside

same_process :
    (xs : List Process) (i j : ℕ) (p q : Process)
    → i ≡ j
    → get_elem? xs i ≡ some p
    → get_elem? xs j ≡ some q
    → p ≡ q
same_process xs i j p q h e e' = some-injective _ _ (sym e ∙ ap (get_elem? xs) h ∙ e')

module _ (b : List ℕ) (s : System) (i : ℕ) (p : Process) (e : get_elem? s.procs i ≡ some p) where
  -- A process begins a read or a write.
  pub begun-Inv :
      (p' : Process)
      → p.calls ≡ []
      → Outside (length b) p'
      → Inv b s
      → Inv b (record s { procs = set s.procs i p' })
  begun-Inv p' none o (free l n t all) =
      free l n t (set-All (Outside (length b)) s.procs i p' all o)
  begun-Inv p' none o (held k q h) = elim (ℕ_discrete k i) [
    | yes same ↦ absurd (
        Inside-busy (length b) h.base s.content q h.inside
          (ap (λ (r : Process). r.calls) (same_process s.procs k i q p same h.there e) ∙ none))
    | no other ↦ held k q (record {
      base = h.base;
      sequential = h.sequential;
      sized = h.sized;
      taken = h.taken;
      there = get_past s.procs i k p' q other h.there;
      inside = h.inside;
      others = set_other-AllBut (Outside (length b)) s.procs k i p' h.others o;
    })
  ]

  -- Who makes another call than taking the lock has it.
  pub has_lock :
      (c : Call) (cs : List Call) → p.calls ≡ c ∷ cs → kind c ≢ acquires → Inv b s → Holder b s i p
  has_lock c cs e' n (free l m t all) =
      absurd (n (Outside-acquires (length b) p c cs (all i p e) e'))
  has_lock c cs e' n (held k q h) = elim (ℕ_discrete i k) [
    | yes same ↦ record {
      base = h.base;
      sequential = h.sequential;
      sized = h.sized;
      taken = h.taken;
      there = e;
      inside =
          subst (Inside (length b) h.base s.content)
            (same_process s.procs k i q p (sym same) h.there e) h.inside;
      others = subst (λ (x : ℕ). AllBut (Outside (length b)) x s.procs) (sym same) h.others;
    }
    | no other ↦ absurd (n (Outside-acquires (length b) p c cs (h.others i p other e) e'))
  ]
