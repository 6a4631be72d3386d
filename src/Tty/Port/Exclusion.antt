-- ===== src/Tty/Port/Exclusion.antt =====
-- Any number of processes that open, close and write to one port of day_12/ex29.c, around its
-- semaphore. The port has its object: the tty layer lets no two first opens run together.
use mathlib.Core.Path.{subst}
use ldd3_examples.Common.{
  ℕ, zero, suc, ◌≤◌, ◌≡◌, ◌∙◌, ap, refl, Bool, true, false, List, [], ◌∷◌, ◌++◌, some, Run, done,
  fault, prepend, arith, ◌>>◌, Bool-cases, inl, inr, ◌==◌,
}
use ldd3_examples.Kernel.Errno.{Ret, err, einval}
use ldd3_examples.Kernel.Semaphore.{Semaphore}
use ldd3_examples.Kernel.Processes.{
  Process, Kind, acquires, releases, other, Discipline, System, Guarded, Reach,
}
use ldd3_examples.Kernel.Processes.Exclusive.{critical_unique}
use ldd3_examples.Kernel.Processes.Counting.{how_many, how_many_unique}
use ldd3_examples.Kernel.Processes.Progress.{Finishes, Reach-Finishes}
use ldd3_examples.Tty.Defs.{
  TinySerial, Slot, Call, down, up, kmalloc_timer, add_timer, del_timer, printk_byte, printk_text,
}
use ldd3_examples.Tty.Port.{OpenEnv, tiny_open, tiny_close}
use ldd3_examples.Tty.Write.{print_bytes, tiny_write, tiny_write_room}

abbrev pub kind : Call → Kind
kind down = acquires
kind up = releases
kind _ = other

-- The calls on the port's timer, and those that log what is written.
abbrev pub is_inner : Call → Bool
is_inner (kmalloc_timer ok) = true
is_inner (add_timer e) = true
is_inner del_timer = true
is_inner (printk_byte b) = true
is_inner printk_text = true
is_inner _ = false

abbrev pub IsInner : Call → Type 0
IsInner c = is_inner c ≡ true

pub inner-other : (c : Call) → IsInner c → kind c ≡ other
inner-other (kmalloc_timer ok) x = refl
inner-other (add_timer e) x = refl
inner-other del_timer x = refl
inner-other (printk_byte b) x = refl
inner-other printk_text x = refl
inner-other _ x = ground arith

-- Whether a process stands at such a call.
abbrev pub at_inner : Process Call → Bool
at_inner p = elim p.calls [ [] ↦ false | c ∷ cs ↦ is_inner c ]

abbrev pub discipline : Discipline Call
discipline = record { kind = kind; IsCritical = IsInner; critical-other = inner-other }

-- What a process does on the port, in whatever state it finds it.
pub data Starts : List Call → Type 0 where
  opens :
      {t : List Call} (k : OpenEnv) (tiny : TinySerial) (r : Slot × Ret)
      → tiny_open k (some tiny) ≡ done t r
      → Starts t
  closes :
      {t : List Call} (tiny : TinySerial) (slot : Slot)
      → tiny_close true (some tiny) ≡ done t slot
      → Starts t
  writes :
      {t : List Call} (tiny : TinySerial) (buffer : List ℕ) (count : ℕ) (r : Ret)
      → tiny_write (some tiny) buffer count ≡ done t r
      → Starts t
  asks_room :
      {t : List Call} (tiny : TinySerial) (r : Ret)
      → tiny_write_room (some tiny) ≡ done t r
      → Starts t

-- The calls of a run that begins in the lock, with `rest` after them.
abbrev Inside : {A : Type 0} → (rest : List Call) → Run Call A → Type 0
Inside rest (done t a) = Guarded discipline true (t ++ rest)
Inside rest fault = Unit {0}

abbrev Outside : {A : Type 0} → Run Call A → Type 0
Outside (done t a) = Guarded discipline false t
Outside fault = Unit {0}

printed-Inside :
    (b : ℕ) (rest : List Call) (m : Run Call (Unit {0}))
    → Inside rest m
    → Inside rest (prepend (printk_byte b ∷ []) m)
printed-Inside b rest (done t a) g = (λ x. refl, g)
printed-Inside b rest fault g = tt

print_bytes-Inside :
    (count : ℕ) (buffer : List ℕ) (rest : List Call)
    → Guarded discipline true rest
    → Inside rest (print_bytes count buffer)
unfolding print_bytes
print_bytes-Inside zero buffer rest g = g
print_bytes-Inside (suc n) [] rest g = tt
print_bytes-Inside (suc n) (b ∷ buffer) rest g =
    printed-Inside b rest (print_bytes n buffer) (print_bytes-Inside n buffer rest g)

logged-Outside :
    (r : Ret) (m : Run Call (Unit {0}))
    → Inside (printk_text ∷ up ∷ []) m
    → Outside
        (prepend (down ∷ []) (prepend (printk_text ∷ []) (m >> done (printk_text ∷ up ∷ []) r)))
logged-Outside r (done t a) g = (refl, ((λ x. refl), g))
logged-Outside r fault g = tt

tiny_write-Outside :
    (tiny : TinySerial) (buffer : List ℕ) (count : ℕ)
    → Outside (tiny_write (some tiny) buffer count)
unfolding tiny_write
tiny_write-Outside tiny buffer count = elim (Bool-cases (tiny.open_count == 0)) [
  | inl e ↦ rw e (refl, (refl, refl))
  | inr e ↦ rw e (
      logged-Outside (err einval) (print_bytes count buffer)
        (print_bytes-Inside count buffer (printk_text ∷ up ∷ []) ((λ x. refl), (refl, refl))))
]

Starts-Guarded : (t : List Call) → Starts t → Guarded discipline false t
unfolding tiny_open tiny_close tiny_write_room
Starts-Guarded t (opens k tiny r e) = ground arith
Starts-Guarded t (closes tiny slot e) = ground arith
Starts-Guarded t (writes tiny buffer count r e) =
    subst (λ (m : Run Call Ret). Outside m) e (tiny_write-Outside tiny buffer count)
Starts-Guarded t (asks_room tiny r e) = ground arith

stands_at :
    (h : Bool) (calls : List Call)
    → at_inner (record { held = h; calls = calls }) ≡ true
    → (c : Call) × (cs : List Call) × (◌≡◌ {A = Process Call}
        (record { held = h; calls = calls })
        (record { held = h; calls = c ∷ cs }))
      × IsInner c
stands_at h [] e = ground arith
stands_at h (c ∷ cs) e = (c, cs, refl, e)

-- For any number of processes that open, close and write to one port or ask for its room: in no
-- reachable state does more than one of them stand at a call on the timer or at one that logs what is
-- written, and from every one there are steps after which all have made their calls, and the semaphore
-- is free.
pub Reach-orderly :
    (sem : Semaphore)
    → {n : ℕ} {s : System Call sem} → Reach discipline sem Starts n s
    → (how_many at_inner s.procs ≤ 1) × Finishes discipline sem Starts s
Reach-orderly sem {n} {s} r = (
  how_many_unique at_inner s.procs (λ i j p q e e' x y.
      let (c, cs, is, inner) = stands_at p.held p.calls x in
      let (c', cs', is', inner') = stands_at q.held q.calls y in
      critical_unique discipline sem Starts Starts-Guarded r i j (e ∙ ap some is) (e' ∙ ap some is')
        inner inner'),
  Reach-Finishes discipline sem Starts Starts-Guarded r,
)
