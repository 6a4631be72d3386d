-- ===== src/Chardev/Sleepers/Woken.antt =====
-- No process of ex12.c, ex13.c or ex14.c sleeps on while `condition` is set.
use mathlib.Core.Path.{subst}
use mathlib.Core.Option.{some-injective}
use ldd3_examples.Common.{
  ℕ, zero, suc, ◌+◌, ◌≤◌, ◌<◌, ◌≡◌, refl, ap, ◌⊎◌, inl, inr, Bool, true, false, List, [], ◌∷◌, some,
  get_elem?, set, done, arith,
}
use ldd3_examples.Kernel.Uaccess.{Uaccess}
use ldd3_examples.Chardev.Defs.{
  Call, Waiting, copy_out, copy_in, assign_condition, wake_up_interruptible,
}
use ldd3_examples.Chardev.Drivers.{Driver, ex12, ex13, ex14, read_of, write_of}
use ldd3_examples.Chardev.Sleepers.{
  Process, idle, idles, wake_all, IsPlain, System, Step, start_read, start_write, passes, sleeps,
  signalled, stores, wakes, call, Reach, start, later,
}

-- Whether calls go on with a wake-up.
abbrev rings : List Call → ℕ
rings (wake_up_interruptible ∷ cs) = 1
rings _ = 0

abbrev naps : Bool → ℕ
naps true = 1
naps false = 0

abbrev sleepers : List Process → ℕ
sleepers [] = 0
sleepers (p ∷ ps) = naps p.asleep + sleepers ps

abbrev wakers : List Process → ℕ
wakers [] = 0
wakers (p ∷ ps) = rings p.calls + wakers ps

-- A wake-up follows at once on every store of 1.
abbrev Announced : List Call → Type 0
Announced [] = Unit {0}
Announced (assign_condition v ∷ cs) = ((v ≡ 1) → rings cs ≡ 1) × Announced cs
Announced (c ∷ cs) = Announced cs

abbrev AllAnnounced : List Process → Type 0
AllAnnounced [] = Unit {0}
AllAnnounced (p ∷ ps) = Announced p.calls × AllAnnounced ps

sleepers-set :
    (ps : List Process) (i : ℕ) (p q : Process)
    → get_elem? ps i ≡ some p
    → sleepers (set ps i q) + naps p.asleep ≡ sleepers ps + naps q.asleep
sleepers-set [] i p q e = cc
sleepers-set (x ∷ ps) zero p q e = ground arith
sleepers-set (x ∷ ps) (suc i) p q e = omega (arith, sleepers-set ps i p q e)

wakers-set :
    (ps : List Process) (i : ℕ) (p q : Process)
    → get_elem? ps i ≡ some p
    → wakers (set ps i q) + rings p.calls ≡ wakers ps + rings q.calls
wakers-set [] i p q e = cc
wakers-set (x ∷ ps) zero p q e =
    rw (ap (λ (y : Process). rings y.calls) (some-injective _ _ e)) (omega arith)
wakers-set (x ∷ ps) (suc i) p q e = omega (arith, wakers-set ps i p q e)

get-Announced :
    (ps : List Process) (i : ℕ) (p : Process)
    → AllAnnounced ps
    → get_elem? ps i ≡ some p
    → Announced p.calls
get-Announced [] i p g e = cc
get-Announced (x ∷ ps) zero p g e =
    subst (λ (q : Process). Announced q.calls) (some-injective _ _ e) g.0
get-Announced (x ∷ ps) (suc i) p g e = get-Announced ps i p g.1 e

set-AllAnnounced :
    (ps : List Process) (i : ℕ) (p : Process)
    → AllAnnounced ps
    → Announced p.calls
    → AllAnnounced (set ps i p)
set-AllAnnounced [] i p g h = tt
set-AllAnnounced (x ∷ ps) zero p g h = (h, g.1)
set-AllAnnounced (x ∷ ps) (suc i) p g h = (g.0, set-AllAnnounced ps i p g.1 h)

sleepers-wake_all : (ps : List Process) → sleepers (wake_all ps) ≡ 0
sleepers-wake_all [] = refl
sleepers-wake_all (p ∷ ps) = omega (arith, sleepers-wake_all ps)

wake_all-AllAnnounced : (ps : List Process) → AllAnnounced ps → AllAnnounced (wake_all ps)
wake_all-AllAnnounced [] g = tt
wake_all-AllAnnounced (p ∷ ps) g = (g.0, wake_all-AllAnnounced ps g.1)

plain-rings : (c : Call) (cs : List Call) → IsPlain c → rings (c ∷ cs) ≡ 0
plain-rings wake_up_interruptible cs h = absurd h
plain-rings _ cs h = refl

plain-Announced : (c : Call) (cs : List Call) → IsPlain c → Announced (c ∷ cs) → Announced cs
plain-Announced (assign_condition v) cs h g = absurd h
plain-Announced _ cs h g = g

-- The drivers with a wait queue.
abbrev pub Waits : Driver → Type 0
Waits ex12 = Unit {0}
Waits ex13 = Unit {0}
Waits ex14 = Unit {0}
Waits _ = ⊥

module _ (u : Uaccess) (w : Waiting) (user : List ℕ) (count : ℕ) (t : List Call) where
  read_of-Announced :
      (d : Driver) (r : Waiting × List ℕ × ℕ)
      → Waits d
      → read_of u d w user count ≡ done t r
      → Announced t
  unfolding read_of copy_out
  read_of-Announced ex12 r l e = ground arith
  read_of-Announced ex13 r l e = ground arith
  read_of-Announced ex14 r l e = ground arith
  read_of-Announced _ r l e = absurd l

  write_of-Announced :
      (d : Driver) (r : Waiting × ℕ) → Waits d → write_of u d w user count ≡ done t r → Announced t
  unfolding write_of copy_in
  write_of-Announced ex12 r l e = ground arith
  write_of-Announced ex13 r l e = ground arith
  write_of-Announced ex14 r l e = ground arith
  write_of-Announced _ r l e = absurd l

-- While `condition` is set nobody sleeps, or a process is about to wake the sleepers.
abbrev Woken : System → Type 0
Woken s = (s.condition ≡ 1) → (sleepers s.procs ≡ 0) ⊎ (0 < wakers s.procs)

abbrev Inv : System → Type 0
Inv s = AllAnnounced s.procs × Woken s

-- A process that goes on awake, and was not about to wake the sleepers, keeps the invariant.
goes_on-Inv :
    (s : System) (i : ℕ) (p q : Process)
    → Inv s
    → get_elem? s.procs i ≡ some p
    → rings p.calls ≡ 0
    → q.asleep ≡ false
    → Announced q.calls
    → Inv (record s { procs = set s.procs i q })
goes_on-Inv s i p q (a, w) e quiet awake h = (
  set-AllAnnounced s.procs i q a h,
  λ one.
      ground
        (arith, w one, sleepers-set s.procs i p q e, wakers-set s.procs i p q e, ap naps awake),
)

idles-AllAnnounced : (n : ℕ) → AllAnnounced (idles n)
idles-AllAnnounced zero = tt
idles-AllAnnounced (suc n) = (tt, idles-AllAnnounced n)

sleepers-pos :
    (ps : List Process) (i : ℕ) (p : Process)
    → get_elem? ps i ≡ some p
    → naps p.asleep ≤ sleepers ps
sleepers-pos [] i p e = cc
sleepers-pos (x ∷ ps) zero p e = ground arith
sleepers-pos (x ∷ ps) (suc i) p e = omega (arith, sleepers-pos ps i p e)

-- Where a wake-up is about to be made, by whom.
abbrev Waker : List Process → Type 0
Waker ps =
    (j : ℕ) × (cs : List Call) × (a : Bool) × (get_elem? ps j
      ≡ some (record { asleep = a; calls = wake_up_interruptible ∷ cs }))

rings-lem :
    (cs : List Call) → (rings cs ≡ 0) ⊎ ((cs' : List Call) × (cs ≡ wake_up_interruptible ∷ cs'))
rings-lem [] = inl refl
rings-lem (wake_up_interruptible ∷ cs) = inr (cs, refl)
rings-lem (_ ∷ cs) = inl refl

wakers-pos : (ps : List Process) → 0 < wakers ps → Waker ps
wakers-pos [] h = absurd (omega arith)
wakers-pos (p ∷ ps) h = elim (rings-lem p.calls) [
  | inl quiet ↦ (let (j, cs, a, e) = wakers-pos ps (omega (arith, quiet)) in (suc j, cs, a, e))
  | inr (cs, e) ↦
      (0, cs, p.asleep, ap (λ (c : List Call). some (record { asleep = p.asleep; calls = c })) e)
]

module _ (u : Uaccess) (d : Driver) (waits : Waits d) where
  Step-Inv : {s t : System} → Step u d s t → Inv s → Inv t
  Step-Inv (start_read {s} i w user count {t} {r} e m) v =
      goes_on-Inv s i idle (record { asleep = false; calls = t }) v e refl refl
        (read_of-Announced u w user count t d r waits m)
  Step-Inv (start_write {s} i w user count {t} {r} e m) v =
      goes_on-Inv s i idle (record { asleep = false; calls = t }) v e refl refl
        (write_of-Announced u w user count t d r waits m)
  Step-Inv (passes {s} i {cs} e c) v =
      goes_on-Inv s i _ (record { asleep = false; calls = cs }) v e refl refl
        (get-Announced s.procs i _ v.0 e)
  Step-Inv (sleeps {s} i {cs} e c) v =
      (set-AllAnnounced s.procs i _ v.0 (get-Announced s.procs i _ v.0 e), λ one. absurd (c one))
  Step-Inv (signalled {s} i {a} {cs} e) v =
      goes_on-Inv s i _ (record { asleep = false; calls = cs }) v e refl refl
        (get-Announced s.procs i _ v.0 e)
  Step-Inv (stores {s} i x {cs} e) v = (
    set-AllAnnounced s.procs i _ v.0 (get-Announced s.procs i _ v.0 e).1,
    λ one. inr (
        omega (
          arith,
          wakers-set s.procs i _ (record { asleep = false; calls = cs }) e,
          (get-Announced s.procs i _ v.0 e).0 one,
        )),
  )
  Step-Inv (wakes {s} i {cs} e) v = (
    wake_all-AllAnnounced _ (set-AllAnnounced s.procs i _ v.0 (get-Announced s.procs i _ v.0 e)),
    λ one. inl (sleepers-wake_all _),
  )
  Step-Inv (call {s} i {c} {cs} e plain) v =
      goes_on-Inv s i _ (record { asleep = false; calls = cs }) v e (plain-rings c cs plain) refl
        (plain-Announced c cs plain (get-Announced s.procs i _ v.0 e))

  Reach-Inv : {n : ℕ} {s : System} → Reach u d n s → Inv s
  Reach-Inv {n} start = (idles-AllAnnounced n, λ one. absurd (omega arith))
  Reach-Inv (later r st) = Step-Inv st (Reach-Inv r)

  -- For the drivers of ex12.c, ex13.c and ex14.c, in every state that any number of reading and writing
  -- processes reach in which `condition` is set and a process sleeps, some process makes its wake-up
  -- call next.
  pub Reach-woken :
      {n : ℕ} {s : System}
      → Reach u d n s
      → s.condition ≡ 1
      → (i : ℕ) {cs : List Call} → get_elem? s.procs i ≡ some (record { asleep = true; calls = cs })
      → (j : ℕ) × (cs' : List Call) × (a : Bool) × (get_elem? s.procs j
          ≡ some (record { asleep = a; calls = wake_up_interruptible ∷ cs' }))
  Reach-woken {n} {s} r one i e = elim ((Reach-Inv r).1 one) [
    | inl quiet ↦ absurd (omega (arith, sleepers-pos s.procs i _ e, quiet))
    | inr awake ↦ wakers-pos s.procs awake
  ]
