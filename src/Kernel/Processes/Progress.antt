-- ===== src/Kernel/Processes/Progress.antt =====
-- Processes that keep to the discipline of a lock do not wait for each other for ever.
use ldd3_examples.Common.{
  ℕ, zero, suc, ◌+◌, ◌≤◌, ◌<◌, ◌≡◌, refl, ap, ◌⊎◌, inl, inr, Bool, true, false, List, [], ◌∷◌, some,
  get_elem?, set, length, arith, Steps, here, also,
}
use ldd3_examples.Kernel.Semaphore.{Semaphore}
use ldd3_examples.Kernel.Processes.{
  Kind, acquires, releases, other, Discipline, Process, System, Guarded, Step, takes, gives, makes,
  Reach,
}
use ldd3_examples.Kernel.Processes.Holders.{
  Guarded-acquires, Guarded-releases, AllGuarded, get-Guarded, weight, total-set, total-get,
  holders, left,
}
use ldd3_examples.Kernel.Processes.Exclusive.{Inv, Step-Inv, Reach-Inv}

Kind-cases : (k : Kind) → (k ≡ acquires) ⊎ ((k ≡ releases) ⊎ (k ≡ other))
Kind-cases acquires = inl refl
Kind-cases releases = inr (inl refl)
Kind-cases other = inr (inr refl)

ℕ-cases : (n : ℕ) → (n ≡ 0) ⊎ (0 < n)
ℕ-cases zero = inl refl
ℕ-cases (suc n) = inr (omega arith)

outside : (b : Bool) → weight b ≤ 0 → b ≡ false
outside true h = absurd (omega arith)
outside false h = refl

-- Process `i` has these calls left.
abbrev At : {E : Type 0} → List (Process E) → (i : ℕ) → Bool → E → List E → Type 0
At ps i h c cs = get_elem? ps i ≡ some (record { held = h; calls = c ∷ cs })

abbrev Busy : {E : Type 0} → List (Process E) → Type 0
Busy {E} ps = (i : ℕ) × (h : Bool) × (c : E) × (cs : List E) × At ps i h c cs

module _ {E : Type 0} where
  later_one : (x : Process E) (ps : List (Process E)) → Busy ps → Busy (x ∷ ps)
  later_one x ps (i, h, c, cs, e) = (suc i, h, c, cs, e)

  first-Busy :
      (x : Process E) (ps : List (Process E)) (cs : List E)
      → x.calls ≡ cs
      → 0 < length cs + left ps
      → (0 < left ps → Busy ps)
      → Busy (x ∷ ps)
  first-Busy x ps [] q h rest = later_one x ps (rest (omega arith))
  first-Busy x ps (c ∷ cs) q h rest =
      (0, x.held, c, cs, ap (λ (l : List E). some (record { held = x.held; calls = l })) q)

  left-Busy : (ps : List (Process E)) → 0 < left ps → Busy ps
  left-Busy [] h = absurd (omega arith)
  left-Busy (x ∷ ps) h = first-Busy x ps x.calls refl h (left-Busy ps)

-- There are steps to a state in which all calls have been made, and the lock is free.
abbrev pub Finishes :
    {E : Type 0} (d : Discipline E) (sem : Semaphore) (Starts : List E → Type 0)
    → System E sem
    → Type 0
Finishes {E} d sem Starts s =
    (t : System E sem) × Steps (Step d sem Starts) s t × (left t.procs ≡ 0) × (sem.free t.lock ≡ 1)

module _ {E : Type 0} (d : Discipline E) where
  abbrev Holding : List (Process E) → Type 0
  Holding ps = (i : ℕ) × (c : E) × (cs : List E) × At ps i true c cs

  first-Holding :
      (x : Process E) (ps : List (Process E)) (b : Bool) (cs : List E)
      → x.held ≡ b
      → x.calls ≡ cs
      → Guarded d b cs
      → 0 < weight b + holders ps
      → (0 < holders ps → Holding ps)
      → Holding (x ∷ ps)
  first-Holding x ps true [] q q' g h rest = cc
  first-Holding x ps true (c ∷ cs) q q' g h rest = (0, c, cs, rw (← q, ← q') refl)
  first-Holding x ps false cs q q' g h rest =
      let (i, c, cs', e) = rest (omega arith) in (suc i, c, cs', e)

  -- A holder has a call left: it is still to give the lock back.
  holders-Holding : (ps : List (Process E)) → AllGuarded d ps → 0 < holders ps → Holding ps
  holders-Holding [] g h = absurd (omega arith)
  holders-Holding (x ∷ ps) g h =
      first-Holding x ps x.held x.calls refl refl g.0 h (holders-Holding ps g.1)

  module _ (sem : Semaphore) (Starts : List E → Type 0)
      (keeps : (t : List E) → Starts t → Guarded d false t) where
    -- A process makes one of the calls that are left.
    abbrev Advances : System E sem → Type 0
    Advances s = (t : System E sem) × Step d sem Starts s t × (suc (left t.procs) ≡ left s.procs)

    fewer :
        (s : System E sem) (i : ℕ) (h h' : Bool) (c : E) (cs : List E)
        → At s.procs i h c cs
        → suc (left (set s.procs i (record { held = h'; calls = cs }))) ≡ left s.procs
    fewer s i h h' c cs e = omega (
      arith,
      total-set (λ (p : Process E). length p.calls) s.procs i _ (record { held = h'; calls = cs })
          e,
    )

    -- The holder of the lock goes on.
    holder-Advances :
        (s : System E sem) (i : ℕ) (c : E) (cs : List E)
        → Guarded d true (c ∷ cs)
        → At s.procs i true c cs
        → Advances s
    holder-Advances s i c cs g e = elim (Kind-cases (d.kind c)) [
      | inl k ↦ let not_free : true ≡ false = (Guarded-acquires d true c cs k g).0 in cc
      | inr (inl k) ↦ (_, gives i e k, fewer s i true false c cs e)
      | inr (inr k) ↦ (_, makes i e k, fewer s i true true c cs e)
    ]

    -- While the lock is free, any process goes on.
    free-Advances :
        (s : System E sem) (i : ℕ) (h : Bool) (c : E) (cs : List E)
        → sem.free s.lock ≡ 1
        → h ≡ false
        → Guarded d h (c ∷ cs)
        → At s.procs i h c cs
        → Advances s
    free-Advances s i h c cs one f g e = elim (Kind-cases (d.kind c)) [
      | inl k ↦
          let (lock', a) = sem.acquire-free s.lock 0 one in
          (_, takes i e k a, fewer s i h true c cs e)
      | inr (inl k) ↦ let holds : h ≡ true = (Guarded-releases d h c cs k g).0 in cc
      | inr (inr k) ↦ (_, makes i e k, fewer s i h h c cs e)
    ]

    -- While a call is left, some process makes one.
    Inv-Advances : (s : System E sem) → Inv d sem s → 0 < left s.procs → Advances s
    Inv-Advances s v some_left = elim (ℕ-cases (holders s.procs)) [
      | inl none_in ↦
          let (i, h, c, cs, e) = left-Busy s.procs some_left in
          free-Advances s i h c cs (omega (arith, v.one))
            (outside h (omega (arith, total-get (λ (p : Process E). weight p.held) s.procs i _ e)))
            (get-Guarded d s.procs i _ v.guarded e) e
      | inr one_in ↦
          let (i, c, cs, e) = holders-Holding s.procs v.guarded one_in in
          holder-Advances s i c cs (get-Guarded d s.procs i _ v.guarded e) e
    ]

    -- Where no call is left nobody holds the lock.
    over-free : (s : System E sem) → Inv d sem s → left s.procs ≡ 0 → sem.free s.lock ≡ 1
    over-free s v q = elim (ℕ-cases (holders s.procs)) [
      | inl none_in ↦ omega (arith, v.one)
      | inr one_in ↦
          let (i, c, cs, e) = holders-Holding s.procs v.guarded one_in in
          absurd (omega (arith, total-get (λ (p : Process E). length p.calls) s.procs i _ e))
    ]

    Inv-Finishes :
        (n : ℕ) (s : System E sem) → left s.procs ≡ n → Inv d sem s → Finishes d sem Starts s
    Inv-Finishes zero s q v = (s, here, q, over-free s v q)
    Inv-Finishes (suc n) s q v =
        let (s', st, less) = Inv-Advances s v (omega arith) in
        let (t, sts, over, free) =
          Inv-Finishes n s' (omega arith) (Step-Inv d sem Starts keeps st v) in
        (t, also st sts, over, free)

    -- Every reachable state finishes.
    pub Reach-Finishes :
        {n : ℕ} {s : System E sem} → Reach d sem Starts n s → Finishes d sem Starts s
    Reach-Finishes {n} {s} r = Inv-Finishes (left s.procs) s refl (Reach-Inv d sem Starts keeps r)
