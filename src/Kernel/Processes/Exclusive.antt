-- ===== src/Kernel/Processes/Exclusive.antt =====
-- Mutual exclusion for processes that keep to the discipline of a lock.
use ldd3_examples.Common.{
  ℕ, ◌+◌, ◌≡◌, ap, Bool, true, false, List, ◌∷◌, some, get_elem?, set, arith,
}
use ldd3_examples.Kernel.Semaphore.{Semaphore}
use ldd3_examples.Kernel.Processes.{
  Discipline, Process, System, Guarded, Step, begins, takes, gives, makes, Reach, start, later,
}
use ldd3_examples.Kernel.Processes.Holders.{
  Guarded-acquires, Guarded-releases, Guarded-other, AllGuarded, get-Guarded, set-AllGuarded,
  idles-AllGuarded, weight, total-set, holders, holders-idles, holders_unique,
}

-- The lock's free places and the processes in it make one; every process keeps to the discipline.
pub record Inv {E : Type 0} (d : Discipline E) (sem : Semaphore) (s : System E sem) : Type 0 where
  pub one : sem.free s.lock + holders s.procs ≡ 1
  pub guarded : AllGuarded d s.procs

module _ {E : Type 0} (d : Discipline E) (sem : Semaphore) (Starts : List E → Type 0)
    (keeps : (t : List E) → Starts t → Guarded d false t) where
  -- The holders after process `i` has become `q`.
  abbrev changed :
      (s : System E sem) (i : ℕ) (p q : Process E)
      → get_elem? s.procs i ≡ some p
      → holders (set s.procs i q) + weight p.held ≡ holders s.procs + weight q.held
  changed s i p q e = total-set (λ (r : Process E). weight r.held) s.procs i p q e

  pub Step-Inv : {s t : System E sem} → Step d sem Starts s t → Inv d sem s → Inv d sem t
  Step-Inv (begins {s} i {t} e b) v = record {
    one = omega (arith, changed s i _ (record { held = false; calls = t }) e, v.one);
    guarded = set-AllGuarded d s.procs i _ v.guarded (keeps t b);
  }
  Step-Inv (takes {s} i {h} {c} {cs} {lock'} e k a) v =
      let g = Guarded-acquires d h c cs k (get-Guarded d s.procs i _ v.guarded e) in
      record {
        one = omega (
          arith,
          changed s i _ (record { held = true; calls = cs }) e,
          v.one,
          sem.free-acquire s.lock lock' a,
          ap weight g.0,
        );
        guarded = set-AllGuarded d s.procs i _ v.guarded g.1;
      }
  Step-Inv (gives {s} i {h} {c} {cs} e k) v =
      let g = Guarded-releases d h c cs k (get-Guarded d s.procs i _ v.guarded e) in
      record {
        one = omega (
          arith,
          changed s i _ (record { held = false; calls = cs }) e,
          v.one,
          sem.free-release s.lock,
          ap weight g.0,
        );
        guarded = set-AllGuarded d s.procs i _ v.guarded g.1;
      }
  Step-Inv (makes {s} i {h} {c} {cs} e k) v =
      let g = Guarded-other d h c cs k (get-Guarded d s.procs i _ v.guarded e) in
      record {
        one = omega (arith, changed s i _ (record { held = h; calls = cs }) e, v.one);
        guarded = set-AllGuarded d s.procs i _ v.guarded g.1;
      }

  pub Reach-Inv : {n : ℕ} {s : System E sem} → Reach d sem Starts n s → Inv d sem s
  Reach-Inv {n} start = record {
    one = omega (arith, sem.free-init 1, holders-idles E n);
    guarded = idles-AllGuarded d n;
  }
  Reach-Inv (later r st) = Step-Inv st (Reach-Inv r)

  -- In no reachable state do two processes stand at critical calls.
  pub critical_unique :
      {n : ℕ} {s : System E sem}
      → Reach d sem Starts n s
      → (i j : ℕ) {h h' : Bool} {c c' : E} {cs cs' : List E}
      → get_elem? s.procs i ≡ some (record { held = h; calls = c ∷ cs })
      → get_elem? s.procs j ≡ some (record { held = h'; calls = c' ∷ cs' })
      → d.IsCritical c
      → d.IsCritical c'
      → i ≡ j
  critical_unique {n} {s} r i j {h} {h'} {c} {c'} {cs} {cs'} e f k k' =
      holders_unique s.procs i j _ _ e f (inside i h c cs e k) (inside j h' c' cs' f k')
        (omega (arith, v.one))
    where
      v : Inv d sem s
      v = Reach-Inv r

      inside :
          (i : ℕ) (h : Bool) (c : E) (cs : List E)
          → get_elem? s.procs i ≡ some (record { held = h; calls = c ∷ cs })
          → d.IsCritical c
          → h ≡ true
      inside i h c cs e k =
          (Guarded-other d h c cs (d.critical-other c k) (get-Guarded d s.procs i _ v.guarded e)).0
            k
