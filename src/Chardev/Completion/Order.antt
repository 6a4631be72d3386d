-- ===== src/Chardev/Completion/Order.antt =====
-- Any number of processes that read and write through day_03/ex9.c, a kernel call at a time. The
-- completion is a semaphore without a place to start with: complete gives one, and
-- wait_for_completion takes one.
use mathlib.Core.Option.{some-injective}
use ldd3_examples.Common.{
  ℕ, zero, suc, ◌+◌, ◌≤◌, ◌≡◌, refl, subst, List, [], ◌∷◌, some, get_elem?, set, done, arith,
}
use ldd3_examples.Kernel.Uaccess.{Uaccess}
use ldd3_examples.Kernel.Semaphore.{Semaphore}
use ldd3_examples.Chardev.Defs.{
  Call, Buffer, wait_for_completion, complete, copy_to_user, copy_from_user, copy_out, copy_in,
}
use ldd3_examples.Chardev.Completion.{read, write}

-- The waits and the copies to the user that a process is still to make.
abbrev pub waits : List Call → ℕ
waits [] = 0
waits (wait_for_completion ∷ cs) = suc (waits cs)
waits (_ ∷ cs) = waits cs

abbrev pub copies : List Call → ℕ
copies [] = 0
copies (copy_to_user n ∷ cs) = suc (copies cs)
copies (_ ∷ cs) = copies cs

abbrev pub total : (List Call → ℕ) → List (List Call) → ℕ
total f [] = 0
total f (p ∷ ps) = f p + total f ps

-- A process copies after it waits.
abbrev Ordered : List Call → Type 0
Ordered [] = Unit {0}
Ordered (c ∷ cs) = (waits (c ∷ cs) ≤ copies (c ∷ cs)) × Ordered cs

abbrev AllOrdered : List (List Call) → Type 0
AllOrdered [] = Unit {0}
AllOrdered (p ∷ ps) = Ordered p × AllOrdered ps

total-set :
    (f : List Call → ℕ) (ps : List (List Call)) (i : ℕ) (p q : List Call)
    → get_elem? ps i ≡ some p
    → total f (set ps i q) + f p ≡ total f ps + f q
total-set f [] i p q e = cc
total-set f (x ∷ ps) zero p q e = ground arith
total-set f (x ∷ ps) (suc i) p q e = omega (arith, total-set f ps i p q e)

get-Ordered :
    (ps : List (List Call)) (i : ℕ) (p : List Call)
    → AllOrdered ps
    → get_elem? ps i ≡ some p
    → Ordered p
get-Ordered [] i p g e = cc
get-Ordered (x ∷ ps) zero p g e = subst (λ (q : List Call). Ordered q) (some-injective _ _ e) g.0
get-Ordered (x ∷ ps) (suc i) p g e = get-Ordered ps i p g.1 e

set-AllOrdered :
    (ps : List (List Call)) (i : ℕ) (p : List Call)
    → AllOrdered ps
    → Ordered p
    → AllOrdered (set ps i p)
set-AllOrdered [] i p g h = tt
set-AllOrdered (x ∷ ps) zero p g h = (h, g.1)
set-AllOrdered (x ∷ ps) (suc i) p g h = (g.0, set-AllOrdered ps i p g.1 h)

Ordered-le : (p : List Call) → Ordered p → waits p ≤ copies p
Ordered-le [] o = omega arith
Ordered-le (c ∷ cs) o = o.0

AllOrdered-le : (ps : List (List Call)) → AllOrdered ps → total waits ps ≤ total copies ps
AllOrdered-le [] o = omega arith
AllOrdered-le (p ∷ ps) o = omega (arith, Ordered-le p o.0, AllOrdered-le ps o.1)

-- All processes idle.
abbrev pub idles : ℕ → List (List Call)
idles zero = []
idles (suc n) = [] ∷ idles n

idles-total : (f : List Call → ℕ) (n : ℕ) → f [] ≡ 0 → total f (idles n) ≡ 0
idles-total f zero e = refl
idles-total f (suc n) e = omega (arith, idles-total f n e)

idles-AllOrdered : (n : ℕ) → AllOrdered (idles n)
idles-AllOrdered zero = tt
idles-AllOrdered (suc n) = (tt, idles-AllOrdered n)

module _ (u : Uaccess) (buffer : Buffer) (user : List ℕ) (count : ℕ) (t : List Call) where
  read-Ordered :
      (r : List ℕ × ℕ)
      → read u buffer user count ≡ done t r
      → Ordered t × (waits t ≡ 1) × (copies t ≡ 1)
  unfolding read copy_out
  read-Ordered r e = ground arith

  write-Ordered :
      (r : Buffer × ℕ)
      → write u buffer user count ≡ done t r
      → Ordered t × (waits t ≡ 0) × (copies t ≡ 0)
  unfolding write copy_in
  write-Ordered r e = ground arith

module _ (u : Uaccess) (sem : Semaphore) where
  -- The completion, how many reads have copied, how many writes have completed, and the calls that
  -- each process is still to make.
  pub record System : Type 0 where
    pub completion : sem.State
    pub copied : ℕ
    pub completed : ℕ
    pub procs : List (List Call)

  pub data Step : System → System → Type 0 where
    reads :
        {s : System} (i : ℕ) (buffer : Buffer) (user : List ℕ) (count : ℕ) {t : List Call}
        {r : List ℕ × ℕ}
        → get_elem? s.procs i ≡ some []
        → read u buffer user count ≡ done t r
        → Step s (record s { procs = set s.procs i t })
    writes :
        {s : System} (i : ℕ) (buffer : Buffer) (user : List ℕ) (count : ℕ) {t : List Call}
        {r : Buffer × ℕ}
        → get_elem? s.procs i ≡ some []
        → write u buffer user count ≡ done t r
        → Step s (record s { procs = set s.procs i t })
    passes :
        {s : System} (i : ℕ) {cs : List Call} {after : sem.State}
        → get_elem? s.procs i ≡ some (wait_for_completion ∷ cs)
        → sem.acquire s.completion ≡ some after
        → Step s (record s { completion = after; procs = set s.procs i cs })
    copies_out :
        {s : System} (i : ℕ) {n : ℕ} {cs : List Call}
        → get_elem? s.procs i ≡ some (copy_to_user n ∷ cs)
        → Step s (record s { copied = suc s.copied; procs = set s.procs i cs })
    copies_in :
        {s : System} (i : ℕ) {n : ℕ} {cs : List Call}
        → get_elem? s.procs i ≡ some (copy_from_user n ∷ cs)
        → Step s (record s { procs = set s.procs i cs })
    completes :
        {s : System} (i : ℕ) {cs : List Call}
        → get_elem? s.procs i ≡ some (complete ∷ cs)
        → Step s (record s {
          completion = sem.release s.completion;
          completed = suc s.completed;
          procs = set s.procs i cs;
        })

  pub data Reach (n : ℕ) : System → Type 0 where
    start : Reach n (record { completion = sem.init 0; copied = 0; completed = 0; procs = idles n })
    later : {s t : System} → Reach n s → Step s t → Reach n t

  record Inv (s : System) : Type 0 where
    balance :
        s.copied + total copies s.procs + sem.free s.completion ≡ s.completed + total waits s.procs
    ordered : AllOrdered s.procs

  Step-Inv : {s t : System} → Step s t → Inv s → Inv t
  Step-Inv (reads {s} i buffer user count {t} {r} e m) v =
      let o = read-Ordered u buffer user count t r m in
      record {
        balance = omega (
          arith,
          v.balance,
          total-set copies s.procs i [] t e,
          total-set waits s.procs i [] t e,
          o.1,
          o.2,
        );
        ordered = set-AllOrdered s.procs i t v.ordered o.0;
      }
  Step-Inv (writes {s} i buffer user count {t} {r} e m) v =
      let o = write-Ordered u buffer user count t r m in
      record {
        balance = omega (
          arith,
          v.balance,
          total-set copies s.procs i [] t e,
          total-set waits s.procs i [] t e,
          o.1,
          o.2,
        );
        ordered = set-AllOrdered s.procs i t v.ordered o.0;
      }
  Step-Inv (passes {s} i {cs} {after} e a) v = record {
    balance = omega (
      arith,
      v.balance,
      total-set copies s.procs i _ cs e,
      total-set waits s.procs i _ cs e,
      sem.free-acquire s.completion after a,
    );
    ordered = set-AllOrdered s.procs i cs v.ordered (get-Ordered s.procs i _ v.ordered e).1;
  }
  Step-Inv (copies_out {s} i {n} {cs} e) v = record {
    balance =
        omega
          (arith, v.balance, total-set copies s.procs i _ cs e, total-set waits s.procs i _ cs e);
    ordered = set-AllOrdered s.procs i cs v.ordered (get-Ordered s.procs i _ v.ordered e).1;
  }
  Step-Inv (copies_in {s} i {n} {cs} e) v = record {
    balance =
        omega
          (arith, v.balance, total-set copies s.procs i _ cs e, total-set waits s.procs i _ cs e);
    ordered = set-AllOrdered s.procs i cs v.ordered (get-Ordered s.procs i _ v.ordered e).1;
  }
  Step-Inv (completes {s} i {cs} e) v = record {
    balance = omega (
      arith,
      v.balance,
      total-set copies s.procs i _ cs e,
      total-set waits s.procs i _ cs e,
      sem.free-release s.completion,
    );
    ordered = set-AllOrdered s.procs i cs v.ordered (get-Ordered s.procs i _ v.ordered e).1;
  }

  Reach-Inv : {n : ℕ} {s : System} → Reach n s → Inv s
  Reach-Inv {n} start = record {
    balance = omega (arith, sem.free-init 0, idles-total copies n refl, idles-total waits n refl);
    ordered = idles-AllOrdered n;
  }
  Reach-Inv (later r st) = Step-Inv st (Reach-Inv r)

  -- In every reachable state no more reads have copied the buffer to their users than writes have
  -- completed.
  pub copied-le_completed : {n : ℕ} {s : System} → Reach n s → s.copied ≤ s.completed
  copied-le_completed {n} {s} r =
      let v = Reach-Inv r in omega (arith, v.balance, AllOrdered-le s.procs v.ordered)
