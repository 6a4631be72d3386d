-- ===== src/Chardev/Atomic/Linear.antt =====
-- Reads and writes of ex7.c, ex8.c and ex11.c that run at the same time give what some order of them
-- gives, in which each stands between its start and its end.
use mathlib.Core.Path.{subst}
use ldd3_examples.Common.{
  ◌≤◌, take, ◌-◌, take_front, take-take, length-take, replicate, ℕ, suc, ◌≡◌, ◌≢◌, ◌<◌, refl, sym,
  ap, ◌∙◌, true, false, List, [], ◌∷◌, ◌++◌, some, get_elem?, set, length, length-append, arith,
}
use ldd3_examples.Kernel.Uaccess.{Uaccess}
use ldd3_examples.Kernel.Processes.{acquires, releases}
use ldd3_examples.Chardev.Defs.{Call, copy_to_user, copy_from_user}
use ldd3_examples.Chardev.Drivers.{Driver}
use ldd3_examples.Chardev.Exclusion.{kind}
use ldd3_examples.Chardev.Exclusion.Safety.{Locked}
use ldd3_examples.Chardev.Seqlock.Torn.{mix}
use ldd3_examples.Chardev.Seqlock.Torn.Mixed.{set-mix, take-suc, length-mix}
use ldd3_examples.Chardev.Atomic.{
  Process, System, Step, reads, writes, takes, shows, has_shown, puts, has_put, stops, gives, Reach,
  start, later, Sequential, unused, then_wrote, then_gave, gave, wrote,
}
use ldd3_examples.Chardev.Atomic.Others.{get_at, set-AllBut, set_back-All}
use ldd3_examples.Chardev.Atomic.Phases.{
  Outside, rests, is_reading, is_writing, will_leave, read_of-Outside, write_of-Outside,
  Inside-reads, Inside-writes, Inside-leaves,
}
use ldd3_examples.Chardev.Atomic.Holder.{
  idles-All, get_elem-lt, Outside-Inside, Holder, Inv, free, held, Inv-length, begun-Inv, has_lock,
}

-- What has been put stays what it was where the copy stops.
mix-padded :
    (k m : ℕ) (source base : List ℕ)
    → k ≤ length source
    → mix k source base ≡ mix k (take k source ++ replicate m 0) base
mix-padded k m source base h =
    let front : k ≤ length (take k source) = omega (arith, length-take k source) in
    rw (take_front k (take k source) (replicate m 0) front, take-take k k source (omega arith))

-- A step of the process that has the lock.
module _ (b : List ℕ) (s : System) (i : ℕ) (p : Process) (h : Holder b s i p) where
  abbrev IsOut : Process → Type 0
  IsOut = Outside (length b)

  shows-Inv :
      (n c : ℕ) (cs : List Call)
      → p.calls ≡ copy_to_user n ∷ cs
      → get_elem? s.content (length p.shown) ≡ some c
      → Inv b (record s { procs = set s.procs i (record p { shown = p.shown ++ c ∷ [] }) })
  shows-Inv n c cs e is =
      let (z, last, k, same, shown) = Inside-reads (length b) h.base s.content p n cs h.inside e in
      let more : length (p.shown ++ c ∷ []) ≡ suc (length p.shown) =
        omega (arith, length-append p.shown (c ∷ [])) in
      held i (record p { shown = p.shown ++ c ∷ [] })
        (record {
          base = h.base;
          sequential = h.sequential;
          sized = h.sized;
          taken = h.taken;
          there = get_at s.procs i _ p h.there;
          inside = is_reading z n (rw last at e) k same (
              rw more (
                ap (λ (x : List ℕ). x ++ c ∷ []) shown
                ∙ take-suc (length p.shown) c h.base (rw same at is)));
          others = set-AllBut IsOut s.procs i _ h.others;
        })

  has_shown-Inv :
      (n : ℕ) (cs : List Call)
      → p.calls ≡ copy_to_user n ∷ cs
      → Inv b
          (record s { procs = set s.procs i (record p { calls = cs }); log = gave p.shown ∷ s.log })
  has_shown-Inv n cs e =
      let (z, last, k, same, shown) = Inside-reads (length b) h.base s.content p n cs h.inside e in
      held i (record p { calls = cs })
        (record {
          base = h.base;
          sequential =
              subst (λ (x : List ℕ). Sequential b (gave x ∷ s.log) h.base) (sym shown)
                (then_gave (length p.shown) h.sequential);
          sized = h.sized;
          taken = h.taken;
          there = get_at s.procs i _ p h.there;
          inside = will_leave z last k same;
          others = set-AllBut IsOut s.procs i _ h.others;
        })

  puts-Inv :
      (n c : ℕ) (cs : List Call)
      → p.calls ≡ copy_from_user n ∷ cs
      → p.put < n
      → get_elem? p.source p.put ≡ some c
      → Inv b (record s {
        content = set s.content p.put c;
        procs = set s.procs i (record p { put = suc p.put });
      })
  puts-Inv n c cs e l is =
      let (z, last, k, same, given, _, room) =
        Inside-writes (length b) h.base s.content p n cs h.inside e in
      held i (record p { put = suc p.put })
        (record {
          base = h.base;
          sequential = h.sequential;
          sized = h.sized;
          taken = h.taken;
          there = get_at s.procs i _ p h.there;
          inside =
              is_writing z n (rw last at e) k
                (ap (λ (x : List ℕ). set x p.put c) same
                  ∙ set-mix p.put c p.source h.base is (omega (arith, h.sized)))
                (get_elem-lt p.source p.put c is) l room;
          others = set-AllBut IsOut s.procs i _ h.others;
        })

  stops-Inv :
      (n : ℕ) (cs : List Call)
      → p.calls ≡ copy_from_user n ∷ cs
      → Inv b (record s {
        procs =
            set s.procs i (record p { source = take p.put p.source ++ replicate (n - p.put) 0 });
      })
  stops-Inv n cs e =
      let (z, last, k, same, given, l, room) =
        Inside-writes (length b) h.base s.content p n cs h.inside e in
      held i (record p { source = take p.put p.source ++ replicate (n - p.put) 0 })
        (record {
          base = h.base;
          sequential = h.sequential;
          sized = h.sized;
          taken = h.taken;
          there = get_at s.procs i _ p h.there;
          inside =
              is_writing z n (rw last at e) k
                (same ∙ mix-padded p.put (n - p.put) p.source h.base given)
                (omega (
                  arith,
                  length-append (take p.put p.source) (replicate {A = ℕ} (n - p.put) 0),
                  length-take p.put p.source,
                ))
                l room;
          others = set-AllBut IsOut s.procs i _ h.others;
        })

  has_put-Inv :
      (n : ℕ) (cs : List Call)
      → p.calls ≡ copy_from_user n ∷ cs
      → Inv b (record s {
        procs = set s.procs i (record p { calls = cs });
        log = wrote p.put p.source ∷ s.log;
      })
  has_put-Inv n cs e =
      let (z, last, k, same, given, l, room) =
        Inside-writes (length b) h.base s.content p n cs h.inside e in
      held i (record p { calls = cs })
        (record {
          base = mix p.put p.source h.base;
          sequential = then_wrote p.put p.source h.sequential;
          sized = length-mix p.put p.source h.base given (omega (arith, h.sized)) ∙ h.sized;
          taken = h.taken;
          there = get_at s.procs i _ p h.there;
          inside = will_leave z last k same;
          others = set-AllBut IsOut s.procs i _ h.others;
        })

  gives-Inv :
      (c : Call) (cs : List Call)
      → p.calls ≡ c ∷ cs
      → kind c ≡ releases
      → Inv b (record s { taken = false; procs = set s.procs i (record p { calls = cs }) })
  gives-Inv c cs e k =
      let (last, same) = Inside-leaves (length b) h.base s.content p c cs h.inside e k in
      free (subst (Sequential b s.log) (sym same) h.sequential) (rw same h.sized) refl
        (set_back-All IsOut s.procs i _ h.others (rests last))

takes-Inv :
    (b : List ℕ) (s : System) (i : ℕ) (p : Process) (c : Call) (cs : List Call)
    → get_elem? s.procs i ≡ some p
    → p.calls ≡ c ∷ cs
    → s.taken ≡ false
    → Inv b s
    → Inv b (record s { taken = true; procs = set s.procs i (record p { calls = cs }) })
takes-Inv b s i p c cs e e' no_one (free l n t all) =
    held i (record p { calls = cs })
      (record {
        base = s.content;
        sequential = l;
        sized = n;
        taken = refl;
        there = get_at s.procs i _ p e;
        inside = Outside-Inside (length b) s.content p c cs (all i p e) e';
        others = set-AllBut (Outside (length b)) s.procs i _ (λ j x _ is. all j x is);
      })
takes-Inv b s i p c cs e e' no_one (held k q h) = let taken = h.taken in ground arith

not_acquires : (c : Call) → kind c ≡ releases → kind c ≢ acquires
not_acquires c k k' = ground arith

module _ (u : Uaccess) (d : Driver) (locked : Locked true d) (b : List ℕ) where
  Step-Inv : {s t : System} → Step u d s t → Inv b s → Inv b t
  Step-Inv (reads {s} i {p} user count {t} {r} e none run) v =
      begun-Inv b s i p e _ none
        (read_of-Outside u s.content user count t (length b) d r locked run) v
  Step-Inv (writes {s} i {p} user count {t} {r} e none run) v =
      begun-Inv b s i p e _ none
        (write_of-Outside u s.content user count t (length b) d r locked (Inv-length b s v) run) v
  Step-Inv (takes {s} i {p} {c} {cs} e calls k none) v = takes-Inv b s i p c cs e calls none v
  Step-Inv (shows {s} i {p} {n} {c} {cs} e calls l is) v =
      shows-Inv b s i p (has_lock b s i p e (copy_to_user n) cs calls (λ x. ground arith) v) n c cs
        calls is
  Step-Inv (has_shown {s} i {p} {n} {cs} e calls) v =
      has_shown-Inv b s i p (has_lock b s i p e (copy_to_user n) cs calls (λ x. ground arith) v) n
        cs calls
  Step-Inv (puts {s} i {p} {n} {c} {cs} e calls l is) v =
      puts-Inv b s i p (has_lock b s i p e (copy_from_user n) cs calls (λ x. ground arith) v) n c cs
        calls l is
  Step-Inv (stops {s} i {p} {n} {cs} e calls) v =
      stops-Inv b s i p (has_lock b s i p e (copy_from_user n) cs calls (λ x. ground arith) v) n cs
        calls
  Step-Inv (has_put {s} i {p} {cs} e calls) v =
      has_put-Inv b s i p (has_lock b s i p e (copy_from_user p.put) cs calls (λ x. ground arith) v)
        p.put cs calls
  Step-Inv (gives {s} i {p} {c} {cs} e calls k) v =
      gives-Inv b s i p (has_lock b s i p e c cs calls (not_acquires c k) v) c cs calls k

  Reach-Inv : (n : ℕ) {s : System} → Reach u d b n s → Inv b s
  Reach-Inv n start = free unused refl refl (idles-All (length b) n)
  Reach-Inv n (later r st) = Step-Inv st (Reach-Inv n r)

Inv-Sequential :
    (b : List ℕ) (s : System)
    → Inv b s
    → (base : List ℕ) × Sequential b s.log base × (s.taken ≡ false → s.content ≡ base)
Inv-Sequential b s (free l n t all) = (s.content, l, λ _. refl)
Inv-Sequential b s (held i p h) = let taken = h.taken in (h.base, h.sequential, λ e. ground arith)

-- Atomicity. In every state that any number of readers and writers of ex7.c, ex8.c or ex11.c reach,
-- byte by byte, where a copy from a user that stops early puts zeros for the rest, the copies that
-- have ended, in the order of their ends, are those of one copy after the other: each read has
-- given its user the front of what the writes before it left. While nobody has the lock, the buffer
-- holds what they leave.
pub Reach-atomic :
    (u : Uaccess) (d : Driver) (b : List ℕ)
    → Locked true d
    → {n : ℕ} {s : System} → Reach u d b n s
    → (base : List ℕ) × Sequential b s.log base × (s.taken ≡ false → s.content ≡ base)
Reach-atomic u d b locked {n} {s} r = Inv-Sequential b s (Reach-Inv u d locked b n r)
