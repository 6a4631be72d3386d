-- ===== src/Tty/Table/Lifetime.antt =====
-- The table of ports from loading to unloading.
use ldd3_examples.Common.{
  ℕ, zero, suc, ◌+◌, ◌≤◌, ◌<◌, ◌≡◌, refl, List, [], ◌∷◌, Option, none, some, length, arith,
}
use ldd3_examples.Tty.Port.Invariant.{count, IsSound}
use ldd3_examples.Tty.Port.History.{
  Port, Event, opens, closes, fires, Supplied, Serves, step, users, step-Serves, calls,
}
use ldd3_examples.Tty.Driver.{tiny_tty_minors, tiny_exit}
use ldd3_examples.Tty.Driver.Exit.{AllReady, all_null, all_owned, Emptied, tiny_exit-Emptied}
use ldd3_examples.Tty.Table.{
  put_first, put_back, step_at, run_table, fresh_ports, slots, users_at, users_of,
}

-- Every port is sound and has its number of users.
abbrev pub AllServe : List ℕ → List Port → Type 0
AllServe [] [] = Unit {0}
AllServe (n ∷ ns) (p ∷ ps) = ((count p.slot ≡ n) × IsSound p.slot p.pending) × AllServe ns ps
AllServe _ _ = ⊥

abbrev pub TableServes : List ℕ → Option (List Port) → Type 0
TableServes ns none = ⊥
TableServes ns (some ps) = AllServe ns ps

-- Every open of any port is given its memory, and every write of any has its bytes.
abbrev pub AllSupplied : List (ℕ × Event) → Type 0
AllSupplied [] = Unit {0}
AllSupplied ((i, e) ∷ es) = Supplied (e ∷ []) × AllSupplied es

put_first-Serves :
    (n : ℕ) (ns : List ℕ) (o : Option Port) (ps : List Port)
    → Serves n o
    → AllServe ns ps
    → TableServes (n ∷ ns) (put_first ps o)
put_first-Serves n ns none ps v w = v
put_first-Serves n ns (some p) ps v w = (v, w)

put_back-Serves :
    (n : ℕ) (ns : List ℕ) (p : Port) (o : Option (List Port))
    → Serves n (some p)
    → TableServes ns o
    → TableServes (n ∷ ns) (put_back p o)
put_back-Serves n ns p none v w = w
put_back-Serves n ns p (some ps) v w = (v, w)

step_at-Serves :
    (i : ℕ) (e : Event) (ns : List ℕ) (ps : List Port)
    → Supplied (e ∷ [])
    → AllServe ns ps
    → TableServes (users_at i e ns) (step_at i e ps)
unfolding step_at users_at
step_at-Serves i e [] [] s v = tt
step_at-Serves i e [] (p ∷ ps) s v = absurd v
step_at-Serves i e (n ∷ ns) [] s v = absurd v
step_at-Serves zero e (n ∷ ns) (p ∷ ps) s ((c, h), v) =
    put_first-Serves (users (e ∷ []) n) ns (step e p) ps (rw (← c) (step-Serves e p s h)) v
step_at-Serves (suc i) e (n ∷ ns) (p ∷ ps) s (h, v) =
    put_back-Serves n (users_at i e ns) p (step_at i e ps) h (step_at-Serves i e ns ps s v)

abbrev resume : List (ℕ × Event) → Option (List Port) → Option (List Port)
resume es none = none
resume es (some qs) = run_table es qs

run_table-resume :
    (i : ℕ) (e : Event) (es : List (ℕ × Event)) (ps : List Port)
    → run_table ((i, e) ∷ es) ps ≡ resume es (step_at i e ps)
unfolding run_table
run_table-resume i e es ps = ground arith

run_table-onwards :
    (es : List (ℕ × Event)) (ns : List ℕ) (o : Option (List Port))
    → AllSupplied es
    → TableServes ns o
    → TableServes (users_of es ns) (resume es o)
unfolding users_of
run_table-onwards es ns none s v = absurd v
run_table-onwards [] ns (some ps) s v = unfold run_table in v
run_table-onwards ((i, e) ∷ es) ns (some ps) (s, rest) v =
    rw (run_table-resume i e es ps)
      (run_table-onwards es (users_at i e ns) (step_at i e ps) rest (step_at-Serves i e ns ps s v))

abbrev pub zeros : ℕ → List ℕ
zeros zero = []
zeros (suc n) = 0 ∷ zeros n

fresh_ports-Serve : (n : ℕ) → AllServe (zeros n) (fresh_ports n)
fresh_ports-Serve zero = tt
fresh_ports-Serve (suc n) = ((refl, refl), fresh_ports-Serve n)

-- No port has more users than there were events.
abbrev AllBelow : ℕ → List ℕ → Type 0
AllBelow b [] = Unit {0}
AllBelow b (n ∷ ns) = (n ≤ b) × AllBelow b ns

AllBelow-mono : (b c : ℕ) (ns : List ℕ) → b ≤ c → AllBelow b ns → AllBelow c ns
AllBelow-mono b c [] h v = tt
AllBelow-mono b c (n ∷ ns) h (l, v) = (omega arith, AllBelow-mono b c ns h v)

users-le : (e : Event) (n : ℕ) → users (e ∷ []) n ≤ n + 1
unfolding users
users-le (opens k) n = omega arith
users-le closes n = omega arith
users-le (fires j h) n = omega arith
users-le (calls c) n = omega arith

users_at-Below :
    (i : ℕ) (e : Event) (b : ℕ) (ns : List ℕ) → AllBelow b ns → AllBelow (b + 1) (users_at i e ns)
unfolding users_at
users_at-Below i e b [] v = tt
users_at-Below zero e b (n ∷ ns) (l, v) =
    (omega (arith, users-le e n), AllBelow-mono b (b + 1) ns (omega arith) v)
users_at-Below (suc i) e b (n ∷ ns) (l, v) = (omega arith, users_at-Below i e b ns v)

users_of-Below :
    (es : List (ℕ × Event)) (b : ℕ) (ns : List ℕ)
    → AllBelow b ns
    → AllBelow (b + length es) (users_of es ns)
unfolding users_of
users_of-Below [] b ns v = AllBelow-mono b _ ns (omega arith) v
users_of-Below ((i, e) ∷ es) b ns v =
    AllBelow-mono _ _ _ (omega arith) (users_of-Below es (b + 1) _ (users_at-Below i e b ns v))

zeros-Below : (n : ℕ) → AllBelow 0 (zeros n)
zeros-Below zero = tt
zeros-Below (suc n) = (omega arith, zeros-Below n)

slots-Ready :
    (fuel b : ℕ) (ns : List ℕ) (ps : List Port)
    → b < fuel
    → AllBelow b ns
    → AllServe ns ps
    → AllReady fuel (slots ps)
slots-Ready fuel b [] [] h l v = tt
slots-Ready fuel b [] (p ∷ ps) h l v = absurd v
slots-Ready fuel b (n ∷ ns) [] h l v = absurd v
slots-Ready fuel b (n ∷ ns) (p ∷ ps) h (le, l) ((c, s), v) =
    ((p.pending, s), omega arith, slots-Ready fuel b ns ps h l v)

-- The table as it is, and what tiny_exit then makes of it.
abbrev pub Lives : (fuel : ℕ) → List ℕ → Option (List Port) → Type 0
Lives fuel ns none = ⊥
Lives fuel ns (some ps) =
    AllServe ns ps
    × Emptied (tiny_exit fuel (slots ps)) (all_null (slots ps)) (all_owned (slots ps))

-- Over any history of opens, closes, timer runs and calls of every other function of serial_ops on the
-- four ports, in any order, in which every allocation succeeds and every write's buffer has the bytes
-- that it counts, no call faults, each port's open_count is the number of its own users, and its timer
-- is set, and allocated, exactly while there is one. With more fuel than there were events, tiny_exit
-- then ends, leaves every entry NULL, frees each object and each timer once, and never gives back the
-- tty driver.
pub run_table-Lives :
    (fuel : ℕ) (es : List (ℕ × Event))
    → AllSupplied es
    → length es < fuel
    → Lives fuel (users_of es (zeros tiny_tty_minors)) (run_table es (fresh_ports tiny_tty_minors))
run_table-Lives fuel es s h = live (run_table es (fresh_ports tiny_tty_minors)) (
    run_table-onwards es (zeros tiny_tty_minors) (some (fresh_ports tiny_tty_minors)) s
      (fresh_ports-Serve tiny_tty_minors))
  where
    ns : List ℕ
    ns = users_of es (zeros tiny_tty_minors)

    live : (o : Option (List Port)) → TableServes ns o → Lives fuel ns o
    live none v = absurd v
    live (some ps) v = (
      v,
      tiny_exit-Emptied fuel (slots ps) (
          slots-Ready fuel (0 + length es) ns ps (omega arith)
            (users_of-Below es 0 (zeros tiny_tty_minors) (zeros-Below tiny_tty_minors)) v),
    )
