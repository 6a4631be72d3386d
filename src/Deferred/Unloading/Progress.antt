-- ===== src/Deferred/Unloading/Progress.antt =====
-- That the modules of ex15.c, ex16.c and ex17.c can always be unloaded.
use ldd3_examples.Common.{
  Steps, here, also, join, ℕ, Bool, true, false, ◌≡◌, ◌≢◌, refl, sym, subst, inr, List, [], ◌∷◌,
  Option, none, some,
}
use ldd3_examples.Deferred.{Call, my_timer_function, my_workqueue_handler}
use ldd3_examples.Deferred.Unloading.{
  Kind, queues, cancels, drains, awaits, other, kind, Module, Example, ex15, ex16, ex17, ex18,
  module_of, Stage, loading, live, leaving, gone, System, Effect, Step, fires, handles, finishes,
  loads, lives, leaves, exits, frees, Reach, starts, next,
}

-- The handler waits for nothing and queues nothing.
abbrev IsPlain : List Call → Type 0
IsPlain [] = Unit {0}
IsPlain (c ∷ cs) = (kind c ≡ other) × IsPlain cs

abbrev Runs : Option (List Call) → Type 0
Runs none = Unit {0}
Runs (some cs) = IsPlain cs

module _ (smp : Bool) (m : Module) where
  abbrev quiet : Stage → System
  quiet stage = record { queued = false; handler = none; stage = stage }

  -- A call that is made while the handler is quiet returns.
  effect : (k : Kind) (stage : Stage) → (after : Bool) × Effect smp k (quiet stage) after
  effect queues stage = (true, refl)
  effect cancels stage = (false, refl)
  effect drains stage = (false, (refl, refl, refl))
  effect awaits stage = (false, (inr refl, refl))
  effect other stage = (false, refl)

  -- A running handler comes to its end.
  ends :
      (q : Bool) (stage : Stage) (cs : List Call)
      → IsPlain cs
      → Steps
          (Step smp m)
          (record { queued = q; handler = some cs; stage = stage })
          (record { queued = q; handler = none; stage = stage })
  ends q stage [] h = also (finishes refl) here
  ends q stage (c ∷ cs) h =
      also
        (handles c cs q refl (
          subst
            (λ (k : Kind).
              Effect smp k (record { queued = q; handler = some (c ∷ cs); stage = stage }) q)
            (sym h.0) refl))
        (ends q stage cs h.1)

  module _ (plain : IsPlain m.handler) where
    -- A queued handler is run.
    settles :
        (q : Bool) (stage : Stage)
        → Steps (Step smp m) (record { queued = q; handler = none; stage = stage }) (quiet stage)
    settles false stage = here
    settles true stage = also (fires refl refl) (ends false stage m.handler plain)

    calms :
        (q : Bool) (h : Option (List Call)) (stage : Stage)
        → Runs h
        → Steps (Step smp m) (record { queued = q; handler = h; stage = stage }) (quiet stage)
    calms q none stage r = settles q stage
    calms q (some cs) stage r = join (ends q stage cs r) (settles q stage)

    exits_all : (cs : List Call) → Steps (Step smp m) (quiet (leaving cs)) (quiet gone)
    exits_all [] = also (frees refl) here
    exits_all (c ∷ cs) =
        let (after, e) = effect (kind c) (leaving (c ∷ cs)) in
        also (exits c cs after refl e) (join (settles after (leaving cs)) (exits_all cs))

    loads_all : (cs : List Call) → Steps (Step smp m) (quiet (loading cs)) (quiet gone)
    loads_all [] = also (lives refl) (also (leaves refl) (exits_all m.exit))
    loads_all (c ∷ cs) =
        let (after, e) = effect (kind c) (loading (c ∷ cs)) in
        also (loads c cs after refl e) (join (settles after (loading cs)) (loads_all cs))

    goes : (stage : Stage) → Steps (Step smp m) (quiet stage) (quiet gone)
    goes (loading cs) = loads_all cs
    goes live = also (leaves refl) (exits_all m.exit)
    goes (leaving cs) = exits_all cs
    goes gone = here

    Step-Runs : {s t : System} → Step smp m s t → Runs s.handler → Runs t.handler
    Step-Runs (fires q h) r = plain
    Step-Runs (handles c cs after h e) r = (subst (λ (o : Option (List Call)). Runs o) h r).1
    Step-Runs (finishes h) r = tt
    Step-Runs (loads c cs after at e) r = r
    Step-Runs (lives at) r = r
    Step-Runs (leaves at) r = r
    Step-Runs (exits c cs after at e) r = r
    Step-Runs (frees at) r = r

    Reach-Runs : {s : System} → Reach smp m s → Runs s.handler
    Reach-Runs starts = tt
    Reach-Runs (next r st) = Step-Runs st (Reach-Runs r)

example-IsPlain : (j hz : ℕ) (e : Example) → e ≢ ex18 → IsPlain (module_of j hz e).handler
unfolding my_timer_function my_workqueue_handler
example-IsPlain j hz ex15 n = tt
example-IsPlain j hz ex16 n = (refl, tt)
example-IsPlain j hz ex17 n = (refl, tt)
example-IsPlain j hz ex18 n = absurd (n refl)

-- From every state that the module of ex15.c, ex16.c or ex17.c and its handler reach there are steps
-- after which the module is freed and its handler neither queued nor running.
pub Reach-unloads :
    (smp : Bool) (j hz : ℕ) (e : Example) (s : System)
    → e ≢ ex18
    → Reach smp (module_of j hz e) s
    → Steps
        (Step smp (module_of j hz e))
        s
        (record { queued = false; handler = none; stage = gone })
Reach-unloads smp j hz e s n r =
    let m = module_of j hz e in
    let plain = example-IsPlain j hz e n in
    join (calms smp m plain s.queued s.handler s.stage (Reach-Runs smp m plain r))
      (goes smp m plain s.stage)
