-- ===== src/Deferred/Unloading/Quiet.antt =====
-- Which modules of day_06 can be freed under a handler that is still to run.
use ldd3_examples.Common.{
  ℕ, Bool, true, false, ◌≡◌, ◌≢◌, refl, subst, sym, ◌∙◌, ◌⊎◌, inl, inr, List, [], ◌∷◌, none,
}
use ldd3_examples.Deferred.{Call, own_queue_exit_module, tasklet_exit_module}
use ldd3_examples.Deferred.Unloading.{
  Kind, queues, cancels, drains, awaits, other, kind, Module, Example, ex15, ex16, ex17, ex18,
  module_of, Stage, loading, live, leaving, gone, System, Effect, Step, fires, handles, finishes,
  loads, lives, leaves, exits, frees, Reach, starts, next,
}

abbrev pub IsQuiet : System → Type 0
IsQuiet s = (s.queued ≡ false) × (s.handler ≡ none)

abbrev NeverQueues : List Call → Type 0
NeverQueues [] = Unit {0}
NeverQueues (c ∷ cs) = (kind c ≢ queues) × NeverQueues cs

-- An exit that first waits for the handler and then queues it no more.
abbrev Drains : List Call → Type 0
Drains [] = ⊥
Drains (c ∷ cs) = (kind c ≡ drains) × NeverQueues cs

-- What holds of a module with such an exit, by its stage.
abbrev Sound : List Call → System → Stage → Type 0
Sound exit s (loading cs) = Unit
Sound exit s live = Unit
Sound exit s (leaving cs) = (cs ≡ exit) ⊎ (IsQuiet s × NeverQueues cs)
Sound exit s gone = IsQuiet s

-- What the handler does, or has done to it, is of no matter to a module whose handler is not quiet.
awake-Sound :
    (exit : List Call) (s s' : System) (stage : Stage)
    → ¬ (IsQuiet s)
    → Sound exit s stage
    → Sound exit s' stage
awake-Sound exit s s' (loading cs) n v = tt
awake-Sound exit s s' live n v = tt
awake-Sound exit s s' (leaving cs) n (inl e) = inl e
awake-Sound exit s s' (leaving cs) n (inr (q, m)) = absurd (n q)
awake-Sound exit s s' gone n v = absurd (n v)

-- A call that does not queue the handler leaves it quiet.
Effect-after :
    (smp : Bool) (k : Kind) (s : System) (after : Bool)
    → k ≢ queues
    → IsQuiet s
    → Effect smp k s after
    → after ≡ false
Effect-after smp queues s after n q e = absurd (n refl)
Effect-after smp cancels s after n q e = e
Effect-after smp drains s after n q e = e.2
Effect-after smp awaits s after n q e = e.1 ∙ q.0
Effect-after smp other s after n q e = e ∙ q.0

-- A call that drains leaves it quiet.
drains-IsQuiet :
    (smp : Bool) (k : Kind) (s : System) (after : Bool)
    → k ≡ drains
    → Effect smp k s after
    → (after ≡ false) × (s.handler ≡ none)
drains-IsQuiet smp drains s after d e = (e.2, e.1)
drains-IsQuiet smp queues s after d e = cc
drains-IsQuiet smp cancels s after d e = cc
drains-IsQuiet smp awaits s after d e = cc
drains-IsQuiet smp other s after d e = cc

exit-Sound :
    (smp : Bool) (exit : List Call) (c : Call) (cs : List Call) (s : System) (after : Bool)
    → Drains exit
    → Effect smp (kind c) s after
    → Sound exit s (leaving (c ∷ cs))
    → Sound exit (record s { queued = after; stage = leaving cs }) (leaving cs)
exit-Sound smp exit c cs s after d e (inl whole) =
    inr (drains-IsQuiet smp (kind c) s after first.0 e, first.1)
  where
    first : Drains (c ∷ cs)
    first = subst (λ (cs : List Call). Drains cs) (sym whole) d
exit-Sound smp exit c cs s after d e (inr (q, n)) =
    inr ((Effect-after smp (kind c) s after n.0 q e, q.1), n.1)

freed-Sound : (exit : List Call) (s : System) → Drains exit → Sound exit s (leaving []) → IsQuiet s
freed-Sound exit s d (inl whole) = absurd (subst (λ (cs : List Call). Drains cs) (sym whole) d)
freed-Sound exit s d (inr (q, n)) = q

step-Sound :
    (smp : Bool) (m : Module) (s s' : System)
    → Drains m.exit
    → Step smp m s s'
    → Sound m.exit s s.stage
    → Sound m.exit s' s'.stage
step-Sound smp m s s' d (fires q h) v = awake-Sound m.exit s s' s.stage (λ quiet. cc) v
step-Sound smp m s s' d (handles c cs after h e) v = awake-Sound m.exit s s' s.stage (λ quiet. cc) v
step-Sound smp m s s' d (finishes h) v = awake-Sound m.exit s s' s.stage (λ quiet. cc) v
step-Sound smp m s s' d (loads c cs after at e) v = tt
step-Sound smp m s s' d (lives at) v = tt
step-Sound smp m s s' d (leaves at) v = inl refl
step-Sound smp m s s' d (exits c cs after at e) v =
    exit-Sound smp m.exit c cs s after d e (subst (λ (st : Stage). Sound m.exit s st) at v)
step-Sound smp m s s' d (frees at) v =
    freed-Sound m.exit s d (subst (λ (st : Stage). Sound m.exit s st) at v)

Reach-Sound :
    (smp : Bool) (m : Module) (s : System) → Drains m.exit → Reach smp m s → Sound m.exit s s.stage
Reach-Sound smp m s d starts = tt
Reach-Sound smp m s' d (next {s} r step) = step-Sound smp m s s' d step (Reach-Sound smp m s d r)

-- Whether the exit of an example waits for its handler.
abbrev pub exit_waits : Example → Bool
exit_waits ex15 = false
exit_waits ex16 = false
exit_waits ex17 = true
exit_waits ex18 = true

example-Drains : (j hz : ℕ) (e : Example) → exit_waits e ≡ true → Drains (module_of j hz e).exit
unfolding own_queue_exit_module tasklet_exit_module
example-Drains j hz ex15 w = absurd cc
example-Drains j hz ex16 w = absurd cc
example-Drains j hz ex17 w = (refl, (cc, tt))
example-Drains j hz ex18 w = (refl, tt)

-- Whatever the kernel runs in between, once the module of ex17.c or of ex18.c has been freed its
-- handler is neither queued nor running.
pub freed-IsQuiet :
    (smp : Bool) (j hz : ℕ) (e : Example) (s : System)
    → exit_waits e ≡ true
    → Reach smp (module_of j hz e) s
    → s.stage ≡ gone
    → IsQuiet s
freed-IsQuiet smp j hz e s w r at =
    subst (λ (st : Stage). Sound (module_of j hz e).exit s st) at
      (Reach-Sound smp (module_of j hz e) s (example-Drains j hz e w) r)
