-- ===== src/Deferred/Unloading/Stuck.antt =====
-- The tasklet of day_06/ex18.c, whose handler disables it, on a kernel for several processors, where
-- tasklet_disable waits until the handler is not running.
use ldd3_examples.Common.{
  ℕ, Bool, true, false, ◌≡◌, ◌≢◌, refl, subst, ◌⊎◌, inl, inr, List, [], ◌∷◌, Option, none, some,
}
use ldd3_examples.Deferred.{
  Call, tasklet_disable, tasklet_enable, tasklet_init_module, tasklet_exit_module,
  my_tasklet_handler,
}
use ldd3_examples.Deferred.Unloading.{
  Kind, queues, drains, kind, ex18, module_of, Stage, loading, live, leaving, gone, System, Effect,
  Step, fires, handles, finishes, loads, lives, leaves, exits, frees, Reach, starts, next,
}

-- The handler at its start.
abbrev pub at_disable : Option (List Call)
at_disable = some (tasklet_disable ∷ tasklet_enable ∷ [])

abbrev Held : System → Type 0
Held s = (s.queued ≡ true) ⊎ (s.handler ≡ at_disable)

-- From the end of the init on the tasklet is scheduled, or its handler has begun.
abbrev Kept : System → Stage → Type 0
Kept s (loading []) = Held s
Kept s (loading (c ∷ [])) = kind c ≡ queues
Kept s (loading (c ∷ d ∷ [])) = kind d ≡ queues
Kept s (loading _) = ⊥
Kept s live = Held s
Kept s (leaving []) = ⊥
Kept s (leaving (c ∷ cs)) = (kind c ≡ drains) × Held s
Kept s gone = ⊥

abbrev IsStuck : System → Type 0
IsStuck s = ((s.handler ≡ none) ⊎ (s.handler ≡ at_disable)) × Kept s s.stage

held-Kept : (s s' : System) (stage : Stage) → Held s' → Kept s stage → Kept s' stage
held-Kept s s' (loading []) h v = h
held-Kept s s' (loading (c ∷ [])) h v = v
held-Kept s s' (loading (c ∷ d ∷ [])) h v = v
held-Kept s s' (loading (c ∷ d ∷ e ∷ cs)) h v = v
held-Kept s s' live h v = h
held-Kept s s' (leaving []) h v = v
held-Kept s s' (leaving (c ∷ cs)) h v = (v.0, h)
held-Kept s s' gone h v = v

-- tasklet_disable does not return in the handler itself.
disable-waits :
    (c : Call) (cs : List Call) (s : System) (after : Bool)
    → s.handler ≡ some (c ∷ cs)
    → s.handler ≡ at_disable
    → ¬ (Effect true (kind c) s after)
disable-waits c cs s after h d e =
    off (subst (λ (c : Call). Effect true (kind c) s after) is_disable e).0
  where
    is_disable : c ≡ tasklet_disable
    is_disable = cc

    off : (true ≡ false) ⊎ (s.handler ≡ none) → ⊥
    off (inl t) = cc
    off (inr n) = cc

load-Kept :
    (c : Call) (cs : List Call) (s : System) (after : Bool)
    → Effect true (kind c) s after
    → Kept s (loading (c ∷ cs))
    → Kept (record s { queued = after; stage = loading cs }) (loading cs)
load-Kept c [] s after e v = inl (subst (λ (k : Kind). Effect true k s after) v e)
load-Kept c (d ∷ []) s after e v = v
load-Kept c (d ∷ d' ∷ cs) s after e v = absurd v

-- tasklet_kill does not return while the tasklet is scheduled or its handler runs.
kill-waits :
    (c : Call) (s : System) (after : Bool)
    → kind c ≡ drains
    → Held s
    → ¬ (Effect true (kind c) s after)
kill-waits c s after d (inl q) e = cc (q, (subst (λ (k : Kind). Effect true k s after) d e).0)
kill-waits c s after d (inr h) e = cc (h, (subst (λ (k : Kind). Effect true k s after) d e).1)

step-IsStuck :
    (j hz : ℕ) (s s' : System) → Step true (module_of j hz ex18) s s' → IsStuck s → IsStuck s'
unfolding my_tasklet_handler tasklet_exit_module
step-IsStuck j hz s s' (fires q h) (a, v) = (inr refl, held-Kept s s' s.stage (inr refl) v)
step-IsStuck j hz s s' (handles c cs after h e) (inl n, v) = absurd cc
step-IsStuck j hz s s' (handles c cs after h e) (inr d, v) =
    absurd (disable-waits c cs s after h d e)
step-IsStuck j hz s s' (finishes h) (inl n, v) = absurd cc
step-IsStuck j hz s s' (finishes h) (inr d, v) = absurd cc
step-IsStuck j hz s s' (loads c cs after at e) (a, v) =
    (a, load-Kept c cs s after e (subst (λ (st : Stage). Kept s st) at v))
step-IsStuck j hz s s' (lives at) (a, v) = (a, subst (λ (st : Stage). Kept s st) at v)
step-IsStuck j hz s s' (leaves at) (a, v) = (a, (refl, subst (λ (st : Stage). Kept s st) at v))
step-IsStuck j hz s s' (exits c cs after at e) (a, v) =
    absurd (kill-waits c s after left.0 left.1 e)
  where
    left : Kept s (leaving (c ∷ cs))
    left = subst (λ (st : Stage). Kept s st) at v
step-IsStuck j hz s s' (frees at) (a, v) = absurd (subst (λ (st : Stage). Kept s st) at v)

Reach-IsStuck : (j hz : ℕ) (s : System) → Reach true (module_of j hz ex18) s → IsStuck s
unfolding tasklet_init_module
Reach-IsStuck j hz s starts = (inl refl, refl)
Reach-IsStuck j hz s' (next {s} r step) = step-IsStuck j hz s s' step (Reach-IsStuck j hz s r)

-- On a kernel for several processors no reachable state of ex18.c's module has its handler past the
-- first call, which disables the tasklet that it runs in, and in none is the module freed.
pub tasklet-stuck :
    (j hz : ℕ) (s : System)
    → Reach true (module_of j hz ex18) s
    → ((s.handler ≡ none) ⊎ (s.handler ≡ at_disable)) × (s.stage ≢ gone)
tasklet-stuck j hz s r = (
  (Reach-IsStuck j hz s r).0,
  λ at. subst (λ (st : Stage). Kept s st) at (Reach-IsStuck j hz s r).1,
)
