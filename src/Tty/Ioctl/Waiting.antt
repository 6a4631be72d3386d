-- ===== src/Tty/Ioctl/Waiting.antt =====
-- What TIOCMIWAIT of day_12/ex29.c waits for, against a relation that says when it may return.
use mathlib.Core.Option.{some-injective}
use ldd3_examples.Common.{
  ℕ, Bool, true, false, ◌≡◌, ◌≢◌, refl, ◌⊎◌, ◌↔◌, List, [], ◌∷◌, Option, none, some, bit_and, Run,
  done, fault, arith, prepend, ◌>>◌, emit, if◌then◌else◌, pure, subst,
}
use ldd3_examples.Kernel.Errno.{Ret, ret, err, eio, erestartsys}
use ldd3_examples.Tty.Defs.{AsyncIcount, Call, add_wait_queue, schedule, remove_wait_queue}
use ldd3_examples.Tty.Ioctl.{IoctlConst, Wake, same, wanted, wait_loop}

abbrev pub Unchanged : AsyncIcount → AsyncIcount → Type 0
Unchanged now prev =
    (now.rng ≡ prev.rng) × (now.dsr ≡ prev.dsr) × (now.dcd ≡ prev.dcd) × (now.cts ≡ prev.cts)

abbrev pub Asked : (mask arg now prev : ℕ) → Type 0
Asked mask arg now prev = (bit_and arg mask ≢ 0) × (now ≢ prev)

-- A line that `arg` names differs.
abbrev pub Wanted : IoctlConst → ℕ → AsyncIcount → AsyncIcount → Type 0
Wanted k arg now prev =
    Asked k.tiocm_rng arg now.rng prev.rng
    ⊎ (Asked k.tiocm_dsr arg now.dsr prev.dsr
        ⊎ (Asked k.tiocm_cd arg now.dcd prev.dcd ⊎ Asked k.tiocm_cts arg now.cts prev.cts))

-- A wait that starts at `prev` and is woken by `ws` returns `r`.
pub data Waits (k : IoctlConst) (arg : ℕ) : AsyncIcount → List Wake → Ret → Type 0 where
  signalled :
      {prev : AsyncIcount} {w : Wake} {ws : List Wake}
      → w.signal ≡ true
      → Waits k arg prev (w ∷ ws) (err erestartsys)
  spurious :
      {prev : AsyncIcount} {w : Wake} {ws : List Wake}
      → w.signal ≡ false
      → Unchanged w.now prev
      → Waits k arg prev (w ∷ ws) (err eio)
  changed :
      {prev : AsyncIcount} {w : Wake} {ws : List Wake}
      → w.signal ≡ false
      → Wanted k arg w.now prev
      → Waits k arg prev (w ∷ ws) (ret 0)
  ignored :
      {prev : AsyncIcount} {w : Wake} {ws : List Wake} {r : Ret}
      → w.signal ≡ false
      → ¬ Unchanged w.now prev
      → ¬ Wanted k arg w.now prev
      → Waits k arg w.now ws r
      → Waits k arg prev (w ∷ ws) r

same-true : (now prev : AsyncIcount) → same now prev ≡ true → Unchanged now prev
same-true now prev e = ground arith

same-false : (now prev : AsyncIcount) → same now prev ≡ false → ¬ Unchanged now prev
same-false now prev e = ground arith

wanted-true :
    (k : IoctlConst) (arg : ℕ) (now prev : AsyncIcount)
    → wanted k arg now prev ≡ true
    → Wanted k arg now prev
wanted-true k arg now prev e = ground arith

wanted-false :
    (k : IoctlConst) (arg : ℕ) (now prev : AsyncIcount)
    → wanted k arg now prev ≡ false
    → ¬ Wanted k arg now prev
wanted-false k arg now prev e = ground arith

abbrev pub Answers : {A : Type 0} → Run Call A → A → Type 0
Answers (done t a') a = a' ≡ a
Answers fault a = ⊥

-- The tests the other way round.
Unchanged-same : (now prev : AsyncIcount) → Unchanged now prev → same now prev ≡ true
Unchanged-same now prev u = ground arith

not_Unchanged-same : (now prev : AsyncIcount) → ¬ Unchanged now prev → same now prev ≡ false
not_Unchanged-same now prev u = ground arith

Wanted-changed :
    (k : IoctlConst) (arg : ℕ) (now prev : AsyncIcount)
    → Wanted k arg now prev
    → same now prev ≡ false
Wanted-changed k arg now prev d = ground arith

Wanted-wanted :
    (k : IoctlConst) (arg : ℕ) (now prev : AsyncIcount)
    → Wanted k arg now prev
    → wanted k arg now prev ≡ true
Wanted-wanted k arg now prev d = ground arith

not_Wanted-wanted :
    (k : IoctlConst) (arg : ℕ) (now prev : AsyncIcount)
    → ¬ Wanted k arg now prev
    → wanted k arg now prev ≡ false
not_Wanted-wanted k arg now prev d = ground arith

-- What one sleep answers, by its three tests.
abbrev pub next_answer : Bool → Bool → Bool → Run Call (Option Ret) → Run Call (Option Ret)
next_answer true a b rest = pure (some (err erestartsys))
next_answer false true b rest = pure (some (err eio))
next_answer false false true rest = pure (some (ret 0))
next_answer false false false rest = rest

abbrev pub sleep : Run Call (Option Ret) → Run Call (Option Ret)
sleep = prepend (add_wait_queue ∷ schedule ∷ remove_wait_queue ∷ [])

one_sleep :
    (a b c : Bool) (m : Run Call (Option Ret))
    → (emit add_wait_queue
        >> (emit schedule
            >> (emit remove_wait_queue
                >> (if a
                    then pure (some (err erestartsys))
                    else if b
                    then pure (some (err eio))
                    else if c
                    then pure (some (ret 0))
                    else m))))
      ≡ sleep (next_answer a b c m)
one_sleep true b c m = refl
one_sleep false true c m = refl
one_sleep false false true m = refl
one_sleep false false false (done t r) = refl
one_sleep false false false fault = refl

wait_loop-next :
    (k : IoctlConst) (arg : ℕ) (prev : AsyncIcount) (w : Wake) (ws : List Wake)
    → wait_loop k arg prev (w ∷ ws)
      ≡ sleep (
          next_answer w.signal
            (same w.now prev)
            (wanted k arg w.now prev)
            (wait_loop k arg w.now ws))
unfolding wait_loop
wait_loop-next k arg prev w ws =
    one_sleep w.signal (same w.now prev) (wanted k arg w.now prev) (wait_loop k arg w.now ws)

Answers-sleep : (m : Run Call (Option Ret)) (r : Option Ret) → Answers (sleep m) r ≡ Answers m r
Answers-sleep (done t a) r = refl
Answers-sleep fault r = refl

-- By the three tests of the first sleep.
sound-next :
    (k : IoctlConst) (arg : ℕ) (prev : AsyncIcount) (w : Wake) (ws : List Wake) (r : Ret)
    (m : Run Call (Option Ret))
    → (Answers m (some r) → Waits k arg w.now ws r)
    → (a b c : Bool) → w.signal ≡ a
    → same w.now prev ≡ b
    → wanted k arg w.now prev ≡ c
    → Answers (next_answer a b c m) (some r)
    → Waits k arg prev (w ∷ ws) r
sound-next k arg prev w ws r m ih true b c s u d e =
    subst (Waits k arg prev (w ∷ ws)) (some-injective _ _ e) (signalled s)
sound-next k arg prev w ws r m ih false true c s u d e =
    subst (Waits k arg prev (w ∷ ws)) (some-injective _ _ e) (spurious s (same-true w.now prev u))
sound-next k arg prev w ws r m ih false false true s u d e =
    subst (Waits k arg prev (w ∷ ws)) (some-injective _ _ e)
      (changed s (wanted-true k arg w.now prev d))
sound-next k arg prev w ws r m ih false false false s u d e =
    ignored s (same-false w.now prev u) (wanted-false k arg w.now prev d) (ih e)

pub wait_loop_sound :
    (k : IoctlConst) (arg : ℕ) (prev : AsyncIcount) (ws : List Wake) (r : Ret)
    → Answers (wait_loop k arg prev ws) (some r)
    → Waits k arg prev ws r
wait_loop_sound k arg prev [] r e = unfold wait_loop in cc
wait_loop_sound k arg prev (w ∷ ws) r e =
    sound-next k arg prev w ws r (wait_loop k arg w.now ws) (wait_loop_sound k arg w.now ws r)
      w.signal (same w.now prev) (wanted k arg w.now prev) refl refl refl
      (rw (wait_loop-next k arg prev w ws, Answers-sleep) at e)

wait_loop_complete :
    (k : IoctlConst) (arg : ℕ) {prev : AsyncIcount} {ws : List Wake} {r : Ret}
    → Waits k arg prev ws r
    → Answers (wait_loop k arg prev ws) (some r)
wait_loop_complete k arg (signalled {prev} {w} {ws} s) = rw (wait_loop-next k arg prev w ws, s) refl
wait_loop_complete k arg (spurious {prev} {w} {ws} s u) =
    rw (wait_loop-next k arg prev w ws, s, Unchanged-same w.now prev u) refl
wait_loop_complete k arg (changed {prev} {w} {ws} s d) =
    rw
      (
        wait_loop-next k arg prev w ws,
        s,
        Wanted-changed k arg w.now prev d,
        Wanted-wanted k arg w.now prev d,
      )
      refl
wait_loop_complete k arg (ignored {prev} {w} {ws} {r} s u d rest) =
    rw
      (
        wait_loop-next k arg prev w ws,
        s,
        not_Unchanged-same w.now prev u,
        not_Wanted-wanted k arg w.now prev d,
        Answers-sleep,
      )
      (wait_loop_complete k arg rest)

-- TIOCMIWAIT returns what the relation allows, and nothing else.
pub wait_loop_iff :
    (k : IoctlConst) (arg : ℕ) (prev : AsyncIcount) (ws : List Wake) (r : Ret)
    → Answers (wait_loop k arg prev ws) (some r) ↔ Waits k arg prev ws r
wait_loop_iff k arg prev ws r = (wait_loop_sound k arg prev ws r, wait_loop_complete k arg)

-- The run ends, if only in `none`.
pub wait_loop-Answers :
    (k : IoctlConst) (arg : ℕ) (prev : AsyncIcount) (ws : List Wake)
    → (o : Option Ret) × Answers (wait_loop k arg prev ws) o
wait_loop-Answers k arg prev [] = (none, unfold wait_loop in refl)
wait_loop-Answers k arg prev (w ∷ ws) =
    let (o, e) = wait_loop-Answers k arg w.now ws in
    rw (wait_loop-next k arg prev w ws) (
      answers-next w.signal (same w.now prev) (wanted k arg w.now prev) o (wait_loop k arg w.now ws)
        e)
  where
    answers-next :
        (a b c : Bool) (o : Option Ret) (m : Run Call (Option Ret))
        → Answers m o
        → (o' : Option Ret) × Answers (sleep (next_answer a b c m)) o'
    answers-next true b c o m e = (some (err erestartsys), refl)
    answers-next false true c o m e = (some (err eio), refl)
    answers-next false false true o m e = (some (ret 0), refl)
    answers-next false false false o m e = (o, rw (Answers-sleep m o) e)
