-- ===== src/Irq/Counting.antt =====
-- The counter of day_07/ex20.c over a history of loads, unloads and interrupts.
use ldd3_examples.Common.{
  ℕ, zero, suc, Bool, true, false, ◌+◌, ◌%◌, ◌^◌, ◌≡◌, refl, List, [], ◌∷◌, if◌then◌else◌, not, Run,
  done, fault, arith,
}
use ldd3_examples.Common.Int.{ℤ, pos, negsuc, nonzero}
use ldd3_examples.Irq.{
  Call, request_irq, synchronize_irq, free_irq, my_interrupt, my_irq_init, my_irq_exit,
}

pub data Event : Type 0 where
  load : (requested : ℤ) → Event
  unload interrupt : Event

-- A module's counter starts at 0 when it is loaded; the kernel calls a registered handler.
pub record System : Type 0 where
  pub loaded : Bool
  pub registered : Bool
  pub irq_counter : ℕ

abbrev pub empty : System
empty = record { loaded = false; registered = false; irq_counter = 0 }

abbrev pub track : Bool → List Call → Bool
track b [] = b
track b (request_irq irq ok ∷ cs) = track ok cs
track b (synchronize_irq irq ∷ cs) = track b cs
track b (free_irq irq ∷ cs) = track false cs

abbrev pub loads : Run Call ℤ → System
loads (done t r) = record { loaded = not (nonzero r); registered = track false t; irq_counter = 0 }
loads fault = empty

abbrev pub unloads : Run Call (Unit {0}) → System → System
unloads (done t r) s = record s { loaded = false; registered = track s.registered t }
unloads fault s = s

unfoldable pub step : (irq : ℤ) → Event → System → System
step irq (load requested) s = if s.loaded then s else loads (my_irq_init irq requested)
step irq unload s = if s.loaded then unloads (my_irq_exit irq) s else s
step irq interrupt s =
    if s.registered then record s { irq_counter = (my_interrupt s.irq_counter).0 } else s

unfoldable pub run : (irq : ℤ) → List Event → System → System
run irq [] s = s
run irq (e ∷ es) s = run irq es (step irq e s)

-- Whether the module is loaded, and the interrupts since it was last, told from the events alone.
abbrev pub tally : List Event → (loaded : Bool) (n : ℕ) → Bool × ℕ
tally [] l n = (l, n)
tally (load q ∷ es) true n = tally es true n
tally (load q ∷ es) false n = tally es (not (nonzero q)) 0
tally (unload ∷ es) l n = tally es false n
tally (interrupt ∷ es) l n = tally es l (if l then n + 1 else n)

mod_suc : (n : ℕ) → (n % 2 ^ 32 + 1) % 2 ^ 32 ≡ (n + 1) % 2 ^ 32
mod_suc n = omega arith

run-tally :
    (irq : ℤ) (es : List Event) (l : Bool) (n : ℕ)
    → run irq es (record { loaded = l; registered = l; irq_counter = n % 2 ^ 32 }) ≡ (
        let (l', n') = tally es l n in
        record { loaded = l'; registered = l'; irq_counter = n' % 2 ^ 32 })
unfolding run step my_irq_init my_irq_exit my_interrupt
run-tally irq [] l n = refl
run-tally irq (load q ∷ es) true n = run-tally irq es true n
run-tally irq (load (pos zero) ∷ es) false n = run-tally irq es true 0
run-tally irq (load (pos (suc p)) ∷ es) false n = run-tally irq es false 0
run-tally irq (load (negsuc p) ∷ es) false n = run-tally irq es false 0
run-tally irq (unload ∷ es) true n = run-tally irq es false n
run-tally irq (unload ∷ es) false n = run-tally irq es false n
run-tally irq (interrupt ∷ es) true n = rw (mod_suc n) (run-tally irq es true (n + 1))
run-tally irq (interrupt ∷ es) false n = run-tally irq es false n

-- Over any history of loads, unloads and interrupts the handler of ex20.c is registered exactly while
-- its module is loaded, and its counter is, modulo 2 ^ 32, the interrupts that came while the module
-- was loaded, since the last load.
pub counter-tally :
    (irq : ℤ) (es : List Event)
    → run irq es empty ≡ (
        let (l, n) = tally es false 0 in
        record { loaded = l; registered = l; irq_counter = n % 2 ^ 32 })
counter-tally irq es = run-tally irq es false 0
