-- ===== src/Tty/Table.antt =====
-- The ports of day_12/ex29.c together, as entries of tiny_table with the kernel's timers of them.
pub mod Lifetime
use ldd3_examples.Common.{ℕ, zero, suc, List, [], ◌∷◌, Option, none, some}
use ldd3_examples.Tty.Defs.{Slot}
use ldd3_examples.Tty.Port.History.{Port, Event, fresh, step, users}
use ldd3_examples.Tty.Driver.{tiny_tty_minors}

abbrev pub put_back : Port → Option (List Port) → Option (List Port)
put_back p none = none
put_back p (some ps) = some (p ∷ ps)

abbrev pub put_first : List Port → Option Port → Option (List Port)
put_first ps none = none
put_first ps (some p) = some (p ∷ ps)

-- An event of the port with index `i`; `none` is a fault. The tty core gives no index past the table.
unfoldable pub step_at : (i : ℕ) → Event → List Port → Option (List Port)
step_at i e [] = some []
step_at zero e (p ∷ ps) = put_first ps (step e p)
step_at (suc i) e (p ∷ ps) = put_back p (step_at i e ps)

-- Events of any ports in any order.
unfoldable pub run_table : List (ℕ × Event) → List Port → Option (List Port)
run_table [] ps = some ps
run_table ((i, e) ∷ es) ps = elim (step_at i e ps) [ none ↦ none | some qs ↦ run_table es qs ]

-- tiny_table as the module is loaded: every entry is NULL.
abbrev pub fresh_ports : ℕ → List Port
fresh_ports zero = []
fresh_ports (suc n) = fresh ∷ fresh_ports n

abbrev pub slots : List Port → List Slot
slots [] = []
slots (p ∷ ps) = p.slot ∷ slots ps

-- The users of each port, by the events alone.
unfoldable pub users_at : (i : ℕ) → Event → List ℕ → List ℕ
users_at i e [] = []
users_at zero e (n ∷ ns) = users (e ∷ []) n ∷ ns
users_at (suc i) e (n ∷ ns) = n ∷ users_at i e ns

unfoldable pub users_of : List (ℕ × Event) → List ℕ → List ℕ
users_of [] ns = ns
users_of ((i, e) ∷ es) ns = users_of es (users_at i e ns)
