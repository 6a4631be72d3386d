-- ===== src/Usb/Hotplug.antt =====
-- Which device the files of day_09/ex23.c use, as devices come and go.
use ldd3_examples.Common.{ℕ, ◌≡◌, refl, List, [], ◌∷◌, Option, none, some, Run, done, fault, arith}
use ldd3_examples.Common.Int.{ℤ}
use ldd3_examples.Common.Text.{Bytes}
use ldd3_examples.Kernel.Uaccess.{Uaccess}
use ldd3_examples.Usb.{Ret, Call, bulk_in, State, Received, pen_drive_read, probe, remove}

pub data Event : Type 0 where
  plugs : (usbdev : ℕ) (registered : ℤ) → Event
  unplugs : Event

abbrev pub after : {A : Type 0} → Run Call A → (A → State) → State → State
after (done t a) state s = state a
after fault state s = s

-- The globals after devices were plugged and unplugged.
unfoldable pub run : List Event → State → State
run [] s = s
run (plugs d q ∷ es) s = run es (after (probe d q s) (λ (s', r). s') s)
run (unplugs ∷ es) s = run es (after (remove s) (λ s'. s') s)

-- The device that was plugged last, also if it has been unplugged since.
abbrev pub last_plugged : List Event → Option ℕ → Option ℕ
last_plugged [] d = d
last_plugged (plugs d q ∷ es) d' = last_plugged es (some d)
last_plugged (unplugs ∷ es) d' = last_plugged es d'

run-last_plugged : (es : List Event) (s : State) → (run es s).device ≡ last_plugged es s.device
unfolding run probe remove
run-last_plugged [] s = refl
run-last_plugged (plugs d q ∷ es) s = run-last_plugged es (record s { device = some d })
run-last_plugged (unplugs ∷ es) s = run-last_plugged es s

-- The first call asks the device `d`; without a device there is a fault.
abbrev pub Asks : Option ℕ → Run Call (State × Bytes × Ret) → Type 0
Asks (some d) (done (bulk_in d' len ∷ t) a) = d' ≡ d
Asks none fault = Unit
Asks _ _ = ⊥

-- Whatever devices come and go, a read of any open file asks the one that was plugged last, also
-- after it was unplugged, and whatever device the file was opened for. Before the first one it faults.
pub read-last_plugged :
    (u : Uaccess) (r : Received) (es : List Event) (s : State) (buf : Bytes) (cnt : ℕ)
    → Asks (last_plugged es s.device) (pen_drive_read u r (run es s) buf cnt)
unfolding pen_drive_read
read-last_plugged u r es s buf cnt = ground (arith, run-last_plugged es s)
