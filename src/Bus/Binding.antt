-- ===== src/Bus/Binding.antt =====
-- Which driver the kernel binds to the device of day_10/ex25.c: it asks the bus type of ex24.c for each
-- device and driver that are registered on the bus.
use ldd3_examples.Common.{
  Bool, true, false, ◌≡◌, refl, List, [], ◌∷◌, ◌&&◌, Option, none, some, Run, done, fault, arith,
}
use ldd3_examples.Common.Int.{ℤ, pos}
use ldd3_examples.Common.Text.{Bytes, strncmp}
use ldd3_examples.Bus.{
  Call, dev_set_name, LddDriver, sample_ldd_driver, ldd_bus_type, ldd_match, ldd_register_device,
  ldd_device_module_init,
}
use ldd3_examples.Bus.Modules.{System, Held, Event, empty, run, Granted, IsTidy, run-IsTidy}

-- The name that the last call of dev_set_name gives.
abbrev pub named : Option Bytes → List Call → Option Bytes
named n [] = n
named n (dev_set_name b ∷ cs) = named (some b) cs
named n (_ ∷ cs) = named n cs

abbrev pub name_after : Run Call ℤ → Option Bytes
name_after (done t r) = named none t
name_after fault = none

abbrev pub matches : Option Bytes → LddDriver → Bool
matches none d = false
matches (some n) d = ldd_bus_type.on_match n d.name

-- Whether the device is bound to the driver, by what is registered.
unfoldable pub bound : Held → Bool
bound h =
    h.device
    && (h.driver && matches (name_after (ldd_device_module_init (pos 0))) sample_ldd_driver)

sample_matches : matches (name_after (ldd_device_module_init (pos 0))) sample_ldd_driver ≡ true
unfolding ldd_device_module_init ldd_register_device ldd_match strncmp
sample_matches = refl

tidy_bound : (s : System) → IsTidy s → bound s.held ≡ (s.device_loaded && s.driver_loaded)
unfolding bound
tidy_bound s v = ground (arith, sample_matches, v.exact)

-- Over any history of loading and unloading the three modules in which the calls after the first of
-- each load succeed, exactly what the loaded modules registered is held, a device or a driver is on the
-- bus only while the bus is loaded, and the device of ex25.c is bound to the driver of ex26.c exactly
-- while both modules are loaded.
pub run-binds :
    (es : List Event)
    → Granted es
    → IsTidy (run es empty)
      × (bound (run es empty).held ≡ ((run es empty).device_loaded && (run es empty).driver_loaded))
run-binds es g = let v = run-IsTidy es g in (v, tidy_bound (run es empty) v)
