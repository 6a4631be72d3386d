-- ===== src/Bus/Modules.antt =====
-- The three modules of day_10 as the kernel loads and unloads them: a module stays loaded if its init
-- returns 0, the modules of ex25.c and ex26.c use symbols of ex24.c, and a module in use is not
-- unloaded.
use ldd3_examples.Common.{
  Bool, true, false, ◌≡◌, refl, ◌⊎◌, inl, List, [], ◌∷◌, ◌&&◌, not, if◌then◌else◌, Run, done, fault,
  arith,
}
use ldd3_examples.Common.Int.{ℤ, pos, nonzero}
use ldd3_examples.Bus.{
  root, plugged, Call, bus_register, bus_create_file, bus_remove_file, bus_unregister, dev_set_name,
  device_register, device_unregister, driver_register, driver_create_file, driver_remove_file,
  driver_unregister, add_uevent_var, bus_module_init, bus_module_exit, ldd_device_module_init,
  ldd_device_module_exit, ldd_driver_module_init, ldd_driver_module_exit,
}

-- What is registered with the kernel.
pub record Held : Type 0 where
  pub bus_type : Bool
  pub bus_file : Bool
  pub root_device : Bool
  pub device : Bool
  pub driver : Bool
  pub driver_file : Bool

abbrev pub track : Held → Call → Held
track h (bus_register ok) = record h { bus_type = ok }
track h (bus_create_file ok) = record h { bus_file = ok }
track h bus_remove_file = record h { bus_file = false }
track h bus_unregister = record h { bus_type = false }
track h (dev_set_name _) = h
track h (device_register root ok) = record h { root_device = ok }
track h (device_register plugged ok) = record h { device = ok }
track h (device_unregister root) = record h { root_device = false }
track h (device_unregister plugged) = record h { device = false }
track h (driver_register ok) = record h { driver = ok }
track h (driver_create_file ok) = record h { driver_file = ok }
track h driver_remove_file = record h { driver_file = false }
track h driver_unregister = record h { driver = false }
track h (add_uevent_var _) = h

abbrev pub track_all : Held → List Call → Held
track_all h [] = h
track_all h (c ∷ cs) = track_all (track h c) cs

pub record System : Type 0 where
  pub bus_loaded : Bool
  pub device_loaded : Bool
  pub driver_loaded : Bool
  pub held : Held

abbrev pub empty : System
empty = record {
  bus_loaded = false;
  device_loaded = false;
  driver_loaded = false;
  held = record {
    bus_type = false;
    bus_file = false;
    root_device = false;
    device = false;
    driver = false;
    driver_file = false;
  };
}

-- A load comes with what the kernel's calls return.
pub data Event : Type 0 where
  load_bus : (registered created root_registered : ℤ) → Event
  load_device : (registered : ℤ) → Event
  load_driver : (registered created : ℤ) → Event
  unload_bus unload_device unload_driver : Event

-- Whether the module stays, and what is held; a fault is not reached.
abbrev pub loads : Run Call ℤ → Held → Bool × Held
loads (done t r) h = (not (nonzero r), track_all h t)
loads fault h = (false, h)

abbrev pub unloads : Run Call (Unit {0}) → Held → Held
unloads (done t r) h = track_all h t
unloads fault h = h

unfoldable pub step : Event → System → System
step (load_bus r c q) s =
    if s.bus_loaded
    then s
    else (let (stays, h) = loads (bus_module_init r c q) s.held in
        record s { bus_loaded = stays; held = h })
step (load_device r) s =
    if s.bus_loaded && not s.device_loaded
    then (let (stays, h) = loads (ldd_device_module_init r) s.held in
        record s { device_loaded = stays; held = h })
    else s
step (load_driver r c) s =
    if s.bus_loaded && not s.driver_loaded
    then (let (stays, h) = loads (ldd_driver_module_init r c) s.held in
        record s { driver_loaded = stays; held = h })
    else s
step unload_bus s =
    if s.bus_loaded && (not s.device_loaded && not s.driver_loaded)
    then record s { bus_loaded = false; held = unloads bus_module_exit s.held }
    else s
step unload_device s =
    if s.device_loaded
    then record s { device_loaded = false; held = unloads ldd_device_module_exit s.held }
    else s
step unload_driver s =
    if s.driver_loaded
    then record s { driver_loaded = false; held = unloads ldd_driver_module_exit s.held }
    else s

unfoldable pub run : List Event → System → System
run [] s = s
run (e ∷ es) s = run es (step e s)

-- Only the first call of each load may fail.
abbrev pub Granted : List Event → Type 0
Granted [] = Unit {0}
Granted (load_bus r c q ∷ es) = (c ≡ pos 0) × (q ≡ pos 0) × Granted es
Granted (load_driver r c ∷ es) = (c ≡ pos 0) × Granted es
Granted (_ ∷ es) = Granted es

-- Exactly what the loaded modules registered is held, and a device or a driver only with the bus.
pub record IsTidy (s : System) : Type 0 where
  pub exact : s.held ≡ record {
    bus_type = s.bus_loaded;
    bus_file = s.bus_loaded;
    root_device = s.bus_loaded;
    device = s.device_loaded;
    driver = s.driver_loaded;
    driver_file = s.driver_loaded;
  }
  pub device_on_bus : (s.device_loaded ≡ false) ⊎ (s.bus_loaded ≡ true)
  pub driver_on_bus : (s.driver_loaded ≡ false) ⊎ (s.bus_loaded ≡ true)

abbrev Allowed : Event → Type 0
Allowed e = Granted (e ∷ [])

step-IsTidy : (e : Event) (s : System) → Allowed e → IsTidy s → IsTidy (step e s)
unfolding step bus_module_init bus_module_exit ldd_device_module_init ldd_device_module_exit
    ldd_driver_module_init ldd_driver_module_exit
step-IsTidy (load_bus r c q) s a v = ground arith
step-IsTidy (load_device r) s a v = ground arith
step-IsTidy (load_driver r c) s a v = ground arith
step-IsTidy unload_bus s a v = ground arith
step-IsTidy unload_device s a v = ground arith
step-IsTidy unload_driver s a v = ground arith

run-keeps : (es : List Event) (s : System) → Granted es → IsTidy s → IsTidy (run es s)
unfolding run
run-keeps [] s g v = v
run-keeps (load_bus r c q ∷ es) s g v =
    run-keeps es (step (load_bus r c q) s) g.2 (step-IsTidy (load_bus r c q) s (g.0, g.1, tt) v)
run-keeps (load_device r ∷ es) s g v =
    run-keeps es (step (load_device r) s) g (step-IsTidy (load_device r) s tt v)
run-keeps (load_driver r c ∷ es) s g v =
    run-keeps es (step (load_driver r c) s) g.1 (step-IsTidy (load_driver r c) s (g.0, tt) v)
run-keeps (unload_bus ∷ es) s g v =
    run-keeps es (step unload_bus s) g (step-IsTidy unload_bus s tt v)
run-keeps (unload_device ∷ es) s g v =
    run-keeps es (step unload_device s) g (step-IsTidy unload_device s tt v)
run-keeps (unload_driver ∷ es) s g v =
    run-keeps es (step unload_driver s) g (step-IsTidy unload_driver s tt v)

-- Over any history of loading and unloading the three modules in which the calls after the first of
-- each load succeed, exactly what the loaded modules registered is held, and a device or a driver is
-- on the bus only while the bus is loaded.
pub run-IsTidy : (es : List Event) → Granted es → IsTidy (run es empty)
run-IsTidy es g =
    run-keeps es empty g
      (record { exact = refl; device_on_bus = inl refl; driver_on_bus = inl refl })

-- Where the bus's own device cannot be registered, the init of ex24.c fails, so that its module is
-- thrown away, and the bus type stays registered.
pub failed_bus-stays :
    (s : System) (c q : ℤ)
    → nonzero q ≡ true
    → s.bus_loaded ≡ false
    → ((step (load_bus (pos 0) c q) s).bus_loaded ≡ false)
      × ((step (load_bus (pos 0) c q) s).held.bus_type ≡ true)
unfolding step bus_module_init
failed_bus-stays s c q n e = ground arith

-- Where the driver's file cannot be created, the init of ex26.c fails, so that its module is thrown
-- away, and the driver stays registered.
pub failed_driver-stays :
    (s : System) (c : ℤ)
    → nonzero c ≡ true
    → s.bus_loaded ≡ true
    → s.driver_loaded ≡ false
    → ((step (load_driver (pos 0) c) s).driver_loaded ≡ false)
      × ((step (load_driver (pos 0) c) s).held.driver ≡ true)
unfolding step ldd_driver_module_init
failed_driver-stays s c n e f = ground arith
