-- ===== src/Bus.antt =====
-- The virtual bus of day_10: lddbus.h, the bus of ex24.c, and the modules of ex25.c and ex26.c that
-- put a device and a driver on it.
pub mod Match
pub mod Modules
pub mod Binding
use ldd3_examples.Common.{
  ℕ, Bool, true, false, List, [], ◌∷◌, ◌++◌, length, not, if◌then◌else◌, Run, ◌>>=◌, ◌>>◌, pure,
  emit,
}
use ldd3_examples.Common.Int.{ℤ, nonzero}
use ldd3_examples.Common.Text.{Bytes, strncmp, codes}
use ldd3_examples.Kernel.Errno.{Ret, ret, err, enomem}

-- The bus itself as a device, or a device that is plugged into it.
pub data Target : Type 0 where
  root plugged : Target

-- The kernel calls, those that acquire something with whether they return 0.
pub data Call : Type 0 where
  bus_register bus_create_file : (ok : Bool) → Call
  bus_remove_file bus_unregister : Call
  dev_set_name : Bytes → Call
  device_register : Target → (ok : Bool) → Call
  device_unregister : Target → Call
  driver_register driver_create_file : (ok : Bool) → Call
  driver_remove_file driver_unregister : Call
  add_uevent_var : (ok : Bool) → Call

-- struct ldd_driver, with what the bus reads of it; the rest is set by ldd_register_driver.
pub record LddDriver : Type 0 where
  pub version : Bytes
  pub name : Bytes

-- The result of device_register is passed on.
unfoldable pub ldd_register_device : (registered : ℤ) → Run Call ℤ
ldd_register_device registered = do
  emit (dev_set_name (codes "ldd0"))
  emit (device_register plugged (not (nonzero registered)))
  pure registered

unfoldable pub ldd_unregister_device : Run Call (Unit {0})
ldd_unregister_device = emit (device_unregister plugged)

-- What the attribute file shows, and the return value.
unfoldable pub show_version : LddDriver → Bytes × ℕ
show_version d = let buf = d.version ++ codes "\n" in (buf, length buf)

unfoldable pub ldd_register_driver : (registered created : ℤ) → Run Call ℤ
ldd_register_driver registered created = do
  emit (driver_register (not (nonzero registered)))
  if nonzero registered
      then pure registered
      else (emit (driver_create_file (not (nonzero created))) >> pure created)

unfoldable pub ldd_unregister_driver : Run Call (Unit {0})
ldd_unregister_driver = do emit driver_remove_file; emit driver_unregister

unfoldable pub ldd_uevent : (added : ℤ) → Run Call Ret
ldd_uevent added = do
  emit (add_uevent_var (not (nonzero added)))
  if nonzero added then pure (err enomem) else pure (ret 0)

-- `!strncmp(dev_name(dev), driver->name, strlen(driver->name))`
unfoldable pub ldd_match : (dev_name driver_name : Bytes) → Bool
ldd_match dev_name driver_name = not (nonzero (strncmp dev_name driver_name (length driver_name)))

-- struct bus_type
pub record BusType : Type 0 where
  pub name : Bytes
  pub on_match : (dev_name driver_name : Bytes) → Bool
  pub on_uevent : (added : ℤ) → Run Call Ret

abbrev pub ldd_bus_type : BusType
ldd_bus_type = record { name = codes "ldd"; on_match = ldd_match; on_uevent = ldd_uevent }

abbrev pub version : Bytes
version = codes "1.9"

-- snprintf: the text fits a page.
unfoldable pub show_bus_version : Bytes × ℕ
show_bus_version = let buf = version ++ codes "\n" in (buf, length buf)

-- A failure of bus_create_file is only logged.
unfoldable pub bus_module_init : (registered created root_registered : ℤ) → Run Call ℤ
bus_module_init registered created root_registered = do
  emit (bus_register (not (nonzero registered)))
  if nonzero registered then pure registered else do
    emit (bus_create_file (not (nonzero created)))
    emit (device_register root (not (nonzero root_registered)))
    pure root_registered

unfoldable pub bus_module_exit : Run Call (Unit {0})
bus_module_exit = do emit (device_unregister root); emit bus_remove_file; emit bus_unregister

-- day_10/ex25.c
unfoldable pub ldd_device_module_init : (registered : ℤ) → Run Call ℤ
unfolding ldd_register_device
ldd_device_module_init registered = ldd_register_device registered

unfoldable pub ldd_device_module_exit : Run Call (Unit {0})
unfolding ldd_unregister_device
ldd_device_module_exit = ldd_unregister_device

-- day_10/ex26.c
abbrev pub sample_ldd_driver : LddDriver
sample_ldd_driver = record { version = codes "1.2"; name = codes "ldd0" }

unfoldable pub ldd_driver_module_init : (registered created : ℤ) → Run Call ℤ
unfolding ldd_register_driver
ldd_driver_module_init registered created = ldd_register_driver registered created

unfoldable pub ldd_driver_module_exit : Run Call (Unit {0})
unfolding ldd_unregister_driver
ldd_driver_module_exit = ldd_unregister_driver
