-- ===== src/Pci.antt =====
-- The PCI driver, day_08/ex22.c.
pub mod Regions
use ldd3_examples.Common.{
  ℕ, zero, suc, Bool, true, false, List, [], ◌∷◌, Option, none, some, ◌==◌, not, if◌then◌else◌, Run,
  ◌>>=◌, ◌>>◌, pure, emit, when,
}
use ldd3_examples.Common.Int.{ℤ, nonzero}

pub data Call : Type 0 where
  pci_enable_device pci_disable_device : Call
  pci_request_region : (bar : ℕ) (ok : Bool) → Call
  ioremap_nocache : (base size : ℕ) (ok : Bool) → Call
  pci_release_region : (bar : ℕ) → Call
  pci_register_driver : (ok : Bool) → Call
  pci_unregister_driver : Call

-- What the kernel says of one BAR: its range, whether the region is granted, and the address that it
-- is mapped at, or NULL.
pub record Bar : Type 0 where
  pub start : ℕ
  pub len : ℕ
  pub granted : Bool
  pub mapped : Option ℕ

abbrev pub is_mapped : Bar → Bool
is_mapped b = elim b.mapped [ none ↦ false | some a ↦ true ]

-- iobase[i], iosize[i] and VirtualBaseAddr[i]
pub record Window : Type 0 where
  pub iobase : ℕ
  pub iosize : ℕ
  pub address : Option ℕ

abbrev pub window : Bar → Window → Window
window b w = record {
  iobase = b.start;
  iosize = b.len;
  address = if b.granted then b.mapped else w.address;
}

-- The loop from BAR `i` on, over the BARs and the windows as they were.
unfoldable pub probe_bars : (i : ℕ) → List Bar → List Window → Run Call (List Window)
probe_bars i [] ws = pure ws
probe_bars i (b ∷ bs) [] = pure []
probe_bars i (b ∷ bs) (w ∷ ws) = do
  emit (pci_request_region i b.granted)
  when b.granted (emit (ioremap_nocache b.start b.len (is_mapped b)))
  ws' ← probe_bars (suc i) bs ws
  pure (window b w ∷ ws')

-- The result of pci_enable_device is not looked at.
unfoldable pub probe : List Bar → List Window → Run Call (List Window × ℕ)
probe bars ws = do emit pci_enable_device; ws' ← probe_bars 0 bars ws; pure (ws', 0)

unfoldable pub release_bars : (i : ℕ) → List Window → Run Call (Unit {0})
release_bars i [] = pure tt
release_bars i (w ∷ ws) = do
  when (not (w.iobase == 0)) (emit (pci_release_region i))
  release_bars (suc i) ws

unfoldable pub remove : List Window → Run Call (Unit {0})
remove ws = do release_bars 0 ws; emit pci_disable_device

unfoldable pub pci_driver_module_init : (registered : ℤ) → Run Call ℤ
pci_driver_module_init registered = do
  emit (pci_register_driver (not (nonzero registered)))
  pure registered

unfoldable pub pci_driver_module_exit : Run Call (Unit {0})
pci_driver_module_exit = emit pci_unregister_driver
