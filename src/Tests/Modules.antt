-- ===== src/Tests/Modules.antt =====
-- The modules for proc entries, interrupts, memory, PCI, USB and the bus at concrete
-- inputs.
use ldd3_examples.Common.{
  ℕ, ◌+◌, ◌≡◌, ◌↔◌, refl, true, false, List, [], ◌∷◌, ◌++◌, none, some, take, length,
  length-replicate, replicate, done, arith,
}
use ldd3_examples.Common.Int.{pos, negsuc}
use ldd3_examples.Common.Text.{Bytes, codes, strlen, digits}
use ldd3_examples.Kernel.Simple.{simple_uaccess}
use ldd3_examples.Kernel.Errno.{ret}
use ldd3_examples.Proc
use ldd3_examples.Proc.{Params, bufsize, mywrite}
use ldd3_examples.Proc.Scan.{two_ints}
use ldd3_examples.Proc.Access.{mywrite-overcount}
use ldd3_examples.SeqFile.Lines.{moved_on, ShowsOne, my_seq_show-moved_on}
use ldd3_examples.Bus.{
  ldd_match, bus_module_init, ldd_driver_module_init, ldd_register_driver, ldd_device_module_init,
  ldd_register_device,
}
use ldd3_examples.Bus.Match.{ldd_match_iff}
use ldd3_examples.Bus.Binding.{bound, run-binds}
use ldd3_examples.Bus.Modules
use ldd3_examples.Bus.Modules.{
  IsTidy, load_bus, load_device, load_driver, unload_driver, unload_bus, unload_device,
}
use ldd3_examples.Usb
use ldd3_examples.Usb.{
  State, Received, Sent, pen_drive_read, pen_drive_write, fill_bulk, send_bulk, min_of,
  max_pkt_size,
}
use ldd3_examples.Usb.Transfer.{Read, Returns, pen_drive_read-Read, pen_drive-echo}
use ldd3_examples.Usb.Hotplug
use ldd3_examples.Usb.Hotplug.{Asks, last_plugged, plugs, unplugs, read-last_plugged}
use ldd3_examples.Pci.{Bar, Window}
use ldd3_examples.Irq.Counting
use ldd3_examples.Irq.Counting.{tally, load, unload, interrupt, counter-tally}
use ldd3_examples.Tty.Termios.{
  TermBits, Termios, nothing_to_change, relevant_iflag, tiny_set_termios,
}

-- An array on the stack of ex5.c, and a user's buffer.
abbrev stack : Bytes
stack = replicate bufsize 0

stack_size : length stack ≡ bufsize
stack_size = length-replicate {A = ℕ} bufsize 0

abbrev params : Params
params = record { irq = pos 0; mode = pos 0 }

abbrev five_minus_three : Params
five_minus_three = record { irq = pos 5; mode = negsuc 2 }

my_seq_show-moved_on_example :
    ShowsOne (pos 1) (moved_on 2 (record { counter = 18446744073709551615; index = 0 }))
my_seq_show-moved_on_example = my_seq_show-moved_on 2 18446744073709551615 0 (omega arith)

ldd_match_iff_example :
    (ldd_match (codes "ldd0") (codes "ldd") ≡ true)
    ↔ ((rest : Bytes) × (codes "ldd0" ≡ codes "ldd" ++ rest))
ldd_match_iff_example =
    ldd_match_iff (codes "ldd0") (codes "ldd") (omega arith, (omega arith, (omega arith, tt)))

-- The bus module, which is in use, stays.
abbrev device_and_driver : List Modules.Event
device_and_driver =
    load_bus (pos 0) (pos 0) (pos 0)
    ∷ load_driver (pos 0) (pos 0)
    ∷ load_device (pos 0)
    ∷ unload_bus
    ∷ []

run-binds_example :
    IsTidy (Modules.run device_and_driver Modules.empty)
    × (bound (Modules.run device_and_driver Modules.empty).held ≡ true)
unfolding Modules.run Modules.step bus_module_init ldd_driver_module_init ldd_register_driver
    ldd_device_module_init ldd_register_device
run-binds_example = run-binds device_and_driver (refl, refl, (refl, tt))

mywrite-overcount_example :
    mywrite simple_uaccess params stack
      (two_ints (pos 5) (negsuc 2) (10 ∷ []))
      (length (two_ints (pos 5) (negsuc 2) (10 ∷ [])))
      0
    ≡ done (Proc.copy_from_user (length (two_ints (pos 5) (negsuc 2) (10 ∷ []))) ∷ []) (
      five_minus_three,
      length (two_ints (pos 5) (negsuc 2) (10 ∷ [])) + 0,
      ret (length (two_ints (pos 5) (negsuc 2) (10 ∷ [])) + 0),
    )
unfolding digits strlen
mywrite-overcount_example =
    mywrite-overcount simple_uaccess params stack (pos 5) (negsuc 2) 0 stack_size (omega arith)
      (omega arith) refl refl

-- The pen drive 3 with an empty buffer.
abbrev packet : Bytes
packet = replicate max_pkt_size 0

packet_size : length packet ≡ max_pkt_size
packet_size = length-replicate {A = ℕ} max_pkt_size 0

abbrev plugged : State
plugged = record { device = some 3; bulk_buf = packet }

abbrev sent : Bytes
sent = 7 ∷ 8 ∷ []

abbrev echoed : Received
echoed = record { retval = pos 0; bytes = sent; fits = omega arith }

pen_drive_read-Read_example :
    Read echoed plugged (0 ∷ []) 1 3 (pen_drive_read simple_uaccess echoed plugged (0 ∷ []) 1)
pen_drive_read-Read_example =
    pen_drive_read-Read simple_uaccess echoed plugged (0 ∷ []) 1 3 refl packet_size

read-last_plugged_example : Asks (last_plugged (plugs 4 (pos 0) ∷ unplugs ∷ []) plugged.device) (
    pen_drive_read simple_uaccess echoed
      (Hotplug.run (plugs 4 (pos 0) ∷ unplugs ∷ []) plugged)
      (0 ∷ [])
      1)
read-last_plugged_example =
    read-last_plugged simple_uaccess echoed (plugs 4 (pos 0) ∷ unplugs ∷ []) plugged (0 ∷ []) 1

pen_drive-echo_example :
    Returns
      (pen_drive_read simple_uaccess echoed
        (record plugged { bulk_buf = sent ++ replicate 510 0 })
        (0 ∷ [])
        1)
      (λ n got. (n ≡ min_of 1 (min_of 2 max_pkt_size)) × (take n got ≡ take n sent))
pen_drive-echo_example =
    pen_drive-echo simple_uaccess (record { retval = pos 0; count = 2 }) echoed plugged
      (record plugged { bulk_buf = sent ++ replicate 510 0 }) sent (0 ∷ []) 2 1 3
      (Usb.copy_from_user 2 ∷ Usb.bulk_out 3 sent ∷ []) (Usb.counted 2) refl packet_size refl
      (unfold pen_drive_write fill_bulk send_bulk in refl) refl refl refl

-- Two BARs, of which the second is not granted.
abbrev bars : List Bar
bars =
    record { start = 0xF000; len = 256; granted = true; mapped = some 1 }
    ∷ record { start = 0xE000; len = 16; granted = false; mapped = none }
    ∷ []

abbrev windows : List Window
windows = replicate 2 (record { iobase = 0; iosize = 0; address = none })

counter-tally_example :
    Counting.run
      (pos 19)
      (load (pos 0) ∷ interrupt ∷ interrupt ∷ unload ∷ interrupt ∷ [])
      Counting.empty
    ≡ record { loaded = false; registered = false; irq_counter = 2 }
counter-tally_example =
    counter-tally (pos 19) (load (pos 0) ∷ interrupt ∷ interrupt ∷ unload ∷ interrupt ∷ [])

abbrev term_bits : TermBits
term_bits = record {
  csize = 0x30;
  cs5 = 0;
  cs6 = 0x10;
  cs7 = 0x20;
  parenb = 0x100;
  parodd = 0x200;
  cstopb = 0x40;
  crtscts = 0x80000000;
  ignbrk = 0x1;
  brkint = 0x2;
  ignpar = 0x4;
  parmrk = 0x8;
  inpck = 0x10;
  ixon = 0x400;
  ixoff = 0x1000;
}

abbrev quiet_termios : Termios
quiet_termios = record { c_cflag = 0x30; c_iflag = 0; start_char = 17; stop_char = 19 }

abbrev ixon_termios : Termios
ixon_termios = record quiet_termios { c_iflag = 0x400 }

ixon-unseen :
    tiny_set_termios term_bits 9600 ixon_termios (some quiet_termios)
    ≡ done (nothing_to_change ∷ []) tt
unfolding tiny_set_termios relevant_iflag
ixon-unseen = refl
