-- ===== src/Programs/WriteRead/Prints.antt =====
-- What day_02/test.c prints on the drivers of ex3.c to ex14.c.
use mathlib.Core.List.{append-nil}
use ldd3_examples.Common.{
  ℕ, ◌≤◌, ◌≡◌, refl, ◌∙◌, true, List, [], ◌∷◌, ◌++◌, none, some, length, Run, done, fault, arith,
}
use ldd3_examples.Common.Int.{pos}
use ldd3_examples.Common.Text.{Bytes, strlen, c_string}
use ldd3_examples.Common.Text.Print.{c_string-prefix}
use ldd3_examples.Kernel.Boot.{Boot}
use ldd3_examples.Kernel.Uaccess.{Uaccess}
use ldd3_examples.Kernel.Copied.{prefix-copied, prefix-shown}
use ldd3_examples.Chardev.Defs.{Call, Buffer, Waiting, bytes, clamp}
use ldd3_examples.Chardev.Drivers.{Driver, init_of, read_calls, write_calls, write_condition}
use ldd3_examples.Chardev.Loading.{length-init_of}
use ldd3_examples.Chardev.Fops.{
  FopsEnv, fops_of, on_open-done, on_read-done, on_write-done, on_release-done,
}
use ldd3_examples.Programs.WriteRead.{
  Output, written, read_count, text, message, data_bytes, session, main,
}

-- The copies of the program are complete on a buffer `b`.
abbrev pub Copies : Uaccess → (b buff : Bytes) → Type 0
Copies u b buff =
    ((u.copy_from_user b data_bytes 24).1 ≡ 0)
    × ((u.copy_to_user buff (u.copy_from_user b data_bytes 24).0 60).1 ≡ 0)

-- The program prints the two counts and its message, after a write and a read of the driver.
abbrev pub Prints : Driver → Run Call (Waiting × List Output × ℕ) → Type 0
Prints d (done t (s, out, status)) =
    (t ≡ write_calls d 24 ++ read_calls d 60)
    × (out ≡ written 24 ∷ read_count 60 ∷ text message ∷ [])
    × (status ≡ 0)
Prints d fault = ⊥

main-Prints :
    (e : FopsEnv) (d : Driver) (b buff : Bytes) (c : ℕ)
    → 60 ≤ length b
    → Copies e.uaccess b buff
    → Prints d (main (fops_of e d) true (record { buffer = some b; condition = c }) buff)
unfolding main session strlen clamp
main-Prints e d b buff c room (wrote, read) =
    rw
      (
        on_open-done e d _,
        on_write-done e d (record { buffer = some b; condition = c }) b data_bytes 24 refl
            (omega arith),
        on_read-done e d after buff 60 (omega arith),
        shown,
        on_release-done e d _,
        wrote,
        read,
      )
      (rw append-nil (refl, refl, refl))
  where
    u : Uaccess
    u = e.uaccess

    b' : Bytes
    b' = (u.copy_from_user b data_bytes 24).0

    after : Waiting
    after = record { buffer = some b'; condition = write_condition d c }

    got : Bytes
    got = (u.copy_to_user buff b' 60).0

    room' : 60 ≤ length b'
    room' = omega (arith, u.from_length b data_bytes 24 (omega arith))

    shown : c_string {E = Call} got ≡ done [] message
    shown = c_string-prefix message got (omega arith) (
        prefix-shown u buff b' 60 24 room' read (omega arith)
        ∙ prefix-copied u b data_bytes 24 24 (omega arith) wrote (omega arith))

-- On any of the drivers of ex3.c to ex14.c that has just been loaded with a buffer of at least 60 bytes
-- (it has GFP_KERNEL of them), and with complete copies, day_02/test.c never faults: it prints that 24
-- bytes are written and 60 are read, and the message that it wrote, and exits with 0; the driver makes
-- the calls of one write and then those of one read.
pub loaded-Prints :
    (e : FopsEnv) (d : Driver) (k : Boot) (t : List Call) (buffer : Buffer) (buff : Bytes)
    → init_of d k ≡ done t (pos 0, buffer)
    → 60 ≤ k.gfp_kernel
    → Copies e.uaccess (bytes buffer) buff
    → Prints d (main (fops_of e d) true (record { buffer = buffer; condition = 0 }) buff)
loaded-Prints e d k t none buff loaded room copies =
    absurd (omega (arith, length-init_of d k t none loaded))
loaded-Prints e d k t (some b) buff loaded room copies =
    main-Prints e d b buff 0 (omega (arith, length-init_of d k t (some b) loaded)) copies
