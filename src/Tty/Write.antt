-- ===== src/Tty/Write.antt =====
-- tiny_write and tiny_write_room of day_12/ex29.c. `driver_data` is NULL, or the port's object.
use ldd3_examples.Common.{
  ℕ, zero, suc, ◌≤◌, ◌≡◌, ◌≢◌, refl, List, [], ◌∷◌, ◌++◌, none, some, length, take, map, ◌==◌,
  if◌then◌else◌, Run, done, fault, ◌>>◌, pure, emit, arith,
}
use ldd3_examples.Kernel.Errno.{Ret, ret, err, einval, enodev}
use ldd3_examples.Tty.Defs.{TinySerial, Slot, Call, down, up, printk_byte, printk_text}

-- `for (i = 0; i < count; ++i) printk("%02x ", buffer[i]);`, over the rest of the buffer: a read
-- past its end is a fault.
unfoldable pub print_bytes : (count : ℕ) → List ℕ → Run Call (Unit {0})
print_bytes zero buffer = pure tt
print_bytes (suc n) [] = fault
print_bytes (suc n) (b ∷ buffer) = do emit (printk_byte b); print_bytes n buffer

unfoldable pub tiny_write : Slot → List ℕ → ℕ → Run Call Ret
tiny_write none buffer count = pure (err enodev)
tiny_write (some tiny) buffer count = do
  emit down
  let retval = err einval
  if tiny.open_count == 0
      then (emit up >> pure retval)
      else (do emit printk_text; print_bytes count buffer; emit printk_text; emit up; pure retval)

unfoldable pub tiny_write_room : Slot → Run Call Ret
tiny_write_room none = pure (err enodev)
tiny_write_room (some tiny) = do
  emit down
  let room = if tiny.open_count == 0 then err einval else ret 255
  emit up
  pure room

print_bytes-done :
    (count : ℕ) (buffer : List ℕ)
    → count ≤ length buffer
    → print_bytes count buffer ≡ done (map printk_byte (take count buffer)) tt
unfolding print_bytes
print_bytes-done zero buffer h = refl
print_bytes-done (suc n) [] h = elim h [ ]
print_bytes-done (suc n) (b ∷ buffer) h = rw (print_bytes-done n buffer (omega arith))

-- A write to an open port logs the first `count` bytes in order, under the semaphore, and returns
-- -EINVAL all the same, while write_room has promised 255 bytes.
pub tiny_write-open :
    (tiny : TinySerial) (buffer : List ℕ) (count : ℕ)
    → tiny.open_count ≢ 0
    → count ≤ length buffer
    → (tiny_write (some tiny) buffer count
        ≡ done
            (down ∷ printk_text ∷ map printk_byte (take count buffer) ++ (printk_text ∷ up ∷ []))
            (err einval))
      × (tiny_write_room (some tiny) ≡ done (down ∷ up ∷ []) (ret 255))
unfolding tiny_write tiny_write_room
tiny_write-open tiny buffer count o h =
    (ground (arith, print_bytes-done count buffer h), ground arith)

-- No write that ends returns a count, whatever the port and the bytes.
pub tiny_write-fails :
    (slot : Slot) (buffer : List ℕ) (count : ℕ) (t : List Call) (r : Ret)
    → tiny_write slot buffer count ≡ done t r
    → (n : ℕ) → r ≢ ret n
unfolding tiny_write
tiny_write-fails none buffer count t r e n = ground arith
tiny_write-fails (some tiny) buffer count t r e n = ground arith
