-- ===== src/Programs/MapFile/Prints.antt =====
-- What day_11/mmap.c prints on the driver of ex27.c.
use ldd3_examples.Common.{
  ℕ, ◌+◌, ◌/◌, ◌%◌, ◌^◌, ◌≡◌, refl, ap, ◌∙◌, Bool, true, false, List, [], ◌∷◌, some, take, length,
  Run, done, fault, arith,
}
use ldd3_examples.Common.Text.{Bytes, strlen}
use ldd3_examples.Kernel.Uaccess.{Uaccess}
use ldd3_examples.Kernel.Copied.{prefix-copied}
use ldd3_examples.Chardev.Defs.{bytes}
use ldd3_examples.Mmap.{
  Call, Place, page_align, remap_pfn_range, copy_from_user, max_length, File, char_dev_fops,
  char_dev_open, char_dev_mmap, char_dev_release,
}
use ldd3_examples.Mmap.Position.{char_dev_write-inside}
use ldd3_examples.Mmap.Mapping.{shows, Holds, shows-buffer}
use ldd3_examples.Programs.MapFile.{
  Output, mmap_status, text, Ending, ended, aborted, message, temp, session, main,
}

abbrev pub expected_output : (remap_ok : Bool) → List Output
expected_output true = mmap_status ∷ text message ∷ []
expected_output false = mmap_status ∷ []

abbrev pub ending : (remap_ok : Bool) → Ending
ending true = ended
ending false = aborted

-- The calls, the driver's state afterwards, the output and the end.
abbrev pub Ends :
    Place → (remap_ok : Bool) (counter : ℕ) → Run Call (File × List Output × Ending) → Type 0
Ends p remap_ok counter (done t (s, out, e)) =
    (t
      ≡ remap_pfn_range (p.pa / 2 ^ p.page_shift) (page_align p.page_shift max_length) remap_ok
        ∷ copy_from_user 23
        ∷ [])
    × (s.counter ≡ counter + 1)
    × (s.f_pos ≡ 23)
    × (take 23 (bytes s.buffer) ≡ message)
    × (length (bytes s.buffer) ≡ max_length)
    × (out ≡ expected_output remap_ok)
    × (e ≡ ending remap_ok)
Ends p remap_ok counter fault = ⊥

message-kept :
    (u : Uaccess) (b : Bytes)
    → length b ≡ max_length
    → (u.copy_from_user b temp 23).1 ≡ 0
    → (take 23 (u.copy_from_user b temp 23).0 ≡ message)
      × (length (u.copy_from_user b temp 23).0 ≡ max_length)
message-kept u b size full = (
  prefix-copied u b temp 23 23 (omega arith) full (omega arith),
  omega (arith, u.from_length b temp 23),
)

-- `physical` is the physical memory, as the driver's state is.
abbrev pub shown_by : Place → (physical : File → ℕ → ℕ) → File → Bytes
shown_by p physical s = shows p (physical s) (char_dev_mmap p true)

-- On the driver of ex27.c just opened, with its buffer of 4000 bytes where a page of the physical memory
-- begins, and a complete copy: day_11/mmap.c never faults and leaves its message at the start of the
-- buffer; it prints the message, read through the pages that the driver gives remap_pfn_range, where
-- the kernel maps them, and else prints nothing of it and ends by its assertion.
pub main-Ends :
    (u : Uaccess) (p : Place) (physical : File → ℕ → ℕ) (remap_ok : Bool) (b : Bytes) (counter : ℕ)
    → p.pa % 2 ^ p.page_shift ≡ 0
    → ((s : File) → Holds (physical s) p.pa (bytes s.buffer))
    → length b ≡ max_length
    → (u.copy_from_user b temp 23).1 ≡ 0
    → Ends p remap_ok counter (
        main
          (char_dev_fops u p)
          (shown_by p physical)
          remap_ok
          (record { buffer = some b; counter = counter; f_pos = 0 }))
unfolding main session strlen char_dev_open char_dev_mmap char_dev_release
main-Ends u p physical true b counter start holds size full =
    let (front, size') = message-kept u b size full in
    rw (char_dev_write-inside u b temp 23 0 size (omega arith), full)
      (
        refl,
        refl,
        refl,
        front,
        size',
        ap (λ (o : Bytes). mmap_status ∷ text o ∷ [])
            (shows-buffer p (physical _) _ 23 start (holds _) size' (omega arith) ∙ front),
        refl,
      )
main-Ends u p physical false b counter start holds size full =
    let (front, size') = message-kept u b size full in
    rw (char_dev_write-inside u b temp 23 0 size (omega arith), full)
      (refl, refl, refl, front, size', refl, refl)
