-- ===== src/Tests/Storage.antt =====
-- The drivers of day_11/ex27.c, day_13/ex30.c and day_14/ex31.c at concrete inputs.
use mathlib.Core.Quot
use ldd3_examples.Common.{
  map, ℕ, ◌≤◌, ◌≡◌, true, false, List, [], ◌∷◌, some, length, length-replicate, replicate, fault,
  inl, inr, arith, length-append,
}
use ldd3_examples.Common.Int.{pos}
use ldd3_examples.Kernel.Simple.{simple_uaccess}
use ldd3_examples.Mmap
use ldd3_examples.Mmap.{max_length, char_dev_read, char_dev_write}
use ldd3_examples.Mmap.Position.{past_end-fault}
use ldd3_examples.Adc.{adc_init, adc_exit}
use ldd3_examples.Adc.Loading.{Outcome, adc_init-Outcome}
use ldd3_examples.Block.{Bytes, Request, Env, sbd_request, sbd_init}
use ldd3_examples.Block.Splice.{concat}
use ldd3_examples.Block.Transfer.{Fits}
use ldd3_examples.Block.Queue.{
  none_left, next, replay, answers, report, ServedAs, sbd_request-ServedAs,
}
use ldd3_examples.Block.Order.{Schedule, Implements, sbd_request-Implements}
use ldd3_examples.Block.Order.Exchange.{here}
use ldd3_examples.Block.Loading as BlockLoading
use ldd3_examples.Tests.Instances.{boot}

abbrev page : List ℕ
page = replicate max_length 0

page_size : length page ≡ max_length
page_size = length-replicate {A = ℕ} max_length 0

abbrev sent : List ℕ
sent = 7 ∷ 8 ∷ []

abbrev received : List ℕ
received = 0 ∷ 0 ∷ []

past_end-fault_example :
    (char_dev_read simple_uaccess (some page) received 2 4001 ≡ fault)
    × (char_dev_write simple_uaccess (some page) received 2 4001 ≡ fault)
past_end-fault_example =
    past_end-fault simple_uaccess page received 2 4001 page_size (omega arith) (omega arith)
      (omega arith) (omega arith)

adc_init-Outcome_example : Outcome boot false (adc_init boot false) adc_exit
adc_init-Outcome_example = adc_init-Outcome boot false

-- A disk of two sectors.
abbrev disk : Bytes
disk = replicate 1024 0

abbrev sector : Bytes
sector = replicate 512 1

abbrev write_second : Request
write_second = record {
  fs = true;
  pos = 1;
  sectors = 1;
  write = true;
  segments = sector ∷ [];
  errors = false;
  data_len = 512;
}

abbrev read_second : Request
read_second = record write_second { write = false }

abbrev past_end : Request
past_end = record write_second { pos = 2 }

sector_whole : length (concat (sector ∷ [])) ≡ 512
sector_whole = omega (arith, length-append sector [], length-replicate {A = ℕ} 512 1)

disk_room : 1024 ≤ length disk
disk_room = omega (arith, length-replicate {A = ℕ} 1024 0)

write_second-Fits : Fits 2 disk write_second
write_second-Fits = record {
  small = omega arith;
  room = disk_room;
  within = omega arith;
  whole = sector_whole;
}

read_second-Fits : Fits 2 disk read_second
read_second-Fits = record {
  small = omega arith;
  room = disk_room;
  within = omega arith;
  whole = sector_whole;
}

abbrev requests : List Request
requests = write_second ∷ past_end ∷ read_second ∷ []

sbd_request-ServedAs_example :
    ServedAs
      (map (report 2) requests)
      (replay 2 requests disk)
      (answers 2 requests disk)
      (sbd_request 2 disk requests)
sbd_request-ServedAs_example = sbd_request-ServedAs 2 disk requests (
    next (inr (inr write_second-Fits))
      (next (inr (inl (omega arith, omega arith))) (next (inr (inr read_second-Fits)) none_left)))

abbrev read_first : Request
read_first = record read_second { pos = 0 }

read_first-Fits : Fits 2 disk read_first
read_first-Fits = record {
  small = omega arith;
  room = disk_room;
  within = omega arith;
  whole = sector_whole;
}

-- The read of the first sector overtakes the write of the second.
abbrev schedule : Schedule
schedule = Quot.mk (write_second ∷ read_first ∷ read_second ∷ [])

abbrev overtaken : List Request
overtaken = read_first ∷ write_second ∷ read_second ∷ []

sbd_request-Implements_example : Implements 2 disk schedule overtaken (sbd_request 2 disk overtaken)
sbd_request-Implements_example =
    sbd_request-Implements 2 disk schedule overtaken (Quot.sound (here (inr (inl (omega arith))))) (
      next (inr (inr read_first-Fits))
        (next (inr (inr write_second-Fits)) (next (inr (inr read_second-Fits)) none_left)))

-- Major number 240 is asked for and granted.
abbrev major_granted : Env
major_granted = record { memory = true; queue = true; registered = pos 0; disk = true }

sbd_init-Outcome_example :
    BlockLoading.Outcome major_granted (sbd_init 1024 512 (pos 240) major_granted)
sbd_init-Outcome_example = BlockLoading.sbd_init-Outcome 1024 512 (pos 240) major_granted
