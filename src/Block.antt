-- ===== src/Block.antt =====
-- The RAM disk, day_13/ex30.c.
pub mod Splice
pub mod Transfer
pub mod Loading
pub mod Queue
pub mod Order
use ldd3_examples.Common.{
  ℕ, zero, suc, Bool, true, false, ◌+◌, ◌-◌, ◌*◌, ◌/◌, ◌%◌, ◌^◌, List, [], ◌∷◌, ◌++◌, Option, none,
  some, length, take, drop, ltb, leb, ◌||◌, not, if◌then◌else◌, Run, done, fault, ◌>>=◌, ◌>>◌, pure,
  emit, require,
}
use ldd3_examples.Common.Int.{ℤ, pos, negsuc, ltb_ℤ}

abbrev pub Bytes : Type 0
Bytes = List ℕ

-- A struct request of the kernel, with what the driver reads of it. A segment is its bytes.
pub record Request : Type 0 where
  pub fs : Bool
  pub pos : ℕ
  pub sectors : ℕ
  pub write : Bool
  pub segments : List Bytes
  pub errors : Bool
  pub data_len : ℕ

pub data Call : Type 0 where
  -- __blk_end_request: whether with -EIO, and the number of bytes that are reported done
  end_request : (eio : Bool) (bytes : ℕ) → Call
  spin_lock_init : Call
  vmalloc : (size : ℕ) (ok : Bool) → Call
  memset : (size : ℕ) → Call
  blk_init_queue alloc_disk : (ok : Bool) → Call
  -- the number that is asked for, and what the kernel returns
  register_blkdev : (major_num result : ℤ) → Call
  set_capacity : ℕ → Call
  blk_queue_logical_block_size : ℕ → Call
  add_disk del_gendisk put_disk unregister_blkdev blk_cleanup_queue vfree : Call

-- An int from its 32 bits.
abbrev pub signed32 : ℕ → ℤ
signed32 w = if ltb w (2 ^ 31) then pos w else negsuc (2 ^ 32 - w - 1)

-- memcpy of `seg` to an offset of the disk; what would fall past the end is dropped.
unfoldable pub splice : (off : ℕ) → Bytes → Bytes → Bytes
splice off seg [] = []
splice zero [] (d ∷ disk) = d ∷ disk
splice zero (x ∷ seg) (d ∷ disk) = x ∷ splice zero seg disk
splice (suc off) seg (d ∷ disk) = d ∷ splice off seg disk

-- The two loops over bios and segments: the disk and the segments after the copies. A copy past the
-- end of the disk is a fault.
unfoldable pub transfer :
    (write : Bool) (off : ℕ) (disk : Bytes) → List Bytes → Run Call (Bytes × List Bytes)
transfer write off disk [] = pure (disk, [])
transfer true off disk (seg ∷ segs) = do
  require (leb (off + length seg) (length disk))
  (disk', segs') ← transfer true (off + length seg) (splice off seg disk) segs
  pure (disk', seg ∷ segs')
transfer false off disk (seg ∷ segs) = do
  require (leb (off + length seg) (length disk))
  (disk', segs') ← transfer false (off + length seg) disk segs
  pure (disk', take (length seg) (drop off disk) ∷ segs')

-- `Device.data + (sector << 9)`: an offset below 0 is outside the disk.
abbrev pub from_offset : ℤ → (ℕ → Run Call (Bytes × List Bytes)) → Run Call (Bytes × List Bytes)
from_offset (pos off) k = k off
from_offset (negsuc n) k = fault

-- `sector > nsectors || (sector + max_sectors) > nsectors`, in ints; `nsectors` is not negative.
abbrev pub crosses : (nsectors : ℕ) → Request → Bool
crosses nsectors req =
    ltb_ℤ (pos nsectors) (signed32 (req.pos % 2 ^ 32))
    || ltb_ℤ (pos nsectors) (signed32 ((req.pos + req.sectors) % 2 ^ 32))

unfoldable pub do_actual_req : (nsectors : ℕ) → Bytes → Request → Run Call (Bytes × List Bytes)
do_actual_req nsectors disk req =
    if crosses nsectors req then (emit (end_request false 0) >> pure (disk, req.segments)) else (do
      r ←
          from_offset (signed32 (req.pos * 2 ^ 9 % 2 ^ 32))
            (λ off. transfer req.write off disk req.segments)
      emit (end_request req.errors (req.data_len * 2 ^ 9 % 2 ^ 32))
      pure r)

-- One round of the loop of sbd_request.
unfoldable pub handle : (nsectors : ℕ) → Bytes → Request → Run Call (Bytes × List Bytes)
handle nsectors disk req =
    if not req.fs
    then (emit (end_request false 0) >> pure (disk, req.segments))
    else do_actual_req nsectors disk req

-- blk_fetch_request takes the requests of the queue in turn. The disk, and each request's segments.
unfoldable pub sbd_request :
    (nsectors : ℕ) → Bytes → List Request → Run Call (Bytes × List (List Bytes))
sbd_request nsectors disk [] = pure (disk, [])
sbd_request nsectors disk (req ∷ reqs) = do
  (disk₁, segs) ← handle nsectors disk req
  (disk₂, rest) ← sbd_request nsectors disk₁ reqs
  pure (disk₂, segs ∷ rest)

-- What the kernel answers while the module is loaded. `registered` is what register_blkdev returns: a
-- negative errno, or, where it succeeds, 0 for a number that was asked for and a new number for 0.
pub record Env : Type 0 where
  pub memory : Bool
  pub queue : Bool
  pub registered : ℤ
  pub disk : Bool

-- What sbd_init returns: 0 or -ENOMEM.
pub data InitRet : Type 0 where
  loaded no_memory : InitRet

unfoldable pub out : Run Call InitRet
out = do emit vfree; pure no_memory

unfoldable pub out_unregister : Run Call InitRet
unfolding out
out_unregister = do emit unregister_blkdev; out

unfoldable pub init_disk : (nsectors hardsect_size : ℕ) → Env → Run Call InitRet
unfolding out_unregister
init_disk nsectors hardsect_size k = do
  emit (alloc_disk k.disk)
  if k.disk
      then (emit (set_capacity (nsectors * (hardsect_size / 512)))
          >> (emit add_disk >> pure loaded))
      else out_unregister

abbrev pub positive : ℤ → Bool
positive m = ltb_ℤ (pos 0) m

unfoldable pub init_queue : (nsectors hardsect_size : ℕ) (major_num : ℤ) → Env → Run Call InitRet
unfolding out init_disk
init_queue nsectors hardsect_size major_num k = do
  emit (blk_init_queue k.queue)
  if not k.queue then out else do
    emit (blk_queue_logical_block_size hardsect_size)
    emit (register_blkdev major_num k.registered)
    if positive k.registered then init_disk nsectors hardsect_size k else out

-- Device.size. The module's parameters are taken where the product is an int.
abbrev pub device_size : (nsectors hardsect_size : ℕ) → ℕ
device_size nsectors hardsect_size = nsectors * hardsect_size

unfoldable pub sbd_init : (nsectors hardsect_size : ℕ) (major_num : ℤ) → Env → Run Call InitRet
unfolding init_queue
sbd_init nsectors hardsect_size major_num k = do
  emit spin_lock_init
  emit (vmalloc (device_size nsectors hardsect_size) k.memory)
  if not k.memory then pure no_memory else do
    emit (memset (device_size nsectors hardsect_size))
    init_queue nsectors hardsect_size major_num k

unfoldable pub sbd_exit : Run Call (Unit {0})
sbd_exit = do
  emit del_gendisk
  emit put_disk
  emit unregister_blkdev
  emit blk_cleanup_queue
  emit vfree

-- 0 is success.
unfoldable pub sbd_open : Run Call ℕ
sbd_open = pure 0
