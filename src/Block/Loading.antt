-- ===== src/Block/Loading.antt =====
-- What sbd_init and sbd_exit of day_13/ex30.c acquire and release.
use ldd3_examples.Common.{
  ℕ, Bool, true, false, ◌≡◌, refl, ◌&&◌, not, List, [], ◌∷◌, Run, done, fault, arith,
}
use ldd3_examples.Common.Int.{ℤ, pos, ltb_ℤ, nonzero}
use ldd3_examples.Block.{
  Call, end_request, spin_lock_init, memset, vmalloc, blk_init_queue, alloc_disk, register_blkdev,
  set_capacity, blk_queue_logical_block_size, add_disk, del_gendisk, put_disk, unregister_blkdev,
  blk_cleanup_queue, vfree, Env, InitRet, loaded, no_memory, out, out_unregister, init_disk,
  init_queue, sbd_init, sbd_exit,
}

-- What the driver holds: the disk's bytes, the request queue, the major number and the gendisk, the
-- last with whether it was added.
pub record Held : Type 0 where
  pub memory : Bool
  pub queue : Bool
  pub major : Bool
  pub disk : Bool
  pub live : Bool

abbrev pub nothing : Held
nothing = record { memory = false; queue = false; major = false; disk = false; live = false }

abbrev pub track : Held → Call → Held
track h (end_request _ _) = h
track h spin_lock_init = h
track h (memset _) = h
track h (vmalloc _ ok) = record h { memory = ok }
track h (blk_init_queue ok) = record h { queue = ok }
track h (alloc_disk ok) = record h { disk = ok }
track h (register_blkdev asked result) = record h { major = not (ltb_ℤ result (pos 0)) }
track h (set_capacity _) = h
track h (blk_queue_logical_block_size _) = h
track h add_disk = record h { live = true }
track h del_gendisk = record h { live = false }
track h put_disk = record h { disk = false }
track h unregister_blkdev = record h { major = false }
track h blk_cleanup_queue = record h { queue = false }
track h vfree = record h { memory = false }

abbrev pub track_all : Held → List Call → Held
track_all h [] = h
track_all h (c ∷ cs) = track_all (track h c) cs

-- What is held when sbd_init has returned: everything or, after a failure, the queue if it was made,
-- and the major number if register_blkdev returned 0, which is its success for a number asked for.
abbrev pub Outcome : Env → Run Call InitRet → Type 0
Outcome k (done t loaded) =
    track_all nothing t
    ≡ record { memory = true; queue = true; major = true; disk = true; live = true }
Outcome k (done t no_memory) = track_all nothing t ≡ record {
  memory = false;
  queue = k.memory && k.queue;
  major = k.memory && (k.queue && not (nonzero k.registered));
  disk = false;
  live = false;
}
Outcome k fault = ⊥

-- sbd_init returns 0 with all it asked for, or -ENOMEM. Then the memory and the gendisk are released, and
-- the request queue is not: it is still held if it was made. So is the major number where
-- register_blkdev returned 0, the success of a call that asks for a number, which sbd_init takes for a
-- failure.
pub sbd_init-Outcome :
    (nsectors hardsect_size : ℕ) (major_num : ℤ) (k : Env)
    → Outcome k (sbd_init nsectors hardsect_size major_num k)
unfolding sbd_init init_queue init_disk out out_unregister
sbd_init-Outcome nsectors hardsect_size major_num k = ground arith

abbrev pub Emptied : Run Call (Unit {0}) → Type 0
Emptied (done t r) =
    track_all (record { memory = true; queue = true; major = true; disk = true; live = true }) t
    ≡ nothing
Emptied fault = ⊥

-- sbd_exit releases everything that a successful sbd_init holds.
pub sbd_exit-Emptied : Emptied sbd_exit
unfolding sbd_exit
sbd_exit-Emptied = refl
