-- ===== src/Block/Transfer.antt =====
-- What a request of day_13/ex30.c does to the disk and to its segments.
use ldd3_examples.Common.{
  ℕ, true, false, ◌+◌, ◌*◌, ◌%◌, ◌^◌, ◌≤◌, ◌<◌, ◌≡◌, refl, sym, ap, subst, ◌∙◌, List, [], ◌∷◌,
  length, drop, get_elem?, ◌⊎◌, inl, inr, Bool-cases, length-append, length-drop, Run, done, fault,
  arith,
}
use ldd3_examples.Common.Int.{pos}
use ldd3_examples.Block.{
  Bytes, Request, Call, end_request, splice, transfer, signed32, crosses, do_actual_req,
}
use ldd3_examples.Block.Splice.{
  concat, cut, length-splice, splice-nil, splice-splice, take-splice, splice-outside, drop-drop,
  concat-cut,
}

-- A write puts the segments on the disk one after the other.
transfer_write :
    (off : ℕ) (disk : Bytes) (segs : List Bytes)
    → off + length (concat segs) ≤ length disk
    → transfer true off disk segs ≡ done [] (splice off (concat segs) disk, segs)
unfolding transfer
transfer_write off disk [] h = rw (splice-nil off disk)
transfer_write off disk (s ∷ ss) h = ground (
  arith,
  length-append s (concat ss),
  length-splice off s disk,
  transfer_write (off + length s) (splice off s disk) ss,
  splice-splice off s (concat ss) disk,
)

transfer_read :
    (off : ℕ) (disk : Bytes) (segs : List Bytes)
    → off + length (concat segs) ≤ length disk
    → transfer false off disk segs ≡ done [] (disk, cut (drop off disk) segs)
unfolding transfer cut
transfer_read off disk [] h = refl
transfer_read off disk (s ∷ ss) h = ground (
  arith,
  length-append s (concat ss),
  transfer_read (off + length s) disk ss,
  drop-drop off (length s) disk,
)

-- A request within the disk: it asks for so many sectors of 512 bytes, and its segments have as many
-- bytes. The offset of any sector fits an int.
pub record Fits (nsectors : ℕ) (disk : Bytes) (req : Request) : Type 0 where
  pub small : nsectors < 2 ^ 22
  pub room : nsectors * 512 ≤ length disk
  pub within : req.pos + req.sectors ≤ nsectors
  pub whole : length (concat req.segments) ≡ req.sectors * 512

within_crosses :
    (nsectors : ℕ) (disk : Bytes) (req : Request)
    → Fits nsectors disk req
    → crosses nsectors req ≡ false
within_crosses nsectors disk req f = ground arith

offset_lem :
    (nsectors : ℕ) (disk : Bytes) (req : Request)
    → Fits nsectors disk req
    → signed32 (req.pos * 2 ^ 9 % 2 ^ 32) ≡ pos (req.pos * 512)
offset_lem nsectors disk req f = ground arith

bytes_fit :
    (nsectors : ℕ) (disk : Bytes) (req : Request)
    → Fits nsectors disk req
    → req.pos * 512 + length (concat req.segments) ≤ length disk
bytes_fit nsectors disk req f = omega arith

-- A write request within the disk replaces the bytes of its sectors by those of its segments, in
-- order, and is reported once, with its error and 512 times its bytes.
pub do_actual_req-write :
    (nsectors : ℕ) (disk : Bytes) (req : Request)
    → Fits nsectors disk req
    → req.write ≡ true
    → do_actual_req nsectors disk req
      ≡ done
          (end_request req.errors (req.data_len * 2 ^ 9 % 2 ^ 32) ∷ [])
          (splice (req.pos * 512) (concat req.segments) disk, req.segments)
unfolding do_actual_req
do_actual_req-write nsectors disk req f w = rw (
  within_crosses nsectors disk req f,
  offset_lem nsectors disk req f,
  w,
  transfer_write (req.pos * 512) disk req.segments (bytes_fit nsectors disk req f),
)

-- A read request within the disk leaves the disk, fills its segments in order with the bytes of its
-- sectors, and is reported once, with its error and 512 times its bytes.
pub do_actual_req-read :
    (nsectors : ℕ) (disk : Bytes) (req : Request)
    → Fits nsectors disk req
    → req.write ≡ false
    → do_actual_req nsectors disk req
      ≡ done
          (end_request req.errors (req.data_len * 2 ^ 9 % 2 ^ 32) ∷ [])
          (disk, cut (drop (req.pos * 512) disk) req.segments)
unfolding do_actual_req
do_actual_req-read nsectors disk req f w = rw (
  within_crosses nsectors disk req f,
  offset_lem nsectors disk req f,
  w,
  transfer_read (req.pos * 512) disk req.segments (bytes_fit nsectors disk req f),
)

-- A request's segments after it is done, all in order, are `out`.
abbrev pub Returns : Run Call (Bytes × List Bytes) → Bytes → Type 0
Returns (done calls (disk, segs)) out = concat segs ≡ out
Returns fault out = ⊥

-- What a write request within the disk has written is what a read request of the same sectors
-- returns next, however either is cut into segments.
pub do_actual_req-written :
    (nsectors : ℕ) (disk disk' : Bytes) (segs : List Bytes) (calls : List Call) (w r : Request)
    → Fits nsectors disk w
    → Fits nsectors disk r
    → w.write ≡ true
    → r.write ≡ false
    → r.pos ≡ w.pos
    → r.sectors ≡ w.sectors
    → do_actual_req nsectors disk w ≡ done calls (disk', segs)
    → Returns (do_actual_req nsectors disk' r) (concat w.segments)
do_actual_req-written nsectors disk disk' segs calls w r fw fr ww rr ep es e =
    subst (λ d. Returns (do_actual_req nsectors d r) (concat w.segments)) same
      (rw
        (
          do_actual_req-read nsectors (splice (w.pos * 512) (concat w.segments) disk) r fr' rr,
          concat-cut _ r.segments room,
          lengths,
          ep,
        )
        (take-splice (w.pos * 512) (concat w.segments) disk (bytes_fit nsectors disk w fw)))
  where
    same : splice (w.pos * 512) (concat w.segments) disk ≡ disk'
    same = cc (do_actual_req-write nsectors disk w fw ww)

    fr' : Fits nsectors (splice (w.pos * 512) (concat w.segments) disk) r
    fr' = record {
      small = fr.small;
      room = rw (length-splice (w.pos * 512) (concat w.segments) disk) fr.room;
      within = fr.within;
      whole = fr.whole;
    }

    lengths : length (concat r.segments) ≡ length (concat w.segments)
    lengths = fr.whole ∙ ap (λ n. n * 512) es ∙ sym fw.whole

    room :
        length (concat r.segments)
        ≤ length (drop (r.pos * 512) (splice (w.pos * 512) (concat w.segments) disk))
    room = omega (
      arith,
      bytes_fit nsectors (splice (w.pos * 512) (concat w.segments) disk) r fr',
      length-drop (r.pos * 512) (splice (w.pos * 512) (concat w.segments) disk),
    )

-- A request that reaches past the last sector, and ends below 2 ^ 31, leaves the disk and its segments as
-- they are, and is reported once, without an error and with no byte, which leaves it pending.
pub do_actual_req-crosses :
    (nsectors : ℕ) (disk : Bytes) (req : Request)
    → nsectors < req.pos + req.sectors
    → req.pos + req.sectors < 2 ^ 31
    → do_actual_req nsectors disk req ≡ done (end_request false 0 ∷ []) (disk, req.segments)
unfolding do_actual_req
do_actual_req-crosses nsectors disk req h lt =
    let c : crosses nsectors req ≡ true = ground arith in rw c refl

-- The byte at `i` is as it was.
abbrev pub Leaves : ℕ → Bytes → Run Call (Bytes × List Bytes) → Type 0
Leaves i disk (done calls (disk', segs)) = get_elem? disk' i ≡ get_elem? disk i
Leaves i disk fault = ⊥

-- A request within the disk, be it a write or a read, changes no byte outside its sectors.
pub do_actual_req-elsewhere :
    (nsectors : ℕ) (disk : Bytes) (req : Request) (i : ℕ)
    → Fits nsectors disk req
    → (i < req.pos * 512) ⊎ ((req.pos + req.sectors) * 512 ≤ i)
    → Leaves i disk (do_actual_req nsectors disk req)
do_actual_req-elsewhere nsectors disk req i f h = elim (Bool-cases req.write) [
  | inl w ↦
      rw (do_actual_req-write nsectors disk req f w)
        (splice-outside (req.pos * 512) (concat req.segments) disk i (omega (arith, f.whole)))
  | inr r ↦ rw (do_actual_req-read nsectors disk req f r) refl
]
