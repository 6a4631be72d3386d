-- ===== src/Block/Queue.antt =====
-- A queue of requests, as sbd_request of day_13/ex30.c serves it.
use mathlib.Core.List.{append-nil}
use ldd3_examples.Common.{
  ◌%◌, ap, ◌∙◌, ℕ, Bool, false, ◌+◌, ◌*◌, ◌^◌, ◌≤◌, ◌<◌, ◌≡◌, refl, sym, List, [], ◌∷◌, length,
  take, drop, take_all, length-drop, map, ◌⊎◌, inl, inr, Bool-cases, if◌then◌else◌, ◌&&◌, not, leb,
  Run, done, fault, ◌>>=◌, pure, arith,
}
use ldd3_examples.Block.{Bytes, Request, Call, end_request, splice, handle, sbd_request}
use ldd3_examples.Block.Splice.{concat, cut, concat-cut, length-splice}
use ldd3_examples.Block.Transfer.{
  Fits, do_actual_req-write, do_actual_req-read, do_actual_req-crosses,
}

-- A request that is not of the file system, one that reaches past the last sector, or one within
-- the disk.
abbrev pub Handled : (nsectors : ℕ) (disk : Bytes) → Request → Type 0
Handled nsectors disk req =
    (req.fs ≡ false)
    ⊎ ((nsectors < req.pos + req.sectors) × (req.pos + req.sectors < 2 ^ 31))
    ⊎ Fits nsectors disk req

pub data AllHandled (nsectors : ℕ) (disk : Bytes) : List Request → Type 0 where
  none_left : AllHandled nsectors disk []
  next :
      {req : Request} {reqs : List Request}
      → Handled nsectors disk req
      → AllHandled nsectors disk reqs
      → AllHandled nsectors disk (req ∷ reqs)

-- Whether a request of the file system lies within the disk.
abbrev pub granted : (nsectors : ℕ) → Request → Bool
granted nsectors req = req.fs && leb (req.pos + req.sectors) nsectors

-- What a block device promises of a request: a write within the disk replaces its sectors,
abbrev pub effect : (nsectors : ℕ) → Request → Bytes → Bytes
effect nsectors req disk =
    if granted nsectors req && req.write
    then splice (req.pos * 512) (take (req.sectors * 512) (concat req.segments)) disk
    else disk

-- and a read within it fills the segments with its sectors. All bytes of the segments at the end.
abbrev pub answer : (nsectors : ℕ) → Request → Bytes → Bytes
answer nsectors req disk =
    if granted nsectors req && not req.write
    then take (req.sectors * 512) (drop (req.pos * 512) disk)
    else concat req.segments

-- The disk after a queue, and what each of its requests has in its segments.
abbrev pub replay : (nsectors : ℕ) → List Request → Bytes → Bytes
replay nsectors [] disk = disk
replay nsectors (req ∷ reqs) disk = replay nsectors reqs (effect nsectors req disk)

abbrev pub answers : (nsectors : ℕ) → List Request → Bytes → List Bytes
answers nsectors [] disk = []
answers nsectors (req ∷ reqs) disk =
    answer nsectors req disk ∷ answers nsectors reqs (effect nsectors req disk)

-- The one call of __blk_end_request for a request: of one within the disk its error and 512 times its
-- bytes, in 32 bits; of any other no error and no byte, which leaves the request pending.
abbrev pub report : (nsectors : ℕ) → Request → Call
report nsectors req =
    if granted nsectors req
    then end_request req.errors (req.data_len * 2 ^ 9 % 2 ^ 32)
    else end_request false 0

-- The call is `c`; the disk is `d`, and the request's segments have the bytes `a`.
abbrev pub HandledAs : (c : Call) (d a : Bytes) → Run Call (Bytes × List Bytes) → Type 0
HandledAs c d a (done t (disk, segs)) = (t ≡ c ∷ []) × (disk ≡ d) × (concat segs ≡ a)
HandledAs c d a fault = ⊥

-- The calls are `cs`; the disk is `d`, and the requests' segments have the bytes `out`.
abbrev pub ServedAs :
    (cs : List Call) (d : Bytes) (out : List Bytes) → Run Call (Bytes × List (List Bytes)) → Type 0
ServedAs cs d out (done t (disk, segss)) = (t ≡ cs) × (disk ≡ d) × (map concat segss ≡ out)
ServedAs cs d out fault = ⊥

length-effect :
    (nsectors : ℕ) (req : Request) (disk : Bytes) → length (effect nsectors req disk) ≡ length disk
length-effect nsectors req disk =
    ground
      (arith, length-splice (req.pos * 512) (take (req.sectors * 512) (concat req.segments)) disk)

-- The segments of a request within the disk have the bytes of its sectors.
whole-take :
    (nsectors : ℕ) (disk : Bytes) (req : Request)
    → Fits nsectors disk req
    → take (req.sectors * 512) (concat req.segments) ≡ concat req.segments
whole-take nsectors disk req f = rw (sym f.whole) (take_all (concat req.segments))

cut-take :
    (nsectors : ℕ) (disk : Bytes) (req : Request)
    → Fits nsectors disk req
    → concat (cut (drop (req.pos * 512) disk) req.segments)
      ≡ take (req.sectors * 512) (drop (req.pos * 512) disk)
cut-take nsectors disk req f =
    let room : length (concat req.segments) ≤ length (drop (req.pos * 512) disk) =
      omega (arith, f.whole, f.within, f.room, length-drop (req.pos * 512) disk) in
    rw (concat-cut (drop (req.pos * 512) disk) req.segments room, f.whole)

handle-HandledAs :
    (nsectors : ℕ) (disk : Bytes) (req : Request)
    → Handled nsectors disk req
    → HandledAs
        (report nsectors req)
        (effect nsectors req disk)
        (answer nsectors req disk)
        (handle nsectors disk req)
unfolding handle
handle-HandledAs nsectors disk req (inl n) = ground arith
handle-HandledAs nsectors disk req (inr (inl (n, m))) =
    ground (arith, do_actual_req-crosses nsectors disk req n m)
handle-HandledAs nsectors disk req (inr (inr f)) = elim (Bool-cases req.write) [
  | inl w ↦
      ground (arith, do_actual_req-write nsectors disk req f w, whole-take nsectors disk req f)
  | inr w ↦ ground (arith, do_actual_req-read nsectors disk req f w, cut-take nsectors disk req f)
]

Handled-resized :
    (nsectors : ℕ) (disk disk' : Bytes) (req : Request)
    → length disk' ≡ length disk
    → Handled nsectors disk req
    → Handled nsectors disk' req
Handled-resized nsectors disk disk' req e (inl n) = inl n
Handled-resized nsectors disk disk' req e (inr (inl n)) = inr (inl n)
Handled-resized nsectors disk disk' req e (inr (inr f)) =
    inr (inr (record { small = f.small; room = rw e f.room; within = f.within; whole = f.whole }))

AllHandled-resized :
    (nsectors : ℕ) (disk disk' : Bytes) {reqs : List Request}
    → length disk' ≡ length disk
    → AllHandled nsectors disk reqs
    → AllHandled nsectors disk' reqs
AllHandled-resized nsectors disk disk' e none_left = none_left
AllHandled-resized nsectors disk disk' e (next {req} {reqs} h hs) =
    next {req = req} {reqs = reqs} (Handled-resized nsectors disk disk' req e h)
      (AllHandled-resized nsectors disk disk' {reqs = reqs} e hs)

chain :
    (nsectors : ℕ) (c : Call) (cs : List Call) (d d' a : Bytes) (out : List Bytes)
    → (m : Run Call (Bytes × List Bytes)) (reqs : List Request) → HandledAs c d a m
    → ServedAs cs d' out (sbd_request nsectors d reqs)
    → ServedAs (c ∷ cs) d' (a ∷ out) (
        m >>= λ (disk, segs).
        sbd_request nsectors disk reqs >>= λ (disk', rest). pure (disk', segs ∷ rest))
chain nsectors c cs d d' a out (done t (disk, segs)) reqs (o, e, b) k =
    rw (e, o) (extend (sbd_request nsectors d reqs) k)
  where
    extend :
        (r : Run Call (Bytes × List (List Bytes)))
        → ServedAs cs d' out r
        → ServedAs
            (c ∷ cs)
            d'
            (a ∷ out)
            (done (c ∷ []) tt >>= λ _. (r >>= λ (disk', rest). pure (disk', segs ∷ rest)))
    extend (done t' (disk', rest)) (p, q, g) =
        (ap (λ (x : List Call). c ∷ x) (append-nil t' ∙ p), q, rw (b, g))
    extend fault k = absurd k
chain nsectors c cs d d' a out fault reqs h k = absurd h

-- A queue of requests that are each not of the file system, past the last sector (and below 2 ^ 31), or
-- within the disk (of fewer than 2 ^ 22 sectors) is served to its end. sbd_request makes one call of
-- __blk_end_request for each request, in order: for one within the disk with an error exactly where the
-- request has errors and with 512 times its bytes, modulo 2 ^ 32; for any other without an error and
-- with no byte. The disk is that of the writes within it, done in the order of the queue, and every read
-- within it has the bytes that its sectors have after the writes before it.
pub sbd_request-ServedAs :
    (nsectors : ℕ) (disk : Bytes) (reqs : List Request)
    → AllHandled nsectors disk reqs
    → ServedAs
        (map (report nsectors) reqs)
        (replay nsectors reqs disk)
        (answers nsectors reqs disk)
        (sbd_request nsectors disk reqs)
unfolding sbd_request
sbd_request-ServedAs nsectors disk [] h = (refl, refl, refl)
sbd_request-ServedAs nsectors disk (req ∷ reqs) (next h hs) =
    chain nsectors (report nsectors req) (map (report nsectors) reqs) (effect nsectors req disk) _
      (answer nsectors req disk) _ (handle nsectors disk req) reqs
      (handle-HandledAs nsectors disk req h)
      (sbd_request-ServedAs nsectors (effect nsectors req disk) reqs (
        AllHandled-resized nsectors disk (effect nsectors req disk) {reqs = reqs}
          (length-effect nsectors req disk) hs))
