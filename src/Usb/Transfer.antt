-- ===== src/Usb/Transfer.antt =====
-- Reads and writes of day_09/ex23.c.
use mathlib.Core.List.{append-nil}
use ldd3_examples.Common.{
  take_front, ℕ, true, ◌-◌, ◌≤◌, ◌≡◌, sym, ap, ◌∙◌, List, [], ◌∷◌, ◌++◌, some, length, take, drop,
  length-append, length-take, length-drop, take-take, Run, done, fault, ◌>>=◌, if◌then◌else◌, arith,
}
use ldd3_examples.Common.Int.{pos, nonzero}
use ldd3_examples.Common.Text.{Bytes}
use ldd3_examples.Kernel.Uaccess.{Uaccess}
use ldd3_examples.Kernel.Copied.{prefix-copied}
use ldd3_examples.Usb.{
  Ret, counted, efault, failed, Call, bulk_in, bulk_out, copy_to_user, copy_from_user, max_pkt_size,
  min_of, State, Received, Sent, pen_drive_read, pen_drive_write, fill_bulk, send_bulk,
}

-- What a read ends with, by its result: bytes for the user that the device sent, no more than were
-- asked for; a short copy; or the transfer's error, with the user's bytes untouched.
abbrev pub Read :
    Received → State → (buf : Bytes) (cnt d : ℕ) → Run Call (State × Bytes × Ret) → Type 0
Read r s buf cnt d (done t (s', buf', counted n)) =
    (t ≡ bulk_in d max_pkt_size ∷ copy_to_user n ∷ [])
    × (n ≡ min_of cnt (length r.bytes))
    × (take n buf' ≡ take n r.bytes)
    × (length s'.bulk_buf ≡ max_pkt_size)
    × (r.retval ≡ pos 0)
Read r s buf cnt d (done t (s', buf', efault)) =
    (length s'.bulk_buf ≡ max_pkt_size) × (r.retval ≡ pos 0)
Read r s buf cnt d (done t (s', buf', failed e)) =
    (t ≡ bulk_in d max_pkt_size ∷ [])
    × (buf' ≡ buf)
    × (length s'.bulk_buf ≡ max_pkt_size)
    × (e ≡ r.retval)
    × (nonzero e ≡ true)
Read r s buf cnt d fault = ⊥

module _ (u : Uaccess) (r : Received) (s : State) (buf : Bytes) (cnt : ℕ)
    (size : length s.bulk_buf ≡ max_pkt_size) where
  abbrev filled : Bytes
  filled = r.bytes ++ drop (length r.bytes) s.bulk_buf

  length-filled : length filled ≡ max_pkt_size
  length-filled = omega (
    arith,
    r.fits,
    length-append r.bytes (drop (length r.bytes) s.bulk_buf),
    length-drop (length r.bytes) s.bulk_buf,
  )

  abbrev asked : ℕ
  asked = min_of cnt (length r.bytes)

  asked_fits : asked ≤ length r.bytes
  asked_fits = ground arith

  abbrev given : Bytes × ℕ
  given = u.copy_to_user buf filled asked

  given_lem : given.1 ≡ 0 → take asked given.0 ≡ take asked r.bytes
  given_lem h =
      let all : asked - given.1 ≡ asked = omega arith in
      rw all at (u.to_copied buf filled asked (omega (arith, asked_fits, length-filled, r.fits)))
      ∙ take_front asked r.bytes (drop (length r.bytes) s.bulk_buf) asked_fits

-- With a device and its buffer of 512 bytes a read never faults and keeps the buffer's size. One that
-- returns a count asked the device for at most 512 bytes and gives the user, of those that arrived,
-- as many as were asked for; where the transfer fails, its error is returned and the user's bytes
-- stay; else the result is EFAULT.
pub pen_drive_read-Read :
    (u : Uaccess) (r : Received) (s : State) (buf : Bytes) (cnt d : ℕ)
    → s.device ≡ some d
    → length s.bulk_buf ≡ max_pkt_size
    → Read r s buf cnt d (pen_drive_read u r s buf cnt)
unfolding pen_drive_read
pen_drive_read-Read u r s buf cnt d e size =
    ground (arith, length-filled u r s buf cnt size, given_lem u r s buf cnt size)

-- The bytes that a write puts into the buffer and sends.
sent_lem :
    (u : Uaccess) (s : State) (buf : Bytes) (n m : ℕ)
    → length s.bulk_buf ≡ max_pkt_size
    → n ≤ max_pkt_size
    → (u.copy_from_user s.bulk_buf buf n).1 ≡ 0
    → m ≤ n
    → take m (u.copy_from_user s.bulk_buf buf n).0 ≡ take m buf
sent_lem u s buf n m size fits full le = prefix-copied u s.bulk_buf buf n m (omega arith) full le

min_of-le : (a b : ℕ) → min_of a b ≤ b
min_of-le a b = ground arith

-- A complete write sends the device the first bytes of the user's, at most 512, and returns what the
-- transfer reports.
pub pen_drive_write-sends :
    (u : Uaccess) (r : Sent) (s : State) (buf : Bytes) (cnt d : ℕ)
    → s.device ≡ some d
    → length s.bulk_buf ≡ max_pkt_size
    → (u.copy_from_user s.bulk_buf buf (min_of cnt max_pkt_size)).1 ≡ 0
    → (s' : State) × (pen_drive_write u r s buf cnt
        ≡ done
            (copy_from_user (min_of cnt max_pkt_size)
              ∷ bulk_out d (take (min_of cnt max_pkt_size) buf)
              ∷ [])
            (s', (if nonzero r.retval then failed r.retval else counted r.count)))
      × (s'.device ≡ some d)
      × (length s'.bulk_buf ≡ max_pkt_size)
unfolding pen_drive_write fill_bulk send_bulk
pen_drive_write-sends u r s buf cnt d e size full = (
  record s { bulk_buf = (u.copy_from_user s.bulk_buf buf (min_of cnt max_pkt_size)).0 },
  ground (
    arith,
    sent_lem u s buf (min_of cnt max_pkt_size) (min_of cnt max_pkt_size) size
        (min_of-le cnt max_pkt_size) full (omega arith),
  ),
  e,
  omega (arith, u.from_length s.bulk_buf buf (min_of cnt max_pkt_size), min_of-le cnt max_pkt_size),
)

-- A read that returns a count, with it and the user's bytes.
abbrev pub Returns : Run Call (State × Bytes × Ret) → (ℕ → Bytes → Type 0) → Type 0
Returns (done t (s, got, counted n)) P = P n got
Returns _ P = ⊥

pen_drive_read-Returns :
    (u : Uaccess) (r : Received) (s : State) (buf : Bytes) (cnt d : ℕ)
    → s.device ≡ some d
    → (size : length s.bulk_buf ≡ max_pkt_size) → r.retval ≡ pos 0
    → (given u r s buf cnt size).1 ≡ 0
    → Returns
        (pen_drive_read u r s buf cnt)
        (λ n got. (n ≡ min_of cnt (length r.bytes)) × (take n got ≡ take n r.bytes))
unfolding pen_drive_read
pen_drive_read-Returns u r s buf cnt d e size ok full =
    ground (arith, given_lem u r s buf cnt size full)

-- The bytes that go out to a device in these calls.
abbrev pub carried : List Call → Bytes
carried [] = []
carried (bulk_out d b ∷ cs) = b ++ carried cs
carried (_ ∷ cs) = carried cs

-- A complete copy of `n` bytes found as many.
length-copied :
    (u : Uaccess) (s : State) (buf : Bytes) (n : ℕ)
    → length s.bulk_buf ≡ max_pkt_size
    → n ≤ max_pkt_size
    → (u.copy_from_user s.bulk_buf buf n).1 ≡ 0
    → length (take n buf) ≡ n
length-copied u s buf n size fits full =
    let bulk = (u.copy_from_user s.bulk_buf buf n).0 in
    omega (
      arith,
      ap length (sent_lem u s buf n n size fits full (omega arith)),
      length-take n bulk,
      u.from_length s.bulk_buf buf n,
    )

-- Where the device sends back the bytes that went out to it in a complete write, a read with a complete
-- copy returns as many of them as it asks for, and no more than the write put into a packet: they are the
-- first bytes that were written.
pub pen_drive-echo :
    (u : Uaccess) (w : Sent) (r : Received) (s s' : State) (buf buf' : Bytes) (cnt cnt' d : ℕ)
    (calls : List Call) (result : Ret)
    → s.device ≡ some d
    → length s.bulk_buf ≡ max_pkt_size
    → (u.copy_from_user s.bulk_buf buf (min_of cnt max_pkt_size)).1 ≡ 0
    → pen_drive_write u w s buf cnt ≡ done calls (s', result)
    → r.retval ≡ pos 0
    → r.bytes ≡ carried calls
    → (u.copy_to_user buf'
        (r.bytes ++ drop (length r.bytes) s'.bulk_buf)
        (min_of cnt' (length r.bytes))).1
      ≡ 0
    → Returns
        (pen_drive_read u r s' buf' cnt')
        (λ n got. (n ≡ min_of cnt' (min_of cnt max_pkt_size)) × (take n got ≡ take n buf))
pen_drive-echo u w r s s' buf buf' cnt cnt' d calls result e size full wrote ok back out =
    let (after, same, dev, kept) = pen_drive_write-sends u w s buf cnt d e size full in
    let joined : after ≡ s' = cc in
    let calls_so : calls ≡ copy_from_user N ∷ bulk_out d (take N buf) ∷ [] = cc in
    let back_so : r.bytes ≡ take N buf = back ∙ ap carried calls_so ∙ append-nil (take N buf) in
    from_device back_so (pen_drive_read u r s' buf' cnt') (
      pen_drive_read-Returns u r s' buf' cnt' d (rw joined at dev)
        (ap (λ (x : State). length x.bulk_buf) (sym joined) ∙ kept) ok out)
  where
    N : ℕ
    N = min_of cnt max_pkt_size

    from_device :
        r.bytes ≡ take N buf
        → (m : Run Call (State × Bytes × Ret))
        → Returns m (λ n got. (n ≡ min_of cnt' (length r.bytes)) × (take n got ≡ take n r.bytes))
        → Returns m (λ n got. (n ≡ min_of cnt' N) × (take n got ≡ take n buf))
    from_device b (done t (x, got, counted n)) (p, q) =
        let all : length r.bytes ≡ N =
          ap length b ∙ length-copied u s buf N size (min_of-le cnt max_pkt_size) full in
        let asked : n ≡ min_of cnt' N = p ∙ ap (min_of cnt') all in
        let fits : n ≤ N = omega (arith, asked, min_of-le cnt' N) in
        (asked, q ∙ ap (take n) b ∙ take-take n N buf fits)
    from_device b (done t (x, got, efault)) v = absurd v
    from_device b (done t (x, got, failed z)) v = absurd v
    from_device b fault v = absurd v

-- Two writers share bulk_buf and no lock: where both have filled it before the first sends, the first
-- writer's transfer carries the second one's bytes, and reports success as the transfer does.
pub send_bulk-mixed_up :
    (u : Uaccess) (r : Sent) (s : State) (a b : Bytes) (cnt d : ℕ)
    → s.device ≡ some d
    → length s.bulk_buf ≡ max_pkt_size
    → (u.copy_from_user
        (u.copy_from_user s.bulk_buf a (min_of cnt max_pkt_size)).0
        b
        (min_of cnt max_pkt_size)).1
      ≡ 0
    → r.retval ≡ pos 0
    → (fill_bulk u s a cnt >>= λ (s₁, left).
        fill_bulk u s₁ b cnt >>= λ (s₂, left'). send_bulk r s₂ cnt)
      ≡ done
          (copy_from_user (min_of cnt max_pkt_size)
            ∷ copy_from_user (min_of cnt max_pkt_size)
            ∷ bulk_out d (take (min_of cnt max_pkt_size) b)
            ∷ [])
          (counted r.count)
unfolding fill_bulk send_bulk
send_bulk-mixed_up u r s a b cnt d e size full ok =
    let n = min_of cnt max_pkt_size in
    ground (
      arith,
      u.from_length s.bulk_buf a n,
      min_of-le cnt max_pkt_size,
      sent_lem u (record s { bulk_buf = (u.copy_from_user s.bulk_buf a n).0 }) b n n,
    )
