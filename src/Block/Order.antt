-- ===== src/Block/Order.antt =====
-- The order in which sbd_request of day_13/ex30.c is given its requests. A scheduler of the block layer
-- may exchange requests that do not touch the same sectors.
pub mod Exchange
pub mod Commute
use mathlib.Core.Quot
use mathlib.Core.Quot.{Quot, Quot-set}
use ldd3_examples.Common.{
  ℕ, ◌≡◌, refl, sym, ap, ◌∙◌, List, [], ◌∷◌, length, map, Run, done, fault, arith,
}
use ldd3_examples.Block.{Bytes, Request, Call, sbd_request}
use ldd3_examples.Block.Splice.{concat}
use ldd3_examples.Block.Queue.{
  AllHandled, effect, answer, replay, answers, report, ServedAs, sbd_request-ServedAs,
}
use ldd3_examples.Block.Order.Exchange.{Exchanged, here, later, Bag, put, zip}
use ldd3_examples.Block.Order.Commute.{Apart, Apart-symm, effect_comm, answer-effect}

-- A queue, up to exchanges of neighbours that are apart.
abbrev pub Schedule : Type 0
Schedule = Quot (Exchanged Apart)

-- The requests of a queue, each with the call that reports it and with what its segments have at the end.
abbrev pub log : (nsectors : ℕ) → Bytes → List Request → List (Request × (Call × Bytes))
log nsectors disk reqs = zip reqs (zip (map (report nsectors) reqs) (answers nsectors reqs disk))

pub replay-Exchanged :
    (nsectors : ℕ) (disk : Bytes) {reqs reqs' : List Request}
    → Exchanged Apart reqs reqs'
    → replay nsectors reqs disk ≡ replay nsectors reqs' disk
replay-Exchanged nsectors disk (here {a} {b} {xs} p) =
    ap (replay nsectors xs) (sym (effect_comm nsectors a b disk p))
replay-Exchanged nsectors disk (later {x} {xs} {ys} e) =
    replay-Exchanged nsectors (effect nsectors x disk) e

pub log-Exchanged :
    (nsectors : ℕ) (disk : Bytes) {reqs reqs' : List Request}
    → Exchanged Apart reqs reqs'
    → ◌≡◌ {A = Bag (Request × (Call × Bytes))}
        (Quot.mk (log nsectors disk reqs))
        (Quot.mk (log nsectors disk reqs'))
log-Exchanged nsectors disk (here {a} {b} {xs} p) =
    rw
      (
        effect_comm nsectors a b disk p,
        answer-effect nsectors a b disk p,
        answer-effect nsectors b a disk (Apart-symm a b p),
      )
      (Quot.sound (here tt))
log-Exchanged nsectors disk (later {x} {xs} {ys} e) =
    ap (put (x, (report nsectors x, answer nsectors x disk)))
      (log-Exchanged nsectors (effect nsectors x disk) e)

-- The disk after a schedule, and what its requests are reported with and have in their segments.
abbrev pub disk_after : (nsectors : ℕ) → Bytes → Schedule → Bytes
disk_after nsectors disk =
    Quot.lift (hlevel) (λ reqs. replay nsectors reqs disk)
      (λ reqs reqs' e. replay-Exchanged nsectors disk e)

abbrev pub answered : (nsectors : ℕ) → Bytes → Schedule → Bag (Request × (Call × Bytes))
answered nsectors disk =
    Quot.lift Quot-set (λ reqs. Quot.mk (log nsectors disk reqs))
      (λ reqs reqs' e. log-Exchanged nsectors disk e)

-- The disk, and what each request is reported with and has in its segments, are as the schedule has them.
abbrev pub Implements :
    (nsectors : ℕ) → Bytes → Schedule → List Request → Run Call (Bytes × List (List Bytes)) → Type 0
Implements nsectors disk q reqs (done t (disk', segss)) =
    (disk' ≡ disk_after nsectors disk q)
    × (◌≡◌ {A = Bag (Request × (Call × Bytes))} (Quot.mk (zip reqs (zip t (map concat segss))))
        (answered nsectors disk q))
Implements nsectors disk q reqs fault = ⊥

-- A schedule is a queue up to exchanges of neighbours that both read or whose sectors are others. In
-- whatever order a schedule comes, of requests that are each not of the file system, past the last
-- sector (and below 2 ^ 31), or within the disk (of fewer than 2 ^ 22 sectors): the disk after
-- sbd_request, and for each request the error and the number of bytes that __blk_end_request is called
-- with and the bytes of its segments, are those of the schedule.
pub sbd_request-Implements :
    (nsectors : ℕ) (disk : Bytes) (q : Schedule) (reqs : List Request)
    → Quot.mk reqs ≡ q
    → AllHandled nsectors disk reqs
    → Implements nsectors disk q reqs (sbd_request nsectors disk reqs)
sbd_request-Implements nsectors disk q reqs e h =
    through (sbd_request nsectors disk reqs) (sbd_request-ServedAs nsectors disk reqs h)
  where
    through :
        (m : Run Call (Bytes × List (List Bytes)))
        → ServedAs
            (map (report nsectors) reqs)
            (replay nsectors reqs disk)
            (answers nsectors reqs disk)
            m
        → Implements nsectors disk q reqs m
    through (done t (disk', segss)) (c, d, a) = (
      d ∙ ap (disk_after nsectors disk) e,
      ap (λ (cs : List Call). Quot.mk (zip reqs (zip cs (map concat segss)))) c
          ∙ ap (λ (out : List Bytes). Quot.mk (zip reqs (zip (map (report nsectors) reqs) out))) a
          ∙ ap (answered nsectors disk) e,
    )
    through fault x = absurd x
