-- ===== src/Chardev/Atomic.antt =====
-- Any number of processes that read and write through the driver of ex7.c, ex8.c or ex11.c, of which the
-- kernel's copies go byte by byte and may stop early: copy_to_user then leaves the rest of the user's
-- bytes, and copy_from_user puts zeros in place of what it does not get.
pub mod Others
pub mod Phases
pub mod Holder
pub mod Linear
use ldd3_examples.Common.{
  ◌-◌, replicate, ℕ, zero, suc, ◌+◌, ◌≡◌, ◌<◌, Bool, true, false, List, [], ◌∷◌, ◌++◌, some,
  get_elem?, set, length, take, drop, done,
}
use ldd3_examples.Kernel.Uaccess.{Uaccess}
use ldd3_examples.Kernel.Processes.{acquires, releases}
use ldd3_examples.Chardev.Defs.{Call, Waiting, copy_to_user, copy_from_user}
use ldd3_examples.Chardev.Drivers.{Driver, read_of, write_of}
use ldd3_examples.Chardev.Exclusion.{kind}
use ldd3_examples.Chardev.Seqlock.Torn.{mix}

-- The calls that are left of a process's read or write; of a write, its bytes (the user's or, behind
-- those that could be copied, zeros) and how many of them it has put, and of a read, the bytes that its
-- user has.
pub record Process : Type 0 where
  pub calls : List Call
  pub source : List ℕ
  pub put : ℕ
  pub shown : List ℕ

abbrev pub idle : Process
idle = record { calls = []; source = []; put = 0; shown = [] }

abbrev pub idles : ℕ → List Process
idles zero = []
idles (suc n) = idle ∷ idles n

-- A copy that has ended: a write that put the first `n` bytes of `source`, which are the user's or, from
-- where the copy stopped, zeros; or a read.
pub data Copied : Type 0 where
  wrote : (n : ℕ) (source : List ℕ) → Copied
  gave : (shown : List ℕ) → Copied

-- The lock, the bytes of `buffer`, and the copies in the order of their ends, the last one first.
pub record System : Type 0 where
  pub taken : Bool
  pub content : List ℕ
  pub procs : List Process
  pub log : List Copied

abbrev pub holding : List ℕ → Waiting
holding content = record { buffer = some content; condition = 0 }

module _ (u : Uaccess) (d : Driver) where
  pub data Step : System → System → Type 0 where
    reads :
        {s : System} (i : ℕ) {p : Process} (user : List ℕ) (count : ℕ) {t : List Call}
        {r : Waiting × List ℕ × ℕ}
        → get_elem? s.procs i ≡ some p
        → p.calls ≡ []
        → read_of u d (holding s.content) user count ≡ done t r
        → Step s (record s { procs = set s.procs i (record idle { calls = t }) })
    writes :
        {s : System} (i : ℕ) {p : Process} (user : List ℕ) (count : ℕ) {t : List Call}
        {r : Waiting × ℕ}
        → get_elem? s.procs i ≡ some p
        → p.calls ≡ []
        → write_of u d (holding s.content) user count ≡ done t r
        → Step s (record s { procs = set s.procs i (record idle { calls = t; source = user }) })
    takes :
        {s : System} (i : ℕ) {p : Process} {c : Call} {cs : List Call}
        → get_elem? s.procs i ≡ some p
        → p.calls ≡ c ∷ cs
        → kind c ≡ acquires
        → s.taken ≡ false
        → Step s (record s { taken = true; procs = set s.procs i (record p { calls = cs }) })
    shows :
        {s : System} (i : ℕ) {p : Process} {n c : ℕ} {cs : List Call}
        → get_elem? s.procs i ≡ some p
        → p.calls ≡ copy_to_user n ∷ cs
        → length p.shown < n
        → get_elem? s.content (length p.shown) ≡ some c
        → Step s (record s { procs = set s.procs i (record p { shown = p.shown ++ c ∷ [] }) })
    has_shown :
        {s : System} (i : ℕ) {p : Process} {n : ℕ} {cs : List Call}
        → get_elem? s.procs i ≡ some p
        → p.calls ≡ copy_to_user n ∷ cs
        → Step s (record s {
          procs = set s.procs i (record p { calls = cs });
          log = gave p.shown ∷ s.log;
        })
    puts :
        {s : System} (i : ℕ) {p : Process} {n c : ℕ} {cs : List Call}
        → get_elem? s.procs i ≡ some p
        → p.calls ≡ copy_from_user n ∷ cs
        → p.put < n
        → get_elem? p.source p.put ≡ some c
        → Step s (record s {
          content = set s.content p.put c;
          procs = set s.procs i (record p { put = suc p.put });
        })
    -- The user's next byte cannot be copied.
    stops :
        {s : System} (i : ℕ) {p : Process} {n : ℕ} {cs : List Call}
        → get_elem? s.procs i ≡ some p
        → p.calls ≡ copy_from_user n ∷ cs
        → Step s (record s {
          procs =
              set s.procs i (record p { source = take p.put p.source ++ replicate (n - p.put) 0 });
        })
    has_put :
        {s : System} (i : ℕ) {p : Process} {cs : List Call}
        → get_elem? s.procs i ≡ some p
        → p.calls ≡ copy_from_user p.put ∷ cs
        → Step s (record s {
          procs = set s.procs i (record p { calls = cs });
          log = wrote p.put p.source ∷ s.log;
        })
    gives :
        {s : System} (i : ℕ) {p : Process} {c : Call} {cs : List Call}
        → get_elem? s.procs i ≡ some p
        → p.calls ≡ c ∷ cs
        → kind c ≡ releases
        → Step s (record s { taken = false; procs = set s.procs i (record p { calls = cs }) })

  -- From a buffer that holds `b`, and `n` idle processes.
  pub data Reach (b : List ℕ) (n : ℕ) : System → Type 0 where
    start : Reach b n (record { taken = false; content = b; procs = idles n; log = [] })
    later : {s t : System} → Reach b n s → Step s t → Reach b n t

-- A log that copies make which run one after the other, from `b` on, and what the buffer then holds.
pub data Sequential (b : List ℕ) : List Copied → List ℕ → Type 0 where
  unused : Sequential b [] b
  then_wrote :
      {log : List Copied} {content : List ℕ} (k : ℕ) (source : List ℕ)
      → Sequential b log content
      → Sequential b (wrote k source ∷ log) (mix k source content)
  then_gave :
      {log : List Copied} {content : List ℕ} (k : ℕ)
      → Sequential b log content
      → Sequential b (gave (take k content) ∷ log) content
