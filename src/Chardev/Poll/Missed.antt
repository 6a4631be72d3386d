-- ===== src/Chardev/Poll/Missed.antt =====
-- One reader and one writer of day_05/ex13.c that run beside one another. The copies are complete, and no
-- signal arrives.
use ldd3_examples.Common.{
  ℕ, ◌≤◌, ◌≡◌, refl, ◌⊎◌, inl, inr, List, [], ◌∷◌, ◌++◌, some, length, take, drop, done, Steps,
  here, also,
}
use ldd3_examples.Kernel.Uaccess.{Uaccess}
use ldd3_examples.Chardev.Defs.{
  Call, Waiting, assign_condition, clamp, copy_to_user, copy_from_user, down, up,
  wait_event_interruptible, wake_up_interruptible, poll_wait,
}
use ldd3_examples.Chardev.Copy.{read_of-done, write_of-done}
use ldd3_examples.Chardev.Drivers.{ex13, read_of, write_of}
use ldd3_examples.Chardev.Poll.{read, write, poll}

-- The bytes of `buffer`, `condition`, the calls left of the read, with the bytes that its user has, and
-- those left of the write, with its bytes.
pub record Machine : Type 0 where
  pub content : List ℕ
  pub condition : ℕ
  pub reading : List Call
  pub shown : List ℕ
  pub writing : List Call
  pub source : List ℕ

abbrev pub globals : Machine → Waiting
globals m = record { buffer = some m.content; condition = m.condition }

abbrev pub ready : List ℕ → Machine
ready content = record {
  content = content;
  condition = 1;
  reading = [];
  shown = [];
  writing = [];
  source = [];
}

module _ (u : Uaccess) where
  pub data Step : Machine → Machine → Type 0 where
    reads :
        {m : Machine} (user : List ℕ) (count : ℕ) {t : List Call} {r : Waiting × List ℕ × ℕ}
        → m.reading ≡ []
        → read u (globals m) user count ≡ done t r
        → Step m (record m { reading = t; shown = [] })
    writes :
        {m : Machine} (user : List ℕ) (count : ℕ) {t : List Call} {r : Waiting × ℕ}
        → m.writing ≡ []
        → write u (globals m) user count ≡ done t r
        → Step m (record m { writing = t; source = user })
    passes :
        {m : Machine} {cs : List Call}
        → m.reading ≡ wait_event_interruptible ∷ cs
        → m.condition ≡ 1
        → Step m (record m { reading = cs })
    shows :
        {m : Machine} {n : ℕ} {cs : List Call}
        → m.reading ≡ copy_to_user n ∷ cs
        → Step m (record m { reading = cs; shown = take n m.content })
    reader_stores :
        {m : Machine} {v : ℕ} {cs : List Call}
        → m.reading ≡ assign_condition v ∷ cs
        → Step m (record m { reading = cs; condition = v })
    -- the semaphore, which the only writer always gets, and the wake-up of a reader that does not sleep
    calls :
        {m : Machine} {c : Call} {cs : List Call}
        → m.writing ≡ c ∷ cs
        → (c ≡ down) ⊎ ((c ≡ up) ⊎ (c ≡ wake_up_interruptible))
        → Step m (record m { writing = cs })
    puts :
        {m : Machine} {n : ℕ} {cs : List Call}
        → m.writing ≡ copy_from_user n ∷ cs
        → n ≤ length m.source
        → Step m (record m { writing = cs; content = take n m.source ++ drop n m.content })
    writer_stores :
        {m : Machine} {v : ℕ} {cs : List Call}
        → m.writing ≡ assign_condition v ∷ cs
        → Step m (record m { writing = cs; condition = v })

read-called :
    (u : Uaccess) (b user : List ℕ) (count : ℕ)
    → clamp count ≤ length b
    → (r : Waiting × List ℕ × ℕ) × (read u (globals (ready b)) user count
        ≡ done (wait_event_interruptible ∷ copy_to_user (clamp count) ∷ assign_condition 0 ∷ []) r)
unfolding read_of
read-called u b user count h = (_, read_of-done u ex13 (globals (ready b)) user count h)

write-called :
    (u : Uaccess) (b user : List ℕ) (count : ℕ)
    → clamp count ≤ length b
    → (r : Waiting × ℕ) × (write u (globals (ready b)) user count
        ≡ done
            (down
              ∷ copy_from_user (clamp count)
              ∷ up
              ∷ assign_condition 1
              ∷ wake_up_interruptible
              ∷ [])
            r)
unfolding write_of
write-called u b user count h = (_, write_of-done u ex13 (globals (ready b)) b user count refl h)

-- `condition` is set, a reader and a writer of ex13.c begin, each with a clamped count within the buffer,
-- and the writer's within its bytes. There are steps after which both are over, the reader has the bytes
-- from before the write, the new ones stand in the buffer, and a poll reports nothing to read: the
-- write has set `condition` between the reader's copy and the store by which the reader clears it.
pub write-missed :
    (u : Uaccess) (b user sent : List ℕ) (count count' pollin pollrdnorm : ℕ)
    → clamp count ≤ length b
    → clamp count' ≤ length b
    → clamp count' ≤ length sent
    → (m : Machine) × Steps (Step u) (ready b) m
      × (m.reading ≡ [])
      × (m.writing ≡ [])
      × (m.shown ≡ take (clamp count) b)
      × (m.content ≡ take (clamp count') sent ++ drop (clamp count') b)
      × (poll pollin pollrdnorm (globals m) ≡ done (poll_wait ∷ []) 0)
unfolding poll
write-missed u b user sent count count' pollin pollrdnorm room room' given =
    let (r, reads_so) = read-called u b user count room in
    let (w, writes_so) = write-called u b sent count' room' in
    (
      record (ready b) {
        content = take (clamp count') sent ++ drop (clamp count') b;
        condition = 0;
        shown = take (clamp count) b;
        source = sent;
      },
      also (reads user count refl reads_so) (
          also (writes sent count' refl writes_so) (
            also (passes refl refl) (
              also (shows refl) (
                also (calls refl (inl refl)) (
                  also (puts refl given) (
                    also (calls refl (inr (inl refl))) (
                      also (writer_stores refl) (
                        also (calls refl (inr (inr refl))) (also (reader_stores refl) here))))))))),
      refl,
      refl,
      refl,
      refl,
      refl,
    )
