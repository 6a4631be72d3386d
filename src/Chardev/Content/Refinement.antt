-- ===== src/Chardev/Content/Refinement.antt =====
-- The drivers of ex3.c to ex14.c implement one content.
use mathlib.Core.List.{append-nil}
use ldd3_examples.Common.{
  ℕ, ◌%◌, ◌≤◌, ◌≡◌, refl, ◌∙◌, List, [], ◌∷◌, ◌++◌, true, some, take, drop, replicate, length,
  length-append, length-replicate, length-take, length-drop, done, arith,
}
use ldd3_examples.Common.Int.{ℤ}
use ldd3_examples.Common.Text.{Bytes}
use ldd3_examples.Kernel.Copied.{IsComplete, complete-copied, prefix-shown}
use ldd3_examples.Kernel.Ioctl.{IoctlAbi}
use ldd3_examples.Chardev.Defs.{Call, clamp, sub64, buffer_len, memset, copy_from_user, poll_wait}
use ldd3_examples.Chardev.Drivers.{Driver, ex11, ex13, ex14, read_calls, write_calls}
use ldd3_examples.Chardev.Ioctl.{filled}
use ldd3_examples.Chardev.Ioctl.Commands.{ioctl-clear, ioctl-fill}
use ldd3_examples.Chardev.Poll.{poll}
use ldd3_examples.Chardev.Seek.{seek}
use ldd3_examples.Chardev.Fops.{
  FopsEnv, fops_of, on_open-done, on_release-done, on_read-done, on_write-done,
}
use ldd3_examples.Chardev.Content.{
  Op, opens, closes, puts, gets, polls, seeks, clears, fills, OpenFile, does, run, Content, set_by,
  content_after, result_of, final, results,
}

-- The clamped count is within the driver's buffer, of `room` bytes, and the user's object; an ioctl
-- finds a buffer of at least 4000 bytes, and can read its byte.
abbrev pub Fits : IoctlAbi → (room : ℕ) → Op → Type 0
Fits abi room (puts user count) = (clamp count ≤ room) × (clamp count ≤ length user)
Fits abi room (gets user count) = (clamp count ≤ room) × (clamp count ≤ length user)
Fits abi room (clears arg) = buffer_len ≤ room
Fits abi room (fills ch rest arg) = (buffer_len ≤ room) × (abi.access_ok_read arg 1 ≡ true)
Fits abi room _ = Unit {0}

abbrev pub AllFit : IoctlAbi → (room : ℕ) → List Op → Type 0
AllFit abi room [] = Unit {0}
AllFit abi room (o ∷ os) = Fits abi room o × AllFit abi room os

-- Only ex11.c has an ioctl, and only ex13.c a poll.
abbrev pub set_calls : Driver → List Call → List Call
set_calls ex11 cs = cs
set_calls _ cs = []

abbrev pub poll_calls : Driver → List Call
poll_calls ex13 = poll_wait ∷ []
poll_calls _ = []

abbrev pub calls_of : Driver → Op → List Call
calls_of d opens = []
calls_of d closes = []
calls_of d (puts user count) = write_calls d (clamp count)
calls_of d (gets user count) = read_calls d (clamp count)
calls_of d polls = poll_calls d
calls_of d (seeks off whence) = []
calls_of d (clears arg) = set_calls d (memset buffer_len ∷ [])
calls_of d (fills ch rest arg) = set_calls d (copy_from_user 1 ∷ memset buffer_len ∷ [])

abbrev pub all_calls : Driver → List Op → List Call
all_calls d [] = []
all_calls d (o ∷ os) = calls_of d o ++ all_calls d os

-- The driver's state that holds a content.
abbrev pub file_of : Content → OpenFile
file_of c = record {
  waiting = record { buffer = some c.content; condition = c.fresh };
  f_pos = c.position;
}

whole : (count : ℕ) → sub64 (clamp count) 0 ≡ clamp count
unfolding clamp
whole count = ground arith

calls_end : {A : Type 0} (t : List Call) (x : A) → done (t ++ []) x ≡ done t x
calls_end t x = rw append-nil refl

module _ (e : FopsEnv) (all : IsComplete e.uaccess) where
  -- An operation of the driver is one of the content.
  abbrev Performs : Driver → Op → Content → Type 0
  Performs d o c =
      does e.abi (fops_of e d) o (file_of c)
      ≡ done (calls_of d o) (file_of (content_after d o c), result_of e d o c)

  puts-Performs :
      (d : Driver) (user : Bytes) (count : ℕ) (c : Content)
      → Fits e.abi (length c.content) (puts user count)
      → Performs d (puts user count) c
  puts-Performs d user count c (room, whole_user) =
      let full = all.from_all c.content user (clamp count) room whole_user in
      rw
        (
          on_write-done e d (file_of c).waiting c.content user count refl room,
          full,
          whole count,
          complete-copied e.uaccess c.content user (clamp count) room full,
        )
        (calls_end _ _)

  gets-Performs :
      (d : Driver) (user : Bytes) (count : ℕ) (c : Content)
      → Fits e.abi (length c.content) (gets user count)
      → Performs d (gets user count) c
  gets-Performs d user count c (room, whole_user) =
      let full = all.to_all user c.content (clamp count) whole_user room in
      rw
        (
          on_read-done e d (file_of c).waiting user count room,
          full,
          whole count,
          prefix-shown e.uaccess user c.content (clamp count) (clamp count) room full (omega arith),
        )
        (calls_end _ _)

  polls-Performs : (d : Driver) (c : Content) → Performs d polls c
  unfolding poll
  polls-Performs ex13 c = refl
  polls-Performs d c = refl

  seeks-Performs :
      (d : Driver) (off : ℤ) (whence : ℕ) (c : Content) → Performs d (seeks off whence) c
  unfolding seek
  seeks-Performs ex14 off whence c = refl
  seeks-Performs d off whence c = refl

  clears-Performs :
      (d : Driver) (arg : ℕ) (c : Content)
      → Fits e.abi (length c.content) (clears arg)
      → Performs d (clears arg) c
  unfolding filled
  clears-Performs ex11 arg c room = rw (ioctl-clear e.uaccess e.abi c.content [] arg room) refl
  clears-Performs d arg c room = refl

  fills-Performs :
      (d : Driver) (ch : ℕ) (rest : Bytes) (arg : ℕ) (c : Content)
      → Fits e.abi (length c.content) (fills ch rest arg)
      → Performs d (fills ch rest arg) c
  unfolding filled
  fills-Performs ex11 ch rest arg c (room, ok) =
      rw
        (ioctl-fill e.uaccess e.abi c.content (ch ∷ rest) arg room ch rest refl ok
          (all.from_all (arg % 256 ∷ []) (ch ∷ rest) 1 (omega arith) (omega arith)))
        refl
  fills-Performs d ch rest arg c fit = refl

  does-Performs :
      (d : Driver) (o : Op) (c : Content) → Fits e.abi (length c.content) o → Performs d o c
  does-Performs d opens c h = rw (on_open-done e d (file_of c).waiting) refl
  does-Performs d closes c h = rw (on_release-done e d (file_of c).waiting) refl
  does-Performs d (puts user count) c h = puts-Performs d user count c h
  does-Performs d (gets user count) c h = gets-Performs d user count c h
  does-Performs d polls c h = polls-Performs d c
  does-Performs d (seeks off whence) c h = seeks-Performs d off whence c
  does-Performs d (clears arg) c h = clears-Performs d arg c h
  does-Performs d (fills ch rest arg) c h = fills-Performs d ch rest arg c h

  length-set_by :
      (d : Driver) (ch : ℕ) (b : Bytes) → buffer_len ≤ length b → length (set_by d ch b) ≡ length b
  length-set_by ex11 ch b h = omega (
    arith,
    length-append (replicate {A = ℕ} buffer_len ch) (drop buffer_len b),
    length-replicate {A = ℕ} buffer_len ch,
    length-drop buffer_len b,
  )
  length-set_by d ch b h = refl

  length-content_after :
      (d : Driver) (o : Op) (c : Content)
      → Fits e.abi (length c.content) o
      → length (content_after d o c).content ≡ length c.content
  length-content_after d (puts user count) c (room, whole_user) = omega (
    arith,
    length-append (take (clamp count) user) (drop (clamp count) c.content),
    length-take (clamp count) user,
    length-drop (clamp count) c.content,
  )
  length-content_after d (clears arg) c h = length-set_by d 0 c.content h
  length-content_after d (fills ch rest arg) c h = length-set_by d ch c.content h.0
  length-content_after d o c h = refl

  run-onwards :
      (d : Driver) (os : List Op) (c : Content) (room : ℕ)
      → length c.content ≡ room
      → AllFit e.abi room os
      → run e.abi (fops_of e d) os (file_of c)
        ≡ done (all_calls d os) (file_of (final d os c), results e d os c)
  unfolding run final results
  run-onwards d [] c room size fit = refl
  run-onwards d (o ∷ os) c room size (h, fit) =
      rw
        (
          does-Performs d o c (rw size h),
          run-onwards d os (content_after d o c) room
              (length-content_after d o c (rw size h) ∙ size) fit,
        )
        (rw append-nil refl)

-- On any of the drivers of ex3.c to ex14.c, with complete copies, any sequence of the system calls
-- that its table of operations serves, in which each read and write is within the buffer and the
-- user's object, and each ioctl finds a buffer of at least 4000 bytes and can read its byte: it
-- never faults and has the results of one content. A write overwrites it from its front and a read
-- shows it from its front, wherever the file's position is; the ioctls of ex11.c set its first 4000
-- bytes, a poll of ex13.c tells whether `condition` is 1, which a write sets and a read clears, and
-- llseek of ex14.c goes to 4000. The driver makes the calls of each operation in turn, and its
-- buffer, `condition` and the position end as the content's.
pub run-Refines :
    (e : FopsEnv) (d : Driver) (os : List Op) (c : Content)
    → IsComplete e.uaccess
    → AllFit e.abi (length c.content) os
    → run e.abi (fops_of e d) os (file_of c)
      ≡ done (all_calls d os) (file_of (final d os c), results e d os c)
run-Refines e d os c all fit = run-onwards e all d os c (length c.content) refl fit
