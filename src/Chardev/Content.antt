-- ===== src/Chardev/Content.antt =====
-- What the drivers of ex3.c to ex14.c keep for their users: one content, which every read and write
-- starts at the front of, whatever the position of the file. Reads are those that return: the sleep of
-- ex12.c to ex14.c is over.
pub mod Refinement
use ldd3_examples.Common.{
  ℕ, List, [], ◌∷◌, ◌++◌, Option, none, some, take, drop, replicate, bit_or, ◌==◌, if◌then◌else◌,
  Run, ◌>>=◌, pure,
}
use ldd3_examples.Common.Int.{ℤ, pos}
use ldd3_examples.Common.Text.{Bytes}
use ldd3_examples.Kernel.Errno.{Ret, ret}
use ldd3_examples.Kernel.Ioctl.{IoctlAbi}
use ldd3_examples.Kernel.FileOps.{FileOps}
use ldd3_examples.Chardev.Defs.{Call, Waiting, clamp, buffer_len}
use ldd3_examples.Chardev.Drivers.{Driver, ex11, ex13, ex14, read_condition, write_condition}
use ldd3_examples.Chardev.Ioctl.{clear_buffer, fill_buffer}
use ldd3_examples.Chardev.Fops.{FopsEnv}

-- The system calls on an open file, and the opens and closes of others. A write is of the first
-- `count` bytes of `user`, a read of as many into it. The ioctls are CLEAR_BUFFER and FILL_BUFFFER, with
-- `ch` and `rest` at the address.
pub data Op : Type 0 where
  opens closes : Op
  puts gets : (user : Bytes) (count : ℕ) → Op
  polls : Op
  seeks : (off : ℤ) (whence : ℕ) → Op
  clears : (arg : ℕ) → Op
  fills : (ch : ℕ) (rest : Bytes) (arg : ℕ) → Op

-- What the user sees: the count, with the bytes that a read gave, the mask, the position, or what the
-- ioctl returned. Where the driver's entry is NULL, the kernel answers alone.
pub data Result : Type 0 where
  took : (count : ℕ) → Result
  gave : (count : ℕ) → Bytes → Result
  mask : ℕ → Result
  moved : ℤ → Result
  answered : Ret → Result
  unserved : Result

-- The driver's globals, and the position of the file.
pub record OpenFile : Type 0 where
  pub waiting : Waiting
  pub f_pos : ℤ

abbrev polled : Option (Waiting → Run Call ℕ) → OpenFile → Run Call (OpenFile × Result)
polled none s = pure (s, unserved)
polled (some f) s = f s.waiting >>= λ m. pure (s, mask m)

abbrev sought :
    Option ((off f_pos : ℤ) → (whence : ℕ) → ℤ)
    → (off : ℤ) (whence : ℕ) → OpenFile
    → Run Call (OpenFile × Result)
sought none off whence s = pure (s, unserved)
sought (some f) off whence s =
    let f_pos' = f off s.f_pos whence in pure (record s { f_pos = f_pos' }, moved f_pos')

abbrev controlled :
    Option (Waiting → Bytes → ℕ → ℕ → Run Call (Waiting × Ret))
    → Bytes
    → (cmd arg : ℕ) → OpenFile
    → Run Call (OpenFile × Result)
controlled none user cmd arg s = pure (s, unserved)
controlled (some f) user cmd arg s =
    f s.waiting user cmd arg >>= λ (w, r). pure (record s { waiting = w }, answered r)

-- The driver's side.
abbrev pub does : IoctlAbi → FileOps Call Waiting ℕ → Op → OpenFile → Run Call (OpenFile × Result)
does abi fops opens s = fops.on_open s.waiting >>= λ (w, n). pure (record s { waiting = w }, took n)
does abi fops closes s =
    fops.on_release s.waiting >>= λ (w, n). pure (record s { waiting = w }, took n)
does abi fops (puts user count) s =
    fops.on_write s.waiting user count >>= λ (w, n). pure (record s { waiting = w }, took n)
does abi fops (gets user count) s = fops.on_read s.waiting user count >>= λ (w, user', n).
    pure (record s { waiting = w }, gave n (take n user'))
does abi fops polls s = polled fops.on_poll s
does abi fops (seeks off whence) s = sought fops.on_llseek off whence s
does abi fops (clears arg) s = controlled fops.on_ioctl [] (clear_buffer abi) arg s
does abi fops (fills ch rest arg) s = controlled fops.on_ioctl (ch ∷ rest) (fill_buffer abi) arg s

unfoldable pub run :
    IoctlAbi → FileOps Call Waiting ℕ → List Op → OpenFile → Run Call (OpenFile × List Result)
run abi fops [] s = pure (s, [])
run abi fops (o ∷ os) s = do
  (s₁, r) ← does abi fops o s
  (s₂, rs) ← run abi fops os s₁
  pure (s₂, r ∷ rs)

-- The abstract side: the content, `condition`, and the position.
pub record Content : Type 0 where
  pub content : Bytes
  pub fresh : ℕ
  pub position : ℤ

-- Only ex11.c sets its content, only ex13.c has a mask, and only ex14.c a position: the end.
abbrev pub set_by : Driver → (ch : ℕ) → Bytes → Bytes
set_by ex11 ch content = replicate buffer_len ch ++ drop buffer_len content
set_by _ ch content = content

abbrev pub set_result : Driver → Result
set_result ex11 = answered (ret 0)
set_result _ = unserved

abbrev pub poll_result : FopsEnv → Driver → (fresh : ℕ) → Result
poll_result e ex13 fresh = mask (if fresh == 1 then bit_or e.pollin e.pollrdnorm else 0)
poll_result e _ fresh = unserved

abbrev pub position_by : Driver → ℤ → ℤ
position_by ex14 position = pos buffer_len
position_by _ position = position

abbrev pub seek_result : Driver → Result
seek_result ex14 = moved (pos buffer_len)
seek_result _ = unserved

-- The content after an operation, and its result.
abbrev pub content_after : Driver → Op → Content → Content
content_after d opens c = c
content_after d closes c = c
content_after d (puts user count) c = record c {
  content = take (clamp count) user ++ drop (clamp count) c.content;
  fresh = write_condition d c.fresh;
}
content_after d (gets user count) c = record c { fresh = read_condition d c.fresh }
content_after d polls c = c
content_after d (seeks off whence) c = record c { position = position_by d c.position }
content_after d (clears arg) c = record c { content = set_by d 0 c.content }
content_after d (fills ch rest arg) c = record c { content = set_by d ch c.content }

abbrev pub result_of : FopsEnv → Driver → Op → Content → Result
result_of e d opens c = took 0
result_of e d closes c = took 0
result_of e d (puts user count) c = took (clamp count)
result_of e d (gets user count) c = gave (clamp count) (take (clamp count) c.content)
result_of e d polls c = poll_result e d c.fresh
result_of e d (seeks off whence) c = seek_result d
result_of e d (clears arg) c = set_result d
result_of e d (fills ch rest arg) c = set_result d

unfoldable pub final : Driver → List Op → Content → Content
final d [] c = c
final d (o ∷ os) c = final d os (content_after d o c)

unfoldable pub results : FopsEnv → Driver → List Op → Content → List Result
results e d [] c = []
results e d (o ∷ os) c = result_of e d o c ∷ results e d os (content_after d o c)
