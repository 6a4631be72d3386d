-- ===== src/Tty/Port/FileCalls.antt =====
-- What the tty layer asks of an open port of day_12/ex29.c besides opening and closing it.
use mathlib.Core.List.{append-nil}
use ldd3_examples.Common.{
  ℕ, Bool, ◌≤◌, ◌≡◌, refl, List, [], ◌∷◌, ◌++◌, Option, none, some, length, map, take, Run, done,
  fault, ◌>>=◌, pure, arith, Bool-cases, inl, inr, ◌==◌,
}
use ldd3_examples.Kernel.Errno.{Ret}
use ldd3_examples.Tty.Defs.{AsyncIcount, TinySerial, Slot, Call, printk_byte, printk_text, up}
use ldd3_examples.Tty.Modem.{Tiocm, tiny_tiocmset}
use ldd3_examples.Tty.Termios.{TermBits, Termios, Log, tiny_set_termios, report}
use ldd3_examples.Tty.Write.{tiny_write, tiny_write_room, tiny_write-open}
use ldd3_examples.Tty.Ioctl.{IoctlConst, Wake, wait_loop, tiny_ioctl}
use ldd3_examples.Tty.Ops.{serial_ops}
use ldd3_examples.Tty.Port.Invariant.{count, pending_after, IsSound}

pub data FileCall : Type 0 where
  writes : (buffer : List ℕ) (count : ℕ) → FileCall
  asks_room : FileCall
  gets_lines : Tiocm → FileCall
  sets_lines : Tiocm → (set clear : ℕ) → FileCall
  sets_termios : TermBits → (baud : ℕ) → Termios → (old : Option Termios) → FileCall
  controls : IoctlConst → (cmd arg left : ℕ) → List Wake → FileCall

-- What is logged of the settings is no call on a port.
abbrev logged : Run Log (Unit {0}) → Run Call (Unit {0})
logged (done t a) = pure a
logged fault = fault

-- The port after the call. The tty layer calls for an open file alone, whose port has its object.
unfoldable pub file_call : FileCall → Slot → Run Call Slot
file_call c none = pure none
file_call (writes buffer n) (some t) = serial_ops.on_write (some t) buffer n >>= λ r. pure (some t)
file_call asks_room (some t) = serial_ops.on_write_room (some t) >>= λ r. pure (some t)
file_call (gets_lines k) (some t) = let lines = serial_ops.on_tiocmget k t in pure (some t)
file_call (sets_lines k set clear) (some t) = pure (some (serial_ops.on_tiocmset k t set clear))
file_call (sets_termios k baud new old) (some t) =
    logged (serial_ops.on_set_termios k baud new old) >>= λ r. pure (some t)
file_call (controls k cmd arg left wakes) (some t) =
    serial_ops.on_ioctl k (some t) cmd arg left wakes >>= λ r. pure (some t)

-- A write's buffer has the bytes that it counts.
abbrev pub InBounds : FileCall → Type 0
InBounds (writes buffer n) = n ≤ length buffer
InBounds _ = Unit {0}

-- The run does not fault, and leaves the timer set or not as it was.
abbrev Calm : {A : Type 0} → (pending : Bool) → Run Call A → Type 0
Calm p (done t a) = pending_after t p ≡ p
Calm p fault = ⊥

printed-pending :
    (bs : List ℕ) (rest : List Call) (p : Bool)
    → pending_after (map printk_byte bs ++ rest) p ≡ pending_after rest p
printed-pending [] rest p = refl
printed-pending (b ∷ bs) rest p = printed-pending bs rest p

tiny_write-Calm :
    (p : Bool) (t : TinySerial) (buffer : List ℕ) (n : ℕ)
    → n ≤ length buffer
    → Calm p (tiny_write (some t) buffer n)
tiny_write-Calm p t buffer n h = elim (Bool-cases (t.open_count == 0)) [
  | inl e ↦ unfold tiny_write in rw e refl
  | inr e ↦
      rw (tiny_write-open t buffer n (ground arith) h).0
        (printed-pending (take n buffer) (printk_text ∷ up ∷ []) p)
]

wait_loop-Calm :
    (p : Bool) (k : IoctlConst) (arg : ℕ) (prev : AsyncIcount) (ws : List Wake)
    → Calm p (wait_loop k arg prev ws)
unfolding wait_loop
wait_loop-Calm p k arg prev [] = refl
wait_loop-Calm p k arg prev (w ∷ ws) = ground (arith, wait_loop-Calm p k arg w.now ws)

Calm-done :
    {A : Type 0} (p : Bool) (m : Run Call A)
    → Calm p m
    → (t : List Call) × (a : A) × (m ≡ done t a) × (pending_after (t ++ []) p ≡ p)
Calm-done p (done t a) c = (t, a, refl, rw append-nil c)
Calm-done p fault c = absurd c

waited-Calm :
    (p : Bool) (k : IoctlConst) (t : TinySerial) (cmd arg left : ℕ) (ws : List Wake)
    (calls : List Call) (o : Option Ret)
    → wait_loop k arg t.icount ws ≡ done calls o
    → pending_after (calls ++ []) p ≡ p
    → Calm p (tiny_ioctl k (some t) cmd arg left ws)
unfolding tiny_ioctl
waited-Calm p k t cmd arg left ws calls o e q = ground arith

tiny_ioctl-Calm :
    (p : Bool) (k : IoctlConst) (t : TinySerial) (cmd arg left : ℕ) (ws : List Wake)
    → Calm p (tiny_ioctl k (some t) cmd arg left ws)
tiny_ioctl-Calm p k t cmd arg left ws =
    let (calls, o, e, q) = Calm-done p _ (wait_loop-Calm p k arg t.icount ws) in
    waited-Calm p k t cmd arg left ws calls o e q

tiny_set_termios-done :
    (k : TermBits) (baud : ℕ) (new : Termios) (old : Option Termios)
    → logged (tiny_set_termios k baud new old) ≡ done [] tt
unfolding tiny_set_termios report
tiny_set_termios-done k baud new none = ground arith
tiny_set_termios-done k baud new (some t) = ground arith

-- The call does not fault; the count of users and the timer stay as they were, and the port sound.
abbrev pub KeepsPort : Run Call Slot → Bool → ℕ → Type 0
KeepsPort (done t slot) pending n =
    (pending_after t pending ≡ pending) × (count slot ≡ n) × IsSound slot pending
KeepsPort fault pending n = ⊥

Calm-Keeps :
    {A : Type 0} (m : Run Call A) (tiny : TinySerial) (pending : Bool)
    → Calm pending m
    → IsSound (some tiny) pending
    → KeepsPort (m >>= λ a. pure (some tiny)) pending tiny.open_count
Calm-Keeps (done t a) tiny pending c v = (rw append-nil c, refl, v)
Calm-Keeps fault tiny pending c v = c

pub file_call-Keeps :
    (c : FileCall) (slot : Slot) (pending : Bool)
    → InBounds c
    → IsSound slot pending
    → KeepsPort (file_call c slot) pending (count slot)
unfolding file_call tiny_write_room tiny_tiocmset
file_call-Keeps c none pending b v = (refl, refl, v)
file_call-Keeps (writes buffer n) (some t) pending b v =
    Calm-Keeps (tiny_write (some t) buffer n) t pending (tiny_write-Calm pending t buffer n b) v
file_call-Keeps asks_room (some t) pending b v = (refl, refl, v)
file_call-Keeps (gets_lines k) (some t) pending b v = (refl, refl, v)
file_call-Keeps (sets_lines k set clear) (some t) pending b v = (refl, refl, v)
file_call-Keeps (sets_termios k baud new old) (some t) pending b v =
    rw (tiny_set_termios-done k baud new old) (refl, refl, v)
file_call-Keeps (controls k cmd arg left ws) (some t) pending b v =
    Calm-Keeps (tiny_ioctl k (some t) cmd arg left ws) t pending
      (tiny_ioctl-Calm pending k t cmd arg left ws) v
