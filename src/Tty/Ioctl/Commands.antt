-- ===== src/Tty/Ioctl/Commands.antt =====
-- What tiny_ioctl of day_12/ex29.c does on each command.
use ldd3_examples.Common.{ℕ, ◌≡◌, ◌≢◌, ◌⊎◌, List, [], ◌∷◌, Option, none, some, Run, done, fault}
use ldd3_examples.Kernel.Errno.{Ret, ret, err, efault, enoioctlcmd}
use ldd3_examples.Tty.Defs.{TinySerial, Call, copy_to_user}
use ldd3_examples.Tty.Ioctl.{IoctlConst, Out, nothing, serial, icount, Wake, filled_serial}
use ldd3_examples.Tty.Ioctl.Waiting.{Waits}

-- The result of a copy to the user that leaves so many bytes.
abbrev pub Copied : (left : ℕ) → Ret → Type 0
Copied left r = ((left ≡ 0) × (r ≡ ret 0)) ⊎ ((left ≢ 0) × (r ≡ err efault))

-- What a command ends with on a port that has an object: the calls, the structure that the user
-- receives, and the result, or none while TIOCMIWAIT sleeps.
abbrev pub Result :
    IoctlConst → TinySerial → (cmd arg left : ℕ) → List Wake → Run Call (Out × Option Ret) → Type 0
Result k tiny cmd arg left ws (done t (o, some r)) =
    ((cmd ≡ k.tiocgserial) × (arg ≡ 0) × (t ≡ []) × (o ≡ nothing) × (r ≡ err efault))
    ⊎ ((cmd ≡ k.tiocgserial)
        × (arg ≢ 0)
        × (t ≡ copy_to_user ∷ [])
        × (o ≡ serial (filled_serial k tiny.serial) left)
        × Copied left r)
    ⊎ ((cmd ≡ k.tiocgicount)
        × (t ≡ copy_to_user ∷ [])
        × (o ≡ icount tiny.icount left)
        × Copied left r)
    ⊎ ((cmd ≡ k.tiocmiwait) × (o ≡ nothing) × Waits k arg tiny.icount ws r)
    ⊎ ((cmd ≢ k.tiocgserial)
        × (cmd ≢ k.tiocmiwait)
        × (cmd ≢ k.tiocgicount)
        × (t ≡ [])
        × (o ≡ nothing)
        × (r ≡ err enoioctlcmd))
Result k tiny cmd arg left ws (done t (o, none)) = (cmd ≡ k.tiocmiwait) × (o ≡ nothing)
Result k tiny cmd arg left ws fault = ⊥
