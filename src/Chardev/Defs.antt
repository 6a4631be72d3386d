-- ===== src/Chardev/Defs.antt =====
-- What the character drivers share: their kernel calls, and the clamped copy to and from the buffer.
use ldd3_examples.Common.{
  ℕ, Bool, ◌+◌, ◌-◌, ◌%◌, ◌^◌, List, [], Option, none, some, length, ltb, leb, if◌then◌else◌, Run,
  ◌>>◌, pure, emit, require,
}
use ldd3_examples.Kernel.Uaccess.{Uaccess}

-- The kernel calls, with the arguments that the drivers choose. A call that acquires something
-- says whether it succeeded.
pub data Call : Type 0 where
  -- registration, allocation and their release
  register_chrdev_region alloc_chrdev_region cdev_alloc cdev_add : (ok : Bool) → Call
  cdev_init unregister_chrdev_region cdev_del : Call
  kmalloc : (size flags : ℕ) (ok : Bool) → Call
  kfree : Call
  -- locks and waiting
  sema_init : ℕ → Call
  down up spin_lock spin_unlock : Call
  init_completion wait_for_completion complete : Call
  init_waitqueue_head wait_event_interruptible wake_up_interruptible poll_wait : Call
  seqlock_init read_seqbegin read_seqretry : Call
  -- a store to `condition`, which processes share
  assign_condition : ℕ → Call
  -- transfers of so many bytes
  copy_to_user copy_from_user memset : ℕ → Call

-- `int buffer_len=4000`, which no code changes.
abbrev pub buffer_len : ℕ
buffer_len = 4000

-- `char *buffer`: NULL, or the bytes of the object that it points to.
abbrev pub Buffer : Type 0
Buffer = Option (List ℕ)

-- The bytes that may be accessed through the pointer.
abbrev pub bytes : Buffer → List ℕ
bytes none = []
bytes (some b) = b

abbrev pub store : Buffer → List ℕ → Buffer
store none b = none
store (some _) b = some b

-- The globals `buffer` and `condition` of the drivers with a wait queue.
pub record Waiting : Type 0 where
  pub buffer : Buffer
  pub condition : ℕ

-- `if(count > buffer_len) len=buffer_len; else len=count;`
unfoldable pub clamp : ℕ → ℕ
clamp count = if ltb buffer_len count then buffer_len else count

-- `len-ret_len` in size_t
abbrev pub sub64 : ℕ → ℕ → ℕ
sub64 a b = (a + 2 ^ 64 - b) % 2 ^ 64

module _ (u : Uaccess) where
  -- `copy_to_user(user_ptr,buffer,len)`: the user's new bytes, and what was not copied.
  unfoldable pub copy_out : Buffer → List ℕ → ℕ → Run Call (List ℕ × ℕ)
  copy_out buf user len = do
    require (leb len (length (bytes buf)))
    emit (copy_to_user len)
    pure (u.copy_to_user user (bytes buf) len)

  -- `copy_from_user(buffer,user_ptr,len)`: the new buffer, and what was not copied.
  unfoldable pub copy_in : Buffer → List ℕ → ℕ → Run Call (Buffer × ℕ)
  copy_in buf user len = do
    require (leb len (length (bytes buf)))
    emit (copy_from_user len)
    let (b, left) = u.copy_from_user (bytes buf) user len
    pure (store buf b, left)
