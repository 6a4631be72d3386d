-- ===== src/Tty/Defs.antt =====
-- struct tiny_serial of day_12/ex29.c, and the kernel calls of its driver. The semaphore, the wait
-- queue head and the timer's function and data are the kernel's, and only show in the calls.
use ldd3_examples.Common.{ℕ, Bool, List, Option}

-- struct serial_struct, with the fields that the driver reads or writes.
pub record SerialStruct : Type 0 where
  pub type : ℕ
  pub line : ℕ
  pub port : ℕ
  pub irq : ℕ
  pub flags : ℕ
  pub xmit_fifo_size : ℕ
  pub baud_base : ℕ
  pub close_delay : ℕ
  pub closing_wait : ℕ
  pub custom_divisor : ℕ
  pub hub6 : ℕ
  pub io_type : ℕ

-- struct async_icount
pub record AsyncIcount : Type 0 where
  pub cts : ℕ
  pub dsr : ℕ
  pub rng : ℕ
  pub dcd : ℕ
  pub rx : ℕ
  pub tx : ℕ
  pub frame : ℕ
  pub overrun : ℕ
  pub parity : ℕ
  pub brk : ℕ
  pub buf_overrun : ℕ

-- struct tiny_serial. `tty` is the number of a tty structure; `timer` is NULL, or an allocated
-- timer with its `expires`. `open_count` is an int that counts nested opens and is not taken
-- near 2 ^ 31.
pub record TinySerial : Type 0 where
  pub tty : ℕ
  pub open_count : ℕ
  pub timer : Option ℕ
  pub msr : ℕ
  pub mcr : ℕ
  pub serial : SerialStruct
  pub icount : AsyncIcount

-- An entry of tiny_table: NULL or an object.
abbrev pub Slot : Type 0
Slot = Option TinySerial

pub data Call : Type 0 where
  -- allocation of the port's object and of its timer
  kmalloc_tiny kmalloc_timer : (ok : Bool) → Call
  kfree_tiny kfree_timer : Call
  sema_init : ℕ → Call
  down up : Call
  add_timer : (expires : ℕ) → Call
  del_timer : Call
  -- the tty layer's flip buffer
  tty_buffer_request_room : ℕ → Call
  tty_insert_flip_string : List ℕ → Call
  tty_flip_buffer_push : Call
  -- the kernel log: the "%02x " of one byte, and other text
  printk_byte : ℕ → Call
  printk_text : Call
  copy_to_user : Call
  -- one sleep of TIOCMIWAIT
  add_wait_queue schedule remove_wait_queue : Call
  -- registration
  alloc_tty_driver tty_register_driver : (ok : Bool) → Call
  tty_set_operations put_tty_driver tty_unregister_driver : Call
  tty_register_device tty_unregister_device : ℕ → Call
