-- ===== src/Kernel/SeqOps.antt =====
-- struct seq_operations (linux/seq_file.h).
use ldd3_examples.Common.{Bool}
use ldd3_examples.Common.Text.{Bytes}

-- The functions give whether the pointer is not NULL, and the state.
pub record SeqOps (S : Type 0) : Type 0 where
  pub on_start : S → Bool × S
  pub on_next : S → Bool × S
  pub on_stop : S → S
  pub on_show : S → Bytes
