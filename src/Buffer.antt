-- ===== src/Buffer.antt =====
-- The buffers of include/buffer.h and the operations of kernel/buffer.c on a single one.
use lychee_os.Base.{ℕ, Bool, true, false, Option, none, some, List, ◌==◌, if◌then◌else◌}

abbrev pub block_size : ℕ
block_size = 1024

-- `dev` is `none` for -1. `proc_wait` is the head of the chain of waiting processes. The links
-- `prev` and `next` are set up and never read.
pub record MemBuffer : Type 0 where
  pub data_block : List ℕ
  pub block : ℕ
  pub dev : Option ℕ
  pub uptodate : Bool
  pub dirty : Bool
  pub count : ℕ
  pub locked : Bool
  pub proc_wait : Option ℕ

abbrev pub Buffers : Type 0
Buffers = ℕ → MemBuffer

abbrev pub put_buffer : Buffers → ℕ → MemBuffer → Buffers
put_buffer bs i b j = if j == i then b else bs j

-- `wake_up(&mbuffer->proc_wait)`: `wake_up` takes the address of the pointer for that of a process,
-- whose first word is its state, and so stores PROCESS_RUNNING, which is 0, in the pointer.
unfoldable pub unlock_mem_buffer : MemBuffer → MemBuffer
unlock_mem_buffer b = record b { locked = false; proc_wait = none }

-- Comparison of device numbers, of which -1 is one.
unfoldable pub dev_eq : Option ℕ → Option ℕ → Bool
dev_eq none none = true
dev_eq none (some b) = false
dev_eq (some a) none = false
dev_eq (some a) (some b) = a == b
