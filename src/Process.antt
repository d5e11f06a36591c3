-- ===== src/Process.antt =====
-- The process structure of include/process.h, as far as C code outside the context switch reads it
-- (the signal fields, the LDT and the TSS are left out).
use lychee_os.Base.{ℕ, Option, List, if◌then◌else◌, ◌==◌}

abbrev pub running : ℕ
running = 0

abbrev pub wait_interruptible : ℕ
wait_interruptible = 1

abbrev pub wait_uninterruptible : ℕ
wait_uninterruptible = 2

abbrev pub stopped : ℕ
stopped = 3

abbrev pub nr_process : ℕ
nr_process = 16

-- `pwd`, `root`, `image` and `files` point to inodes and files, by number.
pub record Process : Type 0 where
  pub state : ℕ
  pub ticks : ℕ
  pub priority : ℕ
  pub exit_code : ℕ
  pub pid : ℕ
  pub ppid : ℕ
  pub user_time : ℕ
  pub kernel_time : ℕ
  pub create_time : ℕ
  pub exit_time : ℕ
  pub pwd : Option ℕ
  pub root : Option ℕ
  pub image : Option ℕ
  pub files : List (Option ℕ)

-- The address of a process structure.
abbrev pub Ptr : Type 0
Ptr = ℕ

abbrev pub Memory : Type 0
Memory = Ptr → Process

abbrev pub update : Memory → Ptr → Process → Memory
update mem p proc q = if q == p then proc else mem q
