-- ===== src/Fork.antt =====
-- Process creation: kernel/fork.c on the memory of Mm. A process structure lies in the memory, and its
-- fields are words at their offsets in `struct_process`.
pub mod At
pub mod Copies
pub mod Segments
pub mod Slots
mod Tests
use lychee_os.Base.{
  ℕ, zero, suc, ◌+◌, ◌*◌, ◌/◌, ◌%◌, ◌-◌, ◌^◌, Bool, true, false, Option, none, some, not, ◌==◌,
  if◌then◌else◌, u32_mod,
}
use lychee_os.Kernel.{Descriptor, get_seg_limit, get_seg_base, set_seg_base}
use lychee_os.Mm.{
  Memory, Copied, halted, returned, page_size, put_word, get_phy_page, free_phy_page,
  free_page_tables, copy_page_tables,
}
use lychee_os.Fork.At
use lychee_os.Process.{nr_process, running, wait_uninterruptible}

abbrev pub process_mem_space : ℕ
process_mem_space = 0x4000000

abbrev pub user_cs : ℕ → ℕ
user_cs process = process + At.ldt + 8 * 1

abbrev pub user_ds : ℕ → ℕ
user_ds process = process + At.ldt + 8 * 2

-- A byte of the aligned words.
abbrev pub byte_at : Memory → ℕ → ℕ
byte_at m a = m.word (a - a % 4) / 2 ^ (8 * (a % 4)) % 2 ^ 8

-- The descriptor at an address.
unfoldable pub load_descriptor : Memory → ℕ → Descriptor
load_descriptor m a = record {
  limit0_15 = byte_at m a + byte_at m (a + 1) * 2 ^ 8;
  base0_15 = byte_at m (a + 2) + byte_at m (a + 3) * 2 ^ 8;
  base16_23 = byte_at m (a + 4);
  attribute = byte_at m (a + 5);
  segattr = byte_at m (a + 6);
  base24_31 = byte_at m (a + 7);
}

-- `set_seg_base(sd,base)` on a descriptor at a multiple of 4.
unfoldable pub move_segment : ℕ → ℕ → Memory → Memory
move_segment a base m =
    let sd = set_seg_base (load_descriptor m a) base in
    put_word (put_word m a (sd.limit0_15 + sd.base0_15 * 2 ^ 16)) (a + 4)
      (sd.base16_23 + sd.attribute * 2 ^ 8 + sd.segattr * 2 ^ 16 + sd.base24_31 * 2 ^ 24)

-- The segments of the running process, and the child's `start_code`.
unfoldable pub move_segments : (current proc base : ℕ) → Memory → Memory
move_segments current proc base m =
    move_segment (user_ds current) base
      (move_segment (user_cs current) base (put_word m (proc + At.start_code) base))

-- `get_seg_base` gets the descriptor itself for a pointer to one, so it takes the first word of the
-- descriptor for an address. `free_page` is that of Mm.
unfoldable pub copy_memory : (ℕ → Memory → Memory) → (current proc_nr proc : ℕ) → Memory → Copied
copy_memory free_page current proc_nr proc m =
    let code_limit = get_seg_limit (load_descriptor m (user_cs current)) in
    let data_limit = get_seg_limit (load_descriptor m (user_ds current)) in
    let old_code_base = get_seg_base (load_descriptor m (m.word (user_cs current))) in
    let old_data_base = get_seg_base (load_descriptor m (m.word (user_ds current))) in
    let new_base = proc_nr * process_mem_space % u32_mod in
    if not (code_limit == data_limit)
    then halted
    else if not (old_code_base == old_data_base)
    then halted
    else elim (copy_page_tables old_code_base new_base data_limit
        (move_segments current proc new_base m)) [
          | halted ↦ halted
          | returned ok m' ↦
              if ok
              then returned false (free_page_tables free_page new_base data_limit m')
              else returned true m'
        ]

-- `process`, `current` and `sys_last_pid`, with CURRENT_TIME, the address of the current terminal and
-- the memory. The pointers are addresses, 0 for NULL.
pub record Tasks : Type 0 where
  pub memory : Memory
  pub process : ℕ → ℕ
  pub current : ℕ
  pub last_pid : ℕ
  pub now : ℕ
  pub current_tty : ℕ

-- The result and the state; the counter is an `int` below 2^31.
unfoldable pub get_last_pid : Tasks → ℕ × Tasks
get_last_pid s = (s.last_pid, record s { last_pid = s.last_pid + 1 })

-- The first free entry among the `n` from `i` on.
unfoldable pub first_free_process : (n i : ℕ) → (ℕ → ℕ) → ℕ
first_free_process zero i process = 0
first_free_process (suc n) i process =
    let rest = first_free_process n (i + 1) process in if process i == 0 then i else rest

unfoldable pub get_free_process : Tasks → ℕ
get_free_process s = first_free_process (nr_process - 1) 1 s.process

-- The registers of the parent, as the interrupt entry pushes them.
pub record Registers : Type 0 where
  pub ebx : ℕ
  pub ecx : ℕ
  pub edx : ℕ
  pub gs : ℕ
  pub fs : ℕ
  pub es : ℕ
  pub ds : ℕ
  pub ebp : ℕ
  pub edi : ℕ
  pub esi : ℕ
  pub eip : ℕ
  pub cs : ℕ
  pub eflags : ℕ
  pub esp : ℕ
  pub ss : ℕ

-- `*proc = *current`
unfoldable pub copy_words : (n to from : ℕ) → Memory → Memory
copy_words zero to from m = m
copy_words (suc n) to from m = copy_words n (to + 4) (from + 4) (put_word m to (m.word from))

abbrev pub kernel_ds : ℕ
kernel_ds = 0x10

abbrev pub task_ldt : ℕ
task_ldt = 0x18

-- The `tss` of the child; `gs` is set from `fs`.
unfoldable pub fill_tss : (proc : ℕ) → Registers → Memory → Memory
fill_tss proc r m0 =
    let tss = proc + At.tss in
    let m1 =
      put_word (put_word (put_word m0 tss 0) (tss + 4) (page_size + proc)) (tss + 8) kernel_ds in
    let m2 = put_word (put_word (put_word m1 (tss + 32) r.eip) (tss + 36) r.eflags) (tss + 40) 0 in
    let m3 = put_word (put_word (put_word m2 (tss + 44) r.ecx) (tss + 48) r.edx) (tss + 52) r.ebx in
    let m4 = put_word (put_word (put_word m3 (tss + 56) r.esp) (tss + 60) r.ebp) (tss + 64) r.esi in
    let m5 = put_word (put_word m4 (tss + 68) r.edi) (tss + 72) (r.es % 2 ^ 16) in
    let m6 = put_word (put_word m5 (tss + 76) (r.cs % 2 ^ 16)) (tss + 80) (r.ss % 2 ^ 16) in
    let m7 = put_word (put_word m6 (tss + 84) (r.ds % 2 ^ 16)) (tss + 88) (r.fs % 2 ^ 16) in
    let m8 = put_word (put_word m7 (tss + 92) (r.fs % 2 ^ 16)) (tss + 96) task_ldt in
    put_word m8 (tss + 100) (104 * 2 ^ 16)

-- The child up to `copy_memory`.
unfoldable pub fill_process : (s : Tasks) (proc pid : ℕ) → Registers → Memory → Memory
fill_process s proc pid r m0 =
    let m1 = put_word (copy_words At.words proc s.current m0) proc wait_uninterruptible in
    let m2 = put_word m1 (proc + At.pid) pid in
    let m3 = put_word m2 (proc + At.ppid) (m2.word (s.current + At.pid)) in
    let m4 = put_word (put_word m3 (proc + At.user_time) 0) (proc + At.kernel_time) 0 in
    let m5 = put_word m4 (proc + At.create_time) s.now in
    fill_tss proc r (put_word m5 (proc + At.tty) s.current_tty)

-- `count ++` on the lower or the upper half of a word: `count` of `struct_file` is at 4, that of
-- `struct_mem_inode` at 54.
abbrev pub count_file : ℕ → Memory → Memory
count_file p m =
    let v = m.word (p + 4) in
    if p == 0 then m else put_word m (p + 4) (v - v % 2 ^ 16 + (v + 1) % 2 ^ 16)

abbrev pub count_inode : ℕ → Memory → Memory
count_inode p m =
    let v = m.word (p + 52) in
    if p == 0 then m else put_word m (p + 52) (v % 2 ^ 16 + (v / 2 ^ 16 + 1) % 2 ^ 16 * 2 ^ 16)

-- The loop over the files, with `n` left.
unfoldable pub share_files : (n at : ℕ) → Memory → Memory
share_files zero at m = m
share_files (suc n) at m = share_files n (at + 4) (count_file (m.word at) m)

unfoldable pub share : (proc : ℕ) → Memory → Memory
share proc m0 =
    let m1 = share_files 8 (proc + At.files) m0 in
    let m2 = count_inode (m1.word (proc + At.pwd)) m1 in
    let m3 = count_inode (m2.word (proc + At.root)) m2 in count_inode (m3.word (proc + At.image)) m3

-- `copy_process` once the child is filled in and its memory is copied, or not; `none` is the end in
-- `halts`.
unfoldable pub finish_process : (proc_nr proc : ℕ) → Copied → Tasks → Option (ℕ × Tasks)
finish_process proc_nr proc halted s = none
finish_process proc_nr proc (returned ok m) s =
    let m' = put_word (share proc m) proc running in
    if ok
    then some (m'.word (proc + At.pid), record s { memory = m' })
    else some (
      0,
      record s {
        memory = free_phy_page proc m;
        process = λ j. if j == proc_nr then 0 else s.process j;
      },
    )

unfoldable pub copy_process :
    (ℕ → Memory → Memory) → (proc_nr : ℕ) → Registers → Tasks → Option (ℕ × Tasks)
copy_process free_page proc_nr r s =
    let (proc, m) = get_phy_page s.memory in
    let s1 = record s { process = λ j. if j == proc_nr then proc else s.process j } in
    let (pid, s2) = get_last_pid s1 in
    let filled = fill_process s2 proc pid r m in
    if proc == 0
    then some (0, record s { memory = m })
    else finish_process proc_nr proc (copy_memory free_page s.current proc_nr proc filled) s2
