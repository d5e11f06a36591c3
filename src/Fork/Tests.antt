-- ===== src/Fork/Tests.antt =====
-- A process that creates another one, with one page of main memory.
use lychee_os.Base.{ℕ, ◌≡◌, refl, inr, true, some, ◌==◌, ◌&&◌, if◌then◌else◌, arith}
use lychee_os.Kernel.{get_seg_base, get_seg_limit}
use lychee_os.Mm.{Memory, halted, first_unused, get_phy_page, copy_page_tables, copy_tables}
use lychee_os.Fork.{
  Tasks, Registers, user_cs, user_ds, load_descriptor, move_segments, fill_process, copy_memory,
  copy_process, fill_tss, copy_words,
}
use lychee_os.Fork.Copies.{
  filled, limit_of, base_of, IsFlat, after_copy, copy_memory_lem, copy_process_lem,
}

abbrev memory : Memory
memory = record {
  word = λ a. 0;
  mem_map = λ i. 0;
  main_memory_pages = 1;
  main_memory_start = 0x200000;
  main_memory_end = 0x201000;
  sys_memory_start = 0;
  sys_memory_end = 0x100000;
  buffer_memory_start = 0x100000;
  buffer_memory_end = 0x200000;
  sys_pgdir = 0;
}

abbrev tasks : Tasks
tasks = record {
  memory = memory;
  process = λ i. if i == 0 then 0x90000 else if i == 1 then 0x91000 else 0;
  current = 0x90000;
  last_pid = 1;
  now = 7;
  current_tty = 0x50000;
}

abbrev registers : Registers
registers = record {
  ebx = 1;
  ecx = 2;
  edx = 3;
  gs = 4;
  fs = 5;
  es = 6;
  ds = 7;
  ebp = 8;
  edi = 9;
  esi = 10;
  eip = 11;
  cs = 12;
  eflags = 13;
  esp = 14;
  ss = 15;
}

flat : IsFlat 0x90000 (filled 2 registers tasks)
unfolding fill_process copy_words fill_tss get_phy_page first_unused load_descriptor get_seg_limit
    get_seg_base
flat = record { limits = refl; bases = refl }

copy_process_lem_example :
    (pid : ℕ) × (s' : Tasks) × (copy_process (λ p m. m) 2 registers tasks ≡ some (pid, s'))
    × (pid ≡ 0)
    × (s'.process 2 ≡ 0)
    × (s'.last_pid ≡ 2)
unfolding fill_process copy_words fill_tss get_phy_page first_unused load_descriptor get_seg_limit
    get_seg_base copy_page_tables copy_tables
copy_process_lem_example =
    copy_process_lem (λ p m. m) 2 registers tasks true
      (move_segments 0x90000 0x200000 0x8000000 (filled 2 registers tasks)) refl flat refl

copy_memory_lem_example :
    (moved : Memory) × (copy_memory (λ p m. m) 0x90000 2 0x200000 memory ≡ (
      if (limit_of memory (user_cs 0x90000) == limit_of memory (user_ds 0x90000))
        && (base_of memory (user_cs 0x90000) == base_of memory (user_ds 0x90000))
      then after_copy
          (λ p m. m)
          0x8000000
          (limit_of memory (user_ds 0x90000))
          (copy_page_tables
            (base_of memory (user_cs 0x90000))
            0x8000000
            (limit_of memory (user_ds 0x90000))
            moved)
      else halted))
    × (get_seg_base (load_descriptor moved (user_cs 0x90000)) ≡ 0x8000000)
    × (get_seg_base (load_descriptor moved (user_ds 0x90000)) ≡ 0x8000000)
    × (moved.word 0x200100 ≡ memory.word 0x200100)
copy_memory_lem_example =
    copy_memory_lem (λ p m. m) 0x90000 2 0x200000 0x200100 memory refl (inr (omega arith))
      (omega arith)
