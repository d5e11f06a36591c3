-- ===== src/Kmain.antt =====
-- The start of the kernel: the bounds of memory that `kmain` of init/kmain.c sets, and the parts of the
-- start that depend on them.
pub mod Layout
pub mod FirstProcess
pub mod Segments
pub mod Drivers
pub mod Lines
mod Tests
use lychee_os.Mm.{Memory, mem_init}
use lychee_os.Cache.{mem_buffer_init}
use lychee_os.Base.{ℕ, Option, List, ◌+◌, ◌-◌, ◌*◌, ◌%◌, ◌^◌, ltb, if◌then◌else◌, u32_mod, add32}

-- `MB`
abbrev pub mb : ℕ
mb = 2 ^ 20

abbrev pub startup_root_dev : ℕ
startup_root_dev = 0x301

-- The variables that `kmain` sets before it calls the other modules.
pub record KernelBounds : Type 0 where
  pub sys_root_dev : ℕ
  pub sys_hd_info : ℕ
  pub sys_memory_start : ℕ
  pub sys_memory_end : ℕ
  pub buffer_memory_start : ℕ
  pub buffer_memory_end : ℕ
  pub main_memory_start : ℕ
  pub main_memory_end : ℕ

-- `x & 0xFFFFF000`
abbrev pub whole_pages : ℕ → ℕ
whole_pages x = x - x % 2 ^ 12

-- `sys_memory_end`, from the 16 bits of EXT_MEMORY.
unfoldable pub memory_end : (ext_memory : ℕ) → ℕ
memory_end ext_memory =
    let bytes = whole_pages (2 ^ 20 + ext_memory * 2 ^ 10) in
    if ltb (64 * mb) bytes then 64 * mb else bytes

-- The two tests of the size, one behind the other; only the second has an `else`.
abbrev pub end_above_16mb : (memory before : ℕ) → ℕ
end_above_16mb memory before = if ltb (16 * mb) memory then 4 * mb else before

abbrev pub end_above_8mb : (memory before : ℕ) → ℕ
end_above_8mb memory before = if ltb (8 * mb) memory then 2 * mb else 1 * mb

-- `buffer_memory_end`, which is 0 at first.
unfoldable pub buffer_end : (memory : ℕ) → ℕ
buffer_end memory = end_above_8mb memory (end_above_16mb memory 0)

-- `end` is a name that the linker puts at the end of the kernel. It is declared as an int and used by
-- value: the word that lies there.
unfoldable pub kernel_bounds : (ext_memory end : ℕ) → KernelBounds
kernel_bounds ext_memory end =
    let memory = memory_end ext_memory in
    record {
      sys_root_dev = startup_root_dev;
      sys_hd_info = 0x90020;
      sys_memory_start = 0;
      sys_memory_end = memory;
      buffer_memory_start = whole_pages (add32 end 0xFFF);
      buffer_memory_end = buffer_end memory;
      main_memory_start = buffer_end memory;
      main_memory_end = memory;
    }

-- The bounds in the state of mm/memory.c.
abbrev pub with_bounds : KernelBounds → Memory → Memory
with_bounds b m = record m {
  sys_memory_start = b.sys_memory_start;
  sys_memory_end = b.sys_memory_end;
  buffer_memory_start = b.buffer_memory_start;
  buffer_memory_end = b.buffer_memory_end;
  main_memory_start = b.main_memory_start;
  main_memory_end = b.main_memory_end;
}

-- What `kmain` does with memory: the bounds, `mem_init` and `mem_buffer_init`, on fuel.
unfoldable pub start_memory : (fuel ext_memory end : ℕ) → Memory → Memory × Option (List ℕ)
start_memory fuel ext_memory end m =
    let b = kernel_bounds ext_memory end in
    (mem_init (with_bounds b m), mem_buffer_init fuel b.buffer_memory_start b.buffer_memory_end)
