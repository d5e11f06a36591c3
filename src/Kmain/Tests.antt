-- ===== src/Kmain/Tests.antt =====
-- The start of a machine with 32 MB.
use lychee_os.Base.{ℕ, ◌+◌, ◌*◌, ◌≡◌, ◌≢◌, ◌≤◌, refl, some, List, arith}
use lychee_os.Mm.{Memory, nr_pages}
use lychee_os.Mm.Pages.{IsBounded}
use lychee_os.Cache.Layout.{Placed}
use lychee_os.Kmain.{kernel_bounds, memory_end, buffer_end, start_memory}
use lychee_os.Kernel.{desc_tss, get_seg_base}
use lychee_os.Fork.At
use lychee_os.Fork.{load_descriptor, user_cs, user_ds}
use lychee_os.Kmain.FirstProcess.{Gdt, init_process, describe_process}
use lychee_os.Kmain.Segments.{IsAbsent, init_process-IsAbsent}
use lychee_os.Kmain.Layout.{start_memory_lem}

abbrev empty : Memory
empty = record {
  word = λ a. 0;
  mem_map = λ i. 0;
  main_memory_pages = 0;
  main_memory_start = 0;
  main_memory_end = 0;
  sys_memory_start = 0;
  sys_memory_end = 0;
  buffer_memory_start = 0;
  buffer_memory_end = 0;
  sys_pgdir = 0;
}

-- The buffers end at 2 MB, and not at 4.
two_mb : (kernel_bounds (31 * 1024) 0x12345678).buffer_memory_end ≡ 2 * 1024 * 1024
unfolding kernel_bounds memory_end buffer_end
two_mb = refl

start_memory_lem_example :
    (bs : List ℕ) × (m' : Memory) × (start_memory (2 * 1024 * 1024 + 1) (31 * 1024) 0x12345 empty
      ≡ (m', some bs))
    × IsBounded m'
    × (m'.main_memory_pages ≤ nr_pages)
    × Placed m'.buffer_memory_start m'.main_memory_start bs
unfolding kernel_bounds memory_end buffer_end
start_memory_lem_example = start_memory_lem (31 * 1024) 0x12345 empty (omega arith)

abbrev no_gdt : Gdt
no_gdt k = record {
  limit0_15 = k;
  base0_15 = 0;
  base16_23 = 0;
  attribute = 0;
  segattr = 0;
  base24_31 = 0;
}

-- `process[0]` is NULL when the kernel starts.
init_process-IsAbsent_example :
    IsAbsent (load_descriptor (init_process 0 1000 0x2000 0x1000 empty) (user_cs 0))
    × IsAbsent (load_descriptor (init_process 0 1000 0x2000 0x1000 empty) (user_ds 0))
    × (get_seg_base (describe_process 0 no_gdt 3) ≡ At.tss)
    × ((describe_process 0 no_gdt 3).attribute ≡ desc_tss)
    × ((k : ℕ) → k ≢ 3 → describe_process 0 no_gdt k ≡ no_gdt k)
init_process-IsAbsent_example =
    init_process-IsAbsent 0 1000 0x2000 0x1000 empty no_gdt refl (omega arith)
