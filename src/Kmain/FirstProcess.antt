-- ===== src/Kmain/FirstProcess.antt =====
-- Process 0: `sched_init` of kernel/sched.c, and the descriptors that `kmain` sets for it. Its
-- structure lies in the memory like those of Fork.
use lychee_os.Base.{
  ℕ, zero, suc, ◌+◌, ◌*◌, ◌^◌, Option, none, some, List, [], ◌∷◌, ◌==◌, if◌then◌else◌,
}
use lychee_os.Process.{running}
use lychee_os.Kernel.{Descriptor, set_descriptor, set_ldt_desc, set_tss_desc}
use lychee_os.Interrupts.{Controllers, irq_clock, irq_of, set_irq_handler, enable_irq}
use lychee_os.Mm.{Memory, page_size, put_word}
use lychee_os.Fork.At
use lychee_os.Fork.{kernel_ds, task_ldt, user_cs, user_ds}

abbrev pub task_cs : ℕ
task_cs = 0x0F

abbrev pub task_ds : ℕ
task_ds = 0x17

-- `memset` of whole words with 0.
unfoldable pub clear_words : (n a : ℕ) → Memory → Memory
clear_words zero a m = m
clear_words (suc n) a m = clear_words n (a + 4) (put_word m a 0)

-- Assignments to words at offsets from an address.
unfoldable pub put_fields : (base : ℕ) → List (ℕ × ℕ) → Memory → Memory
put_fields base [] m = m
put_fields base ((at, v) ∷ rest) m = put_fields base rest (put_word m (base + at) v)

unfoldable pub store_descriptor : (a : ℕ) → Descriptor → Memory → Memory
store_descriptor a sd m =
    put_fields a
      ((0, sd.limit0_15 + sd.base0_15 * 2 ^ 16)
        ∷ (4, sd.base16_23 + sd.attribute * 2 ^ 8 + sd.segattr * 2 ^ 16 + sd.base24_31 * 2 ^ 24)
        ∷ [])
      m

-- The fields before the descriptors; `sigaction` has 32 words from 16 on.
unfoldable pub set_fields : (proc now tty : ℕ) → Memory → Memory
set_fields proc now tty m =
    put_fields proc
      ((144, 0)
        ∷ (148, 0)
        ∷ (At.pid, 0)
        ∷ (At.user_time, 0)
        ∷ (At.kernel_time, 0)
        ∷ (At.create_time, now)
        ∷ (192, 0)
        ∷ (At.tty, tty)
        ∷ (At.pwd, 0)
        ∷ (At.root, 0)
        ∷ (At.image, 0)
        ∷ [])
      (clear_words 32 (proc + 16)
        (put_fields proc ((0, running) ∷ (4, 15) ∷ (8, 15) ∷ (12, 0) ∷ []) m))

unfoldable pub set_segments : (proc : ℕ) → Memory → Memory
set_segments proc m = store_descriptor (user_ds proc) (set_descriptor 0xA0 0 0 0x02 0xC0 0) (
    store_descriptor (user_cs proc) (set_descriptor 0xA0 0 0 0x0A 0xC0 0)
      (store_descriptor (proc + At.ldt) (set_descriptor 0 0 0 0 0 0) m))

unfoldable pub set_tss : (proc pgdir : ℕ) → Memory → Memory
set_tss proc pgdir m =
    put_fields (proc + At.tss)
      ((4, page_size + proc)
        ∷ (8, kernel_ds)
        ∷ (28, pgdir)
        ∷ (72, task_ds)
        ∷ (76, task_cs)
        ∷ (80, task_ds)
        ∷ (84, task_ds)
        ∷ (88, task_ds)
        ∷ (92, task_ds)
        ∷ (96, task_ldt)
        ∷ (100, 104 * 2 ^ 16)
        ∷ [])
      (clear_words 26 (proc + At.tss) m)

-- `proc` is `process[0]`, and `pgdir` the value of `sys_pgdir`.
unfoldable pub init_process : (proc now tty pgdir : ℕ) → Memory → Memory
init_process proc now tty pgdir m =
    set_tss proc pgdir (set_segments proc (set_fields proc now tty m))

-- `none` is the write of the handler behind its table.
unfoldable pub sched_init :
    (proc now tty pgdir handler : ℕ) → Memory × Controllers → Option (Memory × Controllers)
sched_init proc now tty pgdir handler (m, c) = elim (set_irq_handler (irq_of irq_clock) handler c) [
  | none ↦ none
  | some c' ↦ some (init_process proc now tty pgdir m, enable_irq (irq_of irq_clock) c')
]

-- `sys_gdt`.
abbrev pub Gdt : Type 0
Gdt = ℕ → Descriptor

abbrev pub index_gdt_ldt : ℕ
index_gdt_ldt = 3

abbrev put_desc : ℕ → Descriptor → Gdt → Gdt
put_desc k sd gdt j = if j == k then sd else gdt j

-- The two calls in `kmain` before the descriptors are loaded; both name INDEX_GDT_LDT.
unfoldable pub describe_process : (proc : ℕ) → Gdt → Gdt
describe_process proc gdt =
    put_desc index_gdt_ldt (set_tss_desc 104 (proc + At.tss))
      (put_desc index_gdt_ldt (set_ldt_desc 24 (user_cs proc)) gdt)
