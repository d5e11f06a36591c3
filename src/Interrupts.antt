-- ===== src/Interrupts.antt =====
-- Exceptions and hardware interrupts: kernel/interrupt.c with include/interrupt.h, and
-- kernel/i8259.c, on the descriptor tables of Kernel.
pub mod Vectors
pub mod Masks
mod Tests
use Prim.Native.Nat.{bit_and, bit_or}
use Prim.Native.String.{String}
use lychee_os.Base.{
  ℕ, zero, suc, ◌+◌, ◌-◌, ◌%◌, ◌^◌, Option, none, some, List, [], ◌∷◌, ◌++◌, ltb, leb,
  if◌then◌else◌, get_elem?, set,
}
use lychee_os.Kernel.{Idt, set_interrupt_gate, set_trap_gate, set_system_gate}

-- The entry points in kernel/interrupt.asm, and `page_fault` of mm/pf.asm.
pub data Entry : Type 0 where
  divide_error : Entry
  single_step : Entry
  nmi : Entry
  int3 : Entry
  overflow : Entry
  bounds_check : Entry
  invalid_opcode : Entry
  coprocessor_not_avl : Entry
  double_fault : Entry
  coprocessor_seg_overrun : Entry
  invalid_tss : Entry
  seg_not_present : Entry
  stack_exception : Entry
  general_protection : Entry
  page_fault : Entry
  coprocessor_error : Entry
  reserved : Entry

abbrev pub err_msg : List String
err_msg =
    "#DE-divide error" ∷ "#DB-reserved" ∷ "NMI" ∷ "#BP-breakpoint" ∷ "#OF-overflow"
    ∷ "#BR-bound range exceeded" ∷ "UD-invalid opcode(undefined opcode)"
    ∷ "#NM-device not available(not math coprocessor)" ∷ "#DF-double fault"
    ∷ "coprocessor segment overrun(reserved)" ∷ "#TS-invalid tss" ∷ "#NP-segment not present"
    ∷ "#SS-stack-segment fault" ∷ "#GP-general protection" ∷ "#PF-page fault" ∷ "intel reserved"
    ∷ "#MF-x87 FPU floating-point error(math fault)" ∷ "#AC-alignment check" ∷ "#MC-machine check"
    ∷ "#XF-SIMD floating-point exception" ∷ []

-- The text that is printed; the stack pointer and the error code are not used.
unfoldable pub do_int : ℕ → Option String
do_int vector = get_elem? err_msg vector

-- The C function behind an entry point. That of `page_fault` is in mm/, and prints nothing here.
unfoldable pub do_entry : Entry → Option String
unfolding do_int
do_entry divide_error = do_int 0
do_entry single_step = do_int 1
do_entry nmi = do_int 2
do_entry int3 = do_int 3
do_entry overflow = do_int 4
do_entry bounds_check = do_int 5
do_entry invalid_opcode = do_int 6
do_entry coprocessor_not_avl = do_int 7
do_entry double_fault = do_int 8
do_entry coprocessor_seg_overrun = do_int 9
do_entry invalid_tss = do_int 10
do_entry seg_not_present = do_int 11
do_entry stack_exception = do_int 12
do_entry general_protection = do_int 13
do_entry page_fault = none
do_entry coprocessor_error = do_int 16
do_entry reserved = do_int 15

-- `for(i = 17 ; i <= 32 ; i ++) set_trap_gate(i,reserved);`, with `n` rounds left.
unfoldable pub set_reserved : (handler i n : ℕ) → Idt → Idt
set_reserved handler i zero idt = idt
set_reserved handler i (suc n) idt = set_reserved handler (i + 1) n (set_trap_gate idt i handler)

-- `address` gives the addresses that the linker chose.
unfoldable pub int_init : (Entry → ℕ) → Idt → Idt
int_init address idt =
    let idt0 = set_trap_gate idt 0 (address divide_error) in
    let idt1 = set_trap_gate idt0 1 (address single_step) in
    let idt2 = set_trap_gate idt1 2 (address nmi) in
    let idt3 = set_system_gate idt2 3 (address int3) in
    let idt4 = set_system_gate idt3 4 (address overflow) in
    let idt5 = set_system_gate idt4 5 (address bounds_check) in
    let idt6 = set_trap_gate idt5 6 (address invalid_opcode) in
    let idt7 = set_trap_gate idt6 7 (address coprocessor_not_avl) in
    let idt8 = set_trap_gate idt7 8 (address double_fault) in
    let idt9 = set_trap_gate idt8 9 (address coprocessor_seg_overrun) in
    let idt10 = set_trap_gate idt9 10 (address invalid_tss) in
    let idt11 = set_trap_gate idt10 11 (address seg_not_present) in
    let idt12 = set_trap_gate idt11 12 (address stack_exception) in
    let idt13 = set_trap_gate idt12 13 (address general_protection) in
    let idt14 = set_trap_gate idt13 14 (address page_fault) in
    let idt15 = set_trap_gate idt14 15 (address reserved) in
    let idt16 = set_trap_gate idt15 16 (address coprocessor_error) in
    set_reserved (address reserved) 17 16 idt16

-- The state of the interrupt controllers' code: the table of gates, the byte that `in_byte` finds at
-- each port, the port writes in order as (port, value), and the table of handlers.
pub record Controllers : Type 0 where
  pub idt : Idt
  pub in_byte : ℕ → ℕ
  pub writes : List (ℕ × ℕ)
  pub irq_handler_table : List ℕ

-- `out_byte(value,port)`: the instruction is `outb %al,%dx`.
unfoldable pub out_byte : ℕ → ℕ → Controllers → Controllers
out_byte value port c = record c { writes = c.writes ++ ((port % 2 ^ 16, value % 2 ^ 8) ∷ []) }

abbrev pub master_ctl : ℕ
master_ctl = 0x20

abbrev pub master_mask : ℕ
master_mask = 0x21

abbrev pub slave_ctl : ℕ
slave_ctl = 0xA0

abbrev pub slave_mask : ℕ
slave_mask = 0xA1

abbrev pub int_irq0 : ℕ
int_irq0 = 0x20

abbrev pub int_irq8 : ℕ
int_irq8 = 0x28

-- The sixteen calls of `set_interrupt_gate`; `irq i` is the address of `irq_i`.
unfoldable pub set_irq_gates : (ℕ → ℕ) → Idt → Idt
set_irq_gates irq idt =
    let idt0 = set_interrupt_gate idt (int_irq0 + 0) (irq 0) in
    let idt1 = set_interrupt_gate idt0 (int_irq0 + 1) (irq 1) in
    let idt2 = set_interrupt_gate idt1 (int_irq0 + 2) (irq 2) in
    let idt3 = set_interrupt_gate idt2 (int_irq0 + 3) (irq 3) in
    let idt4 = set_interrupt_gate idt3 (int_irq0 + 4) (irq 4) in
    let idt5 = set_interrupt_gate idt4 (int_irq0 + 5) (irq 5) in
    let idt6 = set_interrupt_gate idt5 (int_irq0 + 6) (irq 6) in
    let idt7 = set_interrupt_gate idt6 (int_irq0 + 7) (irq 7) in
    let idt8 = set_interrupt_gate idt7 (int_irq0 + 8) (irq 8) in
    let idt9 = set_interrupt_gate idt8 (int_irq0 + 9) (irq 9) in
    let idt10 = set_interrupt_gate idt9 (int_irq0 + 10) (irq 10) in
    let idt11 = set_interrupt_gate idt10 (int_irq0 + 11) (irq 11) in
    let idt12 = set_interrupt_gate idt11 (int_irq0 + 12) (irq 12) in
    let idt13 = set_interrupt_gate idt12 (int_irq0 + 13) (irq 13) in
    let idt14 = set_interrupt_gate idt13 (int_irq0 + 14) (irq 14) in
    set_interrupt_gate idt14 (int_irq0 + 15) (irq 15)

unfoldable pub init_8259A : (ℕ → ℕ) → Controllers → Controllers
init_8259A irq c0 =
    let c1 = out_byte master_ctl 0x11 c0 in
    let c2 = out_byte slave_ctl 0x11 c1 in
    let c3 = out_byte master_mask int_irq0 c2 in
    let c4 = out_byte slave_mask int_irq8 c3 in
    let c5 = out_byte master_mask 0x4 c4 in
    let c6 = out_byte slave_mask 0x2 c5 in
    let c7 = out_byte master_mask 0x1 c6 in
    let c8 = out_byte master_mask 0x1 c7 in
    let c9 = out_byte master_mask 0xFF c8 in
    let c10 = out_byte slave_mask 0xFF c9 in record c10 { idt = set_irq_gates irq c10.idt }

abbrev pub mask_port : ℕ → ℕ
mask_port irq = if leb irq 7 then master_mask else slave_mask

-- The lines that are numbered from 0 on. A port yields a byte.
unfoldable pub enable_irq : ℕ → Controllers → Controllers
enable_irq irq c =
    let al = c.in_byte (mask_port irq) in out_byte (bit_or al (2 ^ (irq % 8))) (mask_port irq) c

-- `al & ~(1 << n)` in the low byte.
unfoldable pub disable_irq : ℕ → Controllers → Controllers
disable_irq irq c =
    let al = c.in_byte (mask_port irq) in
    out_byte (bit_and al (255 - 2 ^ (irq % 8))) (mask_port irq) c

-- `none` is a write behind the table of sixteen handlers; `irq` is a `u8`.
unfoldable pub set_irq_handler : ℕ → ℕ → Controllers → Option Controllers
set_irq_handler irq handler c =
    let nr = irq % 2 ^ 8 in
    let c' = disable_irq nr c in
    if ltb nr 16
    then some (record c' { irq_handler_table = set c'.irq_handler_table nr handler })
    else none

-- The lines that the drivers name.
pub data Line : Type 0 where
  irq_clock : Line
  irq_keyboard : Line
  irq_cascade : Line
  irq_com2 : Line
  irq_com1 : Line
  irq_lpt2 : Line
  irq_floppy : Line
  irq_lpt1 : Line
  irq_real_clock : Line
  irq_hd : Line

abbrev pub nr_int_irq0 : ℕ
nr_int_irq0 = 0x20

unfoldable pub irq_of : Line → ℕ
irq_of irq_clock = nr_int_irq0 + 0
irq_of irq_keyboard = nr_int_irq0 + 1
irq_of irq_cascade = nr_int_irq0 + 2
irq_of irq_com2 = nr_int_irq0 + 3
irq_of irq_com1 = nr_int_irq0 + 4
irq_of irq_lpt2 = nr_int_irq0 + 5
irq_of irq_floppy = nr_int_irq0 + 6
irq_of irq_lpt1 = nr_int_irq0 + 7
irq_of irq_real_clock = nr_int_irq0 + 8
irq_of irq_hd = nr_int_irq0 + 14
