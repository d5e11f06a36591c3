-- ===== src/Interrupts/Tests.antt =====
-- The interrupt code at concrete values.
use lychee_os.Base.{
  ℕ, ◌+◌, ◌*◌, ◌≡◌, [], ◌∷◌, ◌++◌, replicate, get_elem?, if◌then◌else◌, ltb, arith,
}
use lychee_os.Interrupts.{
  Entry, Controllers, err_msg, do_entry, int_init, init_8259A, master_ctl, master_mask,
}
use lychee_os.Interrupts.Vectors.{gate_of, entry_of, init_8259A-int_init, do_entry-entry_of}
use lychee_os.Interrupts.Masks.{to_controllers, init_8259A-misses}

abbrev start : Controllers
start = record {
  idt = λ v. record { offset0_15 = 0; selector = 0; pcount = 0; attribute = 0; offset16_31 = 0 };
  in_byte = λ port. 0xB8;
  writes = [];
  irq_handler_table = replicate 16 0;
}

abbrev address : Entry → ℕ
address e = 0x10045

abbrev irq_entry : ℕ → ℕ
irq_entry i = 0x20000 + i * 8

init_8259A-int_init_example :
    (init_8259A irq_entry (record start { idt = int_init address start.idt })).idt 33
    ≡ (if ltb 33 48 then gate_of address irq_entry 33 else start.idt 33)
init_8259A-int_init_example = init_8259A-int_init address irq_entry start 33

do_entry-entry_of_example : do_entry (entry_of 13) ≡ get_elem? err_msg 13
do_entry-entry_of_example = do_entry-entry_of 13 (omega arith) (ground arith)

init_8259A-misses_example :
    to_controllers (init_8259A irq_entry start).writes
    ≡ to_controllers start.writes ++ ((master_ctl, master_mask) ∷ [])
init_8259A-misses_example = init_8259A-misses irq_entry start
