-- ===== src/Interrupts/Vectors.antt =====
-- What each vector of the table of gates leads to once the kernel has set it up.
use lychee_os.Base.{
  ℕ, zero, suc, ◌-◌, ◌/◌, ◌%◌, ◌<◌, ◌≤◌, ◌≡◌, Bool-cases, ltb→lt, refl, sym, inl, inr, ◌⊎◌, [], ◌∷◌,
  get_or, get_elem?, ◌≢◌, leb, ltb, ◌&&◌, if◌then◌else◌, arith,
}
use mathlib.Core.Path.{subst}
use lychee_os.Kernel.{
  Idt, Gate, set_gate, set_gate_descriptor, set_interrupt_gate, set_trap_gate, set_system_gate,
}
use lychee_os.Interrupts.{
  Entry, divide_error, single_step, nmi, int3, overflow, bounds_check, invalid_opcode,
  coprocessor_not_avl, double_fault, coprocessor_seg_overrun, invalid_tss, seg_not_present,
  stack_exception, general_protection, page_fault, coprocessor_error, reserved, err_msg, do_int,
  do_entry, set_reserved, int_init, Controllers, out_byte, set_irq_gates, init_8259A,
}

-- A property of each number below a bound, as nested pairs.
Each : (ℕ → Type 0) → ℕ → Type 0
Each P zero = Unit
Each P (suc n) = P n × Each P n

each_below : (P : ℕ → Type 0) (n v : ℕ) → Each P n → v < n → P v
unfolding Each
each_below P zero v all h = absurd (omega arith)
each_below P (suc n) v all h = elim (below_step n v h) [
  | inl same ↦ subst P (sym same) all.0
  | inr less ↦ each_below P n v all.1 less
]
  where
    below_step : (n v : ℕ) → v < suc n → (v ≡ n) ⊎ (v < n)
    below_step n v h = ground arith

-- The entry point for an exception, by its vector.
unfoldable pub entry_of : ℕ → Entry
entry_of v =
    get_or
      (divide_error ∷ single_step ∷ nmi ∷ int3 ∷ overflow ∷ bounds_check ∷ invalid_opcode
        ∷ coprocessor_not_avl ∷ double_fault ∷ coprocessor_seg_overrun ∷ invalid_tss
        ∷ seg_not_present ∷ stack_exception ∷ general_protection ∷ page_fault ∷ reserved
        ∷ coprocessor_error ∷ [])
      v reserved

-- A gate to the first and the third byte of an entry point's address: its offset fields have room for
-- 16 bits each, and `set_gate_descriptor` puts 8 bits into each.
abbrev gate_to : (entry_point attribute : ℕ) → Gate
gate_to entry_point attribute = record {
  offset0_15 = entry_point % 256;
  selector = 0x08;
  pcount = 0;
  attribute = attribute;
  offset16_31 = entry_point / 65536 % 256;
}

-- The gate of a vector below 48: breakpoints, overflow and bounds traps for user code, traps of the
-- kernel for the other exceptions up to 31, and interrupt gates for the sixteen lines.
unfoldable pub gate_of : (Entry → ℕ) → (ℕ → ℕ) → ℕ → Gate
unfolding entry_of
gate_of address irq v =
    if ltb v 32
    then gate_to (address (entry_of v)) (if leb 3 v && leb v 5 then 0xEF else 0x8F)
    else gate_to (irq (v - 32)) 0x8E

gates-Each :
    (address : Entry → ℕ) (irq : ℕ → ℕ) (idt : Idt)
    → Each (λ v. set_irq_gates irq (int_init address idt) v ≡ gate_of address irq v) 48
unfolding Each set_irq_gates int_init set_reserved gate_of entry_of set_gate set_gate_descriptor
    set_interrupt_gate set_trap_gate set_system_gate
gates-Each address irq idt = (
  refl,
  (
    refl,
    (
      refl,
      (
        refl,
        (
          refl,
          (
            refl,
            (
              refl,
              (
                refl,
                (
                  refl,
                  (
                    refl,
                    (
                      refl,
                      (
                        refl,
                        (
                          refl,
                          (
                            refl,
                            (
                              refl,
                              (
                                refl,
                                (
                                  refl,
                                  (
                                    refl,
                                    (
                                      refl,
                                      (
                                        refl,
                                        (
                                          refl,
                                          (
                                            refl,
                                            (
                                              refl,
                                              (
                                                refl,
                                                (
                                                  refl,
                                                  (
                                                    refl,
                                                    (
                                                      refl,
                                                      (
                                                        refl,
                                                        (
                                                          refl,
                                                          (
                                                            refl,
                                                            (
                                                            refl,
                                                            (
                                                            refl,
                                                            (
                                                            refl,
                                                            (
                                                            refl,
                                                            (
                                                            refl,
                                                            (
                                                            refl,
                                                            (
                                                            refl,
                                                            (
                                                            refl,
                                                            (
                                                            refl,
                                                            (
                                                            refl,
                                                            (
                                                            refl,
                                                            (
                                                            refl,
                                                            (
                                                            refl,
                                                            (
                                                            refl,
                                                            (refl, (refl, (refl, (refl, tt)))),
                                                            ),
                                                            ),
                                                            ),
                                                            ),
                                                            ),
                                                            ),
                                                            ),
                                                            ),
                                                            ),
                                                            ),
                                                            ),
                                                            ),
                                                            ),
                                                            ),
                                                          ),
                                                        ),
                                                      ),
                                                    ),
                                                  ),
                                                ),
                                              ),
                                            ),
                                          ),
                                        ),
                                      ),
                                    ),
                                  ),
                                ),
                              ),
                            ),
                          ),
                        ),
                      ),
                    ),
                  ),
                ),
              ),
            ),
          ),
        ),
      ),
    ),
  ),
)

gates_kept :
    (address : Entry → ℕ) (irq : ℕ → ℕ) (idt : Idt) (v : ℕ)
    → 48 ≤ v
    → set_irq_gates irq (int_init address idt) v ≡ idt v
unfolding set_irq_gates int_init set_reserved set_gate set_gate_descriptor set_interrupt_gate
    set_trap_gate set_system_gate
gates_kept address irq idt v h = ground arith

-- After `int_init` and `init_8259A`, in the order of `kmain`, each vector below 48 has a gate of the
-- kernel's code segment with its own attribute (trap for user code, trap, interrupt), and every other
-- vector the gate that it had. The two offset fields of a gate hold the first and the third byte of the
-- address of the vector's own entry point; the second and the fourth byte are lost.
pub init_8259A-int_init :
    (address : Entry → ℕ) (irq : ℕ → ℕ) (c : Controllers) (v : ℕ)
    → (init_8259A irq (record c { idt = int_init address c.idt })).idt v
      ≡ (if ltb v 48 then gate_of address irq v else c.idt v)
unfolding init_8259A out_byte
init_8259A-int_init address irq c v = elim (Bool-cases (ltb v 48)) [
  | inl h ↦ rw h (
      each_below (λ w. set_irq_gates irq (int_init address c.idt) w ≡ gate_of address irq w) 48 v
        (gates-Each address irq c.idt) (ltb→lt v 48 h))
  | inr h ↦ rw h (gates_kept address irq c.idt v (ground arith))
]

abbrev Reports : ℕ → Type 0
Reports v = v ≢ 14 → do_entry (entry_of v) ≡ get_elem? err_msg v

Each-Reports : Each Reports 17
unfolding Each do_entry entry_of do_int
Each-Reports = (
  λ _. refl,
  (
    λ _. refl,
    (
      λ other. absurd (other refl),
      (
        λ _. refl,
        (
          λ _. refl,
          (
            λ _. refl,
            (
              λ _. refl,
              (
                λ _. refl,
                (
                  λ _. refl,
                  (
                    λ _. refl,
                    (
                      λ _. refl,
                      (
                        λ _. refl,
                        (λ _. refl, (λ _. refl, (λ _. refl, (λ _. refl, (λ _. refl, tt))))),
                      ),
                    ),
                  ),
                ),
              ),
            ),
          ),
        ),
      ),
    ),
  ),
)

-- Below 17, the function behind each exception but the page fault prints the message of its own
-- vector.
pub do_entry-entry_of : (v : ℕ) → v < 17 → v ≢ 14 → do_entry (entry_of v) ≡ get_elem? err_msg v
do_entry-entry_of v h other = each_below Reports 17 v Each-Reports h other
