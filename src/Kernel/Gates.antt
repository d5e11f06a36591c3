-- ===== src/Kernel/Gates.antt =====
-- Where an installed gate leads.
use lychee_os.Base.{ℕ, ◌+◌, ◌*◌, ◌/◌, ◌%◌, ◌^◌, ◌<◌, ◌≡◌, ◌≢◌, arith}
use mathlib.Core.Logic.{◌↔◌}
use lychee_os.Kernel.{
  Idt, Gate, kernel_cs, set_gate, set_interrupt_gate, set_trap_gate, set_system_gate,
}

-- The address that the processor reads out of a gate.
abbrev pub target : Gate → ℕ
target g = g.offset0_15 + g.offset16_31 * 2 ^ 16

-- The bytes of the address that `set_gate_descriptor` masks away.
abbrev lost_bytes : ℕ → ℕ
lost_bytes handler = handler / 2 ^ 8 % 2 ^ 8 + handler / 2 ^ 24

-- A gate leads to its handler exactly when the second and the fourth byte of the handler's
-- address are zero, since the masks keep eight bits where the fields have sixteen.
pub target-set_gate :
    (idt : Idt) (vector handler gate_type dpl : ℕ)
    → handler < 2 ^ 32
    → (target (set_gate idt vector handler gate_type dpl vector) ≡ handler)
      ↔ (lost_bytes handler ≡ 0)
unfolding set_gate
target-set_gate idt vector handler gate_type dpl h = ground arith

-- Each of the three kinds of gate sets its vector to a present gate of the kernel's code segment
-- (interrupt gate of ring 0, trap gate of ring 0, trap gate of ring 3), and no other vector.
pub gate_kinds :
    (idt : Idt) (vector handler other : ℕ)
    → other ≢ vector
    → ((set_interrupt_gate idt vector handler vector).attribute ≡ 0x8E)
      × ((set_trap_gate idt vector handler vector).attribute ≡ 0x8F)
      × ((set_system_gate idt vector handler vector).attribute ≡ 0xEF)
      × ((set_system_gate idt vector handler vector).selector ≡ kernel_cs)
      × (set_interrupt_gate idt vector handler other ≡ idt other)
      × (set_trap_gate idt vector handler other ≡ idt other)
      × (set_system_gate idt vector handler other ≡ idt other)
unfolding set_interrupt_gate set_trap_gate set_system_gate
gate_kinds idt vector handler other h = ground arith
