-- ===== src/Kernel.antt =====
-- kernel/kernel.c with the structures of include/kernel.h: segment descriptors and gates.
-- `x & (2^k - 1)` is written `x % 2 ^ k`, and `x >> k` is `x / 2 ^ k`.
pub mod Segments
pub mod Gates
mod Tests
use Prim.Native.Nat.{bit_and, bit_or}
use lychee_os.Base.{ℕ, ◌+◌, ◌*◌, ◌/◌, ◌%◌, ◌^◌, Bool, ◌==◌, if◌then◌else◌, u32_mod}

pub record Descriptor : Type 0 where
  pub limit0_15 : ℕ
  pub base0_15 : ℕ
  pub base16_23 : ℕ
  pub attribute : ℕ
  pub segattr : ℕ
  pub base24_31 : ℕ

pub record Gate : Type 0 where
  pub offset0_15 : ℕ
  pub selector : ℕ
  pub pcount : ℕ
  pub attribute : ℕ
  pub offset16_31 : ℕ

abbrev pub desc_ldt : ℕ
desc_ldt = 0x82

abbrev pub desc_tss : ℕ
desc_tss = 0x89

abbrev pub kernel_cs : ℕ
kernel_cs = 0x08

abbrev pub gate_int : ℕ
gate_int = 0x8E

abbrev pub gate_trap : ℕ
gate_trap = 0x8F

abbrev pub dpl_0 : ℕ
dpl_0 = 0x00

abbrev pub dpl_3 : ℕ
dpl_3 = 0x60

-- `sys_idt`, by vector; the callers' vectors are below 256.
abbrev pub Idt : Type 0
Idt = ℕ → Gate

unfoldable pub set_gate_descriptor : Idt → (vector offset selector pcount attribute dpl : ℕ) → Idt
set_gate_descriptor idt vector offset selector pcount attribute dpl v =
    if v == vector
    then record {
      offset0_15 = offset % 2 ^ 8;
      selector = selector;
      pcount = pcount;
      attribute = bit_or attribute (bit_and dpl 0x60);
      offset16_31 = offset / 2 ^ 16 % 2 ^ 8;
    }
    else idt v

-- A handler is its 32-bit address.
unfoldable pub set_gate : Idt → (vector handler gate_type dpl : ℕ) → Idt
unfolding set_gate_descriptor
set_gate idt vector handler gate_type dpl =
    set_gate_descriptor idt vector handler kernel_cs 0 gate_type dpl

unfoldable pub set_interrupt_gate : Idt → (vector handler : ℕ) → Idt
unfolding set_gate
set_interrupt_gate idt vector handler = set_gate idt vector handler gate_int dpl_0

unfoldable pub set_trap_gate : Idt → (vector handler : ℕ) → Idt
unfolding set_gate
set_trap_gate idt vector handler = set_gate idt vector handler gate_trap dpl_0

unfoldable pub set_system_gate : Idt → (vector handler : ℕ) → Idt
unfolding set_gate
set_system_gate idt vector handler = set_gate idt vector handler gate_trap dpl_3

-- Every field of the old descriptor is overwritten, so it is no argument.
unfoldable pub set_descriptor :
    (limit0_15 base0_15 base16_23 attribute segattr base24_31 : ℕ) → Descriptor
set_descriptor limit0_15 base0_15 base16_23 attribute segattr base24_31 = record {
  limit0_15 = limit0_15;
  base0_15 = base0_15;
  base16_23 = base16_23;
  attribute = attribute;
  segattr = segattr;
  base24_31 = base24_31;
}

unfoldable pub set_ldt_desc : (limit base : ℕ) → Descriptor
unfolding set_descriptor
set_ldt_desc limit base =
    set_descriptor limit (base % 2 ^ 16) (base / 2 ^ 16 % 2 ^ 8) desc_ldt 0 (base / 2 ^ 24 % 2 ^ 8)

unfoldable pub set_tss_desc : (limit base : ℕ) → Descriptor
unfolding set_descriptor
set_tss_desc limit base =
    set_descriptor limit (base % 2 ^ 16) (base / 2 ^ 16 % 2 ^ 8) desc_tss 0 (base / 2 ^ 24 % 2 ^ 8)

-- Bit 7 of `segattr` is the granularity, `segattr & 0x80`.
unfoldable pub get_seg_limit : Descriptor → ℕ
get_seg_limit sd =
    let limit = sd.limit0_15 + sd.segattr % 2 ^ 4 * 2 ^ 16 in
    if sd.segattr / 2 ^ 7 % 2 == 0 then limit else limit * 4 * 1024 % u32_mod

-- The value of type `int`, as a 32-bit pattern.
unfoldable pub get_seg_base : Descriptor → ℕ
get_seg_base sd = (sd.base0_15 + sd.base16_23 * 2 ^ 16 + sd.base24_31 * 2 ^ 24) % u32_mod

unfoldable pub set_seg_base : Descriptor → ℕ → Descriptor
set_seg_base sd base = record sd {
  base0_15 = base % 2 ^ 16;
  base16_23 = base / 2 ^ 16 % 2 ^ 8;
  base24_31 = base / 2 ^ 24 % 2 ^ 8;
}
