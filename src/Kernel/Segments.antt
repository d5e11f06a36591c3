-- ===== src/Kernel/Segments.antt =====
-- Bases and limits of segment descriptors: what is written is read back.
use lychee_os.Base.{ℕ, ◌^◌, ◌<◌, ◌≡◌, refl, arith}
use lychee_os.Kernel.{
  Descriptor, set_ldt_desc, set_tss_desc, get_seg_limit, get_seg_base, set_seg_base,
}

-- A base that is written into a descriptor is read back, and the limit and the attributes stay.
pub get_seg_base-set_seg_base :
    (sd : Descriptor) (base : ℕ)
    → base < 2 ^ 32
    → (get_seg_base (set_seg_base sd base) ≡ base)
      × (get_seg_limit (set_seg_base sd base) ≡ get_seg_limit sd)
      × ((set_seg_base sd base).attribute ≡ sd.attribute)
unfolding get_seg_base get_seg_limit set_seg_base
get_seg_base-set_seg_base sd base h = (omega arith, refl, refl)

-- The LDT and TSS descriptors that are built for a base and a 16-bit limit have that base and
-- that limit in bytes, and differ in their type alone.
pub system_descriptors :
    (limit base : ℕ)
    → limit < 2 ^ 16
    → base < 2 ^ 32
    → (get_seg_base (set_ldt_desc limit base) ≡ base)
      × (get_seg_limit (set_ldt_desc limit base) ≡ limit)
      × (set_tss_desc limit base ≡ record (set_ldt_desc limit base) { attribute = 0x89 })
unfolding get_seg_base get_seg_limit set_ldt_desc set_tss_desc
system_descriptors limit base hl hb = (omega arith, omega arith, refl)
