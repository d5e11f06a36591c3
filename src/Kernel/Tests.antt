-- ===== src/Kernel/Tests.antt =====
-- A descriptor at concrete values.
use lychee_os.Base.{◌≡◌, refl}
use lychee_os.Kernel.{Descriptor, get_seg_limit}

-- The code segment of process 0: 640 KB from 0.
abbrev task_code : Descriptor
task_code = record {
  limit0_15 = 0xA0;
  base0_15 = 0;
  base16_23 = 0;
  attribute = 0x0A;
  segattr = 0xC0;
  base24_31 = 0;
}

task_code_limit : get_seg_limit task_code ≡ 655360
unfolding get_seg_limit
task_code_limit = refl
