-- ===== src/Kmain/Drivers.antt =====
-- What `kmain` starts besides memory and process 0: the timer, the requests of the block devices and
-- the interrupt lines of the drivers.
use lychee_os.Base.{ℕ, zero, suc, ◌+◌, ◌/◌, ◌%◌, ◌^◌, Option, none, some, ltb, if◌then◌else◌}
use lychee_os.Blk.{Io, put_request, nr_request}
use lychee_os.Interrupts.{Controllers, out_byte, irq_keyboard, irq_of, set_irq_handler, enable_irq}

abbrev pub timer_frequency : ℕ
timer_frequency = 1193182

abbrev pub hz : ℕ
hz = 100

abbrev pub timer_ctl_reg : ℕ
timer_ctl_reg = 0x43

abbrev pub timer_counter0 : ℕ
timer_counter0 = 0x41

abbrev pub timer_rate_generator : ℕ
timer_rate_generator = 0x34

-- `out_byte` takes the value first, and `timer_init` gives the port first.
unfoldable pub timer_init : Controllers → Controllers
timer_init c = out_byte timer_counter0 (timer_frequency / hz / 2 ^ 8 % 2 ^ 8) (
    out_byte timer_counter0 (timer_frequency / hz % 2 ^ 8)
      (out_byte timer_ctl_reg timer_rate_generator c))

-- The loop of `blk_dev_init` with `n` rounds left; it also sets the request behind the table.
unfoldable pub free_requests : (n i : ℕ) → Io → Io
free_requests zero i io = io
free_requests (suc n) i io =
    free_requests n (i + 1)
      (record io { request = put_request io.request i (record (io.request i) { dev = none }) })

unfoldable pub blk_dev_init : Io → Io
blk_dev_init io = free_requests (nr_request + 1) 0 io

-- The end of `init_keyboard`.
unfoldable pub keyboard_install : (handler : ℕ) → Controllers → Option Controllers
keyboard_install handler c = elim (set_irq_handler (irq_of irq_keyboard) handler c) [
  | none ↦ none
  | some c' ↦ some (enable_irq (irq_of irq_keyboard) c')
]

-- `read_cmos` of oslib/clib.c; an unsigned byte is not below 0, and -1 is 255.
unfoldable pub read_cmos : (addr : ℕ) → Controllers → ℕ × Controllers
read_cmos addr c =
    if ltb 127 addr then (255, c) else (let c' = out_byte addr 0x70 c in (c'.in_byte 0x71, c'))
