-- ===== src/Hd/Install.antt =====
-- The rest of kernel/blk/hd.c: the wait for a state, the interrupt after a reset, and the end of
-- `hd_init`.
use Prim.Native.Nat.{bit_and}
use lychee_os.Base.{ℕ, Bool, true, Option, none, some, ◌==◌, if◌then◌else◌}
use lychee_os.Interrupts.{Controllers, irq_hd, irq_cascade, irq_of, set_irq_handler, enable_irq}
use lychee_os.Hd.{Hd, Ended, returned, and_then, poll, is_hd_error, major_hd}
use lychee_os.Hd.Requests.{failed_rw, do_hd_request}

unfoldable pub waitfor_hd : (state : ℕ) → Hd → ℕ × Hd
waitfor_hd state s = poll (λ byte. bit_and byte state == state) 9999 s

unfoldable pub int_reset : Hd → Ended
int_reset s =
    let (failed, s') = is_hd_error s in
    and_then (if failed then failed_rw s' else returned s') do_hd_request

-- The entries of `blk_dev` that have a function for requests, and the interrupt lines. `none` is the write
-- of the handler behind its table.
unfoldable pub hd_install :
    (handler : ℕ) → (ℕ → Bool) × Controllers → Option ((ℕ → Bool) × Controllers)
hd_install handler (has_fn, c) = elim (set_irq_handler (irq_of irq_hd) handler c) [
  | none ↦ none
  | some c' ↦ some (
    λ major. if major == major_hd then true else has_fn major,
    enable_irq (irq_of irq_hd) (enable_irq (irq_of irq_cascade) c'),
  )
]
