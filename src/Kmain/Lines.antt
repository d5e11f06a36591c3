-- ===== src/Kmain/Lines.antt =====
-- What the start of the drivers leaves.
use lychee_os.Base.{
  ℕ, zero, suc, ◌+◌, ◌≡◌, refl, ap, ◌∙◌, true, false, Bool, none, some, ◌&&◌, ltb, leb,
  if◌then◌else◌, arith,
}
use lychee_os.Buffer.{dev_eq}
use lychee_os.Blk.{Request, Io, put_request, nr_request, free_request, wait_request}
use lychee_os.Mm.{Memory}
use lychee_os.Interrupts.{Controllers, irq_of, set_irq_handler}
use lychee_os.Hd.Install.{hd_install}
use lychee_os.Kmain.FirstProcess.{sched_init}
use lychee_os.Kmain.Drivers.{free_requests, blk_dev_init, keyboard_install}

-- No driver's interrupt handler is installed: the numbers of the lines start at 32, so that `sched_init`,
-- the end of `hd_init` and the end of `init_keyboard` all write behind the table of handlers.
pub sched_init_unhandled :
    (proc now tty pgdir clock_handler hd_handler keyboard_handler : ℕ) (m : Memory)
    (has_fn : ℕ → Bool) (c : Controllers)
    → (sched_init proc now tty pgdir clock_handler (m, c) ≡ none)
      × (hd_install hd_handler (has_fn, c) ≡ none)
      × (keyboard_install keyboard_handler c ≡ none)
unfolding sched_init hd_install keyboard_install set_irq_handler irq_of
sched_init_unhandled proc now tty pgdir clock_handler hd_handler keyboard_handler m has_fn c =
    (refl, refl, refl)

-- A request that is marked as free.
abbrev pub freed : Request → Request
freed r = record r { dev = none }

free_requests-freed :
    (n i j : ℕ) (io : Io)
    → (free_requests n i io).request j
      ≡ (if leb i j && ltb j (i + n) then freed (io.request j) else io.request j)
unfolding free_requests
free_requests-freed zero i j io =
    let no : (leb i j && ltb j (i + 0)) ≡ false = ground arith in rw no refl
free_requests-freed (suc n) i j io =
    free_requests-freed n (i + 1) j
      (record io { request = put_request io.request i (freed (io.request i)) })
    ∙ ground arith

free_requests-buffers :
    (n i : ℕ) (io : Io)
    → ((free_requests n i io).buffers ≡ io.buffers) × ((free_requests n i io).current ≡ io.current)
unfolding free_requests
free_requests-buffers zero i io = (refl, refl)
free_requests-buffers (suc n) i io =
    free_requests-buffers n (i + 1)
      (record io { request = put_request io.request i (freed (io.request i)) })

free_request-first :
    (t : ℕ → Request) (n i : ℕ) → (t i).dev ≡ none → free_request t (suc n) i ≡ some i
unfolding free_request dev_eq
free_request-first t n i free =
    let marked : dev_eq (t i).dev none ≡ true = rw free refl in rw marked refl

wait_request-first :
    (others : Io → Io) (has_fn : ℕ → Bool) (do_request_fn : ℕ → Io → Io) (fuel : ℕ) (io : Io)
    → (io.request 0).dev ≡ none
    → wait_request others has_fn do_request_fn (suc fuel) io ≡ some (0, io)
unfolding wait_request
wait_request-first others has_fn do_request_fn fuel io free =
    rw (free_request-first io.request 31 0 free, wait_request) refl

-- `blk_dev_init` marks every request of the table as free, and also the one behind it, and changes
-- nothing else of the requests, the buffers and the queues; after it, `rw_blk` need not wait for a request: with
-- fuel for one round it takes the first one.
pub blk_dev_init-wait_request :
    (others : Io → Io) (has_fn : ℕ → Bool) (do_request_fn : ℕ → Io → Io) (fuel : ℕ) (io : Io)
    → ((j : ℕ)
        → (blk_dev_init io).request j
          ≡ (if leb j nr_request then freed (io.request j) else io.request j))
      × ((blk_dev_init io).buffers ≡ io.buffers)
      × ((blk_dev_init io).current ≡ io.current)
      × (wait_request others has_fn do_request_fn (suc fuel) (blk_dev_init io)
          ≡ some (0, blk_dev_init io))
unfolding blk_dev_init
blk_dev_init-wait_request others has_fn do_request_fn fuel io = (
  λ j. free_requests-freed (nr_request + 1) 0 j io ∙ ground arith,
  (free_requests-buffers (nr_request + 1) 0 io).0,
  (free_requests-buffers (nr_request + 1) 0 io).1,
  wait_request-first others has_fn do_request_fn fuel (free_requests (nr_request + 1) 0 io)
      (ap (λ (r : Request). r.dev) (free_requests-freed (nr_request + 1) 0 0 io)),
)
