-- ===== src/Sched/Choice.antt =====
-- What `schedule` chooses.
use lychee_os.Base.{ℕ, suc, ◌+◌, ◌<◌, ◌≡◌, refl, Option, none, some, List, [], ◌∷◌, u32_mod, arith}
use lychee_os.Process.{Ptr, Memory}
use lychee_os.Sched.{scan_start, scan_one, scan, schedule}

-- `ticks` is an `unsigned int`.
abbrev pub IsU32 : Memory → Type 0
IsU32 mem = (p : Ptr) → (mem p).ticks < u32_mod

scan_one-start :
    (mem : Memory) (i : ℕ) (p : Ptr)
    → (mem p).ticks < u32_mod
    → scan_one mem i p scan_start ≡ scan_start
unfolding scan_one
scan_one-start mem i p h = ground arith

scan-start :
    (mem : Memory) (ps : List (Option Ptr)) (i : ℕ)
    → IsU32 mem
    → scan mem ps i scan_start ≡ scan_start
unfolding scan
scan-start mem [] i h = refl
scan-start mem (none ∷ ps) i h = scan-start mem ps (i + 1) h
scan-start mem (some p ∷ ps) i h = rw (scan_one-start mem i p (h p)) (scan-start mem ps (i + 1) h)

-- Whatever the processes are, `schedule` stops after its first search with `hit` uninitialised and
-- recharges nothing: `max` starts at -1, which is the greatest value in its unsigned comparison.
pub schedule_uninitialised :
    (fuel : ℕ) (mem : Memory) (ps : List (Option Ptr))
    → IsU32 mem
    → schedule (suc fuel) mem ps ≡ some (none, mem)
unfolding schedule
schedule_uninitialised fuel mem ps h = rw (scan-start mem ps 0 h)
