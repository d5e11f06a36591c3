-- ===== src/Sched/Timer.antt =====
-- The time slice of a process.
use lychee_os.Base.{
  ℕ, ◌+◌, ◌-◌, ◌<◌, ◌≡◌, Bool, true, false, List, [], ◌∷◌, length, ◌==◌, if◌then◌else◌, u32_mod,
  add32, arith,
}
use lychee_os.Process.{Process}
use lychee_os.Sched.{timer_tick}
use mathlib.Core.Bool.{◌||◌}

-- A series of timer interrupts at the privilege levels `cpls`: the process, and whether one of
-- them called `schedule`.
unfoldable pub timer_ticks : List ℕ → Process → Process × Bool
timer_ticks [] proc = (proc, false)
timer_ticks (cpl ∷ cpls) proc =
    let (proc', expired) = timer_tick cpl proc in
    let (proc'', later) = timer_ticks cpls proc' in (proc'', expired || later)

abbrev pub in_kernel : List ℕ → ℕ
in_kernel [] = 0
in_kernel (cpl ∷ cpls) = (if cpl == 0 then 1 else 0) + in_kernel cpls

abbrev pub in_user : List ℕ → ℕ
in_user [] = 0
in_user (cpl ∷ cpls) = (if cpl == 0 then 0 else 1) + in_user cpls

timer_tick_lem :
    (cpl : ℕ) (proc : Process)
    → 1 < proc.ticks
    → proc.ticks < u32_mod
    → (timer_tick cpl proc ≡ (
      record proc {
        ticks = proc.ticks - 1;
        kernel_time = (if cpl == 0 then add32 proc.kernel_time 1 else proc.kernel_time);
        user_time = (if cpl == 0 then proc.user_time else add32 proc.user_time 1);
      },
      false,
    ))
unfolding timer_tick
timer_tick_lem cpl proc h small = ground arith

pub record IsTimed (proc : Process) : Type 0 where
  pub ticks : proc.ticks < u32_mod
  pub kernel_time : proc.kernel_time < u32_mod
  pub user_time : proc.user_time < u32_mod

-- While the interrupts are fewer than the ticks of the process, none calls `schedule`; the ticks
-- fall by one each, and each adds one, modulo 2^32, to the time of the level that it interrupts.
pub timer_ticks_lem :
    (cpls : List ℕ) (proc : Process)
    → IsTimed proc
    → length cpls < proc.ticks
    → ((timer_ticks cpls proc).1 ≡ false)
      × ((timer_ticks cpls proc).0 ≡ record proc {
        ticks = proc.ticks - length cpls;
        kernel_time = add32 proc.kernel_time (in_kernel cpls);
        user_time = add32 proc.user_time (in_user cpls);
      })
unfolding timer_ticks
timer_ticks_lem [] proc t h = ground arith
timer_ticks_lem (cpl ∷ cpls) proc t h =
    let step = timer_tick_lem cpl proc (omega arith) t.ticks in
    let after : Process = record proc {
      ticks = proc.ticks - 1;
      kernel_time = (if cpl == 0 then add32 proc.kernel_time 1 else proc.kernel_time);
      user_time = (if cpl == 0 then proc.user_time else add32 proc.user_time 1);
    } in
    let timed : IsTimed after = ground arith in
    let rest = timer_ticks_lem cpls after timed (omega arith) in rw step (ground (arith, rest))

-- The interrupt that takes the last tick calls `schedule` and leaves no ticks. A process that is
-- interrupted with no ticks left goes on, with 2^32 - 1 of them.
pub timer_tick_ends :
    (cpl : ℕ) (proc : Process)
    → (proc.ticks ≡ 1 → ((timer_tick cpl proc).1 ≡ true) × ((timer_tick cpl proc).0.ticks ≡ 0))
      × (proc.ticks ≡ 0
          → ((timer_tick cpl proc).1 ≡ false) × ((timer_tick cpl proc).0.ticks ≡ u32_mod - 1))
unfolding timer_tick
timer_tick_ends cpl proc = ground arith
