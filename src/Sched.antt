-- ===== src/Sched.antt =====
-- kernel/sched.c: the scheduler, the wait chains and the timer interrupt.
pub mod Choice
pub mod Timer
pub mod Waiting
pub mod Interruptible
mod Tests
use lychee_os.Base.{
  ℕ, zero, suc, ◌+◌, ◌-◌, ◌/◌, ◌%◌, ◌^◌, Bool, true, false, Option, none, some, List, [], ◌∷◌, ◌&&◌,
  ltb, ◌==◌, if◌then◌else◌, u32_mod, add32, sub32,
}
use lychee_os.Process.{
  Process, Ptr, Memory, update, running, wait_interruptible, wait_uninterruptible,
}

-- The array `process` of pointers, the structures behind them, and `current`.
pub record Sched : Type 0 where
  pub process : List (Option Ptr)
  pub mem : Memory
  pub current : Ptr

-- The locals `max`, as the 32-bit pattern that an `int` has in a comparison with an `unsigned`,
-- and `hit`, `none` while it is not initialised.
pub record Scan : Type 0 where
  pub max : ℕ
  pub hit : Option ℕ

-- `max = -1`
abbrev pub scan_start : Scan
scan_start = record { max = u32_mod - 1; hit = none }

unfoldable pub scan_one : Memory → ℕ → Ptr → Scan → Scan
scan_one mem i p s =
    if ((mem p).state == running) && ltb s.max (mem p).ticks
    then record { max = (mem p).ticks; hit = some i }
    else s

-- The first `for` of `schedule`, from index `i` on.
unfoldable pub scan : Memory → List (Option Ptr) → ℕ → Scan → Scan
unfolding scan_one
scan mem [] i s = s
scan mem (none ∷ ps) i s = scan mem ps (i + 1) s
scan mem (some p ∷ ps) i s = scan mem ps (i + 1) (scan_one mem i p s)

-- `ticks >> 1 + priority` shifts by the sum; the processor takes the shift modulo 32.
unfoldable pub recharge_one : Process → Process
recharge_one proc = record proc { ticks = proc.ticks / 2 ^ ((1 + proc.priority) % 32) }

-- The second `for` of `schedule`.
unfoldable pub recharge : Memory → List (Option Ptr) → Memory
unfolding recharge_one
recharge mem [] = mem
recharge mem (none ∷ ps) = recharge mem ps
recharge mem (some p ∷ ps) = recharge (update mem p (recharge_one (mem p))) ps

-- `schedule` up to `switch_to(hit)`: what `hit` holds, and the structures. `none` outside is a
-- loop that runs out of fuel.
unfoldable pub schedule : ℕ → Memory → List (Option Ptr) → Option (Option ℕ × Memory)
unfolding scan recharge
schedule zero mem ps = none
schedule (suc fuel) mem ps =
    let s = scan mem ps 0 scan_start in
    let again = schedule fuel (recharge mem ps) ps in
    if s.max == 0 then again else some (s.hit, mem)

-- `irq_timer_handler` up to its call of `schedule`: the process that was interrupted, and whether
-- `schedule` is called.
unfoldable pub timer_tick : ℕ → Process → Process × Bool
timer_tick cpl proc =
    let timed =
      if cpl == 0
      then record proc { kernel_time = add32 proc.kernel_time 1 }
      else record proc { user_time = add32 proc.user_time 1 } in
    let left = sub32 timed.ticks 1 in
    if ltb 0 left
    then (record timed { ticks = left }, false)
    else (record timed { ticks = 0 }, true)

-- What a handler leaves: the process that was interrupted goes on, or `schedule` has chosen.
pub data Outcome : Type 0 where
  resumed : Sched → Outcome
  switched : Option ℕ → Sched → Outcome
  looping : Outcome

unfoldable pub switch : Sched → Option (Option ℕ × Memory) → Outcome
switch s none = looping
switch s (some (hit, mem)) = switched hit (record s { mem = mem })

unfoldable pub irq_timer_handler : ℕ → ℕ → Sched → Outcome
unfolding switch
irq_timer_handler fuel cpl s =
    let (proc, expired) = timer_tick cpl (s.mem s.current) in
    let mem = update s.mem s.current proc in
    if expired
    then switch (record s { mem = mem }) (schedule fuel mem s.process)
    else resumed (record s { mem = mem })

unfoldable pub sys_getpid : Sched → ℕ
sys_getpid s = (s.mem s.current).pid

-- The state is set to running, not to an interruptible wait.
unfoldable pub sys_pause : ℕ → Sched → Outcome
unfolding switch
sys_pause fuel s =
    let mem = update s.mem s.current (record (s.mem s.current) { state = running }) in
    switch (record s { mem = mem }) (schedule fuel mem s.process)

-- A wait chain: its head pointer and the structures.
pub record Chain : Type 0 where
  pub head : Option Ptr
  pub mem : Memory

abbrev pub set_state : Memory → Ptr → ℕ → Memory
set_state mem p state = update mem p (record (mem p) { state = state })

-- `sleep_on` up to its call of `schedule`, and the local `tmp` that waits on the stack.
unfoldable pub sleep_enter : Ptr → Chain → Option Ptr × Chain
sleep_enter current c =
    (c.head, record { head = some current; mem = set_state c.mem current wait_uninterruptible })

-- Wakes a process, if there is one: `wake_up`, and the end of `sleep_on`.
unfoldable pub wake_up : Option Ptr → Memory → Memory
wake_up none mem = mem
wake_up (some p) mem = set_state mem p running

-- `sleep_on` after `schedule` has returned.
unfoldable pub sleep_leave : Option Ptr → Chain → Chain
unfolding wake_up
sleep_leave tmp c = record { head = tmp; mem = wake_up tmp c.mem }

-- The end of `interruptible_sleep_on`: it returns, its loop runs out of fuel, or it goes through NULL.
pub data Slept : Type 0 where
  left : Chain → Slept
  asleep : Slept
  goes_astray : Slept

abbrev pub is_head : (current : Ptr) → Option Ptr → Bool
is_head current none = false
is_head current (some p) = p == current

abbrev pub sleeping : (current : Ptr) → Chain → Chain
sleeping current c = record c { mem = set_state c.mem current wait_interruptible }

-- The process whose state is set behind the test of the head.
unfoldable pub wake_head : Chain → Option Chain
wake_head c = elim (c.head) [
  | none ↦ none
  | some q ↦ some (record c { mem = set_state c.mem q running })
]

module _ (others : Chain → Chain) (current : Ptr) where
  -- The loop, on fuel; `others` is what happens in the call of `schedule`.
  unfoldable pub sleep_rounds : (fuel : ℕ) → (tmp : Option Ptr) → Chain → Slept
  sleep_rounds zero tmp c = asleep
  sleep_rounds (suc fuel) tmp c =
      let c' = others (sleeping current c) in
      let again : Slept = elim (wake_head c') [
        | none ↦ goes_astray
        | some d ↦ sleep_rounds fuel tmp d
      ] in
      if is_head current c'.head then left (sleep_leave tmp c') else again

  unfoldable pub interruptible_sleep_on : (fuel : ℕ) → Chain → Slept
  interruptible_sleep_on fuel c = sleep_rounds fuel c.head (record c { head = some current })
