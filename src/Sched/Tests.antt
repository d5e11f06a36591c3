-- ===== src/Sched/Tests.antt =====
-- The scheduler at concrete processes.
use lychee_os.Base.{ℕ, ◌≡◌, refl, ◌==◌, some, none, [], ◌∷◌, if◌then◌else◌, arith}
use lychee_os.Process.{Process, Ptr, Memory, running, wait_uninterruptible}
use lychee_os.Sched.{
  Chain, schedule, wake_up, left, sleep_leave, set_state, sleeping, interruptible_sleep_on,
}
use lychee_os.Sched.Interruptible.{own, other, interruptible_sleep_on-woken}
use lychee_os.Sched.Choice.{IsU32, schedule_uninitialised}
use lychee_os.Sched.Waiting.{enter_all, leave_all, has, wake_cascade}

abbrev task : ℕ → Process
task ticks = record {
  state = running;
  ticks = ticks;
  priority = 15;
  exit_code = 0;
  pid = 0;
  ppid = 0;
  user_time = 0;
  kernel_time = 0;
  create_time = 0;
  exit_time = 0;
  pwd = none;
  root = none;
  image = none;
  files = [];
}

abbrev tasks : Memory
tasks p = task 15

tasks-IsU32 : IsU32 tasks
tasks-IsU32 p = omega arith

schedule_uninitialised_example : schedule 1 tasks (some 0 ∷ some 1 ∷ none ∷ []) ≡ some (none, tasks)
schedule_uninitialised_example =
    schedule_uninitialised 0 tasks (some 0 ∷ some 1 ∷ none ∷ []) tasks-IsU32

wake_cascade_example :
    let (tmps, c) = enter_all (1 ∷ 2 ∷ []) (record { head = none; mem = tasks }) [] in
    let woken = leave_all tmps (record c { mem = wake_up c.head c.mem }) in
    ((q : Ptr)
      → c.mem q ≡ (
          if has q (1 ∷ 2 ∷ [])
          then record (task 15) { state = wait_uninterruptible }
          else task 15))
    × (woken.head ≡ none)
    × ((q : Ptr)
        → woken.mem q
          ≡ (if has q (1 ∷ 2 ∷ []) then record (task 15) { state = running } else task 15))
wake_cascade_example = wake_cascade (1 ∷ 2 ∷ []) tasks

-- While process 1 sleeps, process 2 sleeps behind it and is woken; then process 1 heads the chain.
abbrev one_behind : Chain → Chain
one_behind c =
    if (c.mem 2).ticks == 15
    then record { head = some 2; mem = λ p. task 14 }
    else record c { head = some 1 }

leaves_after_other :
    interruptible_sleep_on one_behind 1 5 (record { head = some 3; mem = tasks })
    ≡ left (
        sleep_leave (some 3) (
          one_behind
            (sleeping 1 (record { head = some 2; mem = set_state (λ p. task 14) 2 running }))))
leaves_after_other =
    interruptible_sleep_on-woken one_behind 1 1 5 (record { head = some 3; mem = tasks })
      (some (
        one_behind
          (sleeping 1 (record { head = some 2; mem = set_state (λ p. task 14) 2 running }))))
      (other refl (λ e. absurd (omega arith)) (own refl)) (omega arith)
