-- ===== src/Sched/Waiting.antt =====
-- The chain of processes that `sleep_on` forms, and how it is woken.
use lychee_os.Base.{
  ℕ, ◌≡◌, refl, ap, ◌∙◌, Bool, false, Option, none, some, List, [], ◌∷◌, ◌||◌, ◌==◌, if◌then◌else◌,
  arith,
}
use lychee_os.Process.{Process, Ptr, Memory, running, wait_uninterruptible}
use lychee_os.Sched.{Chain, set_state, sleep_enter, sleep_leave, wake_up}

-- The processes `ps` call `sleep_on`, one after the other; their locals `tmp`, the last one first.
unfoldable pub enter_all : List Ptr → Chain → List (Option Ptr) → List (Option Ptr) × Chain
enter_all [] c tmps = (tmps, c)
enter_all (p ∷ ps) c tmps = let (tmp, c') = sleep_enter p c in enter_all ps c' (tmp ∷ tmps)

-- The sleepers go on, the last one first.
unfoldable pub leave_all : List (Option Ptr) → Chain → Chain
leave_all [] c = c
leave_all (tmp ∷ tmps) c = leave_all tmps (sleep_leave tmp c)

abbrev pub has : Ptr → List Ptr → Bool
has q [] = false
has q (p ∷ ps) = (q == p) || has q ps

abbrev holds : Ptr → List (Option Ptr) → Bool
holds q [] = false
holds q (none ∷ os) = holds q os
holds q (some p ∷ os) = (q == p) || holds q os

abbrev with_state : Process → ℕ → Process
with_state proc state = record proc { state = state }

wake_all : List (Option Ptr) → Memory → Memory
wake_all [] mem = mem
wake_all (o ∷ os) mem = wake_all os (wake_up o mem)

wake_all-holds :
    (os : List (Option Ptr)) (mem : Memory) (q : Ptr)
    → wake_all os mem q ≡ (if holds q os then with_state (mem q) running else mem q)
unfolding wake_all wake_up
wake_all-holds [] mem q = refl
wake_all-holds (none ∷ os) mem q = wake_all-holds os mem q
wake_all-holds (some p ∷ os) mem q = wake_all-holds os (set_state mem p running) q ∙ ground arith

enter_all-mem :
    (ps : List Ptr) (c : Chain) (tmps : List (Option Ptr)) (q : Ptr)
    → (enter_all ps c tmps).1.mem q
      ≡ (if has q ps then with_state (c.mem q) wait_uninterruptible else c.mem q)
unfolding enter_all sleep_enter
enter_all-mem [] c tmps q = refl
enter_all-mem (p ∷ ps) c tmps q =
    enter_all-mem ps (sleep_enter p c).1 (c.head ∷ tmps) q ∙ ground arith

-- The stack of the chain: its head over the locals.
abbrev stack : List (Option Ptr) × Chain → List (Option Ptr)
stack (tmps, c) = c.head ∷ tmps

stack-enter_all :
    (ps : List Ptr) (c : Chain) (tmps : List (Option Ptr)) (q : Ptr)
    → holds q (stack (enter_all ps c tmps)) ≡ (has q ps || holds q (c.head ∷ tmps))
unfolding enter_all sleep_enter
stack-enter_all [] c tmps q = refl
stack-enter_all (p ∷ ps) c tmps q =
    stack-enter_all ps (sleep_enter p c).1 (c.head ∷ tmps) q ∙ ground arith

abbrev bottom : Option Ptr → List (Option Ptr) → Option Ptr
bottom o [] = o
bottom o (tmp ∷ tmps) = bottom tmp tmps

bottom-enter_all :
    (ps : List Ptr) (c : Chain) (tmps : List (Option Ptr))
    → bottom (enter_all ps c tmps).1.head (enter_all ps c tmps).0 ≡ bottom c.head tmps
unfolding enter_all sleep_enter
bottom-enter_all [] c tmps = refl
bottom-enter_all (p ∷ ps) c tmps = bottom-enter_all ps (sleep_enter p c).1 (c.head ∷ tmps)

leave_all-mem :
    (tmps : List (Option Ptr)) (c : Chain) → (leave_all tmps c).mem ≡ wake_all tmps c.mem
unfolding leave_all sleep_leave wake_all
leave_all-mem [] c = refl
leave_all-mem (tmp ∷ tmps) c = leave_all-mem tmps (sleep_leave tmp c)

leave_all-head :
    (tmps : List (Option Ptr)) (c : Chain) → (leave_all tmps c).head ≡ bottom c.head tmps
unfolding leave_all sleep_leave
leave_all-head [] c = refl
leave_all-head (tmp ∷ tmps) c = leave_all-head tmps (sleep_leave tmp c)

-- Processes that sleep on an empty chain all wait. Once `wake_up` is called on the head, and the
-- sleepers go on in turn, all of them run, the chain is empty, and no other process is touched.
pub wake_cascade :
    (ps : List Ptr) (mem : Memory)
    → let (tmps, c) = enter_all ps (record { head = none; mem = mem }) [] in
      let woken = leave_all tmps (record c { mem = wake_up c.head c.mem }) in
      ((q : Ptr) → c.mem q ≡ (if has q ps then with_state (mem q) wait_uninterruptible else mem q))
      × (woken.head ≡ none)
      × ((q : Ptr) → woken.mem q ≡ (if has q ps then with_state (mem q) running else mem q))
unfolding wake_all
wake_cascade ps mem =
    let c₀ : Chain = record { head = none; mem = mem } in
    let tmps = (enter_all ps c₀ []).0 in
    let c = (enter_all ps c₀ []).1 in
    let woken : Chain = record c { mem = wake_up c.head c.mem } in
    (
      enter_all-mem ps c₀ [],
      leave_all-head tmps woken ∙ bottom-enter_all ps c₀ [],
      λ q.
          ap (λ (m : Memory). m q) (leave_all-mem tmps woken)
          ∙ wake_all-holds (c.head ∷ tmps) c.mem q
          ∙ ground (arith, stack-enter_all ps c₀ [] q, enter_all-mem ps c₀ [] q),
    )
