-- ===== src/Sched/Interruptible.antt =====
-- How a process comes out of `interruptible_sleep_on`.
use lychee_os.Base.{ℕ, zero, suc, ◌<◌, ◌≡◌, ◌≢◌, refl, true, false, Option, none, some, arith}
use lychee_os.Process.{Ptr, running}
use lychee_os.Sched.{
  Chain, Slept, left, goes_astray, is_head, sleeping, wake_head, sleep_leave, set_state,
  sleep_rounds, interruptible_sleep_on,
}

-- The rounds of a process that sleeps in the chain `c`: in `n` of them another process heads the chain
-- and is set running; in the last one the process itself does, in the chain that is given, or the chain
-- is empty.
pub data Rounds (others : Chain → Chain) (current : Ptr) : ℕ → Chain → Option Chain → Type 0 where
  own :
      {c : Chain}
      → (others (sleeping current c)).head ≡ some current
      → Rounds others current 0 c (some (others (sleeping current c)))
  gone : {c : Chain} → (others (sleeping current c)).head ≡ none → Rounds others current 0 c none
  other :
      {n : ℕ} {c : Chain} {d : Option Chain} {q : Ptr}
      → (others (sleeping current c)).head ≡ some q
      → q ≢ current
      → Rounds others current n
          (record (others (sleeping current c)) {
            mem = set_state (others (sleeping current c)).mem q running;
          })
          d
      → Rounds others current (suc n) c d

-- What the last round leads to: the end of `sleep_on`, or a way through NULL.
abbrev pub woken : (tmp : Option Ptr) → Option Chain → Slept
woken tmp none = goes_astray
woken tmp (some d) = left (sleep_leave tmp d)

sleep_rounds-Rounds :
    (others : Chain → Chain) (current : Ptr) (n fuel : ℕ) (tmp : Option Ptr) (c : Chain)
    (d : Option Chain)
    → Rounds others current n c d
    → n < fuel
    → sleep_rounds others current fuel tmp c ≡ woken tmp d
unfolding sleep_rounds wake_head
sleep_rounds-Rounds others current n zero tmp c d rounds enough = absurd (omega arith)
sleep_rounds-Rounds others current zero (suc fuel) tmp c d (own mine) enough =
    let here : is_head current (others (sleeping current c)).head ≡ true = rw mine (ground arith) in
    rw here refl
sleep_rounds-Rounds others current zero (suc fuel) tmp c d (gone empty) enough = rw empty refl
sleep_rounds-Rounds others current (suc n) (suc fuel) tmp c d (other {q = q} theirs apart rest)
      enough =
    let there : is_head current (others (sleeping current c)).head ≡ false =
      rw theirs (ground arith) in
    rw (there, wake_head, theirs)
      (sleep_rounds-Rounds others current n fuel tmp _ d rest (omega arith))

-- A process sleeps in `interruptible_sleep_on`, and in `n` rounds, which are fewer than the fuel, another
-- process heads the chain. If then the process heads it itself, it leaves as out of `sleep_on`: the next
-- sleeper heads the chain and runs. If the chain is empty then, the function goes through NULL.
pub interruptible_sleep_on-woken :
    (others : Chain → Chain) (current : Ptr) (n fuel : ℕ) (c : Chain) (d : Option Chain)
    → Rounds others current n (record c { head = some current }) d
    → n < fuel
    → interruptible_sleep_on others current fuel c ≡ woken c.head d
unfolding interruptible_sleep_on
interruptible_sleep_on-woken others current n fuel c d rounds enough =
    sleep_rounds-Rounds others current n fuel c.head (record c { head = some current }) d rounds
      enough
