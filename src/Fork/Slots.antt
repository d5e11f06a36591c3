-- ===== src/Fork/Slots.antt =====
-- The search for a free entry of the process table.
use lychee_os.Base.{
  ℕ, zero, suc, ◌+◌, ◌-◌, ◌≤◌, ◌<◌, ◌≡◌, refl, sym, inl, inr, false, ◌==◌, ==_iff, Bool-cases,
  arith,
}
use mathlib.Core.Path.{subst}
use lychee_os.Process.{nr_process}
use lychee_os.Fork.{Tasks, first_free_process, get_free_process}

-- What an entry number is for the process table: the first free entry from 1 on, or 0 if there is none.
pub data IsFirstFree (process : ℕ → ℕ) (i : ℕ) : Type 0 where
  none_free :
      i ≡ 0 → ((j : ℕ) → 1 ≤ j → j < nr_process → (process j == 0) ≡ false) → IsFirstFree process i
  first_free :
      1 ≤ i
      → i < nr_process
      → process i ≡ 0
      → ((j : ℕ) → 1 ≤ j → j < i → (process j == 0) ≡ false)
      → IsFirstFree process i

first_free_process-IsFirstFree :
    (n i : ℕ) (process : ℕ → ℕ)
    → 1 ≤ i
    → i + n ≡ nr_process
    → ((j : ℕ) → 1 ≤ j → j < i → (process j == 0) ≡ false)
    → IsFirstFree process (first_free_process n i process)
unfolding first_free_process
first_free_process-IsFirstFree zero i process from end before =
    none_free refl (λ j ge lt. before j ge (omega arith))
first_free_process-IsFirstFree (suc n) i process from end before =
    elim (Bool-cases (process i == 0)) [
      | inl here ↦ rw here (first_free from (omega arith) ((==_iff (process i) 0).0 here) before)
      | inr busy ↦ rw busy (
          first_free_process-IsFirstFree n (i + 1) process (omega arith) (omega arith) (λ j ge lt.
            elim (Bool-cases (j == i)) [
              | inl same ↦ subst (λ k. (process k == 0) ≡ false) (sym ((==_iff j i).0 same)) busy
              | inr other ↦ before j ge (ground arith)
            ]))
    ]

-- `get_free_process` returns the first free entry of the process table behind entry 0, and 0 if there
-- is none.
pub get_free_process-IsFirstFree : (s : Tasks) → IsFirstFree s.process (get_free_process s)
unfolding get_free_process
get_free_process-IsFirstFree s =
    first_free_process-IsFirstFree (nr_process - 1) 1 s.process (omega arith) refl
      (λ j ge lt. absurd (omega arith))
