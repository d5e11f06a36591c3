-- ===== src/Vsprintf/Digits.antt =====
-- The digits that `number` writes.
use lychee_os.Base.{
  ℕ, zero, suc, ◌+◌, ◌*◌, ◌/◌, ◌%◌, ◌≤◌, ◌<◌, ◌≡◌, refl, sym, some, List, [], ◌∷◌, arith,
}
use native.Mathlib.Nat.{div-add-mod', div-lt_self, zero-div}
use lychee_os.Vsprintf.{digit_loop, do_div}

-- The value of digits whose last one is the highest.
unfoldable pub value : ℕ → List ℕ → ℕ
value base [] = 0
value base (d ∷ ds) = d + value base ds * base

digit_loop-step :
    (fuel base n : ℕ) (ds : List ℕ)
    → digit_loop fuel base (suc n / base) ≡ some ds
    → digit_loop (suc fuel) base (suc n) ≡ some ((suc n / base % base) ∷ ds)
unfolding digit_loop do_div
digit_loop-step fuel base n ds e = rw (e, digit_loop) refl

-- The numeral has the value of the number divided by the base: for a base of 2 or more, with as much
-- fuel as the number, the loop ends, and the last digit of the number is lost.
pub digit_loop-value :
    (fuel base n : ℕ)
    → 2 ≤ base
    → n ≤ fuel
    → (ds : List ℕ) × (digit_loop fuel base n ≡ some ds) × (value base ds ≡ n / base)
unfolding digit_loop value
digit_loop-value fuel base zero two enough = ([], refl, sym (zero-div base))
digit_loop-value zero base (suc n) two enough = absurd (omega arith)
digit_loop-value (suc fuel) base (suc n) two enough =
    let smaller : suc n / base < suc n = div-lt_self (omega arith) two in
    let (ds, e, v) = digit_loop-value fuel base (suc n / base) two (omega (arith, smaller)) in
    (
      (suc n / base % base) ∷ ds,
      digit_loop-step fuel base n ds e,
      rw v (omega (arith, div-add-mod' (suc n / base) base)),
    )
