-- ===== src/Base/Tabulate.antt =====
-- The list of the first values of a function.
use Prim.Native.Nat.{ℕ, zero, suc, ◌<◌}
use mathlib.Core.Path.{◌≡◌, refl, ap, ap₂}
use mathlib.Core.List.{List, [], ◌∷◌, ◌++◌}
use native.Mathlib.Omega.{arith}
use lychee_os.Base.Lists.{length}

module _ {ℓ} {A : Type ℓ} where
  abbrev pub tabulate : ℕ → (ℕ → A) → List A
  tabulate zero f = []
  tabulate (suc n) f = f 0 ∷ tabulate n (λ j. f (suc j))

  pub length-tabulate : (n : ℕ) (f : ℕ → A) → length (tabulate n f) ≡ n
  length-tabulate zero f = refl
  length-tabulate (suc n) f = ap suc (length-tabulate n (λ j. f (suc j)))

  pub tabulate_congr :
      (n : ℕ) (f g : ℕ → A) → ((j : ℕ) → j < n → f j ≡ g j) → tabulate n f ≡ tabulate n g
  tabulate_congr zero f g h = refl
  tabulate_congr (suc n) f g h =
      ap₂ ◌∷◌ (h 0 (omega arith))
        (tabulate_congr n (λ j. f (suc j)) (λ j. g (suc j)) (λ j lt. h (suc j) (omega arith)))

  pub tabulate_last : (n : ℕ) (f : ℕ → A) → tabulate (suc n) f ≡ tabulate n f ++ (f n ∷ [])
  tabulate_last zero f = refl
  tabulate_last (suc n) f = ap (λ t. f 0 ∷ t) (tabulate_last n (λ j. f (suc j)))
