-- ===== src/Vsprintf/Tests.antt =====
-- Runs of the conversion of numbers.
use lychee_os.Base.{ℕ, ◌≡◌, refl, false, some, List, [], ◌∷◌}
use lychee_os.Vsprintf.{atoi, atoi_from, digit_loop, do_div, layout, reverse_onto, number}

-- 123 in base 10 is printed as 0x012.
prints_012 : number 123 false 123 10 0 0 0 ≡ some (48 ∷ 120 ∷ 48 ∷ 49 ∷ 50 ∷ [])
unfolding number digit_loop do_div layout reverse_onto
prints_012 = refl

reads_42 : ◌≡◌ {A = ℕ × List ℕ} (atoi (52 ∷ 50 ∷ 120 ∷ [])) (42, 120 ∷ [])
unfolding atoi atoi_from
reads_42 = refl
