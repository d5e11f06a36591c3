-- ===== src/Vsprintf/Format.antt =====
-- The loops of `vsprintf` of kernel/vsprintf.c over the format.
use lychee_os.Base.{
  ℕ, zero, suc, ◌+◌, ◌/◌, ◌%◌, ◌<◌, ◌≡◌, ◌≢◌, refl, ap, ◌∙◌, false, Option, none, some, List, [],
  ◌∷◌, not, ◌==◌, if◌then◌else◌, length, arith,
}

-- `flags |= bit`
abbrev set_flag : (bit flags : ℕ) → ℕ
set_flag bit flags = if flags / bit % 2 == 1 then flags else flags + bit

-- The `switch` over a flag character: LEFT, PLUS, SPACE and ZEROPAD.
unfoldable pub read_flag : (c flags : ℕ) → ℕ
read_flag c flags =
    if c == b'-'
    then set_flag 16 flags
    else if c == b'+'
    then set_flag 4 flags
    else if c == b' '
    then set_flag 8 flags
    else if c == b'0'
    then set_flag 1 flags
    else flags

-- `while(1)` on fuel, from a `%` on. Nothing leaves the loop.
unfoldable pub skip_flags : (fuel : ℕ) (fmt : ℕ → ℕ) (flags : ℕ) → Option (ℕ × (ℕ → ℕ))
skip_flags zero fmt flags = none
skip_flags (suc fuel) fmt flags = skip_flags fuel (λ k. fmt (suc k)) (read_flag (fmt 1) flags)

abbrev pub onto : ℕ → Option (List ℕ) → Option (List ℕ)
onto c none = none
onto c (some cs) = some (c ∷ cs)

module _ (convert : ℕ × (ℕ → ℕ) → Option (List ℕ)) where
  -- The characters that the format `fmt` gives. What stands behind the loop over the flags is `convert`.
  unfoldable pub vsprintf : (fuel : ℕ) (fmt : ℕ → ℕ) → Option (List ℕ)
  vsprintf zero fmt = none
  vsprintf (suc fuel) fmt =
      let rest = vsprintf fuel (λ k. fmt (suc k)) in
      if fmt 0 == 0
      then some []
      else if not (fmt 0 == b'%')
      then onto (fmt 0) rest
      else elim (skip_flags fuel fmt 0) [ none ↦ none | some at ↦ convert at ]

-- A text that begins with characters other than 0 and `%`, and goes on with `end`.
pub data Begins : (ℕ → ℕ) → List ℕ → (end : ℕ) → Type 0 where
  ends : {t : ℕ → ℕ} {end : ℕ} → t 0 ≡ end → Begins t [] end
  more :
      {t : ℕ → ℕ} {c end : ℕ} {cs : List ℕ}
      → t 0 ≡ c
      → c ≢ 0
      → c ≢ b'%'
      → Begins (λ k. t (suc k)) cs end
      → Begins t (c ∷ cs) end

skip_flags-none : (fuel : ℕ) (fmt : ℕ → ℕ) (flags : ℕ) → skip_flags fuel fmt flags ≡ none
unfolding skip_flags
skip_flags-none zero fmt flags = refl
skip_flags-none (suc fuel) fmt flags =
    skip_flags-none fuel (λ k. fmt (suc k)) (read_flag (fmt 1) flags)

module _ (convert : ℕ × (ℕ → ℕ) → Option (List ℕ)) where
  vsprintf-more :
      (fuel c : ℕ) (fmt : ℕ → ℕ)
      → fmt 0 ≡ c
      → c ≢ 0
      → c ≢ b'%'
      → vsprintf convert (suc fuel) fmt ≡ onto c (vsprintf convert fuel (λ k. fmt (suc k)))
  unfolding vsprintf
  vsprintf-more fuel c fmt first nonzero plain =
      let no_end : (fmt 0 == 0) ≡ false = ground arith in
      let no_mark : (fmt 0 == b'%') ≡ false = ground arith in rw (no_end, no_mark, first) refl

  pub vsprintf-plain :
      (fuel : ℕ) (fmt : ℕ → ℕ) (cs : List ℕ)
      → Begins fmt cs 0
      → length cs < fuel
      → vsprintf convert fuel fmt ≡ some cs
  unfolding vsprintf
  vsprintf-plain zero fmt cs text enough = absurd (omega arith)
  vsprintf-plain (suc fuel) fmt [] (ends last) enough = rw last refl
  vsprintf-plain (suc fuel) fmt (c ∷ cs) (more first nonzero plain rest) enough =
      vsprintf-more fuel c fmt first nonzero plain
      ∙ ap (onto c) (vsprintf-plain fuel (λ k. fmt (suc k)) cs rest (omega arith))

  pub vsprintf-percent :
      (fuel : ℕ) (fmt : ℕ → ℕ) (cs : List ℕ) → Begins fmt cs b'%' → vsprintf convert fuel fmt ≡ none
  unfolding vsprintf
  vsprintf-percent zero fmt cs text = refl
  vsprintf-percent (suc fuel) fmt [] (ends last) = rw (last, skip_flags-none fuel fmt 0) refl
  vsprintf-percent (suc fuel) fmt (c ∷ cs) (more first nonzero plain rest) =
      vsprintf-more fuel c fmt first nonzero plain
      ∙ ap (onto c) (vsprintf-percent fuel (λ k. fmt (suc k)) cs rest)
