-- ===== src/Names/Matching.antt =====
-- What `strlen` and `is_match` compute of names that are spelled with four bytes of 0 at their end.
use lychee_os.Base.{
  ℕ, zero, suc, ◌^◌, ◌<◌, ◌≡◌, ◌≢◌, refl, sym, ap, ◌∙◌, inl, inr, Bool, true, false, List, [], ◌∷◌,
  ◌&&◌, ltb, ◌==◌, ==_iff, length, Bool-cases, arith,
}
use mathlib.Core.Logic.{◌↔◌}
use lychee_os.Names.{Text, Around, skip, word_zero, strlen, same_chars, is_match}

-- A text that begins with the characters of a name, none of which is 0, and four bytes of 0.
pub data Spells : Text → List ℕ → Type 0 where
  ends : {t : Text} → word_zero t ≡ true → Spells t []
  begins :
      {t : Text} {c : ℕ} {cs : List ℕ} → t 0 ≡ c → c ≢ 0 → Spells (skip 1 t) cs → Spells t (c ∷ cs)

nonzero-word : (t : Text) → t 0 ≢ 0 → word_zero t ≡ false
unfolding word_zero
nonzero-word t nonzero = ground arith

pub strlen-Spells :
    (n : ℕ) (t : Text) (cs : List ℕ) → Spells t cs → length cs < n → strlen n t ≡ length cs
unfolding strlen
strlen-Spells zero t cs spelled room = absurd (omega arith)
strlen-Spells (suc n) t [] (ends zeros) room = rw (zeros, strlen) refl
strlen-Spells (suc n) t (c ∷ cs) (begins first nonzero rest) room =
    let more : word_zero t ≡ false = nonzero-word t (λ e. nonzero (sym first ∙ e)) in
    rw (more, strlen, strlen-Spells n (skip 1 t) cs rest (omega arith)) (omega arith)

head-eq : {x y : ℕ} {xs ys : List ℕ} → (x ∷ xs) ≡ (y ∷ ys) → x ≡ y
head-eq e = cc

tail-eq : {x y : ℕ} {xs ys : List ℕ} → (x ∷ xs) ≡ (y ∷ ys) → xs ≡ ys
tail-eq e = cc

-- Names of one length.
pub same_chars-Spells :
    (f d : Text) (xs ys : List ℕ)
    → Spells f xs
    → Spells d ys
    → length xs ≡ length ys
    → (same_chars (length xs) f d ≡ true) ↔ (xs ≡ ys)
unfolding same_chars
same_chars-Spells f d [] [] _ _ same = ((λ h. refl), (λ h. refl))
same_chars-Spells f d [] (y ∷ ys) _ _ same = absurd (omega arith)
same_chars-Spells f d (x ∷ xs) [] _ _ same = absurd (omega arith)
same_chars-Spells f d (x ∷ xs) (y ∷ ys) (begins fx x0 fs) (begins dy y0 ds) same =
    let (to, from) = same_chars-Spells (skip 1 f) (skip 1 d) xs ys fs ds (omega arith) in
    let down : ((f 0 == d 0) && same_chars (length xs) (skip 1 f) (skip 1 d)) ≡ true
        → (x ∷ xs) ≡ (y ∷ ys) =
      λ h.
        (let heads : f 0 ≡ d 0 = ground (arith, h) in
          let tails : same_chars (length xs) (skip 1 f) (skip 1 d) ≡ true = ground (arith, h) in
          ap (λ z. z ∷ xs) (sym fx ∙ heads ∙ dy) ∙ ap (λ zs. y ∷ zs) (to tails)) in
    let up : (x ∷ xs) ≡ (y ∷ ys)
        → ((f 0 == d 0) && same_chars (length xs) (skip 1 f) (skip 1 d)) ≡ true =
      λ e.
        (let tails : same_chars (length xs) (skip 1 f) (skip 1 d) ≡ true = from (tail-eq e) in
          let heads : f 0 ≡ d 0 = fx ∙ head-eq e ∙ sym dy in ground arith) in
    (down, up)

apart : {xs ys : List ℕ} → (length xs == length ys) ≡ false → xs ≢ ys
apart {xs} {ys} other e = let same : length xs ≡ length ys = ap length e in ground arith

-- For two texts that spell names, each shorter than its loop of `strlen` may turn and the first shorter
-- than 2^31, `is_match` holds exactly when the names are equal.
pub is_match_lem :
    (around : Around) (f d : Text) (xs ys : List ℕ)
    → Spells f xs
    → Spells d ys
    → length xs < around.turns 1 f
    → length ys < around.turns 2 d
    → length xs < 2 ^ 31
    → (is_match around f d ≡ true) ↔ (xs ≡ ys)
unfolding is_match
is_match_lem around f d xs ys spelled_f spelled_d room_f room_d small =
    let len_f = strlen-Spells (around.turns 1 f) f xs spelled_f room_f in
    let len_d = strlen-Spells (around.turns 2 d) d ys spelled_d room_d in
    let as_int : ltb (length xs) (2 ^ 31) ≡ true = ground arith in
    rw (len_f, len_d, as_int)
      (elim (Bool-cases (length xs == length ys)) [
        | inl same ↦ rw same (same_chars-Spells f d xs ys spelled_f spelled_d ((==_iff _ _).0 same))
        | inr other ↦ rw other ((λ h. absurd (ground (arith, h))), (λ e. absurd (apart other e)))
      ])

-- The equality of names, decided.
abbrev pub same_name : List ℕ → List ℕ → Bool
same_name [] [] = true
same_name [] (y ∷ ys) = false
same_name (x ∷ xs) [] = false
same_name (x ∷ xs) (y ∷ ys) = (x == y) && same_name xs ys

same_name_iff : (xs ys : List ℕ) → (same_name xs ys ≡ true) ↔ (xs ≡ ys)
same_name_iff [] [] = ((λ h. refl), (λ e. refl))
same_name_iff [] (y ∷ ys) = ((λ h. cc), (λ e. cc))
same_name_iff (x ∷ xs) [] = ((λ h. cc), (λ e. cc))
same_name_iff (x ∷ xs) (y ∷ ys) =
    let (to, from) = same_name_iff xs ys in
    let down : ((x == y) && same_name xs ys) ≡ true → (x ∷ xs) ≡ (y ∷ ys) = λ h.
      (let heads : x ≡ y = ground (arith, h) in
        let tails : same_name xs ys ≡ true = ground (arith, h) in
        ap (λ z. z ∷ xs) heads ∙ ap (λ zs. y ∷ zs) (to tails)) in
    let up : (x ∷ xs) ≡ (y ∷ ys) → ((x == y) && same_name xs ys) ≡ true = λ e.
      (let tails : same_name xs ys ≡ true = from (tail-eq e) in
        let heads : x ≡ y = head-eq e in ground arith) in
    (down, up)

pub is_match-same_name :
    (around : Around) (f d : Text) (xs ys : List ℕ)
    → Spells f xs
    → Spells d ys
    → length xs < around.turns 1 f
    → length ys < around.turns 2 d
    → length xs < 2 ^ 31
    → is_match around f d ≡ same_name xs ys
is_match-same_name around f d xs ys spelled_f spelled_d room_f room_d small =
    let (to, from) = is_match_lem around f d xs ys spelled_f spelled_d room_f room_d small in
    elim (Bool-cases (same_name xs ys)) [
      | inl same ↦ from ((same_name_iff xs ys).0 same) ∙ sym same
      | inr other ↦ elim (Bool-cases (is_match around f d)) [
        | inl matched ↦ matched ∙ sym ((same_name_iff xs ys).1 (to matched))
        | inr apart ↦ apart ∙ sym other
      ]
    ]
