-- ===== src/Fs/BlockDev/Bytes.antt =====
-- The bytes of one block.
use lychee_os.Base.{
  ℕ, zero, suc, ◌+◌, ◌-◌, ◌≤◌, ◌<◌, ◌≡◌, refl, ap, ◌∙◌, List, ◌∷◌, ◌++◌, ltb, leb, ◌==◌, ◌&&◌,
  if◌then◌else◌, get_or, set, get_or-set_self, get_or-set_ne, length, length-set, tabulate,
  tabulate_congr, Bool-cases, inl, inr, ==_iff, arith,
}
use lychee_os.Buffer.{block_size}
use lychee_os.Fs.BlockDev.{put_bytes, get_bytes, chars_of}

pub get_bytes-eq-tabulate :
    (bytes : List ℕ) (p n : ℕ) → get_bytes bytes p n ≡ tabulate n (λ k. get_or bytes (p + k) 0)
unfolding get_bytes
get_bytes-eq-tabulate bytes p zero = refl
get_bytes-eq-tabulate bytes p (suc n) =
    ap (λ xs. get_or bytes p 0 ∷ xs)
      (get_bytes-eq-tabulate bytes (p + 1) n
        ∙ tabulate_congr n _ _ (λ k lt. ap (λ i. get_or bytes i 0) (omega arith)))
    ∙ ap (λ i. get_or bytes i 0 ∷ tabulate n (λ k. get_or bytes (p + suc k) 0)) (omega arith)

pub length-put_bytes :
    (bytes : List ℕ) (p : ℕ) (buffer : ℕ → ℕ) (n : ℕ)
    → length (put_bytes bytes p buffer n) ≡ length bytes
unfolding put_bytes
length-put_bytes bytes p buffer zero = refl
length-put_bytes bytes p buffer (suc n) =
    length-put_bytes (set bytes p (buffer 0)) (p + 1) (λ k. buffer (suc k)) n
    ∙ length-set bytes p (buffer 0)

-- Each byte of the block behind the copy.
pub get_or-put_bytes :
    (bytes : List ℕ) (p : ℕ) (buffer : ℕ → ℕ) (n i : ℕ)
    → p + n ≤ length bytes
    → get_or (put_bytes bytes p buffer n) i 0
      ≡ (if leb p i && ltb i (p + n) then buffer (i - p) else get_or bytes i 0)
unfolding put_bytes
get_or-put_bytes bytes p buffer zero i le = ground arith
get_or-put_bytes bytes p buffer (suc n) i le =
    get_or-put_bytes (set bytes p (buffer 0)) (p + 1) (λ k. buffer (suc k)) n i
      (omega (arith, length-set bytes p (buffer 0)))
    ∙ elim (Bool-cases (p == i)) [
      | inl h ↦
          let same : p ≡ i = (==_iff p i).0 h in
          let first : buffer 0 ≡ buffer (i - p) = ap buffer (omega arith) in
          ground (
            arith,
            get_or-set_self bytes p (buffer 0) 0 (omega arith),
            ap (λ j. get_or (set bytes p (buffer 0)) j 0) same,
            first,
          )
      | inr h ↦
          let other = get_or-set_ne bytes p i (buffer 0) 0 (λ e. ground arith) in
          elim (Bool-cases (ltb p i)) [
            | inl l ↦
                let later : buffer (suc (i - (p + 1))) ≡ buffer (i - p) =
                  ap buffer (ground arith) in
                ground (arith, other, later)
            | inr l ↦ ground (arith, other)
          ]
    ]

pub tabulate-add :
    (m n : ℕ) (f : ℕ → ℕ) → tabulate m f ++ tabulate n (λ k. f (m + k)) ≡ tabulate (m + n) f
tabulate-add zero n f =
    let total : n ≡ 0 + n = omega arith in
    tabulate_congr n (λ k. f (0 + k)) f (λ k lt. ap f (omega arith)) ∙ ap (λ j. tabulate j f) total
tabulate-add (suc m) n f =
    let total : suc (m + n) ≡ suc m + n = omega arith in
    ap (λ xs. f 0 ∷ xs)
      (ap (λ xs. tabulate m (λ k. f (suc k)) ++ xs)
          (tabulate_congr n (λ k. f (suc m + k)) (λ k. f (suc (m + k)))
            (λ k lt. ap f (omega arith)))
        ∙ tabulate-add m n (λ k. f (suc k)))
    ∙ ap (λ j. tabulate j f) total

pub chars_le : (offset count : ℕ) → chars_of offset count ≤ count
chars_le offset count = ground arith

pub chars_fit :
    (offset count : ℕ) → offset < block_size → offset + chars_of offset count ≤ block_size
chars_fit offset count off = ground arith

pub regroup : (p c count : ℕ) → c ≤ count → p + c + (count - c) ≡ p + count
regroup p c count le = omega arith

pub plus_zero : (p : ℕ) → p + 0 ≡ p
plus_zero p = omega arith
