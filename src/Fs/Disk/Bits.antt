-- ===== src/Fs/Disk/Bits.antt =====
-- Setting and clearing a bit of a bitmap.
use lychee_os.Base.{
  ℕ, ◌+◌, ◌-◌, ◌/◌, ◌%◌, ◌^◌, ◌<◌, ◌≡◌, refl, sym, ap, ◌∙◌, inl, inr, Bool, true, false, ◌&&◌, List,
  length, get_or, set, ◌==◌, ==_iff, if◌then◌else◌, Bool-cases, get_or-set_self, get_or-set_ne,
  every_below, every_below_entry, arith,
}
use lychee_os.Fs.Disk.{get_bit, set_bit, clear_bit}

-- The bits of a byte after the bit `k` is set and cleared.
abbrev bits_right : (x k j : ℕ) → Bool
bits_right x k j =
    let old = x / 2 ^ k % 2 in
    let up = if old == 1 then x else x + 2 ^ k in
    let down = if old == 1 then x - 2 ^ k else x in
    (up / 2 ^ j % 2 == (if j == k then 1 else x / 2 ^ j % 2))
    && (down / 2 ^ j % 2 == (if j == k then 0 else x / 2 ^ j % 2))

bits_all : every_below (λ x. every_below (λ k. every_below (bits_right x k) 8) 8) 256 ≡ true
unfolding every_below
bits_all = refl

bits_lem : (x k j : ℕ) → x < 256 → k < 8 → j < 8 → bits_right x k j ≡ true
bits_lem x k j hx hk hj = every_below_entry (bits_right x k) 8 j hj (
    every_below_entry (λ k'. every_below (bits_right x k') 8) 8 k hk
      (every_below_entry (λ x'. every_below (λ k'. every_below (bits_right x' k') 8) 8) 256 x hx
        bits_all))

both : (a b : Bool) → (a && b) ≡ true → (a ≡ true) × (b ≡ true)
both a b h = ground arith

-- A bit in a byte of its own.
get_bit-set :
    (bytes : List ℕ) (nr byte : ℕ) (j : ℕ)
    → nr / 8 < length bytes
    → get_bit (set bytes (nr / 8) byte) j
      ≡ (if j / 8 == nr / 8 then byte / 2 ^ (j % 8) % 2 else get_bit bytes j)
get_bit-set bytes nr byte j h = elim (Bool-cases (j / 8 == nr / 8)) [
  | inl same ↦
      let e = (==_iff (j / 8) (nr / 8)).0 same in
      rw same (
        ap (λ b. get_or (set bytes (nr / 8) byte) b 0 / 2 ^ (j % 8) % 2) e
        ∙ ap (λ b. b / 2 ^ (j % 8) % 2) (get_or-set_self bytes (nr / 8) byte 0 h))
  | inr other ↦
      rw other
        (ap (λ b. b / 2 ^ (j % 8) % 2) (get_or-set_ne bytes (nr / 8) (j / 8) byte 0 (ground arith)))
]

-- What a change of the bit's byte makes of the bits of the bitmap.
placed :
    (bytes : List ℕ) (nr byte v j : ℕ)
    → nr / 8 < length bytes
    → byte / 2 ^ (j % 8) % 2
      ≡ (if j % 8 == nr % 8 then v else get_or bytes (nr / 8) 0 / 2 ^ (j % 8) % 2)
    → get_bit (set bytes (nr / 8) byte) j ≡ (if j == nr then v else get_bit bytes j)
placed bytes nr byte v j h changed =
    get_bit-set bytes nr byte j h ∙ elim (Bool-cases (j / 8 == nr / 8)) [
      | inl same ↦
          let e = (==_iff (j / 8) (nr / 8)).0 same in
          let same_bit : (j % 8 == nr % 8) ≡ (j == nr) = same_place j nr e in
          rw same (
            changed
            ∙ ap (λ t. if t then v else get_or bytes (nr / 8) 0 / 2 ^ (j % 8) % 2) same_bit
            ∙ ap (λ b. if j == nr then v else get_or bytes b 0 / 2 ^ (j % 8) % 2) (sym e))
      | inr other ↦ let ne : (j == nr) ≡ false = ground arith in rw (other, ne) refl
    ]
  where
    same_place : (j nr : ℕ) → j / 8 ≡ nr / 8 → (j % 8 == nr % 8) ≡ (j == nr)
    same_place j nr e = ground arith

unchanged :
    (bytes : List ℕ) (nr v j : ℕ)
    → get_bit bytes nr ≡ v
    → get_bit bytes j ≡ (if j == nr then v else get_bit bytes j)
unchanged bytes nr v j h = elim (Bool-cases (j == nr)) [
  | inl same ↦ rw same (ap (get_bit bytes) ((==_iff j nr).0 same) ∙ h)
  | inr other ↦ rw other refl
]

bit_zero : (bytes : List ℕ) (nr : ℕ) → (get_bit bytes nr == 1) ≡ false → get_bit bytes nr ≡ 0
bit_zero bytes nr h = ground arith

-- `set_bit` and `clear_bit` return the old bit, and afterwards the bit is 1 or 0 and all others are as
-- before, for a bit of the bitmap.
pub set_bit-clear_bit :
    (bytes : List ℕ) (nr j : ℕ)
    → nr / 8 < length bytes
    → get_or bytes (nr / 8) 0 < 256
    → ((set_bit bytes nr).0 ≡ get_bit bytes nr)
      × (get_bit (set_bit bytes nr).1 j ≡ (if j == nr then 1 else get_bit bytes j))
      × ((clear_bit bytes nr).0 ≡ get_bit bytes nr)
      × (get_bit (clear_bit bytes nr).1 j ≡ (if j == nr then 0 else get_bit bytes j))
unfolding set_bit clear_bit
set_bit-clear_bit bytes nr j h small =
    let x = get_or bytes (nr / 8) 0 in
    let right = both _ _ (bits_lem x (nr % 8) (j % 8) small (omega arith) (omega arith)) in
    let up = (==_iff _ _).0 right.0 in
    let down = (==_iff _ _).0 right.1 in
    elim (Bool-cases (get_bit bytes nr == 1)) [
      | inl one ↦
          let e : get_bit bytes nr ≡ 1 = (==_iff _ _).0 one in
          (
            refl,
            rw one (unchanged bytes nr 1 j e),
            refl,
            rw one (
                placed bytes nr (x - 2 ^ (nr % 8)) 0 j h (
                  sym (ap (λ t. (if t then x - 2 ^ (nr % 8) else x) / 2 ^ (j % 8) % 2) one)
                  ∙ down)),
          )
      | inr zero_bit ↦
          let e : get_bit bytes nr ≡ 0 = bit_zero bytes nr zero_bit in
          (
            refl,
            rw zero_bit (
                placed bytes nr (x + 2 ^ (nr % 8)) 1 j h (
                  sym (ap (λ t. (if t then x else x + 2 ^ (nr % 8)) / 2 ^ (j % 8) % 2) zero_bit)
                  ∙ up)),
            refl,
            rw zero_bit (unchanged bytes nr 0 j e),
          )
    ]
