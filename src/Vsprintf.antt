-- ===== src/Vsprintf.antt =====
-- Numbers as text: `atoi`, `do_div` and `number` of kernel/vsprintf.c. Characters are their codes.
pub mod Digits
pub mod Format
mod Tests
use lychee_os.Base.{
  ℕ, zero, suc, ◌+◌, ◌-◌, ◌*◌, ◌/◌, ◌%◌, ◌^◌, Bool, true, false, Option, none, some, List, [], ◌∷◌,
  ◌++◌, ◌&&◌, ◌||◌, not, ltb, leb, ◌==◌, if◌then◌else◌, replicate, length, map,
}

abbrev pub is_digit : ℕ → Bool
is_digit c = leb 48 c && leb c 57

-- The number, for values that an `int` holds, and where it ends.
unfoldable pub atoi_from : ℕ → List ℕ → ℕ × List ℕ
atoi_from ret [] = (ret, [])
atoi_from ret (c ∷ s) =
    let rest = atoi_from (10 * ret + (c - 48)) s in if is_digit c then rest else (ret, c ∷ s)

unfoldable pub atoi : List ℕ → ℕ × List ℕ
atoi s = atoi_from 0 s

-- The result and what `*n` becomes: the remainder is that of the quotient.
unfoldable pub do_div : ℕ → ℕ → ℕ × ℕ
do_div n base = (n / base % base, n / base)

-- The flags are bits; `small` is SMALL.
pub record Flags : Type 0 where
  pub zeropad : Bool
  pub sign : Bool
  pub plus : Bool
  pub space : Bool
  pub left : Bool
  pub small : Bool

abbrev pub flags_of : ℕ → Flags
flags_of f = record {
  zeropad = f % 2 == 1;
  sign = f / 2 % 2 == 1;
  plus = f / 4 % 2 == 1;
  space = f / 8 % 2 == 1;
  left = f / 16 % 2 == 1;
  small = f / 32 % 2 == 1;
}

-- `digits[d]`.
abbrev pub digit_char : Bool → ℕ → ℕ
digit_char small d = if ltb d 10 then 48 + d else if small then 87 + d else 55 + d

-- The loop of `number` on fuel: the values of the digits in the order of `temp`.
unfoldable pub digit_loop : ℕ → ℕ → ℕ → Option (List ℕ)
unfolding do_div
digit_loop fuel base zero = some []
digit_loop zero base (suc n) = none
digit_loop (suc fuel) base (suc n) = elim (digit_loop fuel base (do_div (suc n) base).1) [
  | none ↦ none
  | some ds ↦ some ((do_div (suc n) base).0 ∷ ds)
]

unfoldable pub reverse_onto : List ℕ → List ℕ → List ℕ
reverse_onto [] ys = ys
reverse_onto (x ∷ xs) ys = reverse_onto xs (x ∷ ys)

-- The sign character; 0 is none. `negative` tells the sign of `num`.
abbrev pub sign_char : Flags → Bool → ℕ
sign_char f negative =
    if f.sign && negative then 45 else if f.plus then 43 else if f.space then 32 else 0

-- `size` before the digits are known; a negative size prints as size 0.
abbrev pub room : ℕ → ℕ → ℕ → ℕ
room sign base size =
    let size' = if sign == 0 then size else size - 1 in
    if base == 16 then size' - 2 else if base == 8 then size' - 1 else size'

-- What `number` appends from the text of the digits, the first digit last in `temp`. The test
-- `base = 16` is an assignment, so that every number has the prefix 0x.
unfoldable pub layout : Flags → ℕ → ℕ → ℕ → List ℕ → List ℕ
unfolding reverse_onto
layout f sign size precision temp =
    let i = length temp in
    let precision' = if ltb precision i then i else precision in
    let pad = size - precision' in
    let before = if f.zeropad || f.left then [] else replicate pad 32 in
    let size' = if f.zeropad || f.left then pad else 0 in
    let mark = if sign == 0 then [] else sign ∷ [] in
    let fill = if f.left then [] else replicate size' (if f.zeropad then 48 else 32) in
    let after = if f.left then replicate size' 32 else [] in
    before
    ++ (mark
        ++ ((48 ∷ 120 ∷ [])
            ++ (fill ++ (replicate (precision' - i) 48 ++ (reverse_onto temp [] ++ after)))))

-- What is appended to `str`. `none` is no fuel, or a negative number without SIGN, whose digits would
-- be read before the table. For 0 the text is one NUL character.
unfoldable pub number : ℕ → Bool → ℕ → ℕ → ℕ → ℕ → ℕ → Option (List ℕ)
unfolding digit_loop layout
number fuel negative num base size precision flags =
    let given = flags_of flags in
    let f = if given.left then record given { zeropad = false } else given in
    let sign = sign_char f negative in
    let text : Option (List ℕ) = elim (digit_loop fuel base num) [
      | none ↦ none
      | some ds ↦ some (
          layout f sign (room sign base size) precision
            (if num == 0 then 0 ∷ [] else map (digit_char f.small) ds))
    ] in
    if ltb base 2 || ltb 36 base then some [] else if negative && not f.sign then none else text
