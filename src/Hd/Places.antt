-- ===== src/Hd/Places.antt =====
-- Where a sector of a disk lies.
use lychee_os.Base.{ℕ, ◌+◌, ◌*◌, ◌/◌, ◌%◌, ◌≤◌, ◌<◌, ◌≡◌, ◌^◌, true, refl, sym, ltb, add32, arith}
use native.Mathlib.Nat.{div-add-mod', div-le_self, mod-lt}
use mathlib.Core.Path.{subst}
use lychee_os.Hd.{Disk}
use lychee_os.Hd.Requests.{int_div, int_mod, place}

int_div-small : (a d : ℕ) → a < 2 ^ 31 → int_div a d ≡ a / d
unfolding int_div
int_div-small a d h = let test : ltb a (2 ^ 31) ≡ true = ground arith in rw test refl

int_mod-small : (a d : ℕ) → a < 2 ^ 31 → int_mod a d ≡ a % d
unfolding int_mod
int_mod-small a d h = let test : ltb a (2 ^ 31) ≡ true = ground arith in rw test refl

-- The place of a sector below 2^31.
abbrev plain_place : Disk → ℕ → ℕ × ℕ × ℕ
plain_place d block =
    let track = block / d.sectors_per_track in
    (block % d.sectors_per_track + 1, track % d.head, track / d.head)

place-small :
    (d : Disk) (block : ℕ)
    → 0 < d.sectors_per_track
    → block < 2 ^ 31
    → place d block ≡ plain_place d block
unfolding place
place-small d block sectors small =
    let track = block / d.sectors_per_track in
    let below : track < 2 ^ 31 = omega (arith, div-le_self block d.sectors_per_track) in
    let rest : block % d.sectors_per_track < 2 ^ 31 =
      omega (arith, div-add-mod' block d.sectors_per_track) in
    let sum : add32 (block % d.sectors_per_track) 1 ≡ block % d.sectors_per_track + 1 =
      ground arith in
    rw
      (
        int_div-small block d.sectors_per_track small,
        int_mod-small block d.sectors_per_track small,
        sum,
        int_div-small track d.head below,
        int_mod-small track d.head below,
      )
      refl

plain_place_lem :
    (d : Disk) (block : ℕ)
    → 0 < d.sectors_per_track
    → 0 < d.head
    → let at = plain_place d block in
      ((at.2 * d.head + at.1) * d.sectors_per_track + at.0 ≡ block + 1)
      × (1 ≤ at.0)
      × (at.0 ≤ d.sectors_per_track)
      × (at.1 < d.head)
plain_place_lem d block sectors heads =
    let track = block / d.sectors_per_track in
    let counted : (track / d.head * d.head + track % d.head) * d.sectors_per_track
          + (block % d.sectors_per_track + 1)
        ≡ block + 1 =
      rw (div-add-mod' track d.head) (omega (arith, div-add-mod' block d.sectors_per_track)) in
    (counted, omega arith, omega (arith, mod-lt block sectors), mod-lt track heads)

-- Of a disk with heads and sectors and for a sector below 2^31, `place` gives a sector number from 1 to the
-- sectors of a track and a head below the number of heads, and counting cylinders, heads and sectors
-- gives the sector back.
pub place_lem :
    (d : Disk) (block : ℕ)
    → 0 < d.sectors_per_track
    → 0 < d.head
    → block < 2 ^ 31
    → let at = place d block in
      ((at.2 * d.head + at.1) * d.sectors_per_track + at.0 ≡ block + 1)
      × (1 ≤ at.0)
      × (at.0 ≤ d.sectors_per_track)
      × (at.1 < d.head)
place_lem d block sectors heads small =
    subst
      (λ (at : ℕ × ℕ × ℕ).
        ((at.2 * d.head + at.1) * d.sectors_per_track + at.0 ≡ block + 1)
        × (1 ≤ at.0)
        × (at.0 ≤ d.sectors_per_track)
        × (at.1 < d.head))
      (sym (place-small d block sectors small)) (plain_place_lem d block sectors heads)
