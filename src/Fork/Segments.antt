-- ===== src/Fork/Segments.antt =====
-- The segments that `copy_memory` moves.
use lychee_os.Base.{
  ℕ, ◌+◌, ◌*◌, ◌/◌, ◌%◌, ◌-◌, ◌^◌, ◌<◌, ◌≡◌, ◌≢◌, ◌≤◌, ◌⊎◌, refl, sym, ap, ◌∙◌, arith,
}
use lychee_os.Kernel.{get_seg_base, set_seg_base}
use lychee_os.Mm.{Memory, put_word}
use lychee_os.Fork.At
use lychee_os.Fork.{user_cs, user_ds, byte_at, load_descriptor, move_segment, move_segments}

-- The bytes of a word at a multiple of 4.
pub byte_of_word :
    (m : Memory) (a k : ℕ) → a % 4 ≡ 0 → k < 4 → byte_at m (a + k) ≡ m.word a / 2 ^ (8 * k) % 2 ^ 8
byte_of_word m a k aligned small =
    let rest : (a + k) % 4 ≡ k = omega arith in
    let word : a + k - k ≡ a = omega arith in rw (rest, word) refl

moved_low :
    (a base : ℕ) (m : Memory)
    → (move_segment a base m).word a ≡ (load_descriptor m a).limit0_15 + base % 2 ^ 16 * 2 ^ 16
unfolding move_segment set_seg_base
moved_low a base m = ground arith

moved_high :
    (a base : ℕ) (m : Memory)
    → (move_segment a base m).word (a + 4)
      ≡ base / 2 ^ 16 % 2 ^ 8
        + (load_descriptor m a).attribute * 2 ^ 8
        + (load_descriptor m a).segattr * 2 ^ 16
        + base / 2 ^ 24 % 2 ^ 8 * 2 ^ 24
unfolding move_segment set_seg_base
moved_high a base m = ground arith

moved_other :
    (a base b : ℕ) (m : Memory) → b ≢ a → b ≢ a + 4 → (move_segment a base m).word b ≡ m.word b
unfolding move_segment
moved_other a base b m ne ne' = ground arith

moved_base :
    (a base : ℕ) (m : Memory)
    → a % 4 ≡ 0
    → base < 2 ^ 32
    → get_seg_base (load_descriptor (move_segment a base m) a) ≡ base
unfolding get_seg_base load_descriptor
moved_base a base m aligned small =
    let m' = move_segment a base m in
    let b2 : byte_at m' (a + 2) ≡ base % 2 ^ 8 =
      byte_of_word m' a 2 aligned (omega arith) ∙ rw (moved_low a base m) (omega arith) in
    let b3 : byte_at m' (a + 3) ≡ base / 2 ^ 8 % 2 ^ 8 =
      byte_of_word m' a 3 aligned (omega arith) ∙ rw (moved_low a base m) (omega arith) in
    let b4 : byte_at m' (a + 4) ≡ base / 2 ^ 16 % 2 ^ 8 =
      ap (byte_at m') (omega arith)
      ∙ byte_of_word m' (a + 4) 0 (omega arith) (omega arith)
      ∙ rw (moved_high a base m) (omega arith) in
    let b7 : byte_at m' (a + 7) ≡ base / 2 ^ 24 % 2 ^ 8 =
      ap (byte_at m') (omega arith)
      ∙ byte_of_word m' (a + 4) 3 (omega arith) (omega arith)
      ∙ rw (moved_high a base m) (omega arith) in
    rw (b2, b3, b4, b7) (omega arith)

-- Two memories with the same words at a descriptor.
base_congr :
    (a : ℕ) (m m' : Memory)
    → a % 4 ≡ 0
    → m.word a ≡ m'.word a
    → m.word (a + 4) ≡ m'.word (a + 4)
    → get_seg_base (load_descriptor m a) ≡ get_seg_base (load_descriptor m' a)
unfolding get_seg_base load_descriptor
base_congr a m m' aligned low high =
    let high_byte : (k : ℕ) → k < 4 → byte_at m (a + 4 + k) ≡ byte_at m' (a + 4 + k) = λ k lt.
      byte_of_word m (a + 4) k (omega arith) lt
      ∙ ap (λ w. w / 2 ^ (8 * k) % 2 ^ 8) high
      ∙ sym (byte_of_word m' (a + 4) k (omega arith) lt) in
    let low_byte : (k : ℕ) → k < 4 → byte_at m (a + k) ≡ byte_at m' (a + k) = λ k lt.
      byte_of_word m a k aligned lt
      ∙ ap (λ w. w / 2 ^ (8 * k) % 2 ^ 8) low
      ∙ sym (byte_of_word m' a k aligned lt) in
    let b4 : byte_at m (a + 4) ≡ byte_at m' (a + 4) =
      ap (byte_at m) (omega arith) ∙ high_byte 0 (omega arith) ∙ ap (byte_at m') (omega arith) in
    let b7 : byte_at m (a + 7) ≡ byte_at m' (a + 7) =
      ap (byte_at m) (omega arith) ∙ high_byte 3 (omega arith) ∙ ap (byte_at m') (omega arith) in
    rw (low_byte 2 (omega arith), low_byte 3 (omega arith), b4, b7) refl

-- For an aligned process structure and a base that fits a word, `move_segments` moves the code and the data
-- segment of the process to the base; no word outside of these two descriptors and the child's
-- `start_code` changes.
pub move_segments_lem :
    (current proc base other : ℕ) (m : Memory)
    → current % 4 ≡ 0
    → base < 2 ^ 32
    → (other < user_cs current) ⊎ (user_ds current + 8 ≤ other)
    → other ≢ proc + At.start_code
    → (get_seg_base (load_descriptor (move_segments current proc base m) (user_cs current)) ≡ base)
      × (get_seg_base (load_descriptor (move_segments current proc base m) (user_ds current))
          ≡ base)
      × ((move_segments current proc base m).word other ≡ m.word other)
unfolding move_segments
move_segments_lem current proc base other m aligned small outside different =
    let m1 = put_word m (proc + At.start_code) base in
    let m2 = move_segment (user_cs current) base m1 in
    let m3 = move_segment (user_ds current) base m2 in
    let untouched : m1.word other ≡ m.word other = ground arith in
    (
      base_congr (user_cs current) m3 m2 (omega arith)
            (moved_other (user_ds current) base (user_cs current) m2 (omega arith) (omega arith))
            (moved_other (user_ds current) base (user_cs current + 4) m2 (omega arith)
              (omega arith))
          ∙ moved_base (user_cs current) base m1 (omega arith) small,
      moved_base (user_ds current) base m2 (omega arith) small,
      moved_other (user_ds current) base other m2 (omega arith) (omega arith)
          ∙ moved_other (user_cs current) base other m1 (omega arith) (omega arith)
          ∙ untouched,
    )
