-- ===== src/Screen/Rows.antt =====
-- Scrolling and the line feed of kernel/chr/console.c.
use lychee_os.Base.{
  ℕ, ◌+◌, ◌-◌, ◌*◌, ◌/◌, ◌%◌, ◌^◌, ◌<◌, ◌≤◌, ◌≡◌, ◌⊎◌, refl, sym, ap, ◌∙◌, inl, inr, true, false,
  ltb, add32, sub32, Bool-cases, arith,
}
use native.Mathlib.Nat.{mod-eq_of_lt, mod-eq-sub-mod, le-div_iff_mul-le}
use lychee_os.Screen.{
  Display, out_byte, gety, memcpy, memset, movsb, set_console_origin, shift_rows, scroll_up,
}
use lychee_os.Screen.Copies.{movsb_outside, movsb_repeats, memset_outside, memset_inside}
use lychee_os.Screen.Editing.{lf}

abbrev pub byte_at : Display → ℕ → ℕ
byte_at d a = d.screen.memory a

-- The console's part of the memory has more than a row, and it lies below 2^31.
pub record IsPlaced (d : Display) : Type 0 where
  pub row : 0 < d.screen.video.row_size
  pub more : d.screen.video.row_size ≤ d.console.mem_size
  pub below : d.console.start_mem_addr + d.console.mem_size < 2 ^ 31

set_console_origin_memory : (d : Display) (a : ℕ) → byte_at (set_console_origin d) a ≡ byte_at d a
unfolding set_console_origin out_byte
set_console_origin_memory d a = refl

-- `shift_rows` on the memory, by numbers.
abbrev shifted : (start size row : ℕ) → (ℕ → ℕ) → ℕ → ℕ
shifted start size row m =
    memset (start + (size - row)) 0 row (memcpy start (start + row) (size - row) m)

shift_rows-shifted :
    (d : Display)
    → IsPlaced d
    → (shift_rows d).screen.memory
      ≡ shifted d.console.start_mem_addr d.console.mem_size d.screen.video.row_size d.screen.memory
unfolding shift_rows
shift_rows-shifted d p =
    let c = d.console in
    let row = d.screen.video.row_size in
    let bound = p.below in
    let fits = p.more in
    let end : sub32 (add32 c.start_mem_addr c.mem_size) row
        ≡ c.start_mem_addr + (c.mem_size - row) =
      ground arith in
    let next : add32 c.start_mem_addr row ≡ c.start_mem_addr + row = ground arith in
    let rest : sub32 c.mem_size row ≡ c.mem_size - row = ground arith in rw (end, next, rest) refl

shifted_repeats :
    (start size row : ℕ) (m : ℕ → ℕ) (j : ℕ)
    → 0 < row
    → row ≤ size
    → start + size < 2 ^ 31
    → j < size - row
    → shifted start size row m (start + j) ≡ m (start + j % row)
unfolding memcpy
shifted_repeats start size row m j pos fits bound lt =
    let small : ltb (size - row) (2 ^ 31) ≡ true = ground arith in
    memset_outside row (start + (size - row)) 0 (memcpy start (start + row) (size - row) m)
      (start + j) (omega arith) (inl (omega arith))
    ∙ rw small (elim (low_or_high j row) [
      | inl low ↦
          movsb_outside (size - row) start (start + row) m (start + j) (omega arith) (omega arith)
            (inl (omega arith))
          ∙ ap (λ x. m (start + x)) (sym (mod-eq_of_lt low))
      | inr high ↦
          ap (movsb (size - row) start (start + row) m) (ground arith)
          ∙ movsb_repeats (size - row) start row m (j - row) pos (omega arith) (omega arith)
          ∙ ap (λ x. m (start + x)) (sym (mod-eq-sub-mod high))
    ])
  where
    low_or_high : (j row : ℕ) → (j < row) ⊎ (row ≤ j)
    low_or_high j row = ground arith

-- When the window would leave the console's memory, `scroll_up` copies the first row over all other
-- rows but the last and clears the last.
pub scroll_up_smears :
    (d : Display) (j k : ℕ)
    → IsPlaced d
    → ltb
        (sub32 (d.console.mem_size / d.screen.video.row_size) d.screen.video.rows_per_page)
        (add32 d.console.top 1)
      ≡ true
    → j < d.console.mem_size - d.screen.video.row_size
    → k < d.screen.video.row_size
    → (byte_at (scroll_up d) (d.console.start_mem_addr + j)
        ≡ byte_at d (d.console.start_mem_addr + j % d.screen.video.row_size))
      × (byte_at
            (scroll_up d)
            (d.console.start_mem_addr + (d.console.mem_size - d.screen.video.row_size) + k)
          ≡ 0)
unfolding scroll_up
scroll_up_smears d j k p leaves lt lt' =
    let d1 = record d { console = record (d.console) { top = add32 d.console.top 1 } } in
    let p1 : IsPlaced d1 = record { row = p.row; more = p.more; below = p.below } in
    let c = d.console in
    let row = d.screen.video.row_size in
    let bound = p.below in
    let fits = p.more in
    rw leaves (
      set_console_origin_memory (shift_rows d1) (c.start_mem_addr + j)
          ∙ ap (λ (f : ℕ → ℕ). f (c.start_mem_addr + j)) (shift_rows-shifted d1 p1)
          ∙ shifted_repeats c.start_mem_addr c.mem_size row d.screen.memory j p.row p.more p.below
              lt,
      set_console_origin_memory (shift_rows d1) (c.start_mem_addr + (c.mem_size - row) + k)
          ∙ ap (λ (f : ℕ → ℕ). f (c.start_mem_addr + (c.mem_size - row) + k))
              (shift_rows-shifted d1 p1)
          ∙ memset_inside row (c.start_mem_addr + (c.mem_size - row)) 0
              (memcpy c.start_mem_addr (c.start_mem_addr + row) (c.mem_size - row) d.screen.memory)
              k (omega arith) lt',
    )

scroll_up_cursor : (d : Display) → (scroll_up d).console.cursor_pos ≡ d.console.cursor_pos
unfolding scroll_up shift_rows set_console_origin
scroll_up_cursor d =
    elim (Bool-cases (
      ltb (sub32 (d.console.mem_size / d.screen.video.row_size) d.screen.video.rows_per_page)
        (add32 d.console.top 1))) [ inl h ↦ rw h refl | inr h ↦ rw h refl ]

-- For a cursor in the video memory, at most 255 columns and a window in the first 2^22 rows, a line
-- feed never moves the cursor: it is a call of `scroll_up`, which leaves the cursor where it is.
pub lf_scrolls :
    (d : Display)
    → 0 < d.screen.video.row_size
    → d.screen.video.row_size ≤ 510
    → 2 ≤ d.console.cursor_pos
    → d.console.cursor_pos ≤ 0xC0000
    → d.console.top + d.screen.video.rows_per_page < 2 ^ 22
    → (lf d ≡ scroll_up d) × ((lf d).console.cursor_pos ≡ d.console.cursor_pos)
unfolding lf gety
lf_scrolls d row cols low high window =
    let v = d.screen.video in
    let c = d.console in
    let wide : 2 ^ 22 * v.row_size ≤ sub32 1 c.cursor_pos = ground arith in
    let far : 2 ^ 22 ≤ sub32 1 c.cursor_pos / v.row_size = (le-div_iff_mul-le row).1 wide in
    let fails : ltb (sub32 1 c.cursor_pos / v.row_size) (add32 c.top v.rows_per_page) ≡ false =
      ground arith in
    rw fails (refl, scroll_up_cursor d)
