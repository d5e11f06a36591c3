-- ===== src/Screen/Ports.antt =====
-- The ports that the console writes to.
use lychee_os.Base.{
  ℕ, ◌≢◌, ◌/◌, zero, suc, ◌%◌, ◌^◌, ◌≡◌, refl, sym, ap, ◌∙◌, inl, inr, Bool, true, false, ◌&&◌,
  Option, some, none, List, [], ◌∷◌, ◌++◌, ltb, leb, ◌==◌, if◌then◌else◌, Bool-cases, add32, sub32,
  mul32, arith,
}
use lychee_os.Tty.{Tty, get_char_from_write}
use lychee_os.Screen.{
  Display, Screen, out_byte, set_console_origin, set_console_cursor, shift_rows, scroll_up, gety,
  video_mem_move_up,
}
use lychee_os.Screen.Steps.{
  next_char, shown, after, console_write-out, console_write-next, console_write-stops,
}
use lychee_os.Screen.Editing.{
  lf, cr, put_char, insert_char, delete_char, insert_spaces, show, console_write,
}

-- Whether all writes go to ports below 256. The registers of the display controllers are at 0x3B4,
-- 0x3B5, 0x3D4 and 0x3D5.
abbrev pub all_low : List (ℕ × ℕ) → Bool
all_low [] = true
all_low (w ∷ ws) = let rest = all_low ws in if ltb (w.0) 256 then rest else false

abbrev pub low : Screen → Bool
low s = all_low s.writes

all_low-snoc :
    (ws : List (ℕ × ℕ)) (port value : ℕ)
    → all_low ws ≡ true
    → ltb port 256 ≡ true
    → all_low (ws ++ ((port, value) ∷ [])) ≡ true
all_low-snoc [] port value h small = rw small refl
all_low-snoc (w ∷ ws) port value h small = elim (Bool-cases (ltb (w.0) 256)) [
  | inl within ↦ rw within (
      all_low-snoc ws port value (sym (ap (λ b. if b then all_low ws else false) within) ∙ h) small)
  | inr beyond ↦ absurd (false-ne-true (sym (ap (λ b. if b then all_low ws else false) beyond) ∙ h))
]
  where
    false-ne-true : false ≢ true
    false-ne-true = ground arith

out_byte-low :
    (value port : ℕ) (s : Screen)
    → ltb (port % 2 ^ 16) 256 ≡ true
    → low s ≡ true
    → low (out_byte value port s) ≡ true
unfolding out_byte
out_byte-low value port s small h = all_low-snoc s.writes (port % 2 ^ 16) (value % 2 ^ 8) h small

byte_low : (x : ℕ) → ltb (x % 2 ^ 8 % 2 ^ 16) 256 ≡ true
byte_low x = ground arith

-- The four writes that set a register pair.
sent_low :
    (ctl data_port high low_port x y : ℕ) (s : Screen)
    → ltb (high % 2 ^ 16) 256 ≡ true
    → ltb (low_port % 2 ^ 16) 256 ≡ true
    → low s ≡ true
    → low (
        out_byte data_port
          (y % 2 ^ 8)
          (out_byte ctl low_port (out_byte data_port (x % 2 ^ 8) (out_byte ctl high s))))
      ≡ true
sent_low ctl data_port high low_port x y s h l before =
    out_byte-low data_port (y % 2 ^ 8) _ (byte_low y) (
      out_byte-low ctl low_port _ l
        (out_byte-low data_port (x % 2 ^ 8) _ (byte_low x) (out_byte-low ctl high s h before)))

-- An operation that writes to low ports only.
abbrev KeepsLow : (Display → Display) → Type 0
KeepsLow f = (d : Display) → low d.screen ≡ true → low (f d).screen ≡ true

set_console_origin_low : KeepsLow set_console_origin
unfolding set_console_origin
set_console_origin_low d h =
    let v = d.screen.video in
    let address = add32 d.console.start_mem_addr (mul32 d.console.top v.row_size) in
    sent_low v.ctl_reg v.data_reg 12 13 (address / 2 ^ 8) address d.screen refl refl h

set_console_cursor_low : KeepsLow set_console_cursor
unfolding set_console_cursor
set_console_cursor_low d h =
    let v = d.screen.video in
    let pos = d.console.cursor_pos in
    sent_low v.ctl_reg v.data_reg 14 15 (pos / 2 / 2 ^ 8) (pos / 2) d.screen refl refl h

scroll_up_low : KeepsLow scroll_up
unfolding scroll_up shift_rows
scroll_up_low d h =
    elim (Bool-cases (
      ltb (sub32 (d.console.mem_size / d.screen.video.row_size) d.screen.video.rows_per_page)
        (add32 d.console.top 1))) [
          | inl over ↦ rw over (set_console_origin_low _ h)
          | inr within ↦ rw within (set_console_origin_low _ h)
        ]

video_mem_move_up_low : KeepsLow video_mem_move_up
unfolding video_mem_move_up shift_rows
video_mem_move_up_low d h = set_console_cursor_low _ h

lf_low : KeepsLow lf
unfolding lf
lf_low d h =
    elim (Bool-cases (
      ltb (gety d.screen.video d.console.cursor_pos 1)
        (add32 d.console.top d.screen.video.rows_per_page))) [
          | inl within ↦ rw within (set_console_cursor_low _ h)
          | inr over ↦ rw over (scroll_up_low d h)
        ]

cr_low : KeepsLow cr
unfolding cr
cr_low d h = set_console_cursor_low _ h

put_char_low : (ch : ℕ) → KeepsLow (put_char ch)
unfolding put_char
put_char_low ch d h = set_console_cursor_low _ h

insert_char_low : (ch : ℕ) → KeepsLow (insert_char ch)
unfolding insert_char
insert_char_low ch d h = elim (Bool-cases (leb 0x20 ch && ltb ch 0x80)) [
  | inl printable ↦
      elim (Bool-cases (
        leb (add32 d.console.start_mem_addr d.console.mem_size)
          (add32 d.console.current_mem_addr 2))) [
            | inl full ↦ rw (printable, full) (put_char_low ch _ (video_mem_move_up_low d h))
            | inr room ↦ rw (printable, room) (put_char_low ch d h)
          ]
  | inr other ↦ rw other h
]

delete_char_low : KeepsLow delete_char
unfolding delete_char
delete_char_low d h =
    elim (Bool-cases (leb (add32 d.console.start_mem_addr 2) d.console.cursor_pos)) [
      | inl behind ↦ rw behind h
      | inr front ↦ rw front h
    ]

insert_spaces_low : (n : ℕ) → KeepsLow (insert_spaces n)
unfolding insert_spaces
insert_spaces_low zero d h = h
insert_spaces_low (suc n) d h = insert_spaces_low n (insert_char 0x20 d) (insert_char_low 0x20 d h)

show_low : (ch : ℕ) → KeepsLow (show ch)
unfolding show
show_low ch d h = elim (Bool-cases (ch == b'\t')) [
  | inl tab ↦ rw tab (insert_spaces_low 8 d h)
  | inr a ↦ elim (Bool-cases (ch == 8)) [
    | inl back ↦ rw (a, back) (delete_char_low d h)
    | inr b ↦ elim (Bool-cases (ch == b'n')) [
      | inl line ↦ rw (a, b, line) (lf_low (cr d) (cr_low d h))
      | inr c ↦ rw (a, b, c) (insert_char_low ch d h)
    ]
  ]
]

-- The screen that a run of `console_write` leaves; the given one if there is none.
abbrev pub left : Screen → Option (Tty × Screen) → Screen
left s none = s
left s (some result) = result.1

left_low :
    (s s' : Screen) (o : Option (Tty × Screen))
    → low s ≡ true
    → low (left s' o) ≡ true
    → low (left s o) ≡ true
left_low s s' none h h' = h
left_low s s' (some result) h h' = h'

-- If all port writes so far went to ports below 256, then so did all when `console_write` returns,
-- whatever the keys are; without a result nothing is stated.
pub console_write-low :
    (fuel : ℕ) (tty : Tty) (s : Screen)
    → low s ≡ true
    → low (left s (console_write fuel tty s)) ≡ true
console_write-low zero tty s h = ap (λ o. low (left s o)) (console_write-out tty s) ∙ h
console_write-low (suc fuel) tty s h = elim (Bool-cases (next_char tty == 0)) [
  | inl last ↦ ap (λ o. low (left s o)) (console_write-stops fuel tty s last) ∙ h
  | inr more ↦
      ap (λ o. low (left s o)) (console_write-next fuel tty s more)
      ∙ left_low s (shown tty s).screen (console_write fuel (after tty s) (shown tty s).screen) h (
          console_write-low fuel (after tty s) (shown tty s).screen (
            show_low (next_char tty)
              (record { console = (get_char_from_write tty).1.console; screen = s }) h))
]
