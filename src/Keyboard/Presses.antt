-- ===== src/Keyboard/Presses.antt =====
-- What a scan code brings to the terminal.
use lychee_os.Base.{
  ℕ, ◌%◌, ◌^◌, ◌-◌, ◌≡◌, refl, ap, ◌∙◌, inl, inr, Bool, false, ◌&&◌, ◌||◌, some, leb, ◌==◌, get_or,
  Bool-cases, arith,
}
use lychee_os.Keyboard.{Keyboard, Desk, Act, and_then, advance, read_byte_form_keyboard}
use lychee_os.Keyboard.Locks.{shift_l, shift_r, ctrl_l, ctrl_r, alt_l}
use lychee_os.Keyboard.Keys.{
  released, pressed, decode, code_of, ordinary_key, act_on, keyboard_read,
}

-- No modifier is held, as after `init_keyboard`.
pub record IsIdle (k : Keyboard) : Type 0 where
  pub shift_left : k.shift_l ≡ false
  pub shift_right : k.shift_r ≡ false
  pub ctrl_left : k.ctrl_l ≡ false
  pub ctrl_right : k.ctrl_r ≡ false
  pub alt_left : k.alt_l ≡ false
  pub alt_right : k.alt_r ≡ false

abbrev pub popped : Keyboard → Keyboard
popped k = record k { tail = advance k.tail; count = k.count - 1 }

abbrev pub next_code : Keyboard → ℕ
next_code k = get_or k.buffer k.tail 0 % 2 ^ 8

-- The keys whose release is passed on: five modifiers, and every key without an entry in the map.
abbrev pub is_passed : ℕ → Bool
is_passed code =
    (code == shift_l)
    || (code == shift_r)
    || (code == ctrl_l)
    || (code == ctrl_r)
    || (code == alt_l)
    || (code == 0)

read_byte-some :
    (arrivals : Keyboard → Keyboard) (d : Desk)
    → (d.keyboard.count == 0) ≡ false
    → read_byte_form_keyboard arrivals d
      ≡ some (next_code d.keyboard, record d { keyboard = popped (d.keyboard) })
unfolding read_byte_form_keyboard
read_byte-some arrivals d h = rw (h, h) refl

pressed-idle : (code : ℕ) (d : Desk) → IsIdle d.keyboard → pressed code d ≡ some (tt, d)
unfolding pressed
pressed-idle code d idle =
    rw
      (
        idle.shift_left, idle.shift_right, idle.ctrl_left, idle.ctrl_right, idle.alt_left,
        idle.alt_right,
      )
      refl

released-idle :
    (code : ℕ) (d : Desk)
    → IsIdle d.keyboard
    → is_passed code ≡ false
    → released code d ≡ some (tt, d)
unfolding released
released-idle code d idle other =
    let t1 : (code == shift_l) ≡ false = ground arith in
    let t2 : (code == shift_r) ≡ false = ground arith in
    let t3 : (code == ctrl_l) ≡ false = ground arith in
    let t4 : (code == ctrl_r) ≡ false = ground arith in
    let t5 : (code == alt_l) ≡ false = ground arith in
    let t6 : (code == 0) ≡ false = ground arith in rw (t1, t2, t3, t4, t5, idle.alt_right, t6) refl

popped-IsIdle : (k : Keyboard) → IsIdle k → IsIdle (popped k)
popped-IsIdle k idle = record {
  shift_left = idle.shift_left;
  shift_right = idle.shift_right;
  ctrl_left = idle.ctrl_left;
  ctrl_right = idle.ctrl_right;
  alt_left = idle.alt_left;
  alt_right = idle.alt_right;
}

act_on-plain :
    (read_byte : Act ℕ) (c : ℕ) (d : Desk)
    → IsIdle d.keyboard
    → (c == 0xE0) ≡ false
    → (c == 0xE1) ≡ false
    → (leb 128 c && is_passed (code_of d.keyboard c false)) ≡ false
    → act_on read_byte c d ≡ some (tt, d)
unfolding act_on decode ordinary_key
act_on-plain read_byte c d idle no_e0 no_e1 other = elim (Bool-cases (leb 128 c)) [
  | inl break ↦
      rw (act_on, decode, no_e1, no_e0, ordinary_key, break)
        (released-idle (code_of d.keyboard c false) d idle (rw break at other))
  | inr make ↦
      rw (act_on, decode, no_e1, no_e0, ordinary_key, make)
        (pressed-idle (code_of d.keyboard c false) d idle)
]

-- While no modifier is held, for a scan code in the buffer that is none of the prefixes 0xE0 and 0xE1:
-- `keyboard_read` takes it out and passes no key to the terminal, whichever of these keys is pressed, and
-- for every release but that of five modifiers and of keys without an entry in the map. The flags of the modifiers and the locks, the
-- terminal and the lights stay as they are.
pub keyboard_read_lem :
    (arrivals : Keyboard → Keyboard) (d : Desk)
    → IsIdle d.keyboard
    → (d.keyboard.count == 0) ≡ false
    → (next_code d.keyboard == 0xE0) ≡ false
    → (next_code d.keyboard == 0xE1) ≡ false
    → (leb 128 (next_code d.keyboard)
        && is_passed (code_of (popped (d.keyboard)) (next_code d.keyboard) false))
      ≡ false
    → keyboard_read (read_byte_form_keyboard arrivals) d
      ≡ some (tt, record d { keyboard = popped (d.keyboard) })
unfolding keyboard_read
keyboard_read_lem arrivals d idle some_code no_e0 no_e1 other =
    rw (keyboard_read, some_code)
      (ap (λ r. and_then r (act_on (read_byte_form_keyboard arrivals)))
          (read_byte-some arrivals d some_code)
        ∙ act_on-plain (read_byte_form_keyboard arrivals) (next_code d.keyboard)
            (record d { keyboard = popped (d.keyboard) }) (popped-IsIdle d.keyboard idle) no_e0
            no_e1 other)
