-- ===== src/Keyboard/Keys.antt =====
-- keyboard_read of kernel/chr/keyboard.c.
use lychee_os.Base.{
  ℕ, ◌+◌, ◌*◌, ◌%◌, ◌-◌, ◌^◌, Bool, true, false, none, ◌&&◌, ◌||◌, not, List, [], ◌∷◌, leb, ◌==◌,
  if◌then◌else◌, get_or,
}
use lychee_os.Keyboard.{
  Keyboard, Act, ◌>>=◌, ◌>>◌, pure, keyboard, set_keyboard, sys_key_process, bit_of,
}
use lychee_os.Keyboard.Keymap.{keymap}
use lychee_os.Keyboard.Locks.{
  shift_l, shift_r, ctrl_l, ctrl_r, alt_l, alt_r, printscreen, pausebreak, keymask_maked, when,
  choose_key, deliver,
}

-- The bits of a key that a modifier sets, KEYMASK_SHIFT_L to KEYMASK_ALT_R.
abbrev pub mask_of : ℕ → ℕ
mask_of key = 2 ^ (9 + (key - shift_l))

-- `sys_key_process(tty,KEYMASK_MAKED | KEYMASK_.. | key)`, and the same without KEYMASK_MAKED.
abbrev pub send_make : ℕ → Act (Unit {0})
send_make key = sys_key_process (keymask_maked + mask_of key + key)

abbrev pub send_break : ℕ → Act (Unit {0})
send_break key = sys_key_process (mask_of key + key)

-- One of the tests when a key is released; all but the first clear the flag of the right shift key.
abbrev pub release : (key : ℕ) → (test : Bool) → (Keyboard → Keyboard) → Act (Unit {0})
release key test clear = when test (do set_keyboard clear; send_make key; send_break key)

abbrev pub no_shift_l : Keyboard → Keyboard
no_shift_l k = record k { shift_l = false }

abbrev pub no_shift_r : Keyboard → Keyboard
no_shift_r k = record k { shift_r = false }

-- The last test compares with the flag of the right alt key.
unfoldable pub released : (code : ℕ) → Act (Unit {0})
released code = do
  release shift_l (code == shift_l) no_shift_l
  release shift_r (code == shift_r) no_shift_r
  release ctrl_l (code == ctrl_l) no_shift_r
  release ctrl_r (code == ctrl_r) no_shift_r
  release alt_l (code == alt_l) no_shift_r
  k ← keyboard
  release alt_r (code == bit_of k.alt_r) no_shift_r

unfoldable pub pressed : (code : ℕ) → Act (Unit {0})
pressed code = do
  k ← keyboard
  when (k.shift_l && (code == shift_l)) (send_make shift_l)
  when (k.shift_r && (code == shift_r)) (send_make shift_r)
  when (k.ctrl_l && (code == ctrl_l)) (send_make ctrl_l)
  when (k.ctrl_r && (code == ctrl_r)) (send_make ctrl_r)
  when (k.alt_l && (code == alt_l)) (send_make alt_l)
  when (k.alt_r && (code == alt_r)) (send_make alt_r)

-- The comparison of the next bytes with a sequence: the first difference ends it. The last byte read
-- comes along.
unfoldable pub matches : (read_byte : Act ℕ) → List ℕ → (last : ℕ) → Act (Bool × ℕ)
matches read_byte [] last = pure (true, last)
matches read_byte (code ∷ codes) last = do
  scan_code ← read_byte
  if scan_code == code then matches read_byte codes scan_code else pure (false, scan_code)

-- What the first bytes decide: `key`, `scan_code` and `E0`. Behind 0xE0 both sequences are read, one
-- after the other.
unfoldable pub decode : (read_byte : Act ℕ) → (scan_code : ℕ) → Act (ℕ × ℕ × Bool)
decode read_byte scan_code =
    if scan_code == 0xE1
    then (do
      end ← matches read_byte (0x1D ∷ 0x45 ∷ 0xE1 ∷ 0x9D ∷ 0xC5 ∷ []) scan_code
      pure (if end.0 then 0x80000000 + pausebreak + keymask_maked else 0, end.1, false))
    else if scan_code == 0xE0
    then (do
      next ← read_byte
      make ← matches read_byte (0x2A ∷ 0xE0 ∷ 0x37 ∷ []) next
      break ← matches read_byte (0xB7 ∷ 0xE0 ∷ 0xAA ∷ []) next
      let key =
          if make.0
          then 0x40000000 + printscreen + keymask_maked
          else if break.0
          then 0x40000000 + printscreen
          else 0
      pure (key, next, key == 0))
    else pure (0, scan_code, false)

-- The key of a scan code in the row and the column that the flags choose.
unfoldable pub code_of : Keyboard → (scan_code : ℕ) → (e0 : Bool) → ℕ
code_of k scan_code e0 =
    let row = scan_code % 2 ^ 7 * 3 in
    let first = get_or keymap row 0 in
    let shift = k.shift_l || k.shift_r in
    let caps = if k.caps_lock && leb b'a' first && leb first b'z' then not shift else shift in
    get_or keymap (row + (if e0 then 2 else if caps then 1 else 0)) 0

-- A variable that is read before it is set.
abbrev unset : Act (Unit {0})
unset d = none

-- The branch of `keyboard_read` for every key but PAUSEBREAK and PRINTSCREEN. Both tests of `make`
-- return.
unfoldable pub ordinary_key : (key last : ℕ) (e0 : Bool) → Act (Unit {0})
ordinary_key key last e0 = do
  k ← keyboard
  let code = code_of k last e0
  let make = not (leb 128 last)
  if not make
      then released code
      else if make
      then pressed code
      else choose_key make code key >>= deliver make

-- `keyboard_read` from the first byte on. Without the branch `make` would not be set.
unfoldable pub act_on : (read_byte : Act ℕ) → (scan_code : ℕ) → Act (Unit {0})
act_on read_byte scan_code = do
  (key, last, e0) ← decode read_byte scan_code
  if not (key % 2 ^ 8 == pausebreak) || not (key % 2 ^ 8 == printscreen)
      then ordinary_key key last e0
      else unset

-- `read_byte` stands for `read_byte_from_keyboard`, which nothing declares.
unfoldable pub keyboard_read : (read_byte : Act ℕ) → Act (Unit {0})
keyboard_read read_byte = do
  k ← keyboard
  if k.count == 0 then pure tt else read_byte >>= act_on read_byte
