-- ===== src/Keyboard/Locks.antt =====
-- The end of keyboard_read of kernel/chr/keyboard.c, from the switch on the key on.
use Prim.Native.Nat.{bit_and, bit_or}
use lychee_os.Base.{
  ℕ, ◌%◌, ◌-◌, ◌^◌, Bool, true, ◌&&◌, ◌||◌, not, none, some, List, [], ◌∷◌, leb, ◌==◌,
  if◌then◌else◌, get_elem?, sub32,
}
use lychee_os.Keyboard.{
  Keyboard, Act, ◌>>=◌, ◌>>◌, pure, keyboard, set_keyboard, set_leds, sys_key_process, bit_of,
}

abbrev pub shift_l : ℕ
shift_l = 0x88

abbrev pub shift_r : ℕ
shift_r = 0x89

abbrev pub ctrl_l : ℕ
ctrl_l = 0x8A

abbrev pub ctrl_r : ℕ
ctrl_r = 0x8B

abbrev pub alt_l : ℕ
alt_l = 0x8C

abbrev pub alt_r : ℕ
alt_r = 0x8D

abbrev pub caps_lock : ℕ
caps_lock = 0x8E

abbrev pub num_lock : ℕ
num_lock = 0x8F

abbrev pub scroll_lock : ℕ
scroll_lock = 0x90

abbrev pub printscreen : ℕ
printscreen = 0x9D

abbrev pub pausebreak : ℕ
pausebreak = 0x9E

abbrev pub numpad_dot : ℕ
numpad_dot = 0xB1

abbrev pub numpad_9 : ℕ
numpad_9 = 0xBB

abbrev pub keymask_ext : ℕ
keymask_ext = 0x80

abbrev pub keymask_maked : ℕ
keymask_maked = 0x10000000

abbrev pub when : Bool → Act (Unit {0}) → Act (Unit {0})
when test act = if test then act else pure tt

-- ENTER is 0x83.
abbrev pub numpad_map : List ℕ
numpad_map =
    b'/' ∷ b'*' ∷ b'-' ∷ b'+' ∷ 0x83 ∷ b'.' ∷ b'0' ∷ b'1' ∷ b'2' ∷ b'3' ∷ b'4' ∷ b'5' ∷ b'6' ∷ b'7'
    ∷ b'8' ∷ b'9' ∷ []

-- One lock turned over, and the lights.
abbrev pub toggle : (Keyboard → Keyboard) → Act (Unit {0})
toggle turn = do set_keyboard turn; set_leds

abbrev pub held : (Keyboard → Keyboard) → (key : ℕ) → Act ℕ
held set key = do set_keyboard set; pure key

-- The `switch (keyrow[col])`; the cases of the locks fall through to the default.
unfoldable pub choose_key : (make : Bool) (code key : ℕ) → Act ℕ
choose_key make code key =
    if code == shift_l
    then held (λ k. record k { shift_l = true }) key
    else if code == shift_r
    then held (λ k. record k { shift_r = true }) key
    else if code == ctrl_l
    then held (λ k. record k { ctrl_l = true }) key
    else if code == ctrl_r
    then held (λ k. record k { ctrl_r = true }) key
    else if code == alt_l
    then held (λ k. record k { alt_l = true }) key
    else if code == alt_r
    then held (λ k. record k { alt_r = true }) key
    else (do
      let caps = code == caps_lock
      let num = caps || (code == num_lock)
      when (caps && make) (toggle (λ k. record k { caps_lock = not k.caps_lock }))
      when (num && make) (toggle (λ k. record k { num_lock = not k.num_lock }))
      when ((num || (code == scroll_lock)) && make)
          (toggle (λ k. record k { scroll_lock = not k.scroll_lock }))
      pure code)

-- `key` on a keypad with `num_lock`; an index behind `numpad_map` is out of bounds.
unfoldable pub numpad_key : (num : Bool) (key : ℕ) → Act ℕ
numpad_key num key d =
    let ext = bit_and key keymask_ext in
    if num && leb numpad_dot ext && leb ext numpad_9
    then elim (get_elem? numpad_map (sub32 (key % 2 ^ 8) 0x2C)) [
      | none ↦ none
      | some c ↦ some (bit_or (key - key % 2 ^ 8) c, d)
    ]
    else some (key, d)

abbrev pub mark : Bool → (mask key : ℕ) → ℕ
mark test mask key = if test then bit_or key mask else key

-- `key & KEYMASK_EXT == code`, where `==` binds tighter.
abbrev pub is_key : (code key : ℕ) → Bool
is_key code key = not (bit_and key (bit_of (keymask_ext == code)) == 0)

-- The marks of the locks and the modifiers, from the first test on.
unfoldable pub marked : Keyboard → (make : Bool) (key : ℕ) → ℕ
marked k make key =
    let key1 = mark (is_key pausebreak key) 0x80000000 key in
    let key2 = mark (is_key printscreen key1) 0x40000000 key1 in
    let key3 =
      mark k.caps_lock 0x08000000
        (mark k.num_lock 0x20000000 (mark k.scroll_lock 0x04000000 key2)) in
    let key4 = mark k.ctrl_l 0x0800 (mark k.shift_r 0x0400 (mark k.shift_l 0x0200 key3)) in
    mark make keymask_maked (mark k.alt_r 0x4000 (mark k.alt_l 0x2000 (mark k.ctrl_r 0x1000 key4)))

-- What is behind the switch: the key with its marks goes to the terminal.
unfoldable pub deliver : (make : Bool) (key : ℕ) → Act (Unit {0})
deliver make key = do
  k ← keyboard
  key' ← numpad_key k.num_lock key
  if key' == 0 then pure tt else sys_key_process (marked k make key')
