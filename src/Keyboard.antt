-- ===== src/Keyboard.antt =====
-- The keyboard: kernel/chr/keyboard.c with include/keyboard.h, and sys_key_process of kernel/chr/tty.c.
pub mod Arrivals
pub mod Keymap
pub mod Locks
pub mod Keys
pub mod Presses
pub mod Task
mod Tests
use Prim.Native.Nat.{bit_and, bit_or}
use lychee_os.Base.{
  ℕ, zero, suc, ◌+◌, ◌*◌, ◌/◌, ◌%◌, ◌-◌, ◌^◌, Bool, true, false, ◌&&◌, ◌||◌, not, Option, none,
  some, List, [], ◌∷◌, ◌++◌, ltb, leb, ◌==◌, if◌then◌else◌, get_or,
}
use lychee_os.Tty.{Tty, put_key_to_tty_read}

abbrev pub keyboard_buffer_size : ℕ
keyboard_buffer_size = 32

-- The variables of the file, with `kbuffer`, whose pointers are indices into its array.
pub record Keyboard : Type 0 where
  pub caps_lock : Bool
  pub num_lock : Bool
  pub scroll_lock : Bool
  pub shift_l : Bool
  pub shift_r : Bool
  pub ctrl_l : Bool
  pub ctrl_r : Bool
  pub alt_l : Bool
  pub alt_r : Bool
  pub head : ℕ
  pub tail : ℕ
  pub count : ℕ
  pub buffer : List ℕ

-- The keyboard, the terminal that gets the keys, the bytes that the ports 0x64 and 0x60 will yield, and
-- the port writes in order as (port, value).
pub record Desk : Type 0 where
  pub keyboard : Keyboard
  pub tty : Tty
  pub status : List ℕ
  pub answers : List ℕ
  pub writes : List (ℕ × ℕ)

-- `none` is a wait that does not end, a call through a pointer that is none, an index out of bounds, or
-- a variable that is read before it is set.
abbrev pub Act : Type 0 → Type 0
Act A = Desk → Option (A × Desk)

module _ {A B : Type 0} where
  abbrev pub and_then : Option (A × Desk) → (A → Act B) → Option (B × Desk)
  and_then none k = none
  and_then (some (x, d)) k = k x d

  infixl 5 ◌>>=◌ ◌>>◌
  abbrev pub ◌>>=◌ : Act A → (A → Act B) → Act B
  m >>= k = λ d. and_then (m d) k

  abbrev pub ◌>>◌ : Act A → Act B → Act B
  m >> n = m >>= λ _. n

abbrev pub pure : {A : Type 0} → A → Act A
pure x d = some (x, d)

abbrev pub keyboard : Act Keyboard
keyboard d = some (d.keyboard, d)

abbrev pub set_keyboard : (Keyboard → Keyboard) → Act (Unit {0})
set_keyboard f d = some (tt, record d { keyboard = f (d.keyboard) })

abbrev pub advance : ℕ → ℕ
advance p = if p + 1 == keyboard_buffer_size then 0 else p + 1

-- The scan code is compared with what lies at the head, `==` for `=`, and not stored.
unfoldable pub irq_keyboard_handler : (scan_code : ℕ) → Keyboard → Keyboard
irq_keyboard_handler scan_code k =
    if ltb k.count keyboard_buffer_size
    then record k { head = advance k.head; count = k.count + 1 }
    else k

-- `do state = in_byte(KEYBOARD_CTL); while(state & 0x02);` over the bytes that the port yields.
unfoldable pub keyboard_wait : List ℕ → Option (List ℕ)
keyboard_wait [] = none
keyboard_wait (state ∷ states) =
    let rest = keyboard_wait states in if state / 2 % 2 == 1 then rest else some states

-- The same until 0xFA.
unfoldable pub keyboard_wait_ack : List ℕ → Option (List ℕ)
keyboard_wait_ack [] = none
keyboard_wait_ack (state ∷ states) =
    let rest = keyboard_wait_ack states in if not (state == 0xFA) then rest else some states

abbrev pub bit_of : Bool → ℕ
bit_of b = if b then 1 else 0

-- `out` is a macro for nothing, so `out(KEYBOARD_DATA,0xED)` sends nothing. `out_byte` takes the value
-- first.
unfoldable pub set_leds : Act (Unit {0})
set_leds d =
    let k = d.keyboard in
    let leds = bit_of k.caps_lock * 2 ^ 2 + bit_of k.num_lock * 2 + bit_of k.scroll_lock in
    elim (keyboard_wait (d.status)) [
      | none ↦ none
      | some status ↦ elim (keyboard_wait_ack (d.answers)) [
        | none ↦ none
        | some answers ↦ some (
          tt,
          record d { status = status; answers = answers; writes = d.writes ++ ((leds, 0x60) ∷ []) },
        )
      ]
    ]

-- Without the installation of the interrupt.
unfoldable pub init_keyboard : Act (Unit {0})
init_keyboard = do
  set_keyboard (λ k. record k {
    shift_l = false;
    shift_r = false;
    ctrl_l = false;
    ctrl_r = false;
    alt_l = false;
    alt_r = false;
    head = 0;
    tail = 0;
    count = 0;
  })
  set_leds

-- `read_byte_form_keyboard`. The loop `while(kbuffer.count <= 0);` waits for an interrupt: `arrivals`
-- are those that come, and it does not end if none comes.
unfoldable pub read_byte_form_keyboard : (arrivals : Keyboard → Keyboard) → Act ℕ
read_byte_form_keyboard arrivals d =
    let k = if d.keyboard.count == 0 then arrivals d.keyboard else d.keyboard in
    let scan_code = get_or k.buffer k.tail 0 % 2 ^ 8 in
    if k.count == 0
    then none
    else some
        (scan_code, record d { keyboard = record k { tail = advance k.tail; count = k.count - 1 } })

abbrev pub key_f1 : ℕ
key_f1 = 0x91

abbrev pub key_f4 : ℕ
key_f4 = 0x94

-- `set_current_console` gets the number of a console for a pointer to a terminal: `none`. The tests for the
-- arrows are `key & (KEYMASK_KEY == UPARROW)`, that is `key & 0`, so the window is never moved.
unfoldable pub sys_key_process : (key : ℕ) → Act (Unit {0})
sys_key_process key d =
    let alt = (key / 2 ^ 13 % 2 == 1) || (key / 2 ^ 14 % 2 == 1) in
    if alt && leb key_f1 (key % 2 ^ 8) && leb (key % 2 ^ 8) key_f4
    then none
    else some (tt, record d { tty = put_key_to_tty_read d.tty key })
