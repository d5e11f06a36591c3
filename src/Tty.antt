-- ===== src/Tty.antt =====
-- The queues of kernel/chr/tty.c with the structures of include/tty.h and include/console.h.
-- A pointer into a queue's array is its index, and NULL is `none`.
pub mod Queue
pub mod Keys
pub mod Lost
pub mod Table
mod Tests
use lychee_os.Base.{
  ℕ, zero, suc, ◌+◌, ◌-◌, ◌/◌, ◌%◌, ◌^◌, Bool, true, false, Option, none, some, List, [], ◌∷◌, not,
  ltb, leb, ◌==◌, if◌then◌else◌, get_or, set, u32_mod,
}

abbrev pub tty_buffer_size : ℕ
tty_buffer_size = 1024

abbrev pub nr_tty : ℕ
nr_tty = 4

abbrev pub key_tab : ℕ
key_tab = 0x82

abbrev pub key_enter : ℕ
key_enter = 0x83

abbrev pub key_backspace : ℕ
key_backspace = 0x84

-- `p_head` and `p_tail` with the count and the array. Through NULL a key goes to the start of the memory or
-- comes from there: `astray` tells that this has happened, and from then on the other fields but the
-- count say nothing.
pub record TtyBuffer : Type 0 where
  pub head : Option ℕ
  pub tail : Option ℕ
  pub count : ℕ
  pub buffer : List ℕ
  pub astray : Bool

pub record Console : Type 0 where
  pub start_mem_addr : ℕ
  pub current_mem_addr : ℕ
  pub mem_size : ℕ
  pub cursor_pos : ℕ
  pub top : ℕ

-- Each terminal has a console of its own, so the pointer is the console itself. The field `write`
-- is the same function in every terminal.
pub record Tty : Type 0 where
  pub output_flags : ℕ
  pub input_flags : ℕ
  pub ctl_flags : ℕ
  pub pid : ℕ
  pub read_buffer : TtyBuffer
  pub write_buffer : TtyBuffer
  pub console : Console

-- `if(p == buffer + TTY_BUFFER_SIZE) p = buffer` after `p ++`.
abbrev pub advance : ℕ → ℕ
advance i = if i + 1 == tty_buffer_size then 0 else i + 1

-- `*(p_head ++) = key` and the wrap, before the count is raised.
unfoldable pub store_key : TtyBuffer → ℕ → TtyBuffer
store_key b key = elim (b.head) [
  | none ↦ record b { astray = true }
  | some h ↦ record b { buffer = set b.buffer h key; head = some (advance h) }
]

-- `key = *(p_tail ++)` and the wrap; the key that is read through NULL stands as 0.
unfoldable pub load_key : TtyBuffer → ℕ × TtyBuffer
load_key b = elim (b.tail) [
  | none ↦ (0, record b { astray = true })
  | some t ↦ (get_or b.buffer t 0, record b { tail = some (advance t) })
]

-- The first statement of both functions that put a key.
unfoldable pub put : TtyBuffer → ℕ → TtyBuffer
put b key =
    if ltb b.count tty_buffer_size then record (store_key b key) { count = b.count + 1 } else b

-- The first statement of both functions that get one; 0 stands for no key.
unfoldable pub get : TtyBuffer → ℕ × TtyBuffer
get b =
    let (key, b') = load_key b in
    if ltb 0 b.count then (key, record b' { count = b.count - 1 }) else (0, b)

-- `key & KEYMASK_EXT`
abbrev pub is_ext : ℕ → Bool
is_ext key = key / 2 ^ 7 % 2 == 1

-- A `char` is signed: converted to `u32` it is extended by its sign.
abbrev pub char_to_u32 : ℕ → ℕ
char_to_u32 c = if ltb (c % 2 ^ 8) 128 then c % 2 ^ 8 else c % 2 ^ 8 + (u32_mod - 256)

unfoldable pub put_key_to_tty_write : Tty → ℕ → Tty
put_key_to_tty_write tty key = record tty { write_buffer = put tty.write_buffer key }

unfoldable pub put_char_to_tty_write : Tty → ℕ → Tty
put_char_to_tty_write tty c = put_key_to_tty_write tty (char_to_u32 c)

-- `TTL_CTL_ECHO` is bit 0.
unfoldable pub put_key_to_tty_read : Tty → ℕ → Tty
put_key_to_tty_read tty key =
    let tty' = record tty { read_buffer = put tty.read_buffer key } in
    if tty.ctl_flags % 2 == 1
    then (if is_ext key then tty' else put_char_to_tty_write tty' key)
    else tty'

unfoldable pub get_key_from_tty_read : Tty → ℕ × Tty
get_key_from_tty_read tty =
    let (key, b) = get tty.read_buffer in (key, record tty { read_buffer = b })

-- The `switch` of `get_char_from_write`; the case of TAB has no `break`.
unfoldable pub key_to_char : ℕ → ℕ
key_to_char key =
    if not (is_ext key)
    then key % 2 ^ 7
    else if key % 2 ^ 8 == key_enter
    then b'\n'
    else if key % 2 ^ 8 == key_tab
    then 8
    else if key % 2 ^ 8 == key_backspace
    then 8
    else 0

unfoldable pub get_char_from_write : Tty → ℕ × Tty
get_char_from_write tty =
    let (key, b) = get tty.write_buffer in (key_to_char key, record tty { write_buffer = b })

-- `while(!(key = get_key_from_tty_read(tty)));` on fuel. `others` is what the rest of the system
-- does to the terminal before the next round.
unfoldable pub wait_key : (Tty → Tty) → ℕ → Tty → Option (ℕ × Tty)
wait_key others zero tty = none
wait_key others (suc fuel) tty =
    let (key, tty') = get_key_from_tty_read tty in
    let again = wait_key others fuel (others tty') in if key == 0 then again else some (key, tty')

-- The characters that land in `buffer`, in order; `fuel` bounds each wait.
unfoldable pub tty_read : (Tty → Tty) → ℕ → Tty → ℕ → Option (List ℕ × Tty)
tty_read others fuel tty zero = some ([], tty)
tty_read others fuel tty (suc len) = elim (wait_key others fuel tty) [
  | none ↦ none
  | some (key, tty') ↦ elim (tty_read others fuel tty' len) [
    | none ↦ none
    | some (cs, tty'') ↦ some (key % 2 ^ 7 % 2 ^ 8 ∷ cs, tty'')
  ]
]
