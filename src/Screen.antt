-- ===== src/Screen.antt =====
-- The console: kernel/chr/console.c with the constants of include/const.h, on the terminals of Tty.
-- `unsigned int` arithmetic wraps; `disable_int` and `enable_int` are left out, as the operations run to
-- their end. A row of text is not empty, as the code divides by its size.
pub mod Editing
pub mod Copies
pub mod Rows
pub mod Ports
pub mod Steps
pub mod Text
pub mod Start
mod Tests
use lychee_os.Base.{
  ℕ, zero, suc, ◌+◌, ◌-◌, ◌*◌, ◌/◌, ◌%◌, ◌^◌, Bool, true, false, ◌&&◌, ◌||◌, Option, none, some,
  List, [], ◌∷◌, ◌++◌, ltb, leb, ◌==◌, if◌then◌else◌, u32_mod, add32, sub32, mul32,
}
use lychee_os.Tty.{Console, Tty, get_char_from_write}

abbrev pub nr_console : ℕ
nr_console = 4

abbrev pub mono_mem_start : ℕ
mono_mem_start = 0xb0000

abbrev pub crt_mem_start : ℕ
crt_mem_start = 0xb8000

abbrev pub video_start_addr_h : ℕ
video_start_addr_h = 0xC

abbrev pub video_start_addr_l : ℕ
video_start_addr_l = 0xD

abbrev pub video_cursor_h : ℕ
video_cursor_h = 0xE

abbrev pub video_cursor_l : ℕ
video_cursor_l = 0xF

-- The variables of the file.
pub record Video : Type 0 where
  pub video_type : ℕ
  pub rows_per_page : ℕ
  pub cols_per_page : ℕ
  pub char_size : ℕ
  pub row_size : ℕ
  pub mem_start : ℕ
  pub video_mem_size : ℕ
  pub ctl_reg : ℕ
  pub data_reg : ℕ
  pub erase_char : ℕ
  pub char_attr : ℕ

-- The memory by bytes, and the port writes in order as (port, value).
pub record Screen : Type 0 where
  pub video : Video
  pub memory : ℕ → ℕ
  pub writes : List (ℕ × ℕ)

-- A console and the screen: what an operation takes and leaves.
pub record Display : Type 0 where
  pub console : Console
  pub screen : Screen

abbrev pub poke : ℕ → ℕ → (ℕ → ℕ) → ℕ → ℕ
poke address byte memory a = if a == address then byte else memory a

-- `rep movsb`: `count` bytes one by one from the source register to the target register.
unfoldable pub movsb : (count si di : ℕ) → (ℕ → ℕ) → ℕ → ℕ
movsb zero si di memory = memory
movsb (suc count) si di memory = movsb count (add32 si 1) (add32 di 1) (poke di (memory si) memory)

-- `memcpy` of oslib/string.asm loads `dst` into the source register and `src` into the target
-- register, and its test `jle` takes the count as signed.
unfoldable pub memcpy : (dst src count : ℕ) → (ℕ → ℕ) → ℕ → ℕ
memcpy dst src count memory = if ltb count (2 ^ 31) then movsb count dst src memory else memory

-- `rep stosb`.
unfoldable pub memset : (s c count : ℕ) → (ℕ → ℕ) → ℕ → ℕ
memset s c zero memory = memory
memset s c (suc count) memory = memset (add32 s 1) c count (poke s (c % 2 ^ 8) memory)

-- `out_byte(value,port)`.
unfoldable pub out_byte : (value port : ℕ) → Screen → Screen
out_byte value port s = record s { writes = s.writes ++ ((port % 2 ^ 16, value % 2 ^ 8) ∷ []) }

unfoldable pub set_console_origin : Display → Display
set_console_origin d =
    let c = d.console in
    let v = d.screen.video in
    let address = add32 c.start_mem_addr (mul32 c.top v.row_size) in
    let s1 = out_byte v.ctl_reg video_start_addr_h d.screen in
    let s2 = out_byte v.data_reg (address / 2 ^ 8 % 2 ^ 8) s1 in
    let s3 = out_byte v.ctl_reg video_start_addr_l s2 in
    record d { screen = out_byte v.data_reg (address % 2 ^ 8) s3 }

unfoldable pub set_current_console : Tty → Screen → Screen
unfolding set_console_origin
set_current_console tty s =
    (set_console_origin (record { console = tty.console; screen = s })).screen

-- `int pos`: the positions are below 2^31.
unfoldable pub set_console_cursor : Display → Display
set_console_cursor d =
    let pos = d.console.cursor_pos in
    let v = d.screen.video in
    let s1 = out_byte v.ctl_reg video_cursor_h d.screen in
    let s2 = out_byte v.data_reg (pos / 2 / 2 ^ 8 % 2 ^ 8) s1 in
    let s3 = out_byte v.ctl_reg video_cursor_l s2 in
    record d { screen = out_byte v.data_reg (pos / 2 % 2 ^ 8) s3 }

unfoldable pub getx : Video → (base cursor_pos : ℕ) → ℕ
getx v base cursor_pos = cursor_pos % v.row_size / 2

unfoldable pub gety : Video → (base cursor_pos : ℕ) → ℕ
gety v base cursor_pos = sub32 cursor_pos base / v.row_size

abbrev pub move_cursor : ℕ → Display → Display
move_cursor pos d = record d { console = record (d.console) { cursor_pos = pos } }

abbrev pub set_memory : ((ℕ → ℕ) → ℕ → ℕ) → Display → Display
set_memory change d = record d { screen = record (d.screen) { memory = change d.screen.memory } }

-- The `memcpy` and `memset` of `scroll_up` and `video_mem_move_up`.
unfoldable pub shift_rows : Display → Display
shift_rows d =
    let c = d.console in
    let row = d.screen.video.row_size in
    set_memory (memset (sub32 (add32 c.start_mem_addr c.mem_size) row) 0 row)
      (set_memory (memcpy c.start_mem_addr (add32 c.start_mem_addr row) (sub32 c.mem_size row)) d)

unfoldable pub scroll_up : Display → Display
scroll_up d =
    let v = d.screen.video in
    let d1 = record d { console = record (d.console) { top = add32 d.console.top 1 } } in
    let last_top = sub32 (d.console.mem_size / v.row_size) v.rows_per_page in
    set_console_origin (if ltb last_top d1.console.top then shift_rows d1 else d1)

-- `top` is unsigned, so the test `console->top < 0` fails.
unfoldable pub scroll_down : Display → Display
scroll_down d =
    let top = sub32 d.console.top 1 in
    set_console_origin
      (record d { console = record (d.console) { top = if ltb top 0 then 0 else top } })

unfoldable pub video_mem_move_up : Display → Display
video_mem_move_up d =
    let d1 = shift_rows d in
    let c = d1.console in
    let row = d1.screen.video.row_size in
    set_console_cursor (record d1 {
      console = record c {
        current_mem_addr = sub32 c.current_mem_addr row;
        cursor_pos = sub32 c.cursor_pos row;
        top = sub32 c.top 1;
      };
    })

-- `for(i = 0 ; i < x - (top + video_rows_per_page) ; i ++) scroll_up(console);` on fuel.
unfoldable pub scroll_up_to : (fuel x i : ℕ) → Display → Option Display
scroll_up_to zero x i d = none
scroll_up_to (suc fuel) x i d =
    let bound = sub32 x (add32 d.console.top d.screen.video.rows_per_page) in
    let rest = scroll_up_to fuel x (i + 1) (scroll_up d) in if ltb i bound then rest else some d

-- `for(i = 0 ; i < console->top - x + 1 ; i ++) scroll_down(console);` on fuel.
unfoldable pub scroll_down_to : (fuel x i : ℕ) → Display → Option Display
scroll_down_to zero x i d = none
scroll_down_to (suc fuel) x i d =
    let bound = add32 (sub32 d.console.top x) 1 in
    let rest = scroll_down_to fuel x (i + 1) (scroll_down d) in if ltb i bound then rest else some d

-- `x` is the row. The second test on `current_mem_addr` comes after the return of the first.
unfoldable pub gotoxy : (fuel x y : ℕ) → Display → Option Display
gotoxy fuel x y d =
    let c = d.console in
    let v = d.screen.video in
    let mem = add32 (add32 c.start_mem_addr (mul32 x v.row_size)) (mul32 y v.char_size) in
    let moved = set_console_cursor (move_cursor mem d) in
    if ltb c.current_mem_addr mem
    then some d
    else if leb mem (add32 c.start_mem_addr c.mem_size)
    then (if ltb (add32 c.top v.rows_per_page) x
        then scroll_up_to fuel x 0 moved
        else if ltb x c.top
        then scroll_down_to fuel x 0 moved
        else some moved)
    else some d
