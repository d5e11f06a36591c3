-- ===== src/Screen/Editing.antt =====
-- The operations of kernel/chr/console.c that edit the text, `console_write`, and `console_init`.
use lychee_os.Base.{
  ℕ, zero, suc, ◌+◌, ◌*◌, ◌/◌, ◌%◌, ◌^◌, ◌&&◌, Option, none, some, ltb, leb, ◌==◌, if◌then◌else◌,
  add32, sub32, mul32,
}
use lychee_os.Tty.{Console, Tty, get_char_from_write}
use lychee_os.Screen.{
  Video, Display, Screen, nr_console, mono_mem_start, crt_mem_start, poke, memcpy, memset,
  set_console_cursor, getx, gety, move_cursor, set_memory, scroll_up, scroll_down,
  video_mem_move_up,
}

-- The arguments of `gety` are the cursor for the base and 1 for the cursor.
unfoldable pub lf : Display → Display
lf d =
    let c = d.console in
    let row = d.screen.video.row_size in
    let pos = add32 c.cursor_pos row in
    let moved = record (move_cursor pos d) {
      console = record c {
        cursor_pos = pos;
        current_mem_addr = if ltb c.current_mem_addr pos then pos else c.current_mem_addr;
      };
    } in
    if ltb (gety d.screen.video c.cursor_pos 1) (add32 c.top d.screen.video.rows_per_page)
    then set_console_cursor moved
    else scroll_up d

unfoldable pub rlf : Display → Display
rlf d =
    let c = d.console in
    if ltb c.top (gety d.screen.video c.start_mem_addr c.cursor_pos)
    then set_console_cursor (move_cursor (sub32 c.cursor_pos d.screen.video.row_size) d)
    else scroll_down d

unfoldable pub cr : Display → Display
cr d =
    let c = d.console in
    let v = d.screen.video in
    set_console_cursor (
      move_cursor (sub32 c.cursor_pos (mul32 (getx v c.start_mem_addr c.cursor_pos) v.char_size)) d)

-- `*(u16 *)address = word`.
abbrev pub poke_word : ℕ → ℕ → (ℕ → ℕ) → ℕ → ℕ
poke_word address word memory =
    poke (add32 address 1) (word / 2 ^ 8 % 2 ^ 8) (poke address (word % 2 ^ 8) memory)

-- The body that `del` and `del_lf` share.
abbrev pub erase_before : Display → Display
erase_before d =
    let pos = sub32 d.console.cursor_pos 2 in
    set_console_cursor (set_memory (poke_word pos d.screen.video.erase_char) (move_cursor pos d))

unfoldable pub del : Display → Display
del d =
    let x = getx d.screen.video d.console.start_mem_addr d.console.cursor_pos in
    if x == 0 then d else erase_before d

unfoldable pub del_lf : Display → Display
del_lf d = if leb (add32 d.console.start_mem_addr 2) d.console.cursor_pos then erase_before d else d

-- What `insert_char` does once there is room.
unfoldable pub put_char : ℕ → Display → Display
put_char ch d =
    let c = d.console in
    let pos = c.cursor_pos in
    let shift : (ℕ → ℕ) → ℕ → ℕ = memcpy pos (add32 pos 2) (sub32 c.current_mem_addr pos) in
    let write : (ℕ → ℕ) → ℕ → ℕ =
      λ m. poke (add32 pos 1) d.screen.video.char_attr (poke pos ch m) in
    set_console_cursor (
      set_memory (λ m. write (shift m))
        (record d {
          console = record c {
            current_mem_addr = add32 c.current_mem_addr 2;
            cursor_pos = add32 pos 2;
          };
        }))

unfoldable pub insert_char : ℕ → Display → Display
insert_char ch d =
    let c = d.console in
    let full = leb (add32 c.start_mem_addr c.mem_size) (add32 c.current_mem_addr 2) in
    if leb 0x20 ch && ltb ch 0x80 then put_char ch (if full then video_mem_move_up d else d) else d

unfoldable pub insert_line : Display → Display
insert_line d0 =
    let v = d0.screen.video in
    let c0 = d0.console in
    let last = sub32 (c0.mem_size / v.row_size) 1 in
    let d =
      if leb last (gety v c0.start_mem_addr c0.current_mem_addr)
      then video_mem_move_up (video_mem_move_up d0)
      else d0 in
    let c = d.console in
    let pos = c.cursor_pos in
    let below = mul32 (add32 (gety v c.start_mem_addr pos) 2) v.row_size in
    let shift : (ℕ → ℕ) → ℕ → ℕ = memcpy pos below (sub32 c.current_mem_addr pos) in
    let clear : (ℕ → ℕ) → ℕ → ℕ = memset pos 0 (sub32 below v.char_size) in
    set_console_cursor (
      set_memory (λ m. clear (shift m))
        (record d {
          console = record c {
            current_mem_addr = add32 c.current_mem_addr v.row_size;
            cursor_pos = mul32 (add32 (gety v c.start_mem_addr pos) 1) v.row_size;
          };
        }))

unfoldable pub delete_char : Display → Display
delete_char d =
    let c = d.console in
    let pos = sub32 c.cursor_pos 2 in
    let current = sub32 c.current_mem_addr 2 in
    let shift : (ℕ → ℕ) → ℕ → ℕ =
      memcpy pos (add32 pos 2) (sub32 (sub32 c.current_mem_addr pos) 2) in
    let deleted =
      set_memory (λ m. memset current 0 2 (shift m))
        (record d { console = record c { current_mem_addr = current; cursor_pos = pos } }) in
    if leb (add32 c.start_mem_addr 2) c.cursor_pos then deleted else d

unfoldable pub delete_line : Display → Display
delete_line d =
    let c = d.console in
    let v = d.screen.video in
    set_memory (memset (mul32 (gety v c.start_mem_addr c.cursor_pos) v.row_size) 0 v.row_size) d

unfoldable pub insert_spaces : ℕ → Display → Display
insert_spaces zero d = d
insert_spaces (suc n) d = insert_spaces n (insert_char 0x20 d)

-- The `switch` of `console_write`.
unfoldable pub show : ℕ → Display → Display
show ch d =
    if ch == b'\t'
    then insert_spaces 8 d
    else if ch == 8
    then delete_char d
    else if ch == b'n'
    then lf (cr d)
    else insert_char ch d

-- The loop on fuel. The console is part of its terminal.
unfoldable pub console_write : (fuel : ℕ) → Tty → Screen → Option (Tty × Screen)
console_write zero tty s = none
console_write (suc fuel) tty s =
    let (got, tty') = get_char_from_write tty in
    let ch = got % 2 ^ 8 in
    let d = show ch (record { console = tty'.console; screen = s }) in
    let rest = console_write fuel (record tty' { console = d.console }) (d.screen) in
    if ch == 0 then some (tty', s) else rest

-- The bytes that the boot code left: ORI_VIDEO_ROWS, COLS, MODE and BX.
pub record Original : Type 0 where
  pub rows : ℕ
  pub cols : ℕ
  pub mode : ℕ
  pub bx : ℕ

-- `ORI_VIDEO_BX & 0x0ff != 0x10`, where `!=` binds tighter; the registers are cut to a byte. The
-- attribute is the initial value of its variable.
unfoldable pub video_of : Original → Video
video_of o =
    let cols = o.cols % 2 ^ 8 in
    let large = o.bx % 2 == 1 in
    let mono = o.mode == 0x07 in
    record {
      video_type = if mono then (if large then 3 else 1) else (if large then 4 else 2);
      rows_per_page = o.rows % 2 ^ 8;
      cols_per_page = cols;
      char_size = 2;
      row_size = 2 * cols;
      mem_start = if mono then mono_mem_start else crt_mem_start;
      video_mem_size = if large then 32 * 1024 else 8 * 1024;
      ctl_reg = (if mono then 0x3b4 else 0x3d4) % 2 ^ 8;
      data_reg = (if mono then 0x3b5 else 0x3d5) % 2 ^ 8;
      erase_char = 0x0720;
      char_attr = 0x07;
    }

unfoldable pub console_of : Video → ℕ → Console
console_of v i =
    let start = add32 v.mem_start (mul32 i (v.video_mem_size / nr_console)) in
    record {
      start_mem_addr = start;
      current_mem_addr = start;
      mem_size = v.video_mem_size / nr_console;
      cursor_pos = start;
      top = 0;
    }

-- The loop from `i` on, over a table by index; it stores an entry behind the table of `nr_console`.
unfoldable pub init_consoles : Video → (n i : ℕ) → (ℕ → Console) → ℕ → Console
init_consoles v zero i table = table
init_consoles v (suc n) i table =
    init_consoles v n (i + 1) (λ j. if j == i then console_of v i else table j)

unfoldable pub console_init : Original → (ℕ → Console) → Video × (ℕ → Console)
console_init o table = (video_of o, init_consoles (video_of o) (nr_console + 1) 0 table)
