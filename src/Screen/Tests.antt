-- ===== src/Screen/Tests.antt =====
-- The console at concrete values.
use lychee_os.Base.{◌+◌, ◌*◌, ◌%◌, ◌≡◌, false, refl, inr, some, [], ◌∷◌, replicate, get_or, arith}
use lychee_os.Tty.{Tty, TtyBuffer, Console}
use lychee_os.Tty.Queue.{IsValid, contents}
use lychee_os.Screen.{Screen}
use lychee_os.Screen.Editing.{console_write, Original, video_of}
use lychee_os.Screen.Steps.{console_write_ends}
use lychee_os.Screen.Text.{HasRoom, console_write_lem}

-- Text mode 3 with 80 columns and 25 rows.
abbrev text_mode : Original
text_mode = record { rows = 25; cols = 80; mode = 3; bx = 1 }

abbrev blank : Screen
blank = record { video = video_of text_mode; memory = λ a. a % 7; writes = [] }

abbrev first_console : Console
first_console = record {
  start_mem_addr = 0xB8000;
  current_mem_addr = 0xB8000;
  mem_size = 8192;
  cursor_pos = 0xB8000;
  top = 0;
}

abbrev no_keys : TtyBuffer
no_keys = record {
  head = some 0;
  tail = some 0;
  count = 0;
  buffer = replicate 1024 0;
  astray = false;
}

abbrev two_keys : TtyBuffer
two_keys = record {
  head = some 2;
  tail = some 0;
  count = 2;
  buffer = b'h' ∷ b'i' ∷ replicate 1022 0;
  astray = false;
}

abbrev terminal : Tty
terminal = record {
  output_flags = 0;
  input_flags = 0;
  ctl_flags = 0;
  pid = 1;
  read_buffer = no_keys;
  write_buffer = two_keys;
  console = first_console;
}

console_write_ends_example : (end : Tty × Screen) × (console_write 5 terminal blank ≡ some end)
console_write_ends_example = console_write_ends 5 terminal blank (omega arith)

two_keys-IsValid : IsValid two_keys
two_keys-IsValid = record {
  room = refl;
  start = 0;
  start_in = omega arith;
  small = omega arith;
  tail_at = refl;
  head_at = refl;
  sound = refl;
}

two_keys-HasRoom : HasRoom 2 (record { console = terminal.console; screen = blank })
two_keys-HasRoom = record { at_end = refl; room = omega arith; below = omega arith }

console_write_lem_example :
    (tty' : Tty) × (s' : Screen) × (console_write 5 terminal blank ≡ some (tty', s'))
    × (tty'.console.cursor_pos ≡ 0xB8000 + 2 * 2)
    × (s'.memory (0xB8000 + 2 * 1) ≡ get_or (b'h' ∷ b'i' ∷ []) 1 0)
    × (s'.memory (0xB8000 + 2 * 1 + 1) ≡ blank.video.char_attr)
    × (s'.memory 0xB8004 ≡ blank.memory 0xB8004)
    × IsValid tty'.write_buffer
    × (contents tty'.write_buffer ≡ [])
console_write_lem_example =
    console_write_lem (b'h' ∷ b'i' ∷ []) 5 terminal blank 1 0xB8004 two_keys-IsValid refl refl
      two_keys-HasRoom (omega arith) (omega arith) (inr (omega arith))
