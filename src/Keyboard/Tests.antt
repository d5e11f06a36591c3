-- ===== src/Keyboard/Tests.antt =====
-- A keyboard with two scan codes in its buffer: the key A pressed and released.
use lychee_os.Base.{◌≡◌, refl, false, some, [], ◌∷◌, replicate}
use lychee_os.Tty.{TtyBuffer}
use lychee_os.Keyboard.{Keyboard, Desk, read_byte_form_keyboard}
use lychee_os.Keyboard.Keys.{keyboard_read, code_of}
use lychee_os.Keyboard.Presses.{IsIdle, popped, keyboard_read_lem}

abbrev at_rest : Keyboard
at_rest = record {
  caps_lock = false;
  num_lock = false;
  scroll_lock = false;
  shift_l = false;
  shift_r = false;
  ctrl_l = false;
  ctrl_r = false;
  alt_l = false;
  alt_r = false;
  head = 2;
  tail = 0;
  count = 2;
  buffer = 0x1E ∷ 0x9E ∷ replicate 30 0;
}

abbrev no_keys : TtyBuffer
no_keys = record {
  head = some 0;
  tail = some 0;
  count = 0;
  buffer = replicate 1024 0;
  astray = false;
}

abbrev desk : Keyboard → Desk
desk k = record {
  keyboard = k;
  tty = record {
    output_flags = 0;
    input_flags = 0;
    ctl_flags = 1;
    pid = 1;
    read_buffer = no_keys;
    write_buffer = no_keys;
    console = record {
      start_mem_addr = 0xB8000;
      current_mem_addr = 0xB8000;
      mem_size = 8192;
      cursor_pos = 0xB8000;
      top = 0;
    };
  };
  status = [];
  answers = [];
  writes = [];
}

idle : IsIdle (popped at_rest)
idle = record {
  shift_left = refl;
  shift_right = refl;
  ctrl_left = refl;
  ctrl_right = refl;
  alt_left = refl;
  alt_right = refl;
}

-- The release of A.
keyboard_read_lem_example :
    keyboard_read (read_byte_form_keyboard (λ k. k)) (desk (popped at_rest))
    ≡ some (tt, desk (popped (popped at_rest)))
unfolding code_of
keyboard_read_lem_example =
    keyboard_read_lem (λ k. k) (desk (popped at_rest)) idle refl refl refl refl
