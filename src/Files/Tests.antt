-- ===== src/Files/Tests.antt =====
-- Calls of a process with three open files: a terminal, a normal file and a block device.
use lychee_os.Base.{
  ℕ, ◌+◌, ◌*◌, ◌-◌, ◌≤◌, ◌<◌, ◌≡◌, refl, inr, true, false, none, some, [], ◌∷◌, ◌==◌, if◌then◌else◌,
  replicate, get_or, arith,
}
use lychee_os.Buffer.{block_size, dev_eq}
use lychee_os.Blk.{Io}
use lychee_os.Tty.{Tty, TtyBuffer, Console}
use lychee_os.Tty.Queue.{IsValid}
use lychee_os.Screen.{Screen}
use lychee_os.Screen.Editing.{video_of}
use lychee_os.Screen.Text.{HasRoom}
use lychee_os.Fs.{Inode, pure}
use lychee_os.Fs.Inodes.{zero_inode}
use lychee_os.Fs.BlockDev.Loaded.{IsLoaded, byte}
use lychee_os.Fs.BlockDev.Stores.{written_byte}
use lychee_os.Files.{System, Around, answers, goes_astray, loops}
use lychee_os.Files.Calls.{sys_write, sys_read}
use lychee_os.Tty.Table.{prepare}
use lychee_os.Keyboard.Task.{reset_tty}
use lychee_os.Files.Lost.{sys_write-goes_astray}
use lychee_os.Files.Printing.{sys_write-prints}
use lychee_os.Vsprintf.Format.{ends}
use lychee_os.Files.Messages.{printfs, printfs-percent}
use lychee_os.Files.Transfers.{IsIdle, sys_write-IsIdle, sys_write-device}

abbrev io : Io
io = record {
  request = λ i. record {
    dev = none;
    cmd = 0;
    nr_errors = 0;
    start_sector = 0;
    nr_sectors = 0;
    offset = 0;
    mbuffer = none;
    next = none;
  };
  current = λ m. none;
  buffers = λ i. record {
    data_block = replicate block_size 1;
    block = i + 7;
    dev = some 0x301;
    uptodate = true;
    dirty = false;
    count = 1;
    locked = false;
    proc_wait = none;
  };
}

abbrev entries : ℕ → Inode
entries i =
    if i == 0
    then record zero_inode { mode = 0x1000; data_blocks = 0x500 ∷ [] }
    else if i == 1
    then record zero_inode { mode = 0x8000; size = 100 }
    else record zero_inode { mode = 0x2000; data_blocks = 0x301 ∷ [] }

abbrev no_keys : TtyBuffer
no_keys = record {
  head = some 0;
  tail = some 0;
  count = 0;
  buffer = replicate 1024 0;
  astray = false;
}

abbrev first_console : Console
first_console = record {
  start_mem_addr = 0xB8000;
  current_mem_addr = 0xB8000;
  mem_size = 8192;
  cursor_pos = 0xB8000;
  top = 0;
}

abbrev terminal : Tty
terminal = record {
  output_flags = 0;
  input_flags = 0;
  ctl_flags = 0;
  pid = 1;
  read_buffer = no_keys;
  write_buffer = no_keys;
  console = first_console;
}

abbrev blank : Screen
blank = record {
  video = video_of (record { rows = 25; cols = 80; mode = 3; bx = 1 });
  memory = λ a. 0;
  writes = [];
}

abbrev system : System
system = record {
  store = record {
    io = io;
    inodes = entries;
    supers = λ i. record {
      nr_inodes = 0;
      nr_blocks = 0;
      imap_blocks = 0;
      dmap_blocks = 0;
      first_data_block = 0;
      max_size = 0;
      magic = 0;
      imap = [];
      dmap = [];
      dev = 0;
      root_inode = none;
      imount = none;
      proc_wait = none;
      locked = false;
      read_only = false;
      dirty = false;
      uptodate = false;
    };
    root_dev = 0x301;
    now = 50;
  };
  file_table = λ f. record { mode = 0; flags = 0; count = 1; offset = 7 * 1024 + 1020; inode = f };
  files = some 0 ∷ some 1 ∷ some 2 ∷ none ∷ none ∷ none ∷ none ∷ none ∷ [];
  tty_table = λ i. terminal;
  screen = blank;
}

abbrev around : Around
around = record {
  io_others = λ io. io;
  has_fn = λ m. m == 3;
  do_request_fn = λ m io. io;
  ll_rw = λ rw i io. io;
  nr_buffers = 3;
  wait_fuel = 1;
  others = λ st. st;
  fuel = 5;
  junk = 0;
  iput = λ i. pure tt;
  free_super = λ i. pure tt;
  tty_others = λ tty. tty;
  blk_read = λ dev f count. answers (0, []);
}

abbrev hello : ℕ → ℕ
hello k = if k == 0 then b'h' else b'i'

no_keys-IsValid : IsValid no_keys
no_keys-IsValid = record {
  start = 0;
  room = refl;
  start_in = omega arith;
  small = omega arith;
  tail_at = refl;
  head_at = refl;
  sound = refl;
}

room_for_two : HasRoom 2 (record { console = first_console; screen = blank })
room_for_two = record { at_end = refl; room = omega arith; below = omega arith }

sys_write-prints_example :
    (s' : System) × (sys_write around 0 0 hello 2 system ≡ answers 2 s')
    × ((s'.tty_table 0).console.cursor_pos ≡ 0xB8000 + 2 * 2)
    × (s'.screen.memory (0xB8000 + 2 * 1) ≡ hello 1)
    × (s'.screen.memory (0xB8000 + 2 * 1 + 1) ≡ blank.video.char_attr)
    × (s'.screen.memory 0xB8004 ≡ blank.memory 0xB8004)
sys_write-prints_example =
    sys_write-prints around 0 0 0 0 2 hello system 1 0xB8004 (omega arith) refl refl refl
      (omega arith) no_keys-IsValid refl refl (omega arith) room_for_two (omega arith)
      (inr (omega arith))

printfs-percent_example :
    printfs (λ at. none) 100 0 (λ k. get_or (b'%' ∷ b'd' ∷ []) k 0) system ≡ loops
printfs-percent_example =
    printfs-percent (λ at. none) 100 0 (λ k. get_or (b'%' ∷ b'd' ∷ []) k 0) [] system (ends refl)

sys_write-IsIdle_example :
    ((s' : System) × (sys_write around 0 1 hello 2 system ≡ answers 0 s') × IsIdle 1 system s')
    × ((s' : System) × (sys_read around 1 2 system ≡ answers (0, []) s') × IsIdle 1 system s')
sys_write-IsIdle_example =
    sys_write-IsIdle around 0 1 1 2 hello system (omega arith) (omega arith) (omega arith)
      (omega arith) refl refl

loaded : IsLoaded 3 0x301 7 9 (λ b. b - 7) io
unfolding dev_eq
loaded = record {
  first = λ b ge lt. record {
    ge = omega arith;
    lt = omega arith;
    passes = ground arith;
    earlier = λ j ge' lt'. ground arith;
  };
  valid = λ b ge lt. refl;
  unlocked = λ b ge lt. refl;
  shared = λ b ge lt. omega arith;
  whole = λ b ge lt. refl;
}

sys_write-device_example :
    (s' : System) × (sys_write around 0 2 hello 20 system ≡ answers 20 s')
    × ((s'.file_table 2).offset ≡ 7 * 1024 + 1020 + 20)
    × ((q : ℕ)
        → 7 * block_size ≤ q
        → q < 9 * block_size
        → byte (λ b. b - 7) s'.store.io q
          ≡ written_byte (7 * 1024 + 1020) 20 hello (byte (λ b. b - 7) io q) q)
sys_write-device_example =
    sys_write-device around 0 2 2 20 7 9 0 (λ b. b - 7) hello system (omega arith) (omega arith)
      (omega arith) refl refl refl loaded (omega arith) (omega arith)

-- A terminal as it is handed out: static memory, then `init_tty` and `get_empty_tty`.
abbrev no_pointers : TtyBuffer
no_pointers = record {
  head = none;
  tail = none;
  count = 0;
  buffer = replicate 1024 0;
  astray = false;
}

abbrev never_used : Tty
never_used = record terminal { read_buffer = no_pointers; write_buffer = no_pointers }

abbrev started : System
started = record system { tty_table = λ i. prepare (reset_tty first_console never_used) 1 }

sys_write-goes_astray_example : sys_write around 0 0 hello 2 started ≡ goes_astray
sys_write-goes_astray_example =
    sys_write-goes_astray around 0 0 0 0 2 hello started never_used first_console 1 (omega arith)
      refl refl refl (omega arith) refl refl (omega arith) (omega arith)
