-- ===== src/Files.antt =====
-- The read and write calls: fs/rw.c, fs/file_dev.c, fs/chr_dev.c and fs/file.c, with tty_write of
-- kernel/chr/tty.c, on the file system, the block devices and the terminals.
pub mod Chars
pub mod Regular
pub mod Calls
pub mod Handles
pub mod Printing
pub mod Lost
pub mod Messages
pub mod Transfers
mod Tests
use lychee_os.Base.{ℕ, Option, List, Bool, ◌==◌, if◌then◌else◌}
use lychee_os.Blk.{Io}
use lychee_os.Tty.{Tty}
use lychee_os.Screen.{Screen}
use lychee_os.Fs.{Store, World, Result, returns, halts, spins, strays, Cmd, cache_of}

-- `struct_file`; `inode` is an entry of the table of inodes.
pub record File : Type 0 where
  pub mode : ℕ
  pub flags : ℕ
  pub count : ℕ
  pub offset : ℕ
  pub inode : ℕ

-- What the calls act on: `file_table`, the array `files` of the running process with entries of that
-- table, `tty_table`, the screen and the file system.
pub record System : Type 0 where
  pub store : Store
  pub file_table : ℕ → File
  pub files : List (Option ℕ)
  pub tty_table : ℕ → Tty
  pub screen : Screen

-- The end of a call, as in `Result`.
pub data Reply (A : Type 0) : Type 0 where
  answers : A → System → Reply A
  stops : Reply A
  loops : Reply A
  goes_astray : Reply A

abbrev pub Call : Type 0 → Type 0
Call A = System → Reply A

-- What surrounds the calls: that of the buffer cache, that of the file system, what happens to a
-- terminal while a reader waits for a key, and the function `blk_read`, which fs/rw.c calls and nothing
-- declares. The files and terminals are not touched by others while a process sleeps on a disk.
pub record Around : Type 0 where
  pub io_others : Io → Io
  pub has_fn : ℕ → Bool
  pub do_request_fn : ℕ → Io → Io
  pub ll_rw : ℕ → ℕ → Io → Io
  pub nr_buffers : ℕ
  pub wait_fuel : ℕ
  pub others : Store → Store
  pub fuel : ℕ
  pub junk : ℕ
  pub iput : ℕ → Cmd (Unit {0})
  pub free_super : ℕ → Cmd (Unit {0})
  pub tty_others : Tty → Tty
  pub blk_read : (dev f count : ℕ) → Call (ℕ × List ℕ)

abbrev pub world_of : Around → World
world_of a = record {
  cache = cache_of a.io_others a.has_fn a.do_request_fn a.ll_rw a.nr_buffers a.wait_fuel;
  others = a.others;
  fuel = a.fuel;
  junk = a.junk;
  iput = a.iput;
  free_super = a.free_super;
}

module _ {A B : Type 0} where
  -- A command of the file system, and what the call does with its result.
  abbrev pub on_result : Result A → (A → Call B) → System → Reply B
  on_result (returns x st) k s = k x (record s { store = st })
  on_result halts k s = stops
  on_result spins k s = loops
  on_result strays k s = goes_astray

abbrev pub set_file : ℕ → (File → File) → System → System
set_file f change s = record s {
  file_table = λ j. if j == f then change (s.file_table f) else s.file_table j;
}
