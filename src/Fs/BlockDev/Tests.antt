-- ===== src/Fs/BlockDev/Tests.antt =====
-- A transfer across the end of block 7 of a device whose blocks 7 and 8 are in the buffers.
use lychee_os.Base.{
  ℕ, ◌+◌, ◌*◌, ◌≤◌, ◌<◌, ◌≡◌, refl, Bool, true, false, none, some, ◌==◌, if◌then◌else◌, replicate,
  tabulate, arith,
}
use lychee_os.Buffer.{MemBuffer, block_size, dev_eq}
use lychee_os.Blk.{Io, Request}
use lychee_os.Cache.{done, holds}
use lychee_os.Cache.Lookup.{IsFirst}
use lychee_os.Fs.BlockDev.{block_write, block_read}
use lychee_os.Fs.BlockDev.Loaded.{Alike, IsLoaded, byte}
use lychee_os.Fs.BlockDev.Writes.{block_write_lem}
use lychee_os.Fs.BlockDev.Stores.{written_byte}
use lychee_os.Fs.BlockDev.Roundtrip.{block_read-block_write}

abbrev no_request : Request
no_request = record {
  dev = none;
  cmd = 0;
  nr_errors = 0;
  start_sector = 0;
  nr_sectors = 0;
  offset = 0;
  mbuffer = none;
  next = none;
}

abbrev cached : ℕ → MemBuffer
cached block = record {
  data_block = replicate block_size 1;
  block = block;
  dev = some 0x301;
  uptodate = true;
  dirty = false;
  count = 1;
  locked = false;
  proc_wait = none;
}

-- Buffer 0 holds block 8 and every other one block 7.
abbrev io : Io
io = record {
  request = λ i. no_request;
  current = λ m. none;
  buffers = λ i. cached (if i == 0 then 8 else 7);
}

abbrev at : ℕ → ℕ
at b = if b == 8 then 0 else 1

abbrev sleep : Io → Io
sleep io = io

abbrev device : ℕ → Bool
device m = m == 3

abbrev start : ℕ → Io → Io
start m io = io

abbrev ll_rw : ℕ → ℕ → Io → Io
ll_rw rw i io = io

abbrev text : ℕ → ℕ
text k = k + 65

first : (b : ℕ) → 7 ≤ b → b < 9 → IsFirst (holds 0x301 b) io.buffers 0 2 (at b)
unfolding dev_eq
first b ge lt = record {
  ge = omega arith;
  lt = ground arith;
  passes = ground arith;
  earlier = λ j ge' lt'. ground arith;
}

loaded : IsLoaded 2 0x301 7 9 at io
loaded = record {
  first = first;
  valid = λ b ge lt. refl;
  unlocked = λ b ge lt. refl;
  shared = λ b ge lt. omega arith;
  whole = λ b ge lt. refl;
}

block_write_lem_example :
    (io' : Io) × (block_write sleep device start ll_rw 2 1 10 0x301 8190 text 4 io
      ≡ done (8194, 4, io'))
    × ((j : ℕ) → Alike (io.buffers j) (io'.buffers j))
    × ((q : ℕ)
        → 7 * block_size ≤ q
        → q < 9 * block_size
        → byte at io' q ≡ written_byte 8190 4 text (byte at io q) q)
block_write_lem_example =
    block_write_lem sleep device start ll_rw 2 0 0x301 7 9 at 10 8190 4 text io loaded (omega arith)
      (omega arith) (omega arith)

block_read-block_write_example :
    (io1 : Io) × (io2 : Io) × (block_write sleep device start ll_rw 2 1 10 0x301 8190 text 4 io
      ≡ done (8194, 4, io1))
    × (block_read sleep device start ll_rw 2 1 10 0x301 8190 4 io1
        ≡ done (8194, 4, tabulate 4 text, io2))
block_read-block_write_example =
    block_read-block_write sleep device start ll_rw 2 0 0x301 7 9 at 10 8190 4 text io loaded
      (omega arith) (omega arith) (omega arith)
