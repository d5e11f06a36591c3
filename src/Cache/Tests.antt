-- ===== src/Cache/Tests.antt =====
-- Runs of the buffer cache on three buffers.
use lychee_os.Base.{
  ℕ, zero, suc, ◌+◌, ◌≤◌, ◌<◌, ◌≡◌, refl, Bool, true, false, none, some, [], ◌==◌, if◌then◌else◌,
  arith,
}
use lychee_os.Buffer.{MemBuffer, dev_eq}
use lychee_os.Blk.{Io, Request, map_buffer, end_request}
use lychee_os.Cache.{done, halted, spun, unused, holds, take_one, get_buffer, brelease, bread}
use lychee_os.Cache.Lookup.{IsFirst}
use lychee_os.Cache.Reading.{bread-cached}
use lychee_os.Cache.Unique.{IsUnique, get_buffer-IsUnique}

abbrev cached : ℕ → ℕ → ℕ → Bool → MemBuffer
cached dev block count dirty = record {
  data_block = [];
  block = block;
  dev = some dev;
  uptodate = true;
  dirty = dirty;
  count = count;
  locked = false;
  proc_wait = none;
}

abbrev no_request : Request
no_request = record {
  dev = none;
  cmd = 0;
  nr_errors = 0;
  start_sector = 0;
  nr_sectors = 0;
  offset = 0;
  mbuffer = none;
  next = none;
}

-- Block 7 of disk 0x301 is in use, block 8 is not, block 9 is in use and dirty.
abbrev io : Io
io = record {
  request = λ i. no_request;
  current = λ m. none;
  buffers = λ i.
      if i == 0
      then cached 0x301 7 2 false
      else if i == 1
      then cached 0x301 8 0 false
      else cached 0x301 9 1 true;
}

abbrev sleep : Io → Io
sleep io = io

abbrev device : ℕ → Bool
device m = m == 3

abbrev start : ℕ → Io → Io
start m io = io

abbrev ll_rw : ℕ → ℕ → Io → Io
ll_rw rw i io = io

second_before : (j : ℕ) → 0 ≤ j → j < 1 → holds 0x301 8 (io.buffers j) ≡ false
unfolding dev_eq
second_before zero ge lt = refl
second_before (suc j) ge lt = absurd (omega arith)

second_holds : holds 0x301 8 (io.buffers 1) ≡ true
unfolding dev_eq
second_holds = refl

second : IsFirst (holds 0x301 8) io.buffers 0 3 1
second = record {
  ge = omega arith;
  lt = omega arith;
  passes = second_holds;
  earlier = second_before;
}

bread-cached_example :
    bread sleep device start ll_rw 3 5 0x301 8 io ≡ done (some 1, map_buffer io 1 take_one)
bread-cached_example = bread-cached sleep device start ll_rw 3 5 0x301 8 1 io second refl

unique : IsUnique 3 io.buffers
unfolding dev_eq
unique dev block i j hi hj a b = ground (arith, a, b)

second_unused : IsFirst unused io.buffers 0 3 1
second_unused = record {
  ge = omega arith;
  lt = omega arith;
  passes = refl;
  earlier = λ j ge lt. ground arith;
}

get_buffer-IsUnique_example :
    (i : ℕ) × (io' : Io) × (get_buffer sleep device start ll_rw 3 5 0x301 12 io ≡ some (i, io'))
    × (i < 3)
    × (holds 0x301 12 (io'.buffers i) ≡ true)
    × IsUnique 3 io'.buffers
get_buffer-IsUnique_example =
    get_buffer-IsUnique sleep device start ll_rw 3 3 0x301 12 1 io unique second_unused refl refl

-- Both buffers are in use. While the process sleeps, another gives them back and gets block 12.
abbrev busy : Io
busy = record io { buffers = λ i. cached 0x301 (7 + i) 1 false }

abbrev released : ℕ → Io → Io
released i s = elim (brelease sleep device start ll_rw 2 5 (some i) s) [
  | done s' ↦ s'
  | halted ↦ s
  | spun ↦ s
]

abbrev another : Io → Io
another s = elim (get_buffer sleep device start ll_rw 2 5 0x301 12 (released 1 (released 0 s))) [
  | none ↦ s
  | some (i, s') ↦ s'
]

abbrev after : Io
after = another busy

-- While the process sleeps, the disk ends its request.
abbrev interrupt : Io → Io
interrupt s = elim (end_request 3 true s) [ none ↦ s | some s' ↦ s' ]
