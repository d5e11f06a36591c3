-- ===== src/Names/Tests.antt =====
-- A directory with the names `.` and `ab` in a buffer, and paths.
use lychee_os.Base.{
  ℕ, zero, suc, ◌+◌, ◌<◌, ◌≡◌, ◌≢◌, refl, ap, true, false, none, some, List, [], ◌∷◌, ◌++◌, ◌==◌,
  if◌then◌else◌, length, replicate, get_or, arith,
}
use mathlib.Core.Logic.{◌↔◌}
use lychee_os.Buffer.{MemBuffer, dev_eq}
use lychee_os.Cache.{take_one, give_back}
use lychee_os.Blk.{Request, map_buffer}
use lychee_os.Process.{Process}
use lychee_os.Fs.{Store, World, SuperBlock, returns, strays, pure, cache_of, landed, landed_alone}
use lychee_os.Fs.Laws.{KeepsPlace, IsCache, IsLoadedBlock, cache_of-IsCache}
use lychee_os.Fs.Inodes.{zero_inode}
use lychee_os.Fs.Inodes.Search.{counted}
use lychee_os.Fs.Disk.{get_le}
use lychee_os.Names.{Text, Around, skip, word_zero, is_match, find_entry}
use lychee_os.Names.Matching.{Spells, ends, begins, is_match_lem}
use lychee_os.Names.Searching.{Names, text_of, find_entry-first_named}
use lychee_os.Names.Growth.{IsFull, IsAdded, IsReadTwice, nr_of, add_entry-IsAdded}
use lychee_os.Names.Adding.{add_entry}
use lychee_os.Names.Walking.{IsUsed, IsLost, absolute, namei-named}
use lychee_os.Names.Paths.{namei}

-- A text on a zeroed stack.
abbrev text : List ℕ → Text
text cs k = get_or cs k 0

abbrev bytes : List ℕ
bytes = 1 ∷ 0 ∷ b'.' ∷ 0 ∷ replicate 12 0 ++ (5 ∷ 0 ∷ b'a' ∷ b'b' ∷ replicate 1004 0)

abbrev no_request : Request
no_request = record {
  dev = none;
  cmd = 0;
  nr_errors = 0;
  start_sector = 0;
  nr_sectors = 0;
  offset = 0;
  mbuffer = none;
  next = none;
}

abbrev no_super : SuperBlock
no_super = record {
  nr_inodes = 0;
  nr_blocks = 0;
  imap_blocks = 0;
  dmap_blocks = 0;
  first_data_block = 0;
  max_size = 0;
  magic = 0;
  imap = [];
  dmap = [];
  dev = 0;
  root_inode = none;
  imount = none;
  proc_wait = none;
  locked = false;
  read_only = false;
  dirty = false;
  uptodate = false;
}

abbrev store : Store
store = record {
  io = record {
    request = λ i. no_request;
    current = λ m. none;
    buffers = λ i. record {
      data_block = bytes;
      block = i + 9;
      dev = some 0x301;
      uptodate = true;
      dirty = false;
      count = 2;
      locked = false;
      proc_wait = none;
    };
  };
  inodes = λ i. record zero_inode {
    mode = 0x4000;
    size = 32;
    data_blocks = 9 ∷ [];
    dev = 0x301;
    inode_num = i + 1;
    count = 1;
  };
  supers = λ i. no_super;
  root_dev = 0x301;
  now = 1000;
}

abbrev world : World
world = record {
  cache = cache_of (λ io. io) (λ m. false) (λ m io. io) (λ rw i io. io) 3 4;
  others = λ s. s;
  fuel = 40;
  junk = 0;
  iput = λ i. pure tt;
  free_super = λ i. pure tt;
}

abbrev around : Around
around = record {
  turns = λ call t. 1000;
  at_edi = λ k. 0;
  return_address = 0x10400;
  index = 0;
  stack = λ k. 0xCC;
  after_data = λ b k. 0;
}

abbrev current : Process
current = record {
  state = 0;
  ticks = 0;
  priority = 0;
  exit_code = 0;
  pid = 1;
  ppid = 0;
  user_time = 0;
  kernel_time = 0;
  create_time = 0;
  exit_time = 0;
  pwd = some 3;
  root = some 0;
  image = none;
  files = [];
}

abbrev ab : List ℕ
ab = b'a' ∷ b'b' ∷ []

abbrev names : ℕ → List ℕ
names k = if k == 0 then b'.' ∷ [] else ab

ab_spelled :
    (t : Text) → t 0 ≡ b'a' → t 1 ≡ b'b' → word_zero (skip 1 (skip 1 t)) ≡ true → Spells t ab
ab_spelled t a b zeros =
    begins a (λ e. absurd (omega arith)) (begins b (λ e. absurd (omega arith)) (ends zeros))

is_match_lem_example : (is_match around (text ab) (text_of around 0 1 store) ≡ true) ↔ (ab ≡ ab)
unfolding word_zero
is_match_lem_example =
    is_match_lem around (text ab) (text_of around 0 1 store) ab ab
      (ab_spelled (text ab) refl refl refl) (ab_spelled (text_of around 0 1 store) refl refl refl)
      (omega arith) (omega arith) (omega arith)

lawful : IsCache world.cache (IsLoadedBlock 3)
lawful = cache_of-IsCache (λ io. io) (λ m. false) (λ m io. io) (λ rw i io. io) 3 3

loaded : IsLoadedBlock 3 0x301 9 0 store.io
unfolding dev_eq
loaded = record {
  first = record {
    ge = omega arith;
    lt = omega arith;
    passes = refl;
    earlier = λ j ge lt. absurd (omega arith);
  };
  valid = refl;
}

abbrev after : (f : MemBuffer → MemBuffer) → Store → Store
after f s = record s { io = map_buffer s.io 0 f }

abbrev read_once : Store
read_once = after take_one store

abbrev back_again : Store
back_again = after give_back read_once

abbrev read_again : Store
read_again = after take_one back_again

reads : IsReadTwice world 0 0 store read_once back_again read_again
reads = record {
  has_block = λ e. absurd (omega arith);
  first = ap (λ o. landed o store) (lawful.reads 0x301 9 0 store.io loaded);
  back = ap (λ o. landed_alone o read_once) (lawful.gives_back 0 read_once.io refl refl);
  same = refl;
  second =
      ap (λ o. landed o back_again)
        (lawful.reads 0x301 9 0 back_again.io (
          lawful.stays 0x301 9 0 0 give_back read_once.io keeps_back
            (lawful.stays 0x301 9 0 0 take_one store.io keeps_one loaded)));
}
  where
    keeps_one : KeepsPlace take_one
    keeps_one = record { dev = λ m. refl; block = λ m. refl; uptodate = λ m. refl }

    keeps_back : KeepsPlace give_back
    keeps_back = record { dev = λ m. refl; block = λ m. refl; uptodate = λ m. refl }

named_entries : Names around names 2 0 read_once
unfolding word_zero
named_entries = record {
  spelled = spelled_at;
  short = λ k small. ground arith;
  room = λ call t. omega arith;
  one_block = omega arith;
}
  where
    spelled_at : (k : ℕ) → k < 2 → Spells (text_of around 0 k read_once) (names k)
    spelled_at zero small = begins refl (λ e. absurd (omega arith)) (ends refl)
    spelled_at (suc zero) small = ab_spelled (text_of around 0 1 read_once) refl refl refl
    spelled_at (suc (suc k)) small = absurd (omega arith)

in_use : (k : ℕ) → k < 2 → nr_of 0 k read_again ≢ 0
unfolding get_le
in_use zero small e = let no : 1 ≡ 0 = e in absurd (omega arith)
in_use (suc zero) small e = let no : 5 ≡ 0 = e in absurd (omega arith)
in_use (suc (suc k)) small e = absurd (omega arith)

one_free : IsFull 0 0 2 read_again
one_free = record { size = refl; inside = omega arith; full = in_use; whole = refl }

abbrev new_name : Text
new_name = text (b'x' ∷ [])

x_spelled : Spells new_name (b'x' ∷ [])
unfolding word_zero
x_spelled = begins refl (λ e. absurd (omega arith)) (ends refl)

find_entry-first_named_example :
    find_entry world around current (some 0) (text ab) store
    ≡ returns (some (record { buffer = 0; place = 1 })) read_once
unfolding word_zero
find_entry-first_named_example =
    find_entry-first_named world around current names 0 0 (text ab) ab store read_once named_entries
      (ab_spelled (text ab) refl refl refl) (omega arith) (omega arith)
      (λ e. (let same : b'a' ≡ b'.' = ap (λ xs. get_or xs 0 0) e in absurd (omega arith)))
      reads.has_block reads.first

add_entry-IsAdded_example :
    (s' : Store) × (add_entry world around current (some 0) new_name store
      ≡ returns (some (record { buffer = 0; place = 2 })) s')
    × IsAdded around 0 0 2 new_name s'
add_entry-IsAdded_example =
    add_entry-IsAdded world around current names 0 0 2 new_name (b'x' ∷ []) store read_once
      back_again read_again reads refl named_entries one_free x_spelled (omega arith) (omega arith)
      (λ e. (let same : 1 ≡ 2 = ap length e in absurd (omega arith))) refl (omega arith)

lost : IsLost around
lost = record { other = λ e. absurd (omega arith); far = omega arith; near = omega arith }

root-IsUsed : IsUsed current.root 0 store
root-IsUsed = record { here = refl; counted = λ e. absurd (omega arith) }

pwd-IsUsed : IsUsed current.pwd 3 store
pwd-IsUsed = record { here = refl; counted = λ e. absurd (omega arith) }

namei-named_example : namei world around current (text (b'/' ∷ b'a' ∷ b'b' ∷ [])) store ≡ strays
unfolding word_zero
namei-named_example =
    namei-named world around current (text (b'/' ∷ b'a' ∷ b'b' ∷ []))
      (skip 1 (text (b'/' ∷ b'a' ∷ b'b' ∷ []))) 0 3 0 ab store (omega arith) root-IsUsed pwd-IsUsed
      (absolute refl) refl (ab_spelled (skip 1 (text (b'/' ∷ b'a' ∷ b'b' ∷ []))) refl refl refl)
      (λ call. omega arith) lost

namei_root :
    namei world around current (text (b'/' ∷ [])) store ≡ returns (some 0) (counted 0 store)
unfolding word_zero
namei_root =
    namei-named world around current (text (b'/' ∷ [])) (skip 1 (text (b'/' ∷ []))) 0 3 0 [] store
      (omega arith) root-IsUsed pwd-IsUsed (absolute refl) refl (ends refl) (λ call. omega arith)
      lost
