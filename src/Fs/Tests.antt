-- ===== src/Fs/Tests.antt =====
-- The file system on a device whose blocks 4, 20 and 21 are in the buffers 0, 1 and 2.
use lychee_os.Base.{
  ℕ, ◌+◌, ◌%◌, ◌^◌, ◌<◌, ◌≡◌, refl, true, false, none, some, List, [], ◌∷◌, ◌==◌, if◌then◌else◌,
  replicate, arith,
}
use lychee_os.Buffer.{dev_eq}
use lychee_os.Blk.{Io, Request}
use lychee_os.Fs.{Store, World, Inode, SuperBlock, returns, halts, pure, cache_of}
use lychee_os.Fs.Laws.{IsCache, IsLoadedBlock, cache_of-IsCache}
use lychee_os.Fs.Disk.{get_le, store_inode, u16_at}
use lychee_os.Fs.Disk.Codec.{IsStorable, nil, cons}
use lychee_os.Fs.Super.Lookup.{IsSuperOf, at}
use lychee_os.Fs.Inodes.{zero_inode, read_inode, write_inode, get_inode, inode_place}
use lychee_os.Fs.Inodes.Search.{get_inode-absent}
use lychee_os.Fs.Inodes.Roundtrip.{on_disk, read_inode-write_inode}
use lychee_os.Fs.Release.{put_inode}
use lychee_os.Fs.Release.Dropping.{put_inode-writes}
use lychee_os.Fs.Truncate.{truncate}
use lychee_os.Fs.Truncate.Freeing.{truncate-halts}
use lychee_os.Fs.Mapping.{ib_map}
use lychee_os.Fs.Mapping.Blocks.{used, ib_map-double}

abbrev no_request : Request
no_request = record {
  dev = none;
  cmd = 0;
  nr_errors = 0;
  start_sector = 0;
  nr_sectors = 0;
  offset = 0;
  mbuffer = none;
  next = none;
}

abbrev block_of : ℕ → ℕ
block_of i = if i == 0 then 4 else if i == 1 then 20 else 21

-- Block 20 begins with the number 21, and block 21 with 77.
abbrev bytes_of : ℕ → List ℕ
bytes_of i = (if i == 0 then 0 else if i == 1 then 21 else 77) ∷ 0 ∷ replicate 1022 0

abbrev io : Io
io = record {
  request = λ i. no_request;
  current = λ m. none;
  buffers = λ i. record {
    data_block = bytes_of i;
    block = block_of i;
    dev = some 0x301;
    uptodate = true;
    dirty = false;
    count = 2;
    locked = false;
    proc_wait = none;
  };
}

abbrev big_file : Inode
big_file = record zero_inode {
  mode = 0x8000;
  size = 600000;
  nlinks = 1;
  data_blocks = 30 ∷ 31 ∷ 0 ∷ 0 ∷ 0 ∷ 0 ∷ 0 ∷ 0 ∷ 20 ∷ [];
  dev = 0x301;
  inode_num = 5;
  count = 1;
  dirty = true;
  uptodate = true;
}

-- Entry 0 holds the file, entry 1 is to be read, entry 2 is a file without blocks, entry 3 is in use twice.
abbrev entries : ℕ → Inode
entries i =
    if i == 0
    then big_file
    else if i == 1
    then record zero_inode { dev = 0x301; inode_num = 5; count = 1 }
    else if i == 2
    then record zero_inode { mode = 0x8000; dev = 0x301; inode_num = 6; count = 1 }
    else if i == 3
    then record zero_inode { dev = 0x301; inode_num = 7; nlinks = 1; count = 2 }
    else zero_inode

abbrev one_super : SuperBlock
one_super = record {
  nr_inodes = 100;
  nr_blocks = 1000;
  imap_blocks = 1;
  dmap_blocks = 1;
  first_data_block = 10;
  max_size = 0;
  magic = 0x137F;
  imap = replicate 8 none;
  dmap = replicate 8 none;
  dev = 0x301;
  root_inode = none;
  imount = none;
  proc_wait = none;
  locked = false;
  read_only = false;
  dirty = false;
  uptodate = true;
}

abbrev store : Store
store = record { io = io; inodes = entries; supers = λ i. one_super; root_dev = 0x301; now = 1000 }

abbrev world : World
world = record {
  cache = cache_of (λ io. io) (λ m. false) (λ m io. io) (λ rw i io. io) 3 4;
  others = λ s. s;
  fuel = 40;
  junk = 0;
  iput = λ i. pure tt;
  free_super = λ i. pure tt;
}

lawful : IsCache world.cache (IsLoadedBlock 3)
lawful = cache_of-IsCache (λ io. io) (λ m. false) (λ m io. io) (λ rw i io. io) 3 3

loaded : (b : ℕ) → b < 3 → IsLoadedBlock 3 0x301 (block_of b) b io
unfolding dev_eq
loaded b h = record {
  first = record {
    ge = omega arith;
    lt = omega arith;
    passes = ground arith;
    earlier = λ j ge lt. ground arith;
  };
  valid = refl;
}

super_0 : IsSuperOf 0x301 0 store
super_0 = record {
  within = omega arith;
  same = refl;
  free = refl;
  earlier = λ j h. absurd (omega arith);
}

storable : IsStorable big_file
storable = record {
  mode = omega arith;
  size = omega arith;
  modify_time = omega arith;
  create_time = omega arith;
  last_access = omega arith;
  nlinks = omega arith;
  nine = refl;
  small = cons (omega arith) (
      cons (omega arith) (
        cons (omega arith) (
          cons (omega arith) (
            cons (omega arith) (
              cons (omega arith)
                (cons (omega arith) (cons (omega arith) (cons (omega arith) nil))))))));
}

get_inode-absent_example : get_inode world 0x301 9 store ≡ halts
get_inode-absent_example =
    get_inode-absent world 0x301 9 store (omega arith) refl (λ j h. ground arith)
      (λ j h. ground arith)

read_inode-write_inode_example :
    (s1 s2 : Store) × (write_inode world 0 store ≡ returns tt s1)
    × ((s1.inodes 0).dirty ≡ false)
    × (read_inode world 1 s1 ≡ returns tt s2)
    × (on_disk (s2.inodes 1) ≡ on_disk (store.inodes 0))
read_inode-write_inode_example =
    read_inode-write_inode world (IsLoadedBlock 3) lawful (omega arith) 0 1 0 0 store refl refl refl
      refl refl refl refl refl storable super_0 (loaded 0 (omega arith)) refl (omega arith) refl

put_inode-writes_example :
    (s' : Store) × (put_inode world (some 0) store ≡ returns tt s')
    × ((s'.inodes 0).count ≡ 0)
    × ((s'.inodes 0).dirty ≡ false)
    × ((s'.io.buffers 0).dirty ≡ true)
    × ((s'.io.buffers 0).data_block ≡ store_inode big_file (inode_place 5) (bytes_of 0))
put_inode-writes_example =
    put_inode-writes world (IsLoadedBlock 3) 0 0 0 store lawful (omega arith) refl refl refl refl
      refl refl super_0 (loaded 0 (omega arith)) refl (omega arith)

truncate-halts_example : truncate world (some 2) store ≡ halts
truncate-halts_example = truncate-halts world 2 0 store (omega arith) refl (at super_0) refl

ib_map-double_example :
    ib_map world (some 0) (7 + 512 + 0) store
    ≡ returns (u16_at (io.buffers 2).data_block (0 % 2 ^ 9)) (used 2 (used 1 store))
unfolding get_le
ib_map-double_example =
    ib_map-double world (IsLoadedBlock 3) 0 0 1 2 store lawful (omega arith) refl
      (loaded 1 (omega arith)) refl (loaded 2 (omega arith))
      (record { loose = refl; few = omega arith }) (record { loose = refl; few = omega arith })
