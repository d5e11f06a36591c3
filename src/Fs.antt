-- ===== src/Fs.antt =====
-- The file system of fs/ on the buffer cache: the structures of include/fs.h, the state that the
-- functions share, and the commands that they are made of.
pub mod BlockDev
pub mod Disk
pub mod Super
pub mod Laws
pub mod Inodes
pub mod Bitmap
pub mod Truncate
pub mod Release
pub mod Mapping
mod Tests
use lychee_os.Base.{
  ℕ, zero, suc, ◌/◌, ◌%◌, ◌^◌, Bool, Option, none, some, List, ◌==◌, if◌then◌else◌,
}
use lychee_os.Buffer.{MemBuffer}
use lychee_os.Blk.{Io, map_buffer}
use lychee_os.Cache.{
  Outcome, done, halted, spun, bread, brelease, get_buffer, find_buffer, sync_dev,
}

abbrev pub nr_inode : ℕ
nr_inode = 32

abbrev pub nr_super : ℕ
nr_super = 8

abbrev pub index_level1 : ℕ
index_level1 = 7

abbrev pub index_level2 : ℕ
index_level2 = 8

abbrev pub root_inode_num : ℕ
root_inode_num = 1

abbrev pub super_magic : ℕ
super_magic = 0x137F

abbrev pub map_slots : ℕ
map_slots = 8

-- `struct_mem_inode`; the first seven fields are also on the disk.
pub record Inode : Type 0 where
  pub mode : ℕ
  pub size : ℕ
  pub modify_time : ℕ
  pub create_time : ℕ
  pub last_access : ℕ
  pub nlinks : ℕ
  pub data_blocks : List ℕ
  pub proc_wait : Option ℕ
  pub dev : ℕ
  pub inode_num : ℕ
  pub count : ℕ
  pub locked : Bool
  pub dirty : Bool
  pub uptodate : Bool
  pub mount : Bool

-- `struct_mem_super_block`; the first seven fields are also on the disk. The bitmaps are buffers, by
-- number, and the inodes are entries of the table of inodes.
pub record SuperBlock : Type 0 where
  pub nr_inodes : ℕ
  pub nr_blocks : ℕ
  pub imap_blocks : ℕ
  pub dmap_blocks : ℕ
  pub first_data_block : ℕ
  pub max_size : ℕ
  pub magic : ℕ
  pub imap : List (Option ℕ)
  pub dmap : List (Option ℕ)
  pub dev : ℕ
  pub root_inode : Option ℕ
  pub imount : Option ℕ
  pub proc_wait : Option ℕ
  pub locked : Bool
  pub read_only : Bool
  pub dirty : Bool
  pub uptodate : Bool

-- `inode_table`, `super_block`, `sys_root_dev` and CURRENT_TIME, with the block layer.
pub record Store : Type 0 where
  pub io : Io
  pub inodes : ℕ → Inode
  pub supers : ℕ → SuperBlock
  pub root_dev : ℕ
  pub now : ℕ

-- The end of a function: it returns, it halts the machine, a loop runs out of fuel, or it strays: it
-- goes through NULL or a pointer that was never set, leaves the bounds of an array, or returns a
-- pointer that was never set.
pub data Result (A : Type 0) : Type 0 where
  returns : A → Store → Result A
  halts : Result A
  spins : Result A
  strays : Result A

abbrev pub Cmd : Type 0 → Type 0
Cmd A = Store → Result A

abbrev pub pure : {A : Type 0} → A → Cmd A
pure = returns

abbrev pub halt : {A : Type 0} → Cmd A
halt s = halts

abbrev pub spin : {A : Type 0} → Cmd A
spin s = spins

abbrev pub stray : {A : Type 0} → Cmd A
stray s = strays

module _ {A B : Type 0} where
  abbrev pub and_then : Result A → (A → Cmd B) → Result B
  and_then (returns a s) k = k a s
  and_then halts k = halts
  and_then spins k = spins
  and_then strays k = strays

  infixl 5 ◌>>=◌ ◌>>◌
  abbrev pub ◌>>=◌ : Cmd A → (A → Cmd B) → Cmd B
  m >>= k = λ s. and_then (m s) k

  abbrev pub ◌>>◌ : Cmd A → Cmd B → Cmd B
  m >> n = m >>= λ _. n

abbrev pub inode_at : ℕ → Cmd Inode
inode_at i s = returns (s.inodes i) s

abbrev pub set_inode : ℕ → (Inode → Inode) → Cmd (Unit {0})
set_inode i f s =
    returns tt (record s { inodes = λ j. if j == i then f (s.inodes i) else s.inodes j })

abbrev pub super_at : ℕ → Cmd SuperBlock
super_at i s = returns (s.supers i) s

abbrev pub set_super : ℕ → (SuperBlock → SuperBlock) → Cmd (Unit {0})
set_super i f s =
    returns tt (record s { supers = λ j. if j == i then f (s.supers i) else s.supers j })

abbrev pub buffer_at : ℕ → Cmd MemBuffer
buffer_at b s = returns (s.io.buffers b) s

abbrev pub set_buffer : ℕ → (MemBuffer → MemBuffer) → Cmd (Unit {0})
set_buffer b f s = returns tt (record s { io = map_buffer s.io b f })

abbrev pub time : Cmd ℕ
time s = returns s.now s

abbrev pub root_device : Cmd ℕ
root_device s = returns s.root_dev s

-- What the file system uses of the buffer cache.
pub record BufferCache : Type 0 where
  pub read_block : ℕ → ℕ → Io → Outcome (Option ℕ × Io)
  pub release : Option ℕ → Io → Outcome Io
  pub claim_block : ℕ → ℕ → Io → Option (ℕ × Io)
  pub find_block : ℕ → ℕ → Io → Option (ℕ × Io)
  pub sync_device : ℕ → Io → Option Io

-- The cache of kernel/buffer.c.
unfoldable pub cache_of :
    (Io → Io) → (ℕ → Bool) → (ℕ → Io → Io) → (ℕ → ℕ → Io → Io) → (nr_buffers fuel : ℕ) → BufferCache
cache_of others has_fn do_request_fn ll_rw nr_buffers fuel = record {
  read_block = bread others has_fn do_request_fn ll_rw nr_buffers fuel;
  release = brelease others has_fn do_request_fn ll_rw nr_buffers fuel;
  claim_block = get_buffer others has_fn do_request_fn ll_rw nr_buffers fuel;
  find_block = find_buffer nr_buffers;
  sync_device = sync_dev others has_fn do_request_fn ll_rw nr_buffers fuel;
}

-- What surrounds the file system: the cache, what the rest of the system does while a process sleeps,
-- the fuel of each loop, what the register for results holds where a function returns no value of
-- its own (below 2^31), and the functions `iput` and `free_super`, which the repository calls and declares nowhere.
pub record World : Type 0 where
  pub cache : BufferCache
  pub others : Store → Store
  pub fuel : ℕ
  pub junk : ℕ
  pub iput : ℕ → Cmd (Unit {0})
  pub free_super : ℕ → Cmd (Unit {0})

-- The end of a function of the cache as that of a command.
abbrev pub landed : {A : Type 0} → Outcome (A × Io) → Cmd A
landed (done (a, io)) s = returns a (record s { io = io })
landed halted s = halts
landed spun s = spins

abbrev pub landed_alone : Outcome Io → Cmd (Unit {0})
landed_alone (done io) s = returns tt (record s { io = io })
landed_alone halted s = halts
landed_alone spun s = spins

-- `none` is a buffer that could not be read.
abbrev pub read_buffer : World → (dev block : ℕ) → Cmd (Option ℕ)
read_buffer w dev block s = landed (w.cache.read_block dev block s.io) s

abbrev pub release_buffer : World → Option ℕ → Cmd (Unit {0})
release_buffer w b s = landed_alone (w.cache.release b s.io) s

abbrev pub claimed : Option (ℕ × Io) → Cmd ℕ
claimed none s = spins
claimed (some (b, io)) s = returns b (record s { io = io })

abbrev pub claim_buffer : World → (dev block : ℕ) → Cmd ℕ
claim_buffer w dev block s = claimed (w.cache.claim_block dev block s.io) s

abbrev pub looked_up : Option (ℕ × Io) → Cmd (Option ℕ)
looked_up none s = returns none s
looked_up (some (b, io)) s = returns (some b) (record s { io = io })

abbrev pub look_up_buffer : World → (dev block : ℕ) → Cmd (Option ℕ)
look_up_buffer w dev block s = looked_up (w.cache.find_block dev block s.io) s

abbrev pub synced : Option Io → Cmd (Unit {0})
synced none s = spins
synced (some io) s = returns tt (record s { io = io })

abbrev pub sync_blocks : World → (dev : ℕ) → Cmd (Unit {0})
sync_blocks w dev s = synced (w.cache.sync_device dev s.io) s

-- `sleep_on`.
abbrev pub sleep : World → Cmd (Unit {0})
sleep w s = returns tt (w.others s)

-- `mode & FILE_TYPE`, by its four bits.
abbrev pub file_type : ℕ → ℕ
file_type mode = mode / 2 ^ 12 % 2 ^ 4

abbrev pub is_chr : ℕ → Bool
is_chr mode = file_type mode == 1

abbrev pub is_blk : ℕ → Bool
is_blk mode = file_type mode == 2

abbrev pub is_dir : ℕ → Bool
is_dir mode = file_type mode == 4

abbrev pub is_normal : ℕ → Bool
is_normal mode = file_type mode == 8
