-- ===== src/Files/Transfers.antt =====
-- What sys_write and sys_read transfer for directories, normal files and block devices.
use lychee_os.Base.{
  ℕ, zero, suc, ◌+◌, ◌*◌, ◌^◌, ◌<◌, ◌≤◌, ◌≡◌, refl, sym, ap, ◌∙◌, inl, inr, true, false, none, some,
  [], ◌||◌, ◌==◌, ==_iff, if◌then◌else◌, get_or, Bool-cases, arith,
}
use lychee_os.Buffer.{block_size}
use lychee_os.Fs.{Store, World, returns, and_then, is_chr, is_blk, is_dir, is_normal}
use lychee_os.Fs.BlockDev.Loaded.{IsLoaded, byte}
use lychee_os.Fs.BlockDev.Stores.{written_byte}
use lychee_os.Fs.BlockDev.Writes.{block_write_lem}
use lychee_os.Fs.Mapping.{touch}
use lychee_os.Files.{File, System, answers, Around, world_of, set_file}
use lychee_os.Files.Regular.{
  is_negative, appends, write_file, finish_write, file_write, read_file, file_read,
}
use lychee_os.Files.Handles.{file_of-open}
use lychee_os.Files.Calls.{nr_open, write_device, sys_write, sys_read}

-- The states after an entry of the table of inodes got the present time.
record Touched (i : ℕ) (st st' : Store) : Type 0 where
  io : st'.io ≡ st.io
  supers : st'.supers ≡ st.supers
  entries : (j : ℕ) → st'.inodes j ≡ (if j == i then touch st.now (st.inodes j) else st.inodes j)

abbrev touched_store : ℕ → Store → Store
touched_store i st = record st {
  inodes = λ j. if j == i then touch st.now (st.inodes i) else st.inodes j;
}

-- An update at one place, read at each place.
module _ {A : Type 0} where
  at_place : (i j : ℕ) (g h : ℕ → A) → (if j == i then g i else h j) ≡ (if j == i then g j else h j)
  at_place i j g h = elim (Bool-cases (j == i)) [
    | inl e ↦ rw e (ap g (sym ((==_iff j i).0 e)))
    | inr e ↦ rw e refl
  ]

  no_change : (i j : ℕ) (g : ℕ → A) → (if j == i then g i else g j) ≡ g j
  no_change i j g =
      at_place i j g g ∙ (elim (Bool-cases (j == i)) [ inl e ↦ rw e refl | inr e ↦ rw e refl ])

touch_once : (i : ℕ) (st : Store) → Touched i st (touched_store i st)
touch_once i st = record {
  io = refl;
  supers = refl;
  entries = λ j. at_place i j (λ k. touch st.now (st.inodes k)) st.inodes;
}

touch_twice : (i : ℕ) (st : Store) → Touched i st (touched_store i (touched_store i st))
touch_twice i st = record {
  io = refl;
  supers = refl;
  entries = λ j.
      let self : (i == i) ≡ true = ground arith in
      rw self (elim (Bool-cases (j == i)) [
        | inl e ↦ rw e (ap (λ k. touch st.now (st.inodes k)) (sym ((==_iff j i).0 e)))
        | inr e ↦ rw e refl
      ]);
}

write_file_none :
    (w : World) (fuel block i pos count : ℕ) (buffer : ℕ → ℕ) (st : Store)
    → 0 < fuel
    → count < 2 ^ 31
    → write_file w fuel block i pos 0 count buffer st ≡ returns (pos, 0) st
unfolding write_file
write_file_none w zero block i pos count buffer st enough small = absurd (omega arith)
write_file_none w (suc fuel) block i pos count buffer st enough small =
    let test : is_negative count ≡ false = ground arith in rw test refl

read_file_none :
    (w : World) (fuel i pos count : ℕ) (st : Store)
    → 0 < fuel
    → count < 2 ^ 31
    → read_file w fuel i pos 0 count [] st ≡ returns (0, []) st
unfolding read_file
read_file_none w zero i pos count st enough small = absurd (omega arith)
read_file_none w (suc fuel) i pos count st enough small =
    let test : is_negative count ≡ false = ground arith in rw test refl

file_write_none :
    (w : World) (block i : ℕ) (file : File) (buffer : ℕ → ℕ) (count : ℕ) (st : Store)
    → 0 < w.fuel
    → count < 2 ^ 31
    → (st' : Store) × (file_write w block i file buffer count st ≡ returns (0, file) st')
      × Touched i st st'
unfolding file_write finish_write
file_write_none w block i file buffer count st enough small =
    let start = if appends file then (st.inodes i).size else file.offset in
    let run = write_file_none w w.fuel block i start count buffer st enough small in
    elim (Bool-cases (appends file)) [
      | inl end ↦ (
        touched_store i st,
        ap (λ r. and_then r (λ (end : ℕ × ℕ). finish_write w i file (end.0) (end.1))) run
            ∙ rw end refl,
        touch_once i st,
      )
      | inr here ↦ (
        touched_store i (touched_store i st),
        ap (λ r. and_then r (λ (end : ℕ × ℕ). finish_write w i file (end.0) (end.1))) run
            ∙ rw here refl,
        touch_twice i st,
      )
    ]

file_read_none :
    (w : World) (i : ℕ) (file : File) (count : ℕ) (st : Store)
    → 0 < w.fuel
    → count < 2 ^ 31
    → (st' : Store) × (file_read w i file count st ≡ returns (0, []) st') × Touched i st st'
unfolding file_read
file_read_none w i file count st enough small = (
  touched_store i st,
  rw (read_file_none w w.fuel i file.offset count st enough small) refl,
  touch_once i st,
)

-- What a call leaves of the files and of the file system when it moved nothing.
pub record IsIdle (f : ℕ) (s s' : System) : Type 0 where
  pub io : s'.store.io ≡ s.store.io
  pub inodes :
      (j : ℕ)
      → s'.store.inodes j ≡ (
          if j == (s.file_table f).inode
          then touch s.store.now (s.store.inodes j)
          else s.store.inodes j)
  pub table : (j : ℕ) → s'.file_table j ≡ s.file_table j

is_file-other :
    (mode : ℕ)
    → (is_dir mode || is_normal mode) ≡ true
    → (is_chr mode ≡ false) × (is_blk mode ≡ false)
is_file-other mode h = (ground arith, ground arith)

-- With fuel, `sys_write` to an open directory or normal file returns 0 for every count from
-- 1 to 2^31 - 1, and so does `sys_read`, which stores no byte. Either only sets the times of the inode;
-- the buffers, the other inodes and the position of the file stay.
pub sys_write-IsIdle :
    (a : Around) (block fhandle f count : ℕ) (buffer : ℕ → ℕ) (s : System)
    → 0 < a.fuel
    → fhandle < nr_open
    → 0 < count
    → count < 2 ^ 31
    → get_or s.files fhandle none ≡ some f
    → (is_dir (s.store.inodes (s.file_table f).inode).mode
        || is_normal (s.store.inodes (s.file_table f).inode).mode)
      ≡ true
    → ((s' : System) × (sys_write a block fhandle buffer count s ≡ answers 0 s') × IsIdle f s s')
      × ((s' : System) × (sys_read a fhandle count s ≡ answers (0, []) s') × IsIdle f s s')
unfolding sys_write sys_read
sys_write-IsIdle a block fhandle f count buffer s enough handle more small opened regular =
    let found = file_of-open s.files fhandle count f handle more small opened in
    let file = s.file_table f in
    let (no_chr, no_blk) = is_file-other (s.store.inodes file.inode).mode regular in
    let (st, run, same) =
      file_write_none (world_of a) block file.inode file buffer count s.store enough small in
    let (st', run', same') =
      file_read_none (world_of a) file.inode file count s.store enough small in
    (
      (
        set_file f (λ old. file) (record s { store = st }),
        rw (sys_write, found, no_chr, no_blk, regular, run) refl,
        record { io = same.io; inodes = same.entries; table = λ j. no_change f j s.file_table },
      ),
      (
        record s { store = st' },
        rw (sys_read, found, no_chr, no_blk, regular, run') refl,
        record { io = same'.io; inodes = same'.entries; table = λ j. refl },
      ),
    )

-- `sys_write` to an open block device whose blocks from `lo` to `hi` valid, unlocked buffers hold (none used
-- by 255 processes or more), for a range in these blocks at the file's position: it returns the count,
-- moves the position by it, and the device holds the caller's bytes in the range and what it held in
-- the other loaded blocks.
pub sys_write-device :
    (a : Around) (block fhandle f count lo hi wait : ℕ) (at : ℕ → ℕ) (buffer : ℕ → ℕ) (s : System)
    → fhandle < nr_open
    → 0 < count
    → count < 2 ^ 31
    → a.wait_fuel ≡ suc wait
    → get_or s.files fhandle none ≡ some f
    → is_blk (s.store.inodes (s.file_table f).inode).mode ≡ true
    → IsLoaded a.nr_buffers
        (get_or (s.store.inodes (s.file_table f).inode).data_blocks 0 0)
        lo
        hi
        at
        s.store.io
    → lo * block_size ≤ (s.file_table f).offset
    → (s.file_table f).offset + count ≤ hi * block_size
    → (s' : System) × (sys_write a block fhandle buffer count s ≡ answers count s')
      × ((s'.file_table f).offset ≡ (s.file_table f).offset + count)
      × ((q : ℕ)
          → lo * block_size ≤ q
          → q < hi * block_size
          → byte at s'.store.io q
            ≡ written_byte (s.file_table f).offset count buffer (byte at s.store.io q) q)
unfolding sys_write write_device
sys_write-device a block fhandle f count lo hi wait at buffer s handle more small waits opened blk
      loaded after before =
    let found = file_of-open s.files fhandle count f handle more small opened in
    let dev = get_or (s.store.inodes (s.file_table f).inode).data_blocks 0 0 in
    let (io, run, same, bytes) =
      block_write_lem a.io_others a.has_fn a.do_request_fn a.ll_rw a.nr_buffers wait dev lo hi at
        count (s.file_table f).offset count buffer s.store.io loaded after before (omega arith) in
    let no_chr : is_chr (s.store.inodes (s.file_table f).inode).mode ≡ false = ground arith in
    let self : (f == f) ≡ true = ground arith in
    (
      set_file f (λ file. record file { offset = (s.file_table f).offset + count })
          (record s { store = record (s.store) { io = io } }),
      rw (sys_write, found, no_chr, blk, write_device, waits, run) refl,
      rw self refl,
      bytes,
    )
