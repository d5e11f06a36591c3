-- ===== src/Names.antt =====
-- Names in directories: the first half of fs/namei.c, on `strlen` and `strchr` of oslib/string.asm.
pub mod Adding
pub mod Paths
pub mod Matching
pub mod Searching
pub mod Walking
pub mod Growth
mod Tests
use lychee_os.Base.{
  ℕ, zero, suc, ◌+◌, ◌-◌, ◌*◌, ◌/◌, ◌%◌, ◌^◌, Bool, true, false, Option, none, some, ◌&&◌, ◌||◌,
  ltb, leb, not, ◌==◌, if◌then◌else◌, get_or, sub32,
}
use lychee_os.Process.{Process}
use lychee_os.Fs.{
  Inode, Cmd, World, pure, halt, spin, stray, ◌>>=◌, ◌>>◌, root_inode_num, inode_at, set_inode,
  super_at, buffer_at, read_buffer, release_buffer,
}
use lychee_os.Fs.Disk.{u16_at}
use lychee_os.Fs.Super.{get_super}
use lychee_os.Fs.Inodes.{one_more, points_to}
use lychee_os.Fs.Release.{put_inode}
use lychee_os.Fs.Mapping.{ib_map}

abbrev pub name_len : ℕ
name_len = 14

-- `sizeof(struct_dir_entry)`
abbrev pub entry_size : ℕ
entry_size = 16

abbrev pub dirs_per_block : ℕ
dirs_per_block = 1024 / entry_size

-- The bytes of the memory from a pointer on.
abbrev pub Text : Type 0
Text = ℕ → ℕ

abbrev pub skip : (n : ℕ) → Text → Text
skip n t k = t (n + k)

-- What the functions read without having set it: how often the loop of each call of `strlen` may turn
-- (the register ecx, with 2^32 for 0), the text at the register edi in `strchr` and the address that
-- it returns to, the variable `i` of `get_dir`, the stack where the arrays for names lie, and what
-- follows the data of a buffer.
pub record Around : Type 0 where
  pub turns : (call : ℕ) → Text → ℕ
  pub at_edi : Text
  pub return_address : ℕ
  pub index : ℕ
  pub stack : Text
  pub after_data : (b : ℕ) → Text

-- `cmp dword [edi],0`
unfoldable pub word_zero : Text → Bool
word_zero t = (t 0 == 0) && (t 1 == 0) && (t 2 == 0) && (t 3 == 0)

-- `strlen`, whose loop turns `n` times at most. It ends at four bytes of 0.
unfoldable pub strlen : (n : ℕ) → Text → ℕ
strlen zero t = 0
strlen (suc n) t = elim (word_zero t) [ true ↦ 0 | false ↦ 1 + strlen n (skip 1 t) ]

-- `repe scasb`: whether it ends with the last two bytes equal.
unfoldable pub all_equal : (n c : ℕ) → Text → Bool
all_equal zero c t = true
all_equal (suc n) c t = (t 0 == c) && all_equal n c (skip 1 t)

-- `strchr`, on the text that edi points to and not on `str`. Where a byte differs, the jump leads into
-- `find_first_zero`, whose end puts the return address into eax (and other registers than were saved
-- are filled).
unfoldable pub strchr : (at_edi : Text) → (return_address c len : ℕ) → ℕ
strchr at_edi return_address c len = if all_equal len c at_edi then sub32 len 1 else return_address

-- The loop over `i < len` of `is_match` and `is_nmatch`.
unfoldable pub same_chars : (len : ℕ) (filename name : Text) → Bool
same_chars zero filename name = true
same_chars (suc len) filename name =
    (filename 0 == name 0) && same_chars len (skip 1 filename) (skip 1 name)

-- How often a loop over `i < len` of ints turns.
abbrev pub int_turns : (len : ℕ) → ℕ
int_turns len = if ltb len (2 ^ 31) then len else 0

-- The `name` of the entry `k` in a buffer, and its `inode`.
abbrev pub name_at : (bytes after_data : Text) → (k : ℕ) → Text
name_at bytes after_data k j =
    let p = entry_size * k + 2 + j in if ltb p 1024 then bytes p else after_data (p - 1024)

-- An entry of a directory: the buffer and the place there.
pub record DirEntry : Type 0 where
  pub buffer : ℕ
  pub place : ℕ

abbrev pub inode_of : DirEntry → Cmd ℕ
inode_of e = do m ← buffer_at e.buffer; pure (u16_at m.data_block (8 * e.place))

-- `filename[k] = 0`
abbrev pub cut : (k : ℕ) → Text → Text
cut k t j = if j == k then 0 else t j

module _ (around : Around) where
  -- `len` is an int; a comparison with an unsigned one is unsigned. `de` is the inode number and the
  -- name of an entry, or NULL.
  unfoldable pub is_nmatch : (filename : Text) (de : Option (ℕ × Text)) (len : ℕ) → Bool
  is_nmatch filename none len = false
  is_nmatch filename (some (inode, name)) len =
      if (ltb name_len len && ltb len (2 ^ 31)) || (inode == 0)
      then false
      else if strlen (around.turns 0 name) name == len
      then same_chars (int_turns len) filename name
      else false

  unfoldable pub is_match : (filename name : Text) → Bool
  is_match filename name =
      let len = strlen (around.turns 1 filename) filename in
      if len == strlen (around.turns 2 name) name
      then same_chars (int_turns len) filename name
      else false

  unfoldable pub is_dots : Text → Bool
  is_dots filename =
      (strlen (around.turns 5 filename) filename == 2)
      && (filename 0 == b'.')
      && (filename 1 == b'.')

  -- The text at the name of an entry.
  unfoldable pub entry_name : DirEntry → Cmd Text
  entry_name e = do
    m ← buffer_at e.buffer
    pure (name_at (λ p. get_or m.data_block p 0) (around.after_data e.buffer) e.place)

module _ (around : Around) (current : Process) where
  -- `filename` behind the test for `..`: at the root directory of the process it has become `.`.
  unfoldable pub renamed : (dir : ℕ) → Text → Text
  renamed dir filename =
      if is_dots around filename && points_to current.root dir then cut 1 filename else filename

module _ (w : World) where
  -- The next block of the directory, out of `ib_map`.
  unfoldable pub next_block : (dir i : ℕ) → Cmd (Option ℕ)
  next_block dir i = do
    block ← ib_map w (some dir) (i / dirs_per_block)
    n ← inode_at dir
    if block == 0 then pure none else read_buffer w n.dev block

  -- The first block of a directory; `none` without one.
  unfoldable pub first_block : (dir : ℕ) → Cmd (Option ℕ)
  first_block dir = do
    n ← inode_at dir
    if get_or n.data_blocks 0 0 == 0
        then pure none
        else read_buffer w n.dev (get_or n.data_blocks 0 0)

module _ (w : World) (around : Around) (current : Process) where
  -- The directory behind that test: at the root of a mounted file system it is the one that it is
  -- mounted on.
  unfoldable pub crossed : (dir : ℕ) → Text → Cmd ℕ
  crossed dir filename = do
    n ← inode_at dir
    if not (is_dots around filename)
          || points_to current.root dir
          || not (n.inode_num == root_inode_num)
        then pure dir
        else (do
          found ← get_super w n.dev
          elim found [
            | none ↦ halt
            | some s ↦ (do
              sb ← super_at s
              elim (sb.imount) [
                | none ↦ pure dir
                | some m ↦ (do put_inode w (some dir); set_inode m one_more; pure m)
              ])
          ])

module _ (w : World) (around : Around) where
  -- The test of an entry, before the rest of the loop.
  unfoldable pub match_entry :
      (filename : Text) → DirEntry → (rest : Cmd (Option DirEntry)) → Cmd (Option DirEntry)
  match_entry filename e rest = do
    name ← entry_name around e
    if is_match around filename name then pure (some e) else rest

  -- The loop of `find_entry`, on fuel, from the entry `i` on at the place `k` of the buffer. Without a
  -- buffer the next round reads through NULL.
  unfoldable pub scan_entries :
      (fuel dir : ℕ) (filename : Text) (count i : ℕ) (got : Option ℕ) (k : ℕ)
      → Cmd (Option DirEntry)
  scan_entries zero dir filename count i got k = spin
  scan_entries (suc fuel) dir filename count i none k =
      if ltb i count then stray else release_buffer w none >> pure none
  scan_entries (suc fuel) dir filename count i (some b) k =
      if leb count i
      then release_buffer w (some b) >> pure none
      else if leb dirs_per_block k
      then (do
        release_buffer w (some b)
        next ← next_block w dir i
        elim next [
          | none ↦ scan_entries fuel dir filename count (i + dirs_per_block) none k
          | some b' ↦
              match_entry filename (record { buffer = b'; place = 0 })
                (scan_entries fuel dir filename count (i + 1) (some b') 1)
        ])
      else match_entry filename (record { buffer = b; place = k })
          (scan_entries fuel dir filename count (i + 1) (some b) (k + 1))

module _ (w : World) (around : Around) (current : Process) where
  -- The number of entries is taken from the directory that the function is called with.
  unfoldable pub find_entry : (dir : Option ℕ) (filename : Text) → Cmd (Option DirEntry)
  find_entry none filename = pure none
  find_entry (some dir) filename =
      if (strlen (around.turns 3 filename) filename == 0)
        || ltb (name_len - 1) (strlen (around.turns 4 filename) filename)
      then pure none
      else (do
        n ← inode_at dir
        let count = n.size / entry_size
        at ← crossed w around current dir filename
        got ← first_block w at
        elim got [
          | none ↦ pure none
          | some b ↦
              scan_entries w around (suc count) at (renamed around current dir filename) count 0
                (some b) 0
        ])
