-- ===== src/Fs/Mapping.antt =====
-- The blocks of a file: `ib_map` of fs/inode.c. A negative block number gives 0 like one that is too
-- large.
pub mod Blocks
use lychee_os.Base.{
  ℕ, zero, suc, ◌+◌, ◌-◌, ◌*◌, ◌/◌, ◌%◌, ◌^◌, Bool, true, false, Option, none, some, ◌&&◌, ltb, leb,
  not, ◌==◌, if◌then◌else◌, get_or, set,
}
use lychee_os.Fs.{
  Inode, Cmd, World, pure, stray, ◌>>=◌, ◌>>◌, index_level1, index_level2, inode_at, set_inode,
  buffer_at, set_buffer, time, read_buffer, release_buffer,
}
use lychee_os.Fs.Disk.{u16_at, put_u16}
use lychee_os.Fs.Bitmap.{new_block}

abbrev pub touch : ℕ → Inode → Inode
touch now n = record n { modify_time = now; last_access = now }

module _ (w : World) where
  -- `inode->data[k] = new_block(inode->dev);` and the times, if that is not 0. `mark` is whether the
  -- inode is marked for the disk then.
  unfoldable pub grow : (k i : ℕ) → (mark : Bool) → Cmd (Unit {0})
  grow k i mark = do
    n ← inode_at i
    got ← new_block w n.dev
    set_inode i (λ n. record n { data_blocks = set n.data_blocks k (got % 2 ^ 16) })
    now ← time
    if got % 2 ^ 16 == 0
        then pure tt
        else set_inode i (λ n. if mark then record (touch now n) { dirty = true } else touch now n)

  abbrev pub wants : Bool → ℕ → Bool
  wants new block = new && (block == 0)

  -- The branch of the direct blocks.
  unfoldable pub map_direct : (i block : ℕ) → (new : Bool) → Cmd ℕ
  map_direct i block new = do
    n ← inode_at i
    if wants new (get_or n.data_blocks block 0) then grow block i false else pure tt
    n' ← inode_at i
    pure (get_or n'.data_blocks block 0)

  -- The branch of the single indirection. Its reads are all inside of `if(new && !data[7])`; without
  -- them a buffer is released and a number returned that were never set. A new number is written to
  -- the place `block` and not `block - 7`, which from 512 on is outside of the buffer.
  unfoldable pub map_level1 : (i block : ℕ) → (new : Bool) → Cmd ℕ
  map_level1 i block new = do
    n ← inode_at i
    if not (wants new (get_or n.data_blocks index_level1 0)) then stray else (do
      grow index_level1 i true
      n' ← inode_at i
      let level1 = get_or n'.data_blocks index_level1 0
      if level1 == 0 then pure 0 else (do
        got ← read_buffer w n'.dev level1
        elim got [
          | none ↦ pure 0
          | some b ↦ (do
            m ← buffer_at b
            entry ← extend_level1 i b block (u16_at m.data_block (block - 7))
            release_buffer w (some b)
            pure entry)
        ]))
    where
      extend_level1 : (i b block entry : ℕ) → Cmd ℕ
      extend_level1 i b block entry = if not (entry == 0) then pure entry else (do
        n ← inode_at i
        fresh ← new_block w n.dev
        if fresh == 0 then pure 0 else if leb 512 block then stray else (do
          set_buffer b (λ m. record m {
            data_block = put_u16 m.data_block block (fresh % 2 ^ 16);
            dirty = true;
          })
          pure fresh))

  -- An entry of a block of numbers in the buffer `b`, made if it is 0 and `new` is set. The buffer is
  -- not marked for the disk.
  unfoldable pub entry_of : (i b k : ℕ) → (new : Bool) → Cmd ℕ
  entry_of i b k new = do
    m ← buffer_at b
    let entry = u16_at m.data_block k
    if leb 512 k then stray else if not (wants new entry) then pure entry else (do
      n ← inode_at i
      fresh ← new_block w n.dev
      now ← time
      if fresh == 0 then pure 0 else (do
        set_buffer b (λ m. record m { data_block = put_u16 m.data_block k (fresh % 2 ^ 16) })
        set_inode i (λ n. record (touch now n) { dirty = true })
        pure fresh))

  -- An entry out of the buffer that `bread` returned, and `brelease`; 0 without a buffer.
  unfoldable pub entry_from : (i k : ℕ) → (new : Bool) → (got : Option ℕ) → Cmd ℕ
  entry_from i k new none = pure 0
  entry_from i k new (some b) = do entry ← entry_of i b k new; release_buffer w (some b); pure entry

  unfoldable pub entry_in : (i block k : ℕ) → (new : Bool) → Cmd ℕ
  entry_in i block k new = do
    n ← inode_at i
    got ← read_buffer w n.dev block
    entry_from i k new got

  -- The branch of the double indirection; `block` counts from its start.
  unfoldable pub map_level2 : (i block : ℕ) → (new : Bool) → Cmd ℕ
  map_level2 i block new = do
    n ← inode_at i
    if wants new (get_or n.data_blocks index_level2 0) then grow index_level2 i true else pure tt
    n' ← inode_at i
    let level2 = get_or n'.data_blocks index_level2 0
    if level2 == 0 then pure 0 else (do
      level1 ← entry_in i level2 (block / 2 ^ 9) new
      if level1 == 0 then pure 0 else entry_in i level1 (block % 2 ^ 9) new)

  unfoldable pub ib_map_helper : (inode : Option ℕ) (block : ℕ) → (new : Bool) → Cmd ℕ
  ib_map_helper none block new = pure 0
  ib_map_helper (some i) block new =
      if ltb (7 + 512 + 512 * 512) block
      then pure 0
      else if ltb block 7
      then map_direct i block new
      else if ltb block (7 + 512)
      then map_level1 i block new
      else map_level2 i (block - (7 + 512)) new

  unfoldable pub ib_map : (inode : Option ℕ) (block : ℕ) → Cmd ℕ
  ib_map inode block = ib_map_helper inode block false

  unfoldable pub ib_map_new : (inode : Option ℕ) (block : ℕ) → Cmd ℕ
  ib_map_new inode block = ib_map_helper inode block true
