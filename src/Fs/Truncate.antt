-- ===== src/Fs/Truncate.antt =====
-- Giving the blocks of a file back: fs/truncate.c.
pub mod Freeing
use lychee_os.Base.{
  ℕ, zero, suc, ◌+◌, ◌/◌, ◌%◌, Bool, true, false, Option, none, some, ◌||◌, not, ◌==◌,
  if◌then◌else◌, get_or, set,
}
use lychee_os.Fs.{
  Inode, Cmd, World, pure, ◌>>=◌, ◌>>◌, index_level1, index_level2, inode_at, set_inode, buffer_at,
  time, read_buffer, release_buffer, is_dir, is_normal,
}
use lychee_os.Fs.Disk.{u16_at}
use lychee_os.Fs.Bitmap.{free_block}

module _ (w : World) where
  -- The loop of `free_level1` with `n` rounds left: `p` is never moved, so each round reads the first
  -- number of the block in the buffer `b`.
  unfoldable pub free_first : (n dev b : ℕ) → Cmd (Unit {0})
  free_first zero dev b = pure tt
  free_first (suc n) dev b = do
    m ← buffer_at b
    let block = u16_at m.data_block 0
    if block == 0 then pure tt else free_block w dev block
    free_first n dev b

  unfoldable pub free_level1 : (dev block : ℕ) → Cmd (Unit {0})
  free_level1 dev block = if block == 0 then pure tt else (do
    got ← read_buffer w dev block
    elim got [ none ↦ pure tt | some b ↦ (do free_first 512 dev b; release_buffer w (some b)) ]
    free_block w dev block)

  -- The loop of `free_level2`, which makes one round more than there are numbers.
  unfoldable pub free_indirect : (n dev b : ℕ) → Cmd (Unit {0})
  free_indirect zero dev b = pure tt
  free_indirect (suc n) dev b = do
    m ← buffer_at b
    let block = u16_at m.data_block 0
    if block == 0 then pure tt else free_level1 dev block
    free_indirect n dev b

  unfoldable pub free_level2 : (dev block : ℕ) → Cmd (Unit {0})
  free_level2 dev block = if block == 0 then pure tt else (do
    got ← read_buffer w dev block
    elim got [ none ↦ pure tt | some b ↦ (do free_indirect 513 dev b; release_buffer w (some b)) ]
    free_block w dev block)

  -- The loop over the direct blocks, with `n` left.
  unfoldable pub free_direct : (n k i : ℕ) → Cmd (Unit {0})
  free_direct zero k i = pure tt
  free_direct (suc n) k i = do
    inode ← inode_at i
    free_block w inode.dev (get_or inode.data_blocks k 0)
    set_inode i (λ m. record m { data_blocks = set m.data_blocks k 0 })
    free_direct n (k + 1) i

  -- What `truncate` does after that loop.
  unfoldable pub cut_indirect : (i : ℕ) → Cmd (Unit {0})
  cut_indirect i = do
    inode1 ← inode_at i
    free_level1 inode1.dev (get_or inode1.data_blocks index_level1 0)
    inode2 ← inode_at i
    free_level2 inode2.dev (get_or inode2.data_blocks index_level2 0)
    now ← time
    set_inode i (λ m. record m {
      data_blocks = set (set m.data_blocks index_level1 0) index_level2 0;
      size = 0;
      dirty = true;
      modify_time = now;
      last_access = now;
    })

  unfoldable pub truncate : (inode : Option ℕ) → Cmd (Unit {0})
  truncate none = pure tt
  truncate (some i) = do
    inode ← inode_at i
    if is_dir inode.mode || is_normal inode.mode
        then free_direct index_level1 0 i >> cut_indirect i
        else pure tt
