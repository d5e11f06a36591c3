-- ===== src/Fs/Bitmap.antt =====
-- The bitmaps of blocks and inodes: fs/bitmap.c.
use lychee_os.Base.{
  ℕ, zero, suc, ◌+◌, ◌-◌, ◌*◌, ◌/◌, ◌%◌, Bool, true, false, Option, none, some, List, ◌||◌, ltb,
  leb, not, ◌==◌, if◌then◌else◌, replicate, get_or,
}
use lychee_os.Buffer.{block_size}
use lychee_os.Fs.{
  Cmd, World, pure, halt, stray, ◌>>=◌, ◌>>◌, map_slots, inode_at, set_inode, super_at, buffer_at,
  set_buffer, release_buffer, claim_buffer, look_up_buffer,
}
use lychee_os.Fs.Disk.{set_bit, clear_bit}
use lychee_os.Fs.Super.{get_super}
use lychee_os.Fs.Inodes.{zero_inode}

module _ (w : World) where
  -- `find_first_zero` searches the block, puts the result into the register eax and then pops the
  -- caller's eax over it.
  unfoldable pub find_first_zero : List ℕ → ℕ
  find_first_zero bytes = w.junk

  -- The end of `free_block`: `clear_bit` gets the pointer to the buffer's header and not the one to its
  -- data, so it clears a bit of the header, or of what lies up to a kilobyte behind it.
  unfoldable pub clear_dmap : (index : ℕ) → Cmd (Unit {0})
  clear_dmap index = stray

  -- `free_block` on the buffer of the block, if there is one.
  unfoldable pub drop_cached : (index : ℕ) (cached : Option ℕ) → Cmd (Unit {0})
  drop_cached index none = clear_dmap index
  drop_cached index (some b) = do
    m ← buffer_at b
    if not (m.count == 1) then pure tt else (do
      set_buffer b (λ m. record m { dirty = false; uptodate = false })
      release_buffer w (some b)
      clear_dmap index)

  unfoldable pub free_block : (dev block : ℕ) → Cmd (Unit {0})
  free_block dev block = do
    found ← get_super w dev
    elim found [
      | none ↦ halt
      | some s ↦ (do
        sb ← super_at s
        if ltb block sb.first_data_block || leb sb.nr_blocks block then halt else (do
          cached ← look_up_buffer w dev block
          drop_cached (block - sb.first_data_block + 1) cached))
    ]

  -- The search for a bitmap with a bit that is not set, among the `n` slots from `k` on: the slot, the
  -- buffer and the bit.
  unfoldable pub find_bit : (slots : List (Option ℕ)) (n k : ℕ) → Cmd (Option (ℕ × ℕ × ℕ))
  find_bit slots zero k = pure none
  find_bit slots (suc n) k = elim (get_or slots k none) [
    | none ↦ find_bit slots n (k + 1)
    | some b ↦ (do
      m ← buffer_at b
      let bit = find_first_zero m.data_block
      if ltb bit 8192 then pure (some (k, b, bit)) else find_bit slots n (k + 1))
  ]

  -- `if(set_bit(mbuffer->data,bit)) halt(); mbuffer->dirty = mark;`
  unfoldable pub take_bit : (b bit : ℕ) → (mark : Bool) → Cmd (Unit {0})
  take_bit b bit mark = do
    m ← buffer_at b
    set_buffer b (λ m. record m { data_block = (set_bit m.data_block bit).1 })
    if not ((set_bit m.data_block bit).0 == 0)
        then halt
        else set_buffer b (λ m. record m { dirty = mark })

  -- The end of `new_block`, which returns nothing.
  unfoldable pub clear_new : (dev block : ℕ) → Cmd ℕ
  clear_new dev block = do
    b ← claim_buffer w dev block
    m ← buffer_at b
    if not (m.count == 1) then halt else (do
      set_buffer b
          (λ m. record m { data_block = replicate block_size 0; dirty = true; uptodate = true })
      release_buffer w (some b)
      pure w.junk)

  unfoldable pub new_block : (dev : ℕ) → Cmd ℕ
  new_block dev = do
    found ← get_super w dev
    elim found [
      | none ↦ halt
      | some s ↦ (do
        sb ← super_at s
        free ← find_bit sb.dmap map_slots 0
        elim free [
          | none ↦ pure 0
          | some (k, b, bit) ↦ (do
            take_bit b bit false
            let block = k * 8192 + bit + sb.first_data_block - 1
            if leb sb.nr_blocks block then pure w.junk else clear_new dev block)
        ])
    ]

  -- The end of `free_inode`, for an inode that may be freed.
  unfoldable pub clear_imap : (i : ℕ) (slot : Option ℕ) → Cmd (Unit {0})
  clear_imap i none = halt
  clear_imap i (some b) = do
    n ← inode_at i
    m ← buffer_at b
    set_buffer b (λ m. record m { data_block = (clear_bit m.data_block (n.inode_num % 8192)).1 })
    if (clear_bit m.data_block (n.inode_num % 8192)).0 == 0
        then halt
        else (do set_buffer b (λ m. record m { dirty = true }); set_inode i (λ n. zero_inode))

  unfoldable pub free_inode : (inode : Option ℕ) → Cmd (Unit {0})
  free_inode none = pure tt
  free_inode (some i) = do
    n ← inode_at i
    if n.dev == 0
        then set_inode i (λ n. zero_inode)
        else if ltb 1 n.count
        then halt
        else if not (n.nlinks == 0)
        then halt
        else (do
          found ← get_super w n.dev
          elim found [
            | none ↦ halt
            | some s ↦ (do
              sb ← super_at s
              n' ← inode_at i
              if ltb n'.inode_num 1 || leb sb.nr_inodes n'.inode_num
                  then halt
                  else clear_imap i (get_or sb.imap (n'.inode_num / 8192) none))
          ])
