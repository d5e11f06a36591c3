-- ===== src/Fs/Release.antt =====
-- Giving an inode back, and making a new one: `put_inode` of fs/inode.c and `new_inode` of
-- fs/bitmap.c.
pub mod Dropping
use lychee_os.Base.{
  ℕ, zero, suc, ◌+◌, ◌-◌, ◌*◌, ◌%◌, ◌^◌, Bool, true, false, Option, none, some, ◌||◌, ltb, leb, not,
  ◌==◌, if◌then◌else◌, get_or,
}
use lychee_os.Fs.{
  Inode, Cmd, World, pure, halt, spin, ◌>>=◌, ◌>>◌, map_slots, inode_at, set_inode, super_at, time,
  sync_blocks, is_blk,
}
use lychee_os.Fs.Super.{get_super}
use lychee_os.Fs.Inodes.{wait_on_inode, write_inode, get_empty_inode}
use lychee_os.Fs.Bitmap.{find_bit, take_bit, free_inode}
use lychee_os.Fs.Truncate.{truncate}

-- `inode->count --`, of 16 bits.
unfoldable pub count_down : ℕ → Cmd (Unit {0})
count_down i = set_inode i (λ n. record n { count = (n.count + 2 ^ 16 - 1) % 2 ^ 16 })

module _ (w : World) where
  -- The loop of `put_inode`, on fuel.
  unfoldable pub drop_inode : (fuel i : ℕ) → Cmd (Unit {0})
  drop_inode zero i = spin
  drop_inode (suc fuel) i = do
    n ← inode_at i
    if ltb 1 n.count
        then count_down i
        else if n.nlinks == 0
        then truncate w (some i) >> free_inode w (some i)
        else if n.dirty
        then (do write_inode w i; wait_on_inode w w.fuel i; drop_inode fuel i)
        else count_down i

  unfoldable pub put_inode : (inode : Option ℕ) → Cmd (Unit {0})
  put_inode none = pure tt
  put_inode (some i) = do
    wait_on_inode w w.fuel i
    n ← inode_at i
    if n.count == 0 then halt else if n.dev == 0 then pure tt else (do
      if is_blk n.mode
          then (do sync_blocks w (get_or n.data_blocks 0 0); wait_on_inode w w.fuel i)
          else pure tt
      drop_inode w.fuel i)

  unfoldable pub new_inode : (dev : ℕ) → Cmd (Option ℕ)
  new_inode dev = do
    i ← get_empty_inode w
    found ← get_super w dev
    elim found [
      | none ↦ halt
      | some s ↦ (do
        sb ← super_at s
        free ← find_bit w sb.imap map_slots 0
        elim free [
          | none ↦ put_inode (some i) >> pure none
          | some (k, b, bit) ↦
              if leb sb.nr_inodes (bit + k * 8192) then put_inode (some i) >> pure none else (do
                take_bit w b bit true
                now ← time
                set_inode i (λ n. record n {
                  modify_time = now;
                  create_time = now;
                  last_access = now;
                  nlinks = 1;
                  proc_wait = none;
                  dev = dev;
                  inode_num = bit + k * 8192;
                  count = 1;
                  locked = false;
                  dirty = true;
                  uptodate = true;
                  mount = false;
                })
                pure (some i))
        ])
    ]
