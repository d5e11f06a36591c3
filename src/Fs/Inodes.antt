-- ===== src/Fs/Inodes.antt =====
-- Inodes in memory and on the disk: the first half of fs/inode.c.
pub mod Search
pub mod Writing
pub mod Roundtrip
use lychee_os.Base.{
  ℕ, zero, suc, ◌+◌, ◌-◌, ◌/◌, ◌%◌, ◌^◌, Bool, true, false, Option, none, some, List, ◌&&◌, ◌||◌,
  ltb, leb, not, ◌==◌, if◌then◌else◌, replicate, sub32,
}
use lychee_os.Fs.{
  Inode, SuperBlock, Cmd, World, pure, halt, spin, stray, ◌>>=◌, ◌>>◌, nr_inode, nr_super,
  root_inode_num, inode_at, set_inode, super_at, buffer_at, set_buffer, read_buffer, release_buffer,
  sleep,
}
use lychee_os.Fs.Disk.{inodes_per_block, load_inode, store_inode}
use lychee_os.Fs.Super.{get_super}

-- `memset(inode,0,sizeof(*inode))`
abbrev pub zero_inode : Inode
zero_inode = record {
  mode = 0;
  size = 0;
  modify_time = 0;
  create_time = 0;
  last_access = 0;
  nlinks = 0;
  data_blocks = replicate 9 0;
  proc_wait = none;
  dev = 0;
  inode_num = 0;
  count = 0;
  locked = false;
  dirty = false;
  uptodate = false;
  mount = false;
}

-- The block of an inode on its device, and its place there.
abbrev pub inode_block : SuperBlock → ℕ → ℕ
inode_block sb nr = 2 + sb.imap_blocks + sb.dmap_blocks + sub32 nr 1 / inodes_per_block

abbrev pub inode_place : ℕ → ℕ
inode_place nr = sub32 nr 1 % inodes_per_block

-- A number of 16 bits as an unsigned one: `count ++`.
abbrev pub one_more : Inode → Inode
one_more n = record n { count = (n.count + 1) % 2 ^ 16 }

abbrev pub points_to : Option ℕ → ℕ → Bool
points_to none i = false
points_to (some m) i = m == i

-- A buffer, or NULL, on which the function halts.
abbrev pub or_halt : Option ℕ → Cmd ℕ
or_halt none = halt
or_halt (some b) = pure b

module _ (w : World) where
  -- `while(inode->locked) sleep_on(&inode->proc_wait);` on fuel.
  unfoldable pub wait_on_inode : (fuel i : ℕ) → Cmd (Unit {0})
  wait_on_inode zero i = spin
  wait_on_inode (suc fuel) i = do
    n ← inode_at i
    if n.locked then sleep w >> wait_on_inode fuel i else pure tt

  unfoldable pub lock_inode : ℕ → Cmd (Unit {0})
  lock_inode i = do wait_on_inode w.fuel i; set_inode i (λ n. record n { locked = true })

  -- `wake_up` clears the pointer.
  unfoldable pub unlock_inode : ℕ → Cmd (Unit {0})
  unlock_inode i = set_inode i (λ n. record n { locked = false; proc_wait = none })

  -- The end of `read_inode` and of `write_inode`, on the buffer of the inode's block.
  unfoldable pub fetch_inode : (i b : ℕ) → Cmd (Unit {0})
  fetch_inode i b = do
    m ← buffer_at b
    set_inode i (λ n. load_inode m.data_block (inode_place n.inode_num) n)
    release_buffer w (some b)
    unlock_inode i

  unfoldable pub flush_inode : (i b : ℕ) → Cmd (Unit {0})
  flush_inode i b = do
    n ← inode_at i
    set_buffer b (λ m. record m {
      data_block = store_inode n (inode_place n.inode_num) m.data_block;
      dirty = true;
    })
    set_inode i (λ n. record n { dirty = false })
    release_buffer w (some b)
    unlock_inode i

  -- The block of the inode; the function halts without a super block or a buffer.
  unfoldable pub inode_buffer : ℕ → Cmd ℕ
  inode_buffer i = do
    n ← inode_at i
    found ← get_super w n.dev
    elim found [
      | none ↦ halt
      | some s ↦ (do
        sb ← super_at s
        n' ← inode_at i
        got ← read_buffer w n'.dev (inode_block sb n'.inode_num)
        or_halt got)
    ]

  unfoldable pub read_inode : ℕ → Cmd (Unit {0})
  read_inode i = do
    lock_inode i
    n ← inode_at i
    if n.uptodate then unlock_inode i else inode_buffer i >>= fetch_inode i

  unfoldable pub write_inode : ℕ → Cmd (Unit {0})
  write_inode i = do
    lock_inode i
    n ← inode_at i
    if not n.dirty || (n.dev == 0) then unlock_inode i else inode_buffer i >>= flush_inode i

  -- A message for an inode in use is left out.
  unfoldable pub invalidate : (n i dev : ℕ) → Cmd (Unit {0})
  invalidate zero i dev = pure tt
  invalidate (suc n) i dev = do
    wait_on_inode w.fuel i
    inode ← inode_at i
    if inode.dev == dev then set_inode i (λ m. record m { dev = 0; dirty = false }) else pure tt
    invalidate n (i + 1) dev

  unfoldable pub invalid_inodes : (dev : ℕ) → Cmd (Unit {0})
  invalid_inodes dev = invalidate nr_inode 0 dev

  unfoldable pub sync_from : (n i : ℕ) → Cmd (Unit {0})
  sync_from zero i = pure tt
  sync_from (suc n) i = do
    wait_on_inode w.fuel i
    inode ← inode_at i
    if inode.dirty then write_inode i else pure tt
    sync_from n (i + 1)

  unfoldable pub sync_inodes : Cmd (Unit {0})
  sync_inodes = sync_from nr_inode 0

  -- The search of `get_empty_inode`: a free entry that is not dirty and is locked.
  unfoldable pub pick_inode : (n i : ℕ) → Cmd (Option ℕ)
  pick_inode zero i = pure none
  pick_inode (suc n) i = do
    inode ← inode_at i
    if (inode.count == 0) && not inode.dirty && inode.locked
        then pure (some i)
        else pick_inode n (i + 1)

  -- `while(inode->dirty) { write_inode(inode); wait_on_inode(inode); }` on fuel.
  unfoldable pub clean_inode : (fuel i : ℕ) → Cmd (Unit {0})
  clean_inode zero i = spin
  clean_inode (suc fuel) i = do
    inode ← inode_at i
    if inode.dirty then (do write_inode i; wait_on_inode w.fuel i; clean_inode fuel i) else pure tt

  -- The loop of `get_empty_inode`, on fuel. The result is never NULL.
  unfoldable pub claim_inode : (fuel : ℕ) → Cmd ℕ
  claim_inode zero = spin
  claim_inode (suc fuel) = do
    picked ← pick_inode nr_inode 0
    elim picked [
      | none ↦ halt
      | some i ↦ (do
        wait_on_inode w.fuel i
        clean_inode w.fuel i
        inode ← inode_at i
        if inode.count == 0 then pure i else claim_inode fuel)
    ]

  unfoldable pub get_empty_inode : Cmd ℕ
  get_empty_inode = do
    i ← claim_inode w.fuel
    set_inode i (λ n. record zero_inode { count = 1 })
    pure i

  -- The first super block of the `n` from `s` on that is mounted on an inode.
  unfoldable pub mounted_on : (n s i : ℕ) → Cmd (Option ℕ)
  mounted_on zero s i = pure none
  mounted_on (suc n) s i = do
    sb ← super_at s
    if points_to sb.imount i then pure (some s) else mounted_on n (s + 1) i

  -- The scan of `get_inode` from the entry `i` on, with fuel for every step. The caller goes on from
  -- what is found; at a mount point the scan starts over for the root of the mounted file system.
  unfoldable pub find_inode : (fuel dev nr i : ℕ) → Cmd (Option ℕ)
  find_inode zero dev nr i = spin
  find_inode (suc fuel) dev nr i = if leb nr_inode i then pure none else (do
    inode ← inode_at i
    if not (inode.dev == dev) || not (inode.inode_num == nr)
        then find_inode fuel dev nr (i + 1)
        else (do
          wait_on_inode w.fuel i
          inode' ← inode_at i
          if not (inode'.dev == dev) || not (inode'.inode_num == nr)
              then find_inode fuel dev nr 0
              else (do
                set_inode i one_more
                if inode'.mount
                    then (do
                      over ← mounted_on nr_super 0 i
                      elim over [
                        | none ↦ pure (some i)
                        | some s ↦ (do
                          w.iput i
                          sb ← super_at s
                          find_inode fuel sb.dev root_inode_num 0)
                      ])
                    else pure (some i))))

  -- The test of the result of `get_empty_inode` is the wrong way round: an entry that was found is given
  -- up, and only NULL, which does not come, would be filled. For `dev <= 0` the function ends without a
  -- value.
  unfoldable pub get_inode : (dev nr : ℕ) → Cmd (Option ℕ)
  get_inode dev nr = if dev == 0 then stray else (do
    found ← find_inode w.fuel dev nr 0
    elim found [ some i ↦ pure (some i) | none ↦ get_empty_inode >> pure none ])
