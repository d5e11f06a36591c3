-- ===== src/Fs/Super.antt =====
-- Super blocks: fs/super.c.
pub mod Lookup
use lychee_os.Base.{
  ℕ, zero, suc, ◌+◌, ◌%◌, Bool, true, false, Option, none, some, List, [], ◌∷◌, ltb, leb, not, ◌==◌,
  if◌then◌else◌, get_or, set, replicate,
}
use lychee_os.Fs.{
  SuperBlock, Store, Cmd, World, pure, halt, spin, stray, ◌>>=◌, ◌>>◌, nr_super, map_slots,
  super_magic, super_at, set_super, buffer_at, root_device, read_buffer, release_buffer, sleep,
}
use lychee_os.Fs.Disk.{load_super}

module _ (w : World) where
  -- `while(sb->locked) sleep_on(&sb->proc_wait);` on fuel.
  unfoldable pub wait_on_super : (fuel i : ℕ) → Cmd (Unit {0})
  wait_on_super zero i = spin
  wait_on_super (suc fuel) i = do
    sb ← super_at i
    if sb.locked then sleep w >> wait_on_super fuel i else pure tt

  unfoldable pub lock_super : ℕ → Cmd (Unit {0})
  lock_super i = do wait_on_super w.fuel i; set_super i (λ sb. record sb { locked = true })

  -- `wake_up` takes the address of the pointer for that of a process, and clears the pointer.
  unfoldable pub unlock_super : ℕ → Cmd (Unit {0})
  unlock_super i = set_super i (λ sb. record sb { locked = false; proc_wait = none })

  -- The loop of `get_super` from the entry `i` on, with fuel for every step.
  unfoldable pub find_super : (fuel dev i : ℕ) → Cmd (Option ℕ)
  find_super zero dev i = spin
  find_super (suc fuel) dev i = do
    sb ← super_at i
    if leb nr_super i
        then pure none
        else if sb.dev == dev
        then (do
          wait_on_super w.fuel i
          sb' ← super_at i
          if sb'.dev == dev then pure (some i) else find_super fuel dev 0)
        else find_super fuel dev (i + 1)

  unfoldable pub get_super : (dev : ℕ) → Cmd (Option ℕ)
  get_super dev = find_super w.fuel dev 0

  -- The loops of `put_super` over the slots of the two bitmaps, with `n` slots left.
  unfoldable pub release_imap : (n k i : ℕ) → Cmd (Unit {0})
  release_imap zero k i = pure tt
  release_imap (suc n) k i = do
    sb ← super_at i
    elim (get_or sb.imap k none) [ none ↦ pure tt | some b ↦ release_buffer w (some b) ]
    release_imap n (k + 1) i

  unfoldable pub release_dmap : (n k i : ℕ) → Cmd (Unit {0})
  release_dmap zero k i = pure tt
  release_dmap (suc n) k i = do
    sb ← super_at i
    elim (get_or sb.dmap k none) [ none ↦ pure tt | some b ↦ release_buffer w (some b) ]
    release_dmap n (k + 1) i

  unfoldable pub release_super : ℕ → Cmd (Unit {0})
  release_super i = do
    lock_super i
    set_super i (λ sb. record sb { dev = 0 })
    release_imap map_slots 0 i
    release_dmap map_slots 0 i
    unlock_super i

  unfoldable pub put_super : (dev : ℕ) → Cmd (Unit {0})
  put_super dev = do
    root ← root_device
    if dev == root then pure tt else (do
      found ← get_super dev
      elim found [
        | none ↦ halt
        | some i ↦ (do
          sb ← super_at i
          elim (sb.imount) [ none ↦ release_super i | some m ↦ pure tt ])
      ])

  -- The first unused entry among the `n` from `i` on.
  unfoldable pub free_slot : (n i : ℕ) → Cmd (Option ℕ)
  free_slot zero i = pure none
  free_slot (suc n) i = do
    sb ← super_at i
    if sb.dev == 0 then pure (some i) else free_slot n (i + 1)

  -- The loops over the maps take their number once. `block` goes on only when a block of the map of inodes was read. A map of more than eight blocks
  -- leaves the array.
  unfoldable pub read_imap : (n k i dev block : ℕ) → Cmd ℕ
  read_imap zero k i dev block = pure block
  read_imap (suc n) k i dev block = do
    got ← read_buffer w dev block
    if leb map_slots k then stray else set_super i (λ sb. record sb { imap = set sb.imap k got })
    elim got [
      | none ↦ read_imap n (k + 1) i dev block
      | some b ↦ read_imap n (k + 1) i dev (block + 1)
    ]

  unfoldable pub read_dmap : (n k i dev block : ℕ) → Cmd (Unit {0})
  read_dmap zero k i dev block = pure tt
  read_dmap (suc n) k i dev block = do
    got ← read_buffer w dev block
    if leb map_slots k then stray else set_super i (λ sb. record sb { dmap = set sb.dmap k got })
    read_dmap n (k + 1) i dev (block + 1)

  -- `read_super` once the block 1 is in the buffer `b` and the entry `i` is locked.
  unfoldable pub fill_super : (dev i b : ℕ) → Cmd (Option ℕ)
  fill_super dev i b = do
    m ← buffer_at b
    set_super i (load_super m.data_block)
    release_buffer w (some b)
    sb ← super_at i
    if not (sb.magic == super_magic)
        then (do set_super i (λ sb. record sb { dev = 0 }); w.free_super i; pure none)
        else (do
          set_super i (λ sb. record sb {
            dev = dev;
            root_inode = none;
            imount = none;
            proc_wait = none;
            locked = false;
            read_only = false;
            dirty = false;
            uptodate = true;
            imap = replicate map_slots none;
            dmap = replicate map_slots none;
          })
          sb' ← super_at i
          block ← read_imap sb'.imap_blocks 0 i dev 2
          sb'' ← super_at i
          read_dmap sb''.dmap_blocks 0 i dev block
          unlock_super i
          pure (some i))

  unfoldable pub read_super : (dev : ℕ) → Cmd (Option ℕ)
  read_super dev = if dev == 0 then pure none else (do
    present ← get_super dev
    elim present [
      | some i ↦ pure (some i)
      | none ↦ (do
        slot ← free_slot nr_super 0
        elim slot [
          | none ↦ pure none
          | some i ↦ (do
            lock_super i
            got ← read_buffer w dev 1
            elim got [
              | none ↦ (do set_super i (λ sb. record sb { dev = 0 }); unlock_super i; pure none)
              | some b ↦ fill_super dev i b
            ])
        ])
    ])
