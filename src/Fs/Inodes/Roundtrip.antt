-- ===== src/Fs/Inodes/Roundtrip.antt =====
-- An inode that was written is read back.
use lychee_os.Base.{ℕ, suc, ◌<◌, ◌≡◌, refl, sym, ap, ◌∙◌, true, false, none, ◌==◌, length, arith}
use mathlib.Core.Path.{subst}
use lychee_os.Buffer.{MemBuffer}
use lychee_os.Blk.{Io, map_buffer}
use lychee_os.Cache.{take_one, give_back}
use lychee_os.Fs.{Store, World, Inode, returns, nr_super}
use lychee_os.Fs.Laws.{IsCache}
use lychee_os.Fs.Disk.{load_inode, store_inode}
use lychee_os.Fs.Disk.Codec.{IsStorable, load_inode-store_inode}
use lychee_os.Fs.Super.Lookup.{IsSuperOf}
use lychee_os.Fs.Inodes.{zero_inode, inode_block, inode_place, read_inode, write_inode}
use lychee_os.Fs.Inodes.Writing.{
  put, put_io, put_self, mapped_self, super_kept, store_in, flushed, fetched, write_inode_flushes,
  read_inode_fetches,
}

-- The fields of an inode that are on the disk.
abbrev pub on_disk : Inode → Inode
on_disk n = record zero_inode {
  mode = n.mode;
  size = n.size;
  modify_time = n.modify_time;
  create_time = n.create_time;
  last_access = n.last_access;
  nlinks = n.nlinks;
  data_blocks = n.data_blocks;
}

-- What `write_inode` makes of a buffer.
abbrev pub written : Inode → MemBuffer → MemBuffer
written n m = give_back (store_in n (take_one m))

abbrev pub lock_on : Inode → Inode
lock_on n = record n { locked = true }

-- The state between the lock and the write.
abbrev pub taken : (i b : ℕ) → Store → Store
taken i b s = put_io (map_buffer s.io b take_one) (put i (lock_on (s.inodes i)) s)

pub written_buffer :
    (i b : ℕ) (s : Store)
    → (flushed i b (taken i b s)).io.buffers b ≡ written (lock_on (s.inodes i)) (s.io.buffers b)
written_buffer i b s =
    let n' = (taken i b s).inodes i in
    let io1 = map_buffer s.io b take_one in
    let io2 = map_buffer io1 b (store_in n') in
    mapped_self b give_back io2
    ∙ ap give_back (mapped_self b (store_in n') io1)
    ∙ ap (λ m. give_back (store_in n' m)) (mapped_self b take_one s.io)
    ∙ ap (λ n. written n (s.io.buffers b)) (put_self i (lock_on (s.inodes i)) s)

written_other :
    (i j b : ℕ) (s : Store) → (j == i) ≡ false → (flushed i b (taken i b s)).inodes j ≡ s.inodes j
written_other i j b s ne = rw ne refl

pub clean_after : (i b : ℕ) (s : Store) → ((flushed i b (taken i b s)).inodes i).dirty ≡ false
clean_after i b s = let self : (i == i) ≡ true = ground arith in rw self refl

pub inode_after :
    (i b : ℕ) (s : Store)
    → (flushed i b (taken i b s)).inodes i
      ≡ record (s.inodes i) { locked = false; proc_wait = none; dirty = false }
inode_after i b s = let self : (i == i) ≡ true = ground arith in rw self refl

fetched_inode :
    (j b : ℕ) (s : Store)
    → on_disk ((fetched j b (taken j b s)).inodes j)
      ≡ on_disk
          (load_inode (s.io.buffers b).data_block (inode_place (s.inodes j).inode_num) (s.inodes j))
unfolding load_inode
fetched_inode j b s =
    let self : (j == j) ≡ true = ground arith in
    let here : (b == b) ≡ true = ground arith in rw (self, here) refl

module _ (w : World) (Loaded : ℕ → ℕ → ℕ → Io → Type 0) (law : IsCache w.cache Loaded)
    (enough : nr_super < w.fuel) where
  still-Loaded :
      (dev block b i : ℕ) (s : Store)
      → Loaded dev block b s.io
      → Loaded dev block b (flushed i b (taken i b s)).io
  still-Loaded dev block b i s here =
      let n' = (taken i b s).inodes i in
      law.stays dev block b b give_back _
        (record { dev = λ m. refl; block = λ m. refl; uptodate = λ m. refl })
        (law.stays dev block b b (store_in n') _
          (record { dev = λ m. refl; block = λ m. refl; uptodate = λ m. refl })
          (law.stays dev block b b take_one s.io
            (record { dev = λ m. refl; block = λ m. refl; uptodate = λ m. refl }) here))

  -- On a cache that keeps the block of an inode in the buffer `b`, with nine steps of fuel: `write_inode`
  -- of a changed inode returns and leaves it clean, and `read_inode` into another entry of the same
  -- inode that is not up to date then returns with all fields of the disk as they were written.
  pub read_inode-write_inode :
      (i j k b : ℕ) (s : Store)
      → (j == i) ≡ false
      → (s.inodes i).locked ≡ false
      → (s.inodes i).dirty ≡ true
      → ((s.inodes i).dev == 0) ≡ false
      → (s.inodes j).locked ≡ false
      → (s.inodes j).uptodate ≡ false
      → (s.inodes j).dev ≡ (s.inodes i).dev
      → (s.inodes j).inode_num ≡ (s.inodes i).inode_num
      → IsStorable (s.inodes i)
      → IsSuperOf (s.inodes i).dev k s
      → Loaded (s.inodes i).dev (inode_block (s.supers k) (s.inodes i).inode_num) b s.io
      → (s.io.buffers b).locked ≡ false
      → (s.io.buffers b).count < 255
      → length (s.io.buffers b).data_block ≡ 1024
      → (s1 s2 : Store) × (write_inode w i s ≡ returns tt s1)
        × ((s1.inodes i).dirty ≡ false)
        × (read_inode w j s1 ≡ returns tt s2)
        × (on_disk (s2.inodes j) ≡ on_disk (s.inodes i))
  unfolding store_inode
  read_inode-write_inode i j k b s ne free dirty some_dev free' stale dev num storable sb here loose
        few size =
      let n = s.inodes i in
      let s1 = flushed i b (taken i b s) in
      let m = s.io.buffers b in
      let other : s1.inodes j ≡ s.inodes j = written_other i j b s ne in
      let buffer : s1.io.buffers b ≡ written (lock_on n) m = written_buffer i b s in
      let same_dev : (s1.inodes j).dev ≡ n.dev = ap (λ x. x.dev) other ∙ dev in
      let same_num : (s1.inodes j).inode_num ≡ n.inode_num = ap (λ x. x.inode_num) other ∙ num in
      let place = inode_place n.inode_num in
      let sb' : IsSuperOf (s1.inodes j).dev k s1 =
        super_kept j k s s1 (s.inodes j) refl other (subst (λ d. IsSuperOf d k s) (sym dev) sb) in
      let here' : Loaded (s1.inodes j).dev (inode_block (s.supers k) (s1.inodes j).inode_num) b
          s1.io =
        subst (λ d. Loaded d (inode_block (s.supers k) (s1.inodes j).inode_num) b s1.io)
          (sym same_dev)
          (subst (λ nr. Loaded n.dev (inode_block (s.supers k) nr) b s1.io) (sym same_num)
            (still-Loaded n.dev (inode_block (s.supers k) n.inode_num) b i s here)) in
      let few' : (s1.io.buffers b).count < 255 =
        subst (λ (x : MemBuffer). x.count < 255) (sym buffer) (omega arith) in
      let read_back =
        (load_inode-store_inode n (s1.inodes j) place (suc place) m.data_block storable size
          (omega arith) (omega arith)).0 in
      (
        s1,
        fetched j b (taken j b s1),
        write_inode_flushes w Loaded law enough i k b s free dirty some_dev sb here loose few,
        clean_after i b s,
        read_inode_fetches w Loaded law enough j k b s1 (ap (λ x. x.locked) other ∙ free')
            (ap (λ x. x.uptodate) other ∙ stale) sb' here' (ap (λ x. x.locked) buffer ∙ loose) few',
        fetched_inode j b s1
            ∙ ap
                (λ (x : MemBuffer).
                  on_disk
                    (load_inode x.data_block (inode_place (s1.inodes j).inode_num) (s1.inodes j)))
                buffer
            ∙ ap
                (λ nr.
                  on_disk
                    (load_inode (store_inode n place m.data_block) (inode_place nr) (s1.inodes j)))
                same_num
            ∙ ap on_disk read_back,
      )
