-- ===== src/Fs/Inodes/Writing.antt =====
-- Writing an inode to its block and reading it from there.
use lychee_os.Base.{
  ℕ, ◌<◌, ◌≡◌, refl, sym, ap, ◌∙◌, true, false, not, ◌||◌, none, some, ◌==◌, if◌then◌else◌, arith,
}
use mathlib.Core.Path.{subst}
use lychee_os.Buffer.{MemBuffer}
use lychee_os.Blk.{Io, map_buffer}
use lychee_os.Cache.{take_one, give_back}
use lychee_os.Fs.{
  Store, World, Inode, returns, nr_super, ◌>>=◌, and_then, read_buffer, release_buffer, landed,
  landed_alone,
}
use lychee_os.Fs.Laws.{IsCache}
use lychee_os.Fs.Disk.{load_inode, store_inode}
use lychee_os.Fs.Super.Lookup.{IsSuperOf, at, get_super_lem}
use lychee_os.Fs.Inodes.Search.{wait_on_inode_free}
use lychee_os.Fs.Inodes.{
  or_halt, inode_block, inode_place, lock_inode, unlock_inode, fetch_inode, flush_inode,
  inode_buffer, read_inode, write_inode,
}

-- An entry changed.
abbrev pub put : ℕ → Inode → Store → Store
put i n s = record s { inodes = λ j. if j == i then n else s.inodes j }

abbrev pub put_io : Io → Store → Store
put_io io s = record s { io = io }

pub put_self : (i : ℕ) (n : Inode) (s : Store) → (put i n s).inodes i ≡ n
put_self i n s = let self : (i == i) ≡ true = ground arith in rw self refl

pub put_ne :
    (i j : ℕ) (n : Inode) (s : Store) → (j == i) ≡ false → (put i n s).inodes j ≡ s.inodes j
put_ne i j n s h = rw h refl

pub mapped_self :
    (b : ℕ) (f : MemBuffer → MemBuffer) (io : Io) → (map_buffer io b f).buffers b ≡ f (io.buffers b)
mapped_self b f io = let self : (b == b) ≡ true = ground arith in rw self refl

abbrev pub store_in : Inode → MemBuffer → MemBuffer
store_in n m = record m {
  data_block = store_inode n (inode_place n.inode_num) m.data_block;
  dirty = true;
}

abbrev pub unlocked : Inode → Inode
unlocked n = record n { locked = false; proc_wait = none }

-- The states that `flush_inode` and `fetch_inode` leave.
abbrev pub flushed : (i b : ℕ) → Store → Store
flushed i b s =
    let n = s.inodes i in
    let s1 = put i (record n { dirty = false }) (put_io (map_buffer s.io b (store_in n)) s) in
    let s2 = put_io (map_buffer s1.io b give_back) s1 in put i (unlocked (s2.inodes i)) s2

abbrev pub fetched : (i b : ℕ) → Store → Store
fetched i b s =
    let n = s.inodes i in
    let s1 = put i (load_inode (s.io.buffers b).data_block (inode_place n.inode_num) n) s in
    let s2 = put_io (map_buffer s1.io b give_back) s1 in put i (unlocked (s2.inodes i)) s2

-- The super block stays the first one of the device as long as the table does.
pub super_kept :
    (i k : ℕ) (s s1 : Store) (n : Inode)
    → s1.supers ≡ s.supers
    → s1.inodes i ≡ n
    → IsSuperOf n.dev k s
    → IsSuperOf (s1.inodes i).dev k s1
super_kept i k s s1 n same mine sb =
    subst (λ (m : Inode). IsSuperOf m.dev k s1) (sym mine)
      (record {
        within = sb.within;
        same = ap (λ t. (t k).dev == n.dev) same ∙ sb.same;
        free = ap (λ t. (t k).locked) same ∙ sb.free;
        earlier = λ j h. ap (λ t. (t j).dev == n.dev) same ∙ sb.earlier j h;
      })

module _ (w : World) (Loaded : ℕ → ℕ → ℕ → Io → Type 0) (law : IsCache w.cache Loaded)
    (enough : nr_super < w.fuel) where
  lock_inode_free :
      (i : ℕ) (s : Store)
      → (s.inodes i).locked ≡ false
      → lock_inode w i s ≡ returns tt (put i (record (s.inodes i) { locked = true }) s)
  unfolding lock_inode
  lock_inode_free i s free = rw (wait_on_inode_free w w.fuel i s (omega arith) free) refl

  read-Loaded :
      (dev block b : ℕ) (s : Store)
      → Loaded dev block b s.io
      → read_buffer w dev block s ≡ returns (some b) (put_io (map_buffer s.io b take_one) s)
  read-Loaded dev block b s here = ap (λ o. landed o s) (law.reads dev block b s.io here)

  released :
      (b : ℕ) (s : Store)
      → (s.io.buffers b).locked ≡ false
      → ((s.io.buffers b).count == 0) ≡ false
      → release_buffer w (some b) s ≡ returns tt (put_io (map_buffer s.io b give_back) s)
  released b s free used = ap (λ o. landed_alone o s) (law.gives_back b s.io free used)

  inode_buffer_lem :
      (i k b : ℕ) (s : Store)
      → IsSuperOf (s.inodes i).dev k s
      → Loaded (s.inodes i).dev (inode_block (s.supers k) (s.inodes i).inode_num) b s.io
      → inode_buffer w i s ≡ returns b (put_io (map_buffer s.io b take_one) s)
  unfolding inode_buffer
  inode_buffer_lem i k b s sb here =
      rw (get_super_lem w (s.inodes i).dev (some k) s enough (at sb)) (
        ap (λ r. and_then r or_halt)
          (read-Loaded (s.inodes i).dev (inode_block (s.supers k) (s.inodes i).inode_num) b s here))

  flush_inode_lem :
      (i b : ℕ) (s : Store)
      → (s.io.buffers b).locked ≡ false
      → ((s.io.buffers b).count == 0) ≡ false
      → flush_inode w i b s ≡ returns tt (flushed i b s)
  unfolding flush_inode unlock_inode
  flush_inode_lem i b s free used =
      let n = s.inodes i in
      let s1 = put i (record n { dirty = false }) (put_io (map_buffer s.io b (store_in n)) s) in
      ap (λ r. and_then r (λ _. unlock_inode w i))
        (released b s1 (ap (λ m. m.locked) (mapped_self b (store_in n) s.io) ∙ free)
          (ap (λ m. m.count == 0) (mapped_self b (store_in n) s.io) ∙ used))

  fetch_inode_lem :
      (i b : ℕ) (s : Store)
      → (s.io.buffers b).locked ≡ false
      → ((s.io.buffers b).count == 0) ≡ false
      → fetch_inode w i b s ≡ returns tt (fetched i b s)
  unfolding fetch_inode unlock_inode
  fetch_inode_lem i b s free used =
      let n = s.inodes i in
      let s1 = put i (load_inode (s.io.buffers b).data_block (inode_place n.inode_num) n) s in
      ap (λ r. and_then r (λ _. unlock_inode w i)) (released b s1 free used)

  -- The buffer of the inode after `bread`, which may be given back.
  taken_free :
      (b : ℕ) (io : Io)
      → (io.buffers b).locked ≡ false
      → ((map_buffer io b take_one).buffers b).locked ≡ false
  taken_free b io free = ap (λ m. m.locked) (mapped_self b take_one io) ∙ free

  taken_used :
      (b : ℕ) (io : Io)
      → (io.buffers b).count < 255
      → (((map_buffer io b take_one).buffers b).count == 0) ≡ false
  taken_used b io few = ap (λ m. m.count == 0) (mapped_self b take_one io) ∙ ground arith

  -- What `write_inode` needs, and what it leaves.
  pub write_inode_flushes :
      (i k b : ℕ) (s : Store)
      → (s.inodes i).locked ≡ false
      → (s.inodes i).dirty ≡ true
      → ((s.inodes i).dev == 0) ≡ false
      → IsSuperOf (s.inodes i).dev k s
      → Loaded (s.inodes i).dev (inode_block (s.supers k) (s.inodes i).inode_num) b s.io
      → (s.io.buffers b).locked ≡ false
      → (s.io.buffers b).count < 255
      → write_inode w i s
        ≡ returns tt (
            flushed i b (
              put_io
                (map_buffer s.io b take_one)
                (put i (record (s.inodes i) { locked = true }) s)))
  unfolding write_inode
  write_inode_flushes i k b s free dirty some_dev sb here loose few =
      let n = s.inodes i in
      let s1 = put i (record n { locked = true }) s in
      let s2 = put_io (map_buffer s1.io b take_one) s1 in
      let mine : s1.inodes i ≡ record n { locked = true } =
        put_self i (record n { locked = true }) s in
      let goes : (not (s1.inodes i).dirty || ((s1.inodes i).dev == 0)) ≡ false =
        ap (λ m. not m.dirty || (m.dev == 0)) mine ∙ rw (dirty, some_dev) refl in
      rw (lock_inode_free i s free) (
        ap (λ c. (if c then unlock_inode w i else (inode_buffer w i >>= flush_inode w i)) s1) goes
        ∙ ap (λ r. and_then r (flush_inode w i))
            (inode_buffer_lem i k b s1
              (super_kept i k s s1 (record n { locked = true }) refl mine sb)
              (subst (λ (m : Inode). Loaded m.dev (inode_block (s.supers k) m.inode_num) b s.io)
                (sym mine) here))
        ∙ flush_inode_lem i b s2 (taken_free b s.io loose) (taken_used b s.io few))

  -- `read_inode` of an inode that is not up to date.
  pub read_inode_fetches :
      (i k b : ℕ) (s : Store)
      → (s.inodes i).locked ≡ false
      → (s.inodes i).uptodate ≡ false
      → IsSuperOf (s.inodes i).dev k s
      → Loaded (s.inodes i).dev (inode_block (s.supers k) (s.inodes i).inode_num) b s.io
      → (s.io.buffers b).locked ≡ false
      → (s.io.buffers b).count < 255
      → read_inode w i s
        ≡ returns tt (
            fetched i b (
              put_io
                (map_buffer s.io b take_one)
                (put i (record (s.inodes i) { locked = true }) s)))
  unfolding read_inode
  read_inode_fetches i k b s free stale sb here loose few =
      let n = s.inodes i in
      let s1 = put i (record n { locked = true }) s in
      let s2 = put_io (map_buffer s1.io b take_one) s1 in
      let mine : s1.inodes i ≡ record n { locked = true } =
        put_self i (record n { locked = true }) s in
      let goes : (s1.inodes i).uptodate ≡ false = ap (λ m. m.uptodate) mine ∙ stale in
      rw (lock_inode_free i s free) (
        ap (λ c. (if c then unlock_inode w i else (inode_buffer w i >>= fetch_inode w i)) s1) goes
        ∙ ap (λ r. and_then r (fetch_inode w i))
            (inode_buffer_lem i k b s1
              (super_kept i k s s1 (record n { locked = true }) refl mine sb)
              (subst (λ (m : Inode). Loaded m.dev (inode_block (s.supers k) m.inode_num) b s.io)
                (sym mine) here))
        ∙ fetch_inode_lem i b s2 (taken_free b s.io loose) (taken_used b s.io few))
