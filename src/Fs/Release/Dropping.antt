-- ===== src/Fs/Release/Dropping.antt =====
-- What `put_inode` does to an inode.
use lychee_os.Base.{
  ℕ, zero, suc, ◌+◌, ◌-◌, ◌%◌, ◌^◌, ◌<◌, ◌≡◌, refl, ap, ◌∙◌, inl, inr, Bool, true, false, not, ◌||◌,
  ◌&&◌, none, some, ltb, ◌==◌, if◌then◌else◌, Bool-cases, arith,
}
use lychee_os.Blk.{Io}
use lychee_os.Fs.{
  Store, World, Inode, Result, returns, halts, nr_super, and_then, set_inode, ◌>>◌, is_blk,
}
use lychee_os.Fs.Laws.{IsCache}
use lychee_os.Fs.Disk.{store_inode}
use lychee_os.Fs.Super.Lookup.{IsSuperOf}
use lychee_os.Fs.Inodes.{inode_block, inode_place, wait_on_inode, write_inode}
use lychee_os.Fs.Inodes.Search.{wait_on_inode_free}
use lychee_os.Fs.Inodes.Writing.{put_self, flushed, write_inode_flushes}
use lychee_os.Fs.Inodes.Roundtrip.{taken, lock_on, written, written_buffer, inode_after}
use lychee_os.Fs.Release.{count_down, drop_inode, put_inode}

abbrev pub one_less : Inode → Inode
one_less n = record n { count = (n.count + 2 ^ 16 - 1) % 2 ^ 16 }

-- An inode that has other users, or that has a name and is not changed.
abbrev pub just_counted : Inode → Bool
just_counted n = ltb 1 n.count || (not (n.nlinks == 0) && not n.dirty)

-- What `put_inode` of such an inode ends in.
abbrev pub counted_down : ℕ → Store → Result (Unit {0})
counted_down i s =
    if (s.inodes i).count == 0
    then halts
    else if (s.inodes i).dev == 0
    then returns tt s
    else set_inode i one_less s

drop_inode_counts :
    (w : World) (fuel i : ℕ) (s : Store)
    → just_counted (s.inodes i) ≡ true
    → drop_inode w (suc fuel) i s ≡ count_down i s
unfolding drop_inode
drop_inode_counts w fuel i s counted = elim (Bool-cases (ltb 1 (s.inodes i).count)) [
  | inl shared ↦ rw shared refl
  | inr last ↦
      let named : ((s.inodes i).nlinks == 0) ≡ false = ground arith in
      let clean : (s.inodes i).dirty ≡ false = ground arith in rw (last, named, clean) refl
]

drop_inode_sets :
    (w : World) (fuel i : ℕ) (s : Store)
    → 0 < fuel
    → just_counted (s.inodes i) ≡ true
    → drop_inode w fuel i s ≡ set_inode i one_less s
unfolding count_down
drop_inode_sets w zero i s h counted = absurd (omega arith)
drop_inode_sets w (suc fuel) i s h counted = drop_inode_counts w fuel i s counted

-- With fuel, `put_inode` of an inode that is not locked, is no block device and has other users, or has
-- a name and is clean: it halts the machine for a use count of 0, does nothing without a device, and
-- otherwise lowers the use count by one and changes nothing else.
pub put_inode_lem :
    (w : World) (i : ℕ) (s : Store)
    → 0 < w.fuel
    → (s.inodes i).locked ≡ false
    → is_blk (s.inodes i).mode ≡ false
    → just_counted (s.inodes i) ≡ true
    → put_inode w (some i) s ≡ counted_down i s
unfolding put_inode
put_inode_lem w i s enough free plain counted =
    rw (wait_on_inode_free w w.fuel i s enough free) (elim (Bool-cases ((s.inodes i).count == 0)) [
      | inl unused ↦ rw unused refl
      | inr used ↦ elim (Bool-cases ((s.inodes i).dev == 0)) [
        | inl homeless ↦ rw (used, homeless) refl
        | inr home ↦ rw (used, home, plain) (drop_inode_sets w w.fuel i s enough counted)
      ]
    ])

drop_inode_writes :
    (w : World) (fuel i : ℕ) (s s1 : Store)
    → 0 < w.fuel
    → ltb 1 (s.inodes i).count ≡ false
    → ((s.inodes i).nlinks == 0) ≡ false
    → (s.inodes i).dirty ≡ true
    → write_inode w i s ≡ returns tt s1
    → (s1.inodes i).locked ≡ false
    → drop_inode w (suc fuel) i s ≡ drop_inode w fuel i s1
unfolding drop_inode
drop_inode_writes w fuel i s s1 enough last named dirty writes free =
    rw (last, named, dirty)
      (ap (λ r. and_then r (λ _. wait_on_inode w w.fuel i >> drop_inode w fuel i)) writes
        ∙ ap (λ r. and_then r (λ _. drop_inode w fuel i))
            (wait_on_inode_free w w.fuel i s1 enough free))

drop_inode_last :
    (w : World) (fuel i : ℕ) (s s1 : Store)
    → nr_super < fuel
    → ltb 1 (s.inodes i).count ≡ false
    → ((s.inodes i).nlinks == 0) ≡ false
    → (s.inodes i).dirty ≡ true
    → write_inode w i s ≡ returns tt s1
    → (s1.inodes i).locked ≡ false
    → just_counted (s1.inodes i) ≡ true
    → 0 < w.fuel
    → drop_inode w fuel i s ≡ set_inode i one_less s1
drop_inode_last w zero i s s1 h last named dirty writes free settled enough = absurd (omega arith)
drop_inode_last w (suc fuel) i s s1 h last named dirty writes free settled enough =
    drop_inode_writes w fuel i s s1 enough last named dirty writes free
    ∙ drop_inode_sets w fuel i s1 (omega arith) settled

-- On a lawful cache that keeps the inode's block in the buffer `b`, with enough fuel: the last
-- `put_inode` of a changed inode with a name writes the inode into its place of the block, marks the
-- buffer for the disk and leaves the inode clean and unused.
pub put_inode-writes :
    (w : World) (Loaded : ℕ → ℕ → ℕ → Io → Type 0) (i k b : ℕ) (s : Store)
    → IsCache w.cache Loaded
    → nr_super < w.fuel
    → (s.inodes i).locked ≡ false
    → (s.inodes i).dirty ≡ true
    → (s.inodes i).count ≡ 1
    → ((s.inodes i).nlinks == 0) ≡ false
    → ((s.inodes i).dev == 0) ≡ false
    → is_blk (s.inodes i).mode ≡ false
    → IsSuperOf (s.inodes i).dev k s
    → Loaded (s.inodes i).dev (inode_block (s.supers k) (s.inodes i).inode_num) b s.io
    → (s.io.buffers b).locked ≡ false
    → (s.io.buffers b).count < 255
    → (s' : Store) × (put_inode w (some i) s ≡ returns tt s')
      × ((s'.inodes i).count ≡ 0)
      × ((s'.inodes i).dirty ≡ false)
      × ((s'.io.buffers b).dirty ≡ true)
      × ((s'.io.buffers b).data_block
          ≡ store_inode
              (s.inodes i)
              (inode_place (s.inodes i).inode_num)
              (s.io.buffers b).data_block)
unfolding put_inode store_inode
put_inode-writes w Loaded i k b s law enough free dirty one named home plain sb here loose few =
    let s1 = flushed i b (taken i b s) in
    let writes =
      write_inode_flushes w Loaded law enough i k b s free dirty home sb here loose few in
    let buffer : s1.io.buffers b ≡ written (lock_on (s.inodes i)) (s.io.buffers b) =
      written_buffer i b s in
    let mine : s1.inodes i
        ≡ record (s.inodes i) { locked = false; proc_wait = none; dirty = false } =
      inode_after i b s in
    let used : ((s.inodes i).count == 0) ≡ false = ground arith in
    let last : ltb 1 (s.inodes i).count ≡ false = ground arith in
    let settled : just_counted (s1.inodes i) ≡ true =
      ap just_counted mine ∙ rw (last, named) refl in
    (
      record s1 { inodes = λ j. if j == i then one_less (s1.inodes i) else s1.inodes j },
      rw (wait_on_inode_free w w.fuel i s (omega arith) free) (
          rw (used, home, plain)
            (drop_inode_last w w.fuel i s s1 enough last named dirty writes
              (ap (λ n. n.locked) mine) settled (omega arith))),
      ap (λ n. n.count) (put_self i (one_less (s1.inodes i)) s1)
          ∙ ap (λ n. (one_less n).count) mine
          ∙ ap (λ c. (c + 2 ^ 16 - 1) % 2 ^ 16) one,
      ap (λ n. n.dirty) (put_self i (one_less (s1.inodes i)) s1) ∙ ap (λ n. n.dirty) mine,
      ap (λ m. m.dirty) buffer,
      ap (λ m. m.data_block) buffer,
    )
