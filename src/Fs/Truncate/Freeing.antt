-- ===== src/Fs/Truncate/Freeing.antt =====
-- What becomes of a block that is given back, and of a file that is cut.
use lychee_os.Base.{
  ℕ, suc, ◌+◌, ◌-◌, ◌<◌, ◌≡◌, refl, ap, ◌∙◌, inl, inr, Bool, true, false, not, ◌||◌, Option, none,
  some, ltb, leb, ◌==◌, if◌then◌else◌, Bool-cases, get_or, set, arith,
}
use lychee_os.Blk.{Io, map_buffer}
use lychee_os.Buffer.{MemBuffer}
use lychee_os.Fs.{
  Store, World, Result, returns, halts, strays, nr_super, and_then, set_inode, ◌>>◌, landed_alone,
  looked_up, is_dir, is_normal,
}
use lychee_os.Fs.Laws.{IsCache}
use lychee_os.Fs.Super.Lookup.{Found, get_super_lem}
use lychee_os.Fs.Inodes.Writing.{mapped_self}
use lychee_os.Fs.Bitmap.{clear_dmap, drop_cached, free_block}
use lychee_os.Fs.Truncate.{free_direct, cut_indirect, truncate}

-- The blocks of the data zone of the super block `k`.
abbrev pub in_zone : (k block : ℕ) → Store → Bool
in_zone k block s =
    not (ltb block (s.supers k).first_data_block || leb (s.supers k).nr_blocks block)

-- What `free_block` ends in for a block of the data zone, by the buffer that holds it.
abbrev pub freed : Store → Option (ℕ × Io) → Result (Unit {0})
freed s none = strays
freed s (some (b, io)) =
    if (io.buffers b).count == 1 then strays else returns tt (record s { io = io })

-- The buffer that was found is not locked.
pub data LooseBuffer : Option (ℕ × Io) → Type 0 where
  uncached : LooseBuffer none
  cached : {b : ℕ} {io : Io} → (io.buffers b).locked ≡ false → LooseBuffer (some (b, io))

refused :
    (k block : ℕ) (s : Store) (b : Bool)
    → in_zone k block s ≡ b
    → (ltb block (s.supers k).first_data_block || leb (s.supers k).nr_blocks block) ≡ not b
refused k block s b h = ground arith

-- In nine steps of fuel, `free_block` halts the machine for a block outside of the data zone.
pub free_block-outside :
    (w : World) (dev block k : ℕ) (s : Store)
    → nr_super < w.fuel
    → Found dev s (some k)
    → in_zone k block s ≡ false
    → free_block w dev block s ≡ halts
unfolding free_block
free_block-outside w dev block k s enough found outside =
    rw (get_super_lem w dev (some k) s enough found) (rw (refused k block s false outside) refl)

drop_cached_lem :
    (w : World) (Loaded : ℕ → ℕ → ℕ → Io → Type 0) (index : ℕ) (buffer : Option (ℕ × Io))
    (s : Store)
    → IsCache w.cache Loaded
    → LooseBuffer buffer
    → and_then (looked_up buffer s) (drop_cached w index) ≡ freed s buffer
unfolding drop_cached clear_dmap
drop_cached_lem w Loaded index none s law loose = refl
drop_cached_lem w Loaded index (some (b, io)) s law (cached free) =
    elim (Bool-cases ((io.buffers b).count == 1)) [
      | inr other ↦ rw other refl
      | inl one ↦
          let f : MemBuffer → MemBuffer = λ m. record m { dirty = false; uptodate = false } in
          let io' = map_buffer io b f in
          let mine : io'.buffers b ≡ f (io.buffers b) = mapped_self b f io in
          rw one (
            ap (λ o. and_then (landed_alone o (record s { io = io' })) (λ _. clear_dmap w index))
              (law.gives_back b io' (ap (λ m. m.locked) mine ∙ free)
                (ap (λ m. m.count == 0) mine ∙ ground arith)))
    ]

-- In nine steps of fuel and on a lawful cache, `free_block` of a block of the data zone returns only if
-- a buffer in use holds the block, and it has then raised that buffer's use count and done nothing
-- else; in all other cases it goes on to clear a bit behind a wrong pointer.
pub free_block-inside :
    (w : World) (Loaded : ℕ → ℕ → ℕ → Io → Type 0) (dev block k : ℕ) (buffer : Option (ℕ × Io))
    (s : Store)
    → IsCache w.cache Loaded
    → nr_super < w.fuel
    → Found dev s (some k)
    → in_zone k block s ≡ true
    → w.cache.find_block dev block s.io ≡ buffer
    → LooseBuffer buffer
    → free_block w dev block s ≡ freed s buffer
unfolding free_block
free_block-inside w Loaded dev block k buffer s law enough found inside holds loose =
    let index = block - (s.supers k).first_data_block + 1 in
    rw (get_super_lem w dev (some k) s enough found) (
      rw (refused k block s true inside) (
        ap (λ o. and_then (looked_up o s) (drop_cached w index)) holds
        ∙ drop_cached_lem w Loaded index buffer s law loose))

free_direct-halts :
    (w : World) (n k i : ℕ) (s : Store)
    → free_block w (s.inodes i).dev (get_or (s.inodes i).data_blocks k 0) s ≡ halts
    → free_direct w (suc n) k i s ≡ halts
unfolding free_direct
free_direct-halts w n k i s stops =
    ap
      (λ r. and_then r (λ _.
        set_inode i (λ m. record m { data_blocks = set m.data_blocks k 0 })
        >> free_direct w n (k + 1) i))
      stops

-- In nine steps of fuel, `truncate` of a directory or a normal file whose first block number is not a
-- block of the data zone halts the machine: so it does for every file that has no first block, if the
-- data zone does not start at block 0.
pub truncate-halts :
    (w : World) (i k : ℕ) (s : Store)
    → nr_super < w.fuel
    → (is_dir (s.inodes i).mode || is_normal (s.inodes i).mode) ≡ true
    → Found (s.inodes i).dev s (some k)
    → in_zone k (get_or (s.inodes i).data_blocks 0 0) s ≡ false
    → truncate w (some i) s ≡ halts
unfolding truncate
truncate-halts w i k s enough kind found outside =
    let stops =
      free_block-outside w (s.inodes i).dev (get_or (s.inodes i).data_blocks 0 0) k s enough found
        outside in
    rw kind (ap (λ r. and_then r (λ _. cut_indirect w i)) (free_direct-halts w 6 0 i s stops))
