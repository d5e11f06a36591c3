-- ===== src/Fs/Mapping/Blocks.antt =====
-- Where the blocks of a file are, as `ib_map` finds them.
use lychee_os.Base.{
  ℕ, ◌+◌, ◌-◌, ◌*◌, ◌/◌, ◌%◌, ◌^◌, ◌<◌, ◌≡◌, refl, sym, ap, ◌∙◌, inl, inr, false, some, ltb, leb,
  ◌==◌, ==_iff, if◌then◌else◌, Bool-cases, get_or, arith,
}
use mathlib.Core.Path.{subst}
use lychee_os.Buffer.{MemBuffer}
use lychee_os.Blk.{Io, map_buffer}
use lychee_os.Cache.{take_one, give_back}
use lychee_os.Fs.{
  Store, World, returns, strays, index_level2, Cmd, and_then, pure, landed, landed_alone, ◌>>=◌,
}
use lychee_os.Fs.Laws.{IsCache}
use lychee_os.Fs.Disk.{u16_at}
use lychee_os.Fs.Inodes.Writing.{put_io, mapped_self}
use lychee_os.Fs.Mapping.{
  map_direct, map_level1, map_level2, entry_of, entry_from, entry_in, ib_map_helper, ib_map,
}

-- A buffer that can be read and given back without a wait.
pub record IsReady (b : ℕ) (io : Io) : Type 0 where
  pub loose : (io.buffers b).locked ≡ false
  pub few : (io.buffers b).count < 255

-- The cache after a block was read and given back.
abbrev pub used : (b : ℕ) → Store → Store
used b s = put_io (map_buffer (map_buffer s.io b take_one) b give_back) s

-- `ib_map` of a direct block is the number in the inode, of a block behind the last one 0, and of a
-- block of the single indirection it strays, whatever the inode and the disk hold.
pub ib_map_lem :
    (w : World) (i block : ℕ) (s : Store)
    → ib_map w (some i) block s ≡ (
        if ltb (7 + 512 + 512 * 512) block
        then returns 0 s
        else if ltb block 7
        then returns (get_or (s.inodes i).data_blocks block 0) s
        else if ltb block (7 + 512)
        then strays
        else map_level2 w i (block - (7 + 512)) false s)
unfolding ib_map ib_map_helper map_direct map_level1
ib_map_lem w i block s = elim (Bool-cases (ltb (7 + 512 + 512 * 512) block)) [
  | inl large ↦ rw large refl
  | inr within ↦ elim (Bool-cases (ltb block 7)) [
    | inl direct ↦ rw (within, direct) refl
    | inr behind ↦ elim (Bool-cases (ltb block (7 + 512))) [
      | inl single ↦ rw (within, behind, single) refl
      | inr double ↦ rw (within, behind, double) refl
    ]
  ]
]

entry_of_present :
    (w : World) (i b k : ℕ) (s : Store)
    → k < 512
    → entry_of w i b k false s ≡ returns (u16_at (s.io.buffers b).data_block k) s
unfolding entry_of
entry_of_present w i b k s h = let inside : leb 512 k ≡ false = ground arith in rw inside refl

entry_from_lem :
    (w : World) (Loaded : ℕ → ℕ → ℕ → Io → Type 0) (i k b : ℕ) (s : Store)
    → IsCache w.cache Loaded
    → (s.io.buffers b).locked ≡ false
    → ((s.io.buffers b).count == 0) ≡ false
    → k < 512
    → entry_from w i k false (some b) s
      ≡ returns (u16_at (s.io.buffers b).data_block k) (put_io (map_buffer s.io b give_back) s)
unfolding entry_from
entry_from_lem w Loaded i k b s law loose in_use h =
    let entry = u16_at (s.io.buffers b).data_block k in
    rw (entry_of_present w i b k s h)
      (ap (λ o. and_then (landed_alone o s) (λ _. pure entry)) (law.gives_back b s.io loose in_use))

entry_in_lem :
    (w : World) (Loaded : ℕ → ℕ → ℕ → Io → Type 0) (i block k b : ℕ) (s : Store)
    → IsCache w.cache Loaded
    → Loaded (s.inodes i).dev block b s.io
    → IsReady b s.io
    → k < 512
    → entry_in w i block k false s ≡ returns (u16_at (s.io.buffers b).data_block k) (used b s)
unfolding entry_in
entry_in_lem w Loaded i block k b s law here ready h =
    let s1 = put_io (map_buffer s.io b take_one) s in
    let mine : s1.io.buffers b ≡ take_one (s.io.buffers b) = mapped_self b take_one s.io in
    let few = ready.few in
    ap (λ o. and_then (landed o s) (entry_from w i k false))
      (law.reads (s.inodes i).dev block b s.io here)
    ∙ entry_from_lem w Loaded i k b s1 law (ap (λ m. m.locked) mine ∙ ready.loose)
        (ap (λ m. m.count == 0) mine ∙ ground arith) h
    ∙ ap (λ (m : MemBuffer). returns (u16_at m.data_block k) (used b s)) mine

-- What one use of a buffer leaves of any buffer.
used_keeps :
    (b c : ℕ) (s : Store)
    → (s.io.buffers b).count < 255
    → (((used b s).io.buffers c).data_block ≡ (s.io.buffers c).data_block)
      × (((used b s).io.buffers c).locked ≡ (s.io.buffers c).locked)
      × (((used b s).io.buffers c).count ≡ (s.io.buffers c).count)
used_keeps b c s few = elim (Bool-cases (c == b)) [
  | inl same ↦
      let e = (==_iff c b).0 same in
      let mine : (used b s).io.buffers c ≡ give_back (take_one (s.io.buffers c)) =
        ap ((used b s).io.buffers) e
        ∙ mapped_self b give_back (map_buffer s.io b take_one)
        ∙ ap give_back (mapped_self b take_one s.io)
        ∙ ap (λ x. give_back (take_one (s.io.buffers x))) (sym e) in
      let few' : (s.io.buffers c).count < 255 =
        subst (λ x. (s.io.buffers x).count < 255) (sym e) few in
      (ap (λ m. m.data_block) mine, ap (λ m. m.locked) mine, ap (λ m. m.count) mine ∙ ground arith)
  | inr other ↦ rw other (refl, refl, refl)
]

still-Loaded :
    (w : World) (Loaded : ℕ → ℕ → ℕ → Io → Type 0) (dev block b c : ℕ) (s : Store)
    → IsCache w.cache Loaded
    → Loaded dev block b s.io
    → Loaded dev block b (used c s).io
still-Loaded w Loaded dev block b c s law here =
    law.stays dev block b c give_back _
      (record { dev = λ m. refl; block = λ m. refl; uptodate = λ m. refl })
      (law.stays dev block b c take_one s.io
        (record { dev = λ m. refl; block = λ m. refl; uptodate = λ m. refl }) here)

still-IsReady : (b c : ℕ) (s : Store) → IsReady c s.io → IsReady b s.io → IsReady b (used c s).io
still-IsReady b c s one ready =
    let (bytes, lock, count) = used_keeps c b s one.few in
    record { loose = lock ∙ ready.loose; few = subst (λ x. x < 255) (sym count) ready.few }

second_entry :
    (w : World) (Loaded : ℕ → ℕ → ℕ → Io → Type 0) (i k block c b : ℕ) (s : Store)
    → IsCache w.cache Loaded
    → Loaded (s.inodes i).dev block b s.io
    → IsReady c s.io
    → IsReady b s.io
    → k < 512
    → entry_in w i block k false (used c s)
      ≡ returns (u16_at (s.io.buffers b).data_block k) (used b (used c s))
second_entry w Loaded i k block c b s law here one ready h =
    let (bytes, lock, count) = used_keeps c b s one.few in
    entry_in_lem w Loaded i block k b (used c s) law
      (still-Loaded w Loaded (s.inodes i).dev block b c s law here) (still-IsReady b c s one ready)
      h
    ∙ ap (λ t. returns (u16_at t k) (used b (used c s))) bytes

map_level2_lem :
    (w : World) (i q block2 block1 entry : ℕ) (s s2 s1 : Store)
    → block2 ≡ get_or (s.inodes i).data_blocks index_level2 0
    → (block2 == 0) ≡ false
    → entry_in w i block2 (q / 2 ^ 9) false s ≡ returns block1 s2
    → (block1 == 0) ≡ false
    → entry_in w i block1 (q % 2 ^ 9) false s2 ≡ returns entry s1
    → map_level2 w i q false s ≡ returns entry s1
unfolding map_level2
map_level2_lem w i q block2 block1 entry s s2 s1 at2 some2 first some1 second =
    let rest : ℕ → Cmd ℕ = λ e. if e == 0 then pure 0 else entry_in w i e (q % 2 ^ 9) false in
    ap (λ x. (if x == 0 then pure 0 else (entry_in w i x (q / 2 ^ 9) false >>= rest)) s) (sym at2)
    ∙ ap (λ c. (if c then pure 0 else (entry_in w i block2 (q / 2 ^ 9) false >>= rest)) s) some2
    ∙ ap (λ r. and_then r rest) first
    ∙ ap (λ c. (if c then pure 0 else entry_in w i block1 (q % 2 ^ 9) false) s2) some1
    ∙ second

ib_map-level2 :
    (w : World) (i q : ℕ) (s : Store)
    → q < 512 * 512
    → ib_map w (some i) (7 + 512 + q) s ≡ map_level2 w i q false s
ib_map-level2 w i q s small =
    let within : ltb (7 + 512 + 512 * 512) (7 + 512 + q) ≡ false = ground arith in
    let behind : ltb (7 + 512 + q) 7 ≡ false = ground arith in
    let double : ltb (7 + 512 + q) (7 + 512) ≡ false = ground arith in
    let place : 7 + 512 + q - (7 + 512) ≡ q = omega arith in
    ib_map_lem w i (7 + 512 + q) s ∙ rw (within, behind, double, place) refl

-- On a lawful cache that keeps the two blocks of numbers in the buffers `b2` and `b1`, `ib_map` of a
-- block of the double indirection returns the number in the second block that the first one leads
-- to, and it has read and given back each of the two buffers.
pub ib_map-double :
    (w : World) (Loaded : ℕ → ℕ → ℕ → Io → Type 0) (i q b2 b1 : ℕ) (s : Store)
    → IsCache w.cache Loaded
    → q < 512 * 512
    → (get_or (s.inodes i).data_blocks index_level2 0 == 0) ≡ false
    → Loaded (s.inodes i).dev (get_or (s.inodes i).data_blocks index_level2 0) b2 s.io
    → (u16_at (s.io.buffers b2).data_block (q / 2 ^ 9) == 0) ≡ false
    → Loaded (s.inodes i).dev (u16_at (s.io.buffers b2).data_block (q / 2 ^ 9)) b1 s.io
    → IsReady b2 s.io
    → IsReady b1 s.io
    → ib_map w (some i) (7 + 512 + q) s
      ≡ returns (u16_at (s.io.buffers b1).data_block (q % 2 ^ 9)) (used b1 (used b2 s))
ib_map-double w Loaded i q b2 b1 s law small level2 here2 level1 here1 ready2 ready1 =
    let block2 = get_or (s.inodes i).data_blocks index_level2 0 in
    let block1 = u16_at (s.io.buffers b2).data_block (q / 2 ^ 9) in
    ib_map-level2 w i q s small
    ∙ map_level2_lem w i q block2 block1 (u16_at (s.io.buffers b1).data_block (q % 2 ^ 9)) s
        (used b2 s) (used b1 (used b2 s)) refl level2
        (entry_in_lem w Loaded i block2 (q / 2 ^ 9) b2 s law here2 ready2 (omega arith)) level1
        (second_entry w Loaded i (q % 2 ^ 9) block1 b2 b1 s law here1 ready2 ready1 (omega arith))
