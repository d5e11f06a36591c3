-- ===== src/Names/Growth.antt =====
-- A new name in a directory of one block whose entries are all in use.
use lychee_os.Base.{
  ℕ, zero, suc, ◌+◌, ◌*◌, ◌/◌, ◌%◌, ◌^◌, ◌<◌, ◌≤◌, ◌≡◌, ◌≢◌, ◌⊎◌, refl, ap, ◌∙◌, inl, true, false,
  Option, none, some, List, [], ◌∷◌, ◌||◌, leb, ltb, ◌==◌, if◌then◌else◌, get_or, get_or-set_self,
  get_or-set_ne, set, length, length-set, arith,
}
use lychee_os.Process.{Process}
use lychee_os.Blk.{map_buffer}
use lychee_os.Fs.{Store, World, Cmd, returns, read_buffer, release_buffer}
use lychee_os.Fs.Mapping.{touch}
use lychee_os.Fs.Disk.{get_le, u16_at, put_u16}
use lychee_os.Fs.Disk.Codec.{get_le2-put_le2, length-put_le}
use lychee_os.Names.{
  Text, Around, DirEntry, name_len, entry_size, dirs_per_block, first_block, find_entry,
}
use lychee_os.Names.Matching.{Spells, begins, strlen-Spells}
use lychee_os.Names.Searching.{
  Names, text_of, dots, first_named, find_entry-first_named, is_dots-Spells, renamed-plain,
}
use lychee_os.Names.Adding.{put_name, extend_dir, fill_entry, use_entry, find_room, add_entry}

get_or-put_name_outside :
    (n p : ℕ) (f : ℕ → ℕ) (bytes : List ℕ) (a : ℕ)
    → (a < p) ⊎ (p + n ≤ a)
    → get_or (put_name n p f bytes) a 0 ≡ get_or bytes a 0
unfolding put_name
get_or-put_name_outside zero p f bytes a h = refl
get_or-put_name_outside (suc n) p f bytes a h =
    get_or-put_name_outside n (p + 1) (λ k. f (suc k)) (set bytes p (f 0)) a (ground arith)
    ∙ get_or-set_ne bytes p a (f 0) 0 (ground arith)

get_or-put_name :
    (n p : ℕ) (f : ℕ → ℕ) (bytes : List ℕ) (j : ℕ)
    → j < n
    → p + n ≤ length bytes
    → get_or (put_name n p f bytes) (p + j) 0 ≡ f j
unfolding put_name
get_or-put_name zero p f bytes j small fits = absurd (omega arith)
get_or-put_name (suc n) p f bytes zero small fits =
    ap (λ a. get_or (put_name n (p + 1) (λ k. f (suc k)) (set bytes p (f 0))) a 0) (omega arith)
    ∙ get_or-put_name_outside n (p + 1) (λ k. f (suc k)) (set bytes p (f 0)) p (inl (omega arith))
    ∙ get_or-set_self bytes p (f 0) 0 (omega arith)
get_or-put_name (suc n) p f bytes (suc j) small fits =
    ap (λ a. get_or (put_name n (p + 1) (λ k. f (suc k)) (set bytes p (f 0))) a 0) (omega arith)
    ∙ get_or-put_name n (p + 1) (λ k. f (suc k)) (set bytes p (f 0)) j (omega arith)
        (omega (arith, length-set bytes p (f 0)))

-- The number of the inode of the entry `k` of a buffer.
abbrev pub nr_of : (b k : ℕ) → Store → ℕ
nr_of b k s = u16_at (s.io.buffers b).data_block (8 * k)

-- The bytes of a block with a new entry at the place `k`.
abbrev pub with_entry : (k : ℕ) (f : Text) → List ℕ → List ℕ
with_entry k f bytes = put_name name_len (entry_size * k + 2) f (put_u16 bytes (8 * k) 0)

get_le-put_name_outside :
    (n m p : ℕ) (f : ℕ → ℕ) (bytes : List ℕ) (q : ℕ)
    → q + n ≤ p
    → get_le n (put_name m p f bytes) q ≡ get_le n bytes q
unfolding get_le
get_le-put_name_outside zero m p f bytes q h = refl
get_le-put_name_outside (suc n) m p f bytes q h =
    rw
      (
        get_or-put_name_outside m p f bytes q (inl (omega arith)),
        get_le-put_name_outside n m p f bytes (q + 1) (omega arith),
      )
      refl

nr-with_entry :
    (k : ℕ) (f : Text) (bytes : List ℕ)
    → k < dirs_per_block
    → length bytes ≡ 1024
    → u16_at (with_entry k f bytes) (8 * k) ≡ 0
nr-with_entry k f bytes inside size =
    get_le-put_name_outside 2 name_len (entry_size * k + 2) f (put_u16 bytes (8 * k) 0)
      (2 * (8 * k)) (omega arith)
    ∙ get_le2-put_le2 bytes (2 * (8 * k)) 0 (omega arith) (omega arith)

-- The state with one more entry, which has no inode and no name yet.
abbrev extended : (dir b k : ℕ) → Store → Store
extended dir b k s = record s {
  io = map_buffer s.io b (λ m. record m { data_block = put_u16 m.data_block (8 * k) 0 });
  inodes = λ j.
      if j == dir
      then record (touch s.now (s.inodes dir)) {
        size = ((s.inodes dir).size + entry_size) % 2 ^ 32;
        dirty = true;
      }
      else s.inodes j;
}

-- The state with one more entry of a name.
abbrev pub grown : (dir b k : ℕ) (f : Text) → Store → Store
grown dir b k f s =
    let s1 = extended dir b k s in
    record s1 {
      io =
          map_buffer s1.io b
            (λ m. record m { data_block = put_name name_len (entry_size * k + 2) f m.data_block });
      inodes = λ j. if j == dir then touch s.now (s1.inodes dir) else s1.inodes j;
    }

-- All entries below `count` are in use, and there is room for one more in the block.
pub record IsFull (dir b count : ℕ) (s : Store) : Type 0 where
  pub size : (s.inodes dir).size ≡ entry_size * count
  pub inside : count < dirs_per_block
  pub full : (k : ℕ) → k < count → nr_of b k s ≢ 0
  pub whole : length (s.io.buffers b).data_block ≡ 1024

module _ (w : World) (dir b count : ℕ) (f : Text) (s : Store) where
  extend_dir-below :
      (i : ℕ)
      → IsFull dir b count s
      → i < count
      → extend_dir w dir i (record { buffer = b; place = i }) s ≡ returns tt s
  unfolding extend_dir
  extend_dir-below i there below =
      let within : ltb ((i * entry_size) % 2 ^ 32) (s.inodes dir).size ≡ true =
        ground (arith, there.size, there.inside) in
      rw within refl

  extend_dir-end :
      IsFull dir b count s
      → extend_dir w dir count (record { buffer = b; place = count }) s
        ≡ returns tt (extended dir b count s)
  unfolding extend_dir
  extend_dir-end there =
      let past : ltb ((count * entry_size) % 2 ^ 32) (s.inodes dir).size ≡ false =
        ground (arith, there.size, there.inside) in
      rw past refl

  nr_of-extended : IsFull dir b count s → nr_of b count (extended dir b count s) ≡ 0
  nr_of-extended there =
      let self : (b == b) ≡ true = ground arith in
      rw self (
        get_le2-put_le2 (s.io.buffers b).data_block (2 * (8 * count)) 0 (omega arith)
          (omega (arith, there.whole, there.inside)))

  use_entry-end :
      (rest : Cmd (Option DirEntry))
      → IsFull dir b count s
      → use_entry w dir f count (record { buffer = b; place = count }) rest s
        ≡ returns (some (record { buffer = b; place = count })) (grown dir b count f s)
  unfolding use_entry fill_entry
  use_entry-end rest there =
      let empty : (nr_of b count (extended dir b count s) == 0) ≡ true =
        ap (λ v. v == 0) (nr_of-extended there) in
      rw (extend_dir-end there, empty) refl

  find_room-IsFull :
      (n fuel i : ℕ)
      → IsFull dir b count s
      → count ≡ i + n
      → n < fuel
      → find_room w fuel dir f i b i s
        ≡ returns (some (record { buffer = b; place = count })) (grown dir b count f s)
  unfolding find_room use_entry
  find_room-IsFull n zero i there total enough = absurd (omega arith)
  find_room-IsFull zero (suc fuel) i there total enough =
      let in_block : leb dirs_per_block i ≡ false = ground (arith, there.inside) in
      let last : i ≡ count = omega arith in
      rw in_block (rw last (use_entry-end (find_room w fuel dir f (count + 1) b (count + 1)) there))
  find_room-IsFull (suc n) (suc fuel) i there total enough =
      let in_block : leb dirs_per_block i ≡ false = ground (arith, there.inside) in
      let in_use : (nr_of b i s == 0) ≡ false = ground (arith, there.full i (omega arith)) in
      rw (in_block, extend_dir-below i there (omega arith), in_use)
        (find_room-IsFull n fuel (i + 1) there (omega arith) (omega arith))

-- What a directory has got in its new last entry.
pub record IsAdded (around : Around) (dir b count : ℕ) (f : Text) (s : Store) : Type 0 where
  pub longer : (s.inodes dir).size ≡ entry_size * (count + 1)
  pub unused : nr_of b count s ≡ 0
  pub name : (j : ℕ) → j < name_len → text_of around b count s j ≡ f j

grown-IsAdded :
    (around : Around) (dir b count : ℕ) (f : Text) (s : Store)
    → IsFull dir b count s
    → IsAdded around dir b count f (grown dir b count f s)
grown-IsAdded around dir b count f s there =
    let self_dir : (dir == dir) ≡ true = ground arith in
    let self_b : (b == b) ≡ true = ground arith in
    let bytes = (s.io.buffers b).data_block in
    record {
      longer = rw self_dir (omega (arith, there.size, there.inside));
      unused = rw self_b (nr-with_entry count f bytes there.inside there.whole);
      name = λ j small.
          (let inside : ltb (entry_size * count + 2 + j) 1024 ≡ true =
              ground (arith, there.inside) in
            rw (self_b, inside)
              (get_or-put_name name_len (entry_size * count + 2) f (put_u16 bytes (8 * count) 0) j
                small
                (omega
                  (arith, there.inside, there.whole, length-put_le 2 bytes (2 * (8 * count)) 0))));
    }

-- The block of a directory is read, given back and read again in the same buffer.
pub record IsReadTwice (w : World) (dir b : ℕ) (s s1 s2 s3 : Store) : Type 0 where
  pub has_block : get_or (s.inodes dir).data_blocks 0 0 ≢ 0
  pub first :
      read_buffer w (s.inodes dir).dev (get_or (s.inodes dir).data_blocks 0 0) s
      ≡ returns (some b) s1
  pub back : release_buffer w (some b) s1 ≡ returns tt s2
  pub same : s2.inodes dir ≡ s.inodes dir
  pub second :
      read_buffer w (s.inodes dir).dev (get_or (s.inodes dir).data_blocks 0 0) s2
      ≡ returns (some b) s3

first_block-again :
    (w : World) (dir b : ℕ) (s s1 s2 s3 : Store)
    → IsReadTwice w dir b s s1 s2 s3
    → first_block w dir s2 ≡ returns (some b) s3
unfolding first_block
first_block-again w dir b s s1 s2 s3 reads =
    let block : (get_or (s.inodes dir).data_blocks 0 0 == 0) ≡ false =
      ground (arith, reads.has_block) in
    rw (reads.same, block, reads.second) refl

-- A directory has `count` entries in one block, fewer than 64, and all have an inode and a name that is
-- spelled out; the block is read, given back and read again in one buffer. `f` spells a name of 1 to 13
-- characters, other than `..`, that no entry has. With fuel above `count`, and loops of `strlen` that
-- may turn more than 14 times, `add_entry` gives an entry behind the last one: the directory is longer
-- by an entry, which has no inode and whose name is the 14 bytes of `f`.
pub add_entry-IsAdded :
    (w : World) (around : Around) (current : Process) (names : ℕ → List ℕ) (dir b count : ℕ)
    (f : Text) (xs : List ℕ) (s s1 s2 s3 : Store)
    → IsReadTwice w dir b s s1 s2 s3
    → (s.inodes dir).size ≡ entry_size * count
    → Names around names count b s1
    → IsFull dir b count s3
    → Spells f xs
    → 0 < length xs
    → length xs < name_len
    → xs ≢ dots
    → first_named count 0 names xs ≡ none
    → count < w.fuel
    → (s' : Store) × (add_entry w around current (some dir) f s
        ≡ returns (some (record { buffer = b; place = count })) s')
      × IsAdded around dir b count f s'
unfolding add_entry
add_entry-IsAdded w around current names dir b count f xs s s1 s2 s3 reads size there full spelled
      some_char short other absent enough =
    let as_count : (s.inodes dir).size / entry_size ≡ count = omega arith in
    let len6 = strlen-Spells (around.turns 6 f) f xs spelled (omega (arith, there.room 6 f)) in
    let guard : ((f 0 == 0) || ltb name_len (length xs)) ≡ false =
      first_char f xs spelled some_char short in
    let plain = is_dots-Spells around f xs spelled (omega (arith, there.room 5 f)) other in
    let room = find_room-IsFull w dir b count f s3 count w.fuel 0 full (omega arith) enough in
    let found : find_entry w around current (some dir) f s ≡ returns none s2 =
      find_entry-first_named w around current names dir b f xs s s1 (rw as_count there) spelled
        some_char short other reads.has_block reads.first
      ∙ rw (as_count, absent, reads.back) refl in
    (
      grown dir b count f s3,
      rw
          (
            len6,
            guard,
            found,
            first_block-again w dir b s s1 s2 s3 reads,
            renamed-plain around current dir f plain,
          )
          room,
      grown-IsAdded around dir b count f s3 full,
    )
  where
    first_char :
        (f : Text) (xs : List ℕ)
        → Spells f xs
        → 0 < length xs
        → length xs < name_len
        → ((f 0 == 0) || ltb name_len (length xs)) ≡ false
    first_char f [] spelled some_char short = absurd (omega arith)
    first_char f (x ∷ xs) (begins first nonzero rest) some_char short = ground arith
