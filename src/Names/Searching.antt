-- ===== src/Names/Searching.antt =====
-- Looking up a name in a directory of one block.
use lychee_os.Base.{
  ℕ, zero, suc, ◌+◌, ◌-◌, ◌/◌, ◌<◌, ◌≤◌, ◌≡◌, ◌≢◌, refl, ap, ◌∙◌, inl, inr, true, false, Option,
  none, some, List, [], ◌∷◌, ◌&&◌, ◌||◌, leb, ltb, ◌==◌, if◌then◌else◌, get_or, length, Bool-cases,
  arith,
}
use lychee_os.Process.{Process}
use lychee_os.Fs.{Store, World, Cmd, returns, pure, ◌>>◌, read_buffer, release_buffer}
use lychee_os.Names.{
  Text, Around, DirEntry, name_len, entry_size, dirs_per_block, name_at, is_match, is_dots, renamed,
  crossed, entry_name, match_entry, first_block, scan_entries, find_entry,
}
use lychee_os.Names.Matching.{Spells, begins, strlen-Spells, same_name, is_match-same_name}

-- The name of the entry `k` of the buffer `b`.
abbrev pub text_of : Around → (b k : ℕ) → Store → Text
text_of around b k s = name_at (λ p. get_or (s.io.buffers b).data_block p 0) (around.after_data b) k

-- The first of the `n` names from `i` on that is `xs`.
abbrev pub first_named : (n i : ℕ) (names : ℕ → List ℕ) (xs : List ℕ) → Option ℕ
first_named zero i names xs = none
first_named (suc n) i names xs =
    let rest = first_named n (i + 1) names xs in if same_name xs (names i) then some i else rest

-- The end of a search in the buffer `b`: the entry, or the buffer is given back.
abbrev pub found_in : World → (b : ℕ) → Option ℕ → Cmd (Option DirEntry)
found_in w b (some k) = pure (some (record { buffer = b; place = k }))
found_in w b none = release_buffer w (some b) >> pure none

-- The buffer `b` holds entries with the names `names k` for `k` below `count`, and no name is longer than the
-- loops of `strlen` turn.
pub record Names (around : Around) (names : ℕ → List ℕ) (count b : ℕ) (s : Store) : Type 0 where
  pub spelled : (k : ℕ) → k < count → Spells (text_of around b k s) (names k)
  pub short : (k : ℕ) → k < count → length (names k) ≤ name_len
  pub room : (call : ℕ) (t : Text) → name_len < around.turns call t
  pub one_block : count ≤ dirs_per_block

module _ (w : World) (around : Around) (names : ℕ → List ℕ) (f : Text) (xs : List ℕ) where
  match_entry-Names :
      (count b k : ℕ) (s : Store) (rest : Cmd (Option DirEntry))
      → Names around names count b s
      → Spells f xs
      → length xs ≤ name_len
      → k < count
      → match_entry w around f (record { buffer = b; place = k }) rest s
        ≡ (if same_name xs (names k) then pure (some (record { buffer = b; place = k })) else rest)
            s
  unfolding match_entry entry_name
  match_entry-Names count b k s rest there spelled short inside =
      let compared : is_match around f (text_of around b k s) ≡ same_name xs (names k) =
        is_match-same_name around f (text_of around b k s) xs (names k) spelled
          (there.spelled k inside) (omega (arith, there.room 1 f))
          (omega (arith, there.room 2 (text_of around b k s), there.short k inside))
          (omega arith) in
      ap (λ c. (if c then pure (some (record { buffer = b; place = k })) else rest) s) compared

  scan_entries-first_named :
      (n fuel dir count i b : ℕ) (s : Store)
      → Names around names count b s
      → Spells f xs
      → length xs ≤ name_len
      → count ≡ i + n
      → n < fuel
      → scan_entries w around fuel dir f count i (some b) i s
        ≡ found_in w b (first_named n i names xs) s
  unfolding scan_entries
  scan_entries-first_named n zero dir count i b s there spelled short total enough =
      absurd (omega arith)
  scan_entries-first_named zero (suc fuel) dir count i b s there spelled short total enough =
      let past : leb count i ≡ true = ground arith in rw past refl
  scan_entries-first_named (suc n) (suc fuel) dir count i b s there spelled short total enough =
      let within : leb count i ≡ false = ground arith in
      let in_block : leb dirs_per_block i ≡ false = ground (arith, there.one_block) in
      let tested =
        match_entry-Names count b i s
          (scan_entries w around fuel dir f count (i + 1) (some b) (i + 1)) there spelled short
          (omega arith) in
      rw (within, in_block, tested)
        (elim (Bool-cases (same_name xs (names i))) [
          | inl same ↦ rw same refl
          | inr other ↦ rw other (
              scan_entries-first_named n fuel dir count (i + 1) b s there spelled short
                (omega arith) (omega arith))
        ])

abbrev pub dots : List ℕ
dots = b'.' ∷ b'.' ∷ []

pub is_dots-Spells :
    (around : Around) (f : Text) (xs : List ℕ)
    → Spells f xs
    → length xs < around.turns 5 f
    → xs ≢ dots
    → is_dots around f ≡ false
unfolding is_dots
is_dots-Spells around f xs spelled room other =
    rw (strlen-Spells (around.turns 5 f) f xs spelled room) (not_dots f xs spelled other)
  where
    not_dots :
        (f : Text) (xs : List ℕ)
        → Spells f xs
        → xs ≢ dots
        → ((length xs == 2) && (f 0 == b'.') && (f 1 == b'.')) ≡ false
    not_dots f [] spelled other = refl
    not_dots f (x ∷ []) spelled other = refl
    not_dots f (x ∷ y ∷ []) (begins fx x0 (begins fy y0 zeros)) other =
        elim (Bool-cases ((f 0 == b'.') && (f 1 == b'.'))) [
          | inl both ↦
              let first : x ≡ b'.' = ground arith in
              let second : y ≡ b'.' = ground arith in
              absurd (other (ap (λ z. z ∷ y ∷ []) first ∙ ap (λ z. b'.' ∷ z ∷ []) second))
          | inr apart ↦ apart
        ]
    not_dots f (x ∷ y ∷ z ∷ zs) spelled other = ground arith

pub renamed-plain :
    (around : Around) (current : Process) (dir : ℕ) (f : Text)
    → is_dots around f ≡ false
    → renamed around current dir f ≡ f
unfolding renamed
renamed-plain around current dir f plain = rw plain refl

-- The first block number of a directory is not 0, and that block is read into a buffer which holds all
-- entries of the directory, each with a name that is spelled out. The loops of `strlen` may turn more
-- than 14 times, and `f` spells a name of 1 to 13 characters other than `..`. Then `find_entry` gives
-- the first entry with that name, whether it has an inode or not; without one it gives the buffer back
-- and NULL.
pub find_entry-first_named :
    (w : World) (around : Around) (current : Process) (names : ℕ → List ℕ) (dir b : ℕ) (f : Text)
    (xs : List ℕ) (s s1 : Store)
    → Names around names ((s.inodes dir).size / entry_size) b s1
    → Spells f xs
    → 0 < length xs
    → length xs < name_len
    → xs ≢ dots
    → get_or (s.inodes dir).data_blocks 0 0 ≢ 0
    → read_buffer w (s.inodes dir).dev (get_or (s.inodes dir).data_blocks 0 0) s
      ≡ returns (some b) s1
    → find_entry w around current (some dir) f s
      ≡ found_in w b (first_named ((s.inodes dir).size / entry_size) 0 names xs) s1
unfolding find_entry crossed first_block
find_entry-first_named w around current names dir b f xs s s1 there spelled some_char short other
      has_block reads =
    let plain = is_dots-Spells around f xs spelled (omega (arith, there.room 5 f)) other in
    let len3 = strlen-Spells (around.turns 3 f) f xs spelled (omega (arith, there.room 3 f)) in
    let len4 = strlen-Spells (around.turns 4 f) f xs spelled (omega (arith, there.room 4 f)) in
    let fits : ((length xs == 0) || ltb (name_len - 1) (length xs)) ≡ false = ground arith in
    let block : (get_or (s.inodes dir).data_blocks 0 0 == 0) ≡ false = ground arith in
    rw (len3, len4, fits, plain, block, reads, renamed-plain around current dir f plain)
      (scan_entries-first_named w around names f xs ((s.inodes dir).size / entry_size)
        (suc ((s.inodes dir).size / entry_size)) dir ((s.inodes dir).size / entry_size) 0 b s1 there
        spelled (omega arith) (omega arith) (omega arith))
