-- ===== src/Fs/Inodes/Search.antt =====
-- Finding an inode in memory, and finding an unused entry.
use lychee_os.Base.{
  ℕ, zero, suc, ◌+◌, ◌≤◌, ◌<◌, ◌≡◌, refl, ap, ◌∙◌, inl, inr, Bool, true, false, not, ◌&&◌, ◌||◌,
  none, some, leb, ◌==◌, ==_iff, if◌then◌else◌, Bool-cases, arith,
}
use lychee_os.Fs.{Store, World, Inode, returns, halts, nr_inode, set_inode, and_then, pure, ◌>>◌}
use lychee_os.Fs.Inodes.{
  zero_inode, one_more, wait_on_inode, pick_inode, claim_inode, get_empty_inode, find_inode,
  get_inode,
}

-- The entry for an inode.
abbrev pub is_entry : (dev nr : ℕ) → Inode → Bool
is_entry dev nr n = (n.dev == dev) && (n.inode_num == nr)

-- The first entry for an inode, not locked and not a mount point.
pub record IsEntryOf (dev nr k : ℕ) (s : Store) : Type 0 where
  pub within : k < nr_inode
  pub same : is_entry dev nr (s.inodes k) ≡ true
  pub free : (s.inodes k).locked ≡ false
  pub plain : (s.inodes k).mount ≡ false
  pub earlier : (j : ℕ) → j < k → is_entry dev nr (s.inodes j) ≡ false

pub wait_on_inode_free :
    (w : World) (fuel i : ℕ) (s : Store)
    → 0 < fuel
    → (s.inodes i).locked ≡ false
    → wait_on_inode w fuel i s ≡ returns tt s
unfolding wait_on_inode
wait_on_inode_free w zero i s h free = absurd (omega arith)
wait_on_inode_free w (suc fuel) i s h free = rw free refl

differs :
    (dev nr : ℕ) (n : Inode)
    → (not (n.dev == dev) || not (n.inode_num == nr)) ≡ not (is_entry dev nr n)
differs dev nr n = ground arith

-- The state with one more user of an inode.
abbrev pub counted : ℕ → Store → Store
counted k s = record s { inodes = λ j. if j == k then one_more (s.inodes k) else s.inodes j }

find_inode-here :
    (w : World) (fuel dev nr k : ℕ) (s : Store)
    → 0 < w.fuel
    → IsEntryOf dev nr k s
    → find_inode w (suc fuel) dev nr k s ≡ returns (some k) (counted k s)
unfolding find_inode
find_inode-here w fuel dev nr k s enough here =
    let inside : leb nr_inode k ≡ false = ground (arith, here.within) in
    let same : (not ((s.inodes k).dev == dev) || not ((s.inodes k).inode_num == nr)) ≡ false =
      differs dev nr (s.inodes k) ∙ ap not here.same in
    rw (inside, same, wait_on_inode_free w w.fuel k s enough here.free) (rw (same, here.plain) refl)

find_inode-next :
    (w : World) (fuel dev nr i : ℕ) (s : Store)
    → i < nr_inode
    → is_entry dev nr (s.inodes i) ≡ false
    → find_inode w (suc fuel) dev nr i s ≡ find_inode w fuel dev nr (i + 1) s
unfolding find_inode
find_inode-next w fuel dev nr i s within other =
    let inside : leb nr_inode i ≡ false = ground arith in
    let apart : (not ((s.inodes i).dev == dev) || not ((s.inodes i).inode_num == nr)) ≡ true =
      differs dev nr (s.inodes i) ∙ ap not other in
    rw (inside, apart) refl

find_inode-past :
    (w : World) (fuel dev nr : ℕ) (s : Store)
    → find_inode w (suc fuel) dev nr nr_inode s ≡ returns none s
unfolding find_inode
find_inode-past w fuel dev nr s = refl

find_inode-some :
    (w : World) (fuel dev nr i k : ℕ) (s : Store)
    → 0 < w.fuel
    → IsEntryOf dev nr k s
    → i ≤ k
    → k < i + fuel
    → find_inode w fuel dev nr i s ≡ returns (some k) (counted k s)
find_inode-some w zero dev nr i k s enough found low high = absurd (omega arith)
find_inode-some w (suc fuel) dev nr i k s enough found low high = elim (Bool-cases (i == k)) [
  | inl here ↦
      ap (λ x. find_inode w (suc fuel) dev nr x s) ((==_iff i k).0 here)
      ∙ find_inode-here w fuel dev nr k s enough found
  | inr before ↦
      let less : i < k = ground arith in
      find_inode-next w fuel dev nr i s (omega (arith, found.within)) (found.earlier i less)
      ∙ find_inode-some w fuel dev nr (i + 1) k s enough found (omega arith) (omega arith)
]

find_inode-none :
    (w : World) (fuel dev nr i n : ℕ) (s : Store)
    → ((j : ℕ) → j < nr_inode → is_entry dev nr (s.inodes j) ≡ false)
    → i + n ≡ nr_inode
    → n < fuel
    → find_inode w fuel dev nr i s ≡ returns none s
find_inode-none w zero dev nr i n s missing total enough = absurd (omega arith)
find_inode-none w (suc fuel) dev nr i zero s missing total enough =
    ap (λ x. find_inode w (suc fuel) dev nr x s) (omega arith) ∙ find_inode-past w fuel dev nr s
find_inode-none w (suc fuel) dev nr i (suc n) s missing total enough =
    find_inode-next w fuel dev nr i s (omega arith) (missing i (omega arith))
    ∙ find_inode-none w fuel dev nr (i + 1) n s missing (omega arith) (omega arith)

-- The entries that `get_empty_inode` can take.
abbrev pub is_candidate : Inode → Bool
is_candidate n = (n.count == 0) && not n.dirty && n.locked

pick_inode-none :
    (w : World) (n i : ℕ) (s : Store)
    → ((j : ℕ) → j < i + n → is_candidate (s.inodes j) ≡ false)
    → pick_inode w n i s ≡ returns none s
unfolding pick_inode
pick_inode-none w zero i s refused = refl
pick_inode-none w (suc n) i s refused =
    rw (refused i (omega arith)) (pick_inode-none w n (i + 1) s (λ j h. refused j (omega arith)))

claim_inode_stuck :
    (w : World) (fuel : ℕ) (s : Store)
    → pick_inode w nr_inode 0 s ≡ returns none s
    → claim_inode w (suc fuel) s ≡ halts
unfolding claim_inode
claim_inode_stuck w fuel s nothing = rw nothing refl

get_empty_inode-halts :
    (w : World) (s : Store)
    → 0 < w.fuel
    → ((j : ℕ) → j < nr_inode → is_candidate (s.inodes j) ≡ false)
    → get_empty_inode w s ≡ halts
unfolding get_empty_inode
get_empty_inode-halts w s enough refused =
    ap (λ r. and_then r (λ i. set_inode i (λ n. record zero_inode { count = 1 }) >> pure i))
      (claim_inode-halts w.fuel enough)
  where
    claim_inode-halts : (fuel : ℕ) → 0 < fuel → claim_inode w fuel s ≡ halts
    claim_inode-halts zero h = absurd (omega arith)
    claim_inode-halts (suc fuel) h =
        claim_inode_stuck w fuel s (pick_inode-none w nr_inode 0 s refused)

-- With 33 steps of fuel: an inode that is in memory, not locked and no mount point is found in its
-- first entry, and its use count goes up by one.
pub get_inode-present :
    (w : World) (dev nr k : ℕ) (s : Store)
    → nr_inode < w.fuel
    → (dev == 0) ≡ false
    → IsEntryOf dev nr k s
    → get_inode w dev nr s ≡ returns (some k) (counted k s)
unfolding get_inode
get_inode-present w dev nr k s enough some_dev here =
    rw
      (
        some_dev,
        find_inode-some w w.fuel dev nr 0 k s (omega arith) here (omega arith)
            (omega (arith, here.within)),
      )
      refl

-- With 33 steps of fuel, `get_inode` halts the machine for an inode that no entry of the table holds, if
-- no entry is free, clean and locked at once.
pub get_inode-absent :
    (w : World) (dev nr : ℕ) (s : Store)
    → nr_inode < w.fuel
    → (dev == 0) ≡ false
    → ((j : ℕ) → j < nr_inode → is_entry dev nr (s.inodes j) ≡ false)
    → ((j : ℕ) → j < nr_inode → is_candidate (s.inodes j) ≡ false)
    → get_inode w dev nr s ≡ halts
unfolding get_inode
get_inode-absent w dev nr s enough some_dev missing refused =
    rw
      (
        some_dev,
        find_inode-none w w.fuel dev nr 0 nr_inode s missing refl enough,
        get_empty_inode-halts w s (omega arith) refused,
      )
      refl
