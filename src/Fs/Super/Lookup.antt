-- ===== src/Fs/Super/Lookup.antt =====
-- Finding the super block of a device.
use lychee_os.Base.{
  ℕ, zero, suc, ◌+◌, ◌≤◌, ◌<◌, ◌≡◌, refl, ap, ◌∙◌, inl, inr, true, false, Option, none, some, leb,
  ◌==◌, ==_iff, Bool-cases, arith,
}
use lychee_os.Fs.{Store, World, returns, nr_super}
use lychee_os.Fs.Super.{wait_on_super, find_super, get_super}

-- The first entry for a device, not locked.
pub record IsSuperOf (dev k : ℕ) (s : Store) : Type 0 where
  pub within : k < nr_super
  pub same : ((s.supers k).dev == dev) ≡ true
  pub free : (s.supers k).locked ≡ false
  pub earlier : (j : ℕ) → j < k → ((s.supers j).dev == dev) ≡ false

pub wait_on_super_free :
    (w : World) (fuel i : ℕ) (s : Store)
    → 0 < fuel
    → (s.supers i).locked ≡ false
    → wait_on_super w fuel i s ≡ returns tt s
unfolding wait_on_super
wait_on_super_free w zero i s h free = absurd (omega arith)
wait_on_super_free w (suc fuel) i s h free = rw free refl

find_super-here :
    (w : World) (fuel dev k : ℕ) (s : Store)
    → 0 < w.fuel
    → IsSuperOf dev k s
    → find_super w (suc fuel) dev k s ≡ returns (some k) s
unfolding find_super
find_super-here w fuel dev k s enough found =
    let inside : leb nr_super k ≡ false = ground (arith, found.within) in
    rw (inside, found.same, wait_on_super_free w w.fuel k s enough found.free) (rw found.same refl)

find_super-next :
    (w : World) (fuel dev i : ℕ) (s : Store)
    → i < nr_super
    → ((s.supers i).dev == dev) ≡ false
    → find_super w (suc fuel) dev i s ≡ find_super w fuel dev (i + 1) s
unfolding find_super
find_super-next w fuel dev i s within other =
    let inside : leb nr_super i ≡ false = ground arith in rw (inside, other) refl

find_super-past :
    (w : World) (fuel dev : ℕ) (s : Store) → find_super w (suc fuel) dev nr_super s ≡ returns none s
unfolding find_super
find_super-past w fuel dev s = refl

find_super-some :
    (w : World) (fuel dev i k : ℕ) (s : Store)
    → 0 < w.fuel
    → IsSuperOf dev k s
    → i ≤ k
    → k < i + fuel
    → find_super w fuel dev i s ≡ returns (some k) s
find_super-some w zero dev i k s enough found low high = absurd (omega arith)
find_super-some w (suc fuel) dev i k s enough found low high = elim (Bool-cases (i == k)) [
  | inl here ↦
      ap (λ x. find_super w (suc fuel) dev x s) ((==_iff i k).0 here)
      ∙ find_super-here w fuel dev k s enough found
  | inr before ↦
      let less : i < k = ground arith in
      find_super-next w fuel dev i s (omega (arith, found.within)) (found.earlier i less)
      ∙ find_super-some w fuel dev (i + 1) k s enough found (omega arith) (omega arith)
]

find_super-none :
    (w : World) (fuel dev i n : ℕ) (s : Store)
    → ((j : ℕ) → j < nr_super → ((s.supers j).dev == dev) ≡ false)
    → i + n ≡ nr_super
    → n < fuel
    → find_super w fuel dev i s ≡ returns none s
find_super-none w zero dev i n s missing total enough = absurd (omega arith)
find_super-none w (suc fuel) dev i zero s missing total enough =
    ap (λ x. find_super w (suc fuel) dev x s) (omega arith) ∙ find_super-past w fuel dev s
find_super-none w (suc fuel) dev i (suc n) s missing total enough =
    find_super-next w fuel dev i s (omega arith) (missing i (omega arith))
    ∙ find_super-none w fuel dev (i + 1) n s missing (omega arith) (omega arith)

-- What a search for a device is to find in the table of super blocks.
pub data Found (dev : ℕ) (s : Store) : Option ℕ → Type 0 where
  at : {k : ℕ} → IsSuperOf dev k s → Found dev s (some k)
  nowhere : ((j : ℕ) → j < nr_super → ((s.supers j).dev == dev) ≡ false) → Found dev s none

-- With nine steps of fuel, `get_super` finds the first super block of a device if that is not locked,
-- finds none if no entry is of the device, and changes nothing.
pub get_super_lem :
    (w : World) (dev : ℕ) (found : Option ℕ) (s : Store)
    → nr_super < w.fuel
    → Found dev s found
    → get_super w dev s ≡ returns found s
unfolding get_super
get_super_lem w dev none s enough (nowhere missing) =
    find_super-none w w.fuel dev 0 nr_super s missing refl enough
get_super_lem w dev (some k) s enough (at here) =
    find_super-some w w.fuel dev 0 k s (omega arith) here (omega arith) (omega (arith, here.within))
