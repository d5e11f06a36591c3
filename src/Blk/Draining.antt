-- ===== src/Blk/Draining.antt =====
-- The end of a queue of kernel/blk/blk.c: every request ends in its turn.
use lychee_os.Base.{
  ℕ, ◌≡◌, ◌≢◌, ◌⊎◌, refl, ap, ◌∙◌, Bool, true, false, inl, inr, Bool-cases, none, some,
  Option-cases, List, [], ◌∷◌, ◌==◌, if◌then◌else◌, arith,
}
use lychee_os.Blk.{Io}
use lychee_os.Blk.Fuel.{same_result}
use lychee_os.Blk.Insert.{has, uncons}
use lychee_os.Blk.Requests.{end_request_lem}
use lychee_os.Blk.Reachable.{
  IsQueue, Steps, stop, ends, end_request-IsQueue, first_in, at_end, nothing,
}

equal_or_not : (i z : ℕ) → (i ≡ z) ⊎ (i ≢ z)
equal_or_not i z = elim (Bool-cases (i == z)) [
  | inl e ↦ inl (ground (arith, e))
  | inr e ↦ inr (λ p. ground (arith, e, p))
]

module _ (io io' : Io) (z : ℕ) (same : (i : ℕ) → i ≢ z → io'.request i ≡ io.request i) where
  dev_after :
      (i : ℕ) (xs : List ℕ)
      → (io'.request z).dev ≡ none
      → (if has i xs then none else (io'.request i).dev)
        ≡ (if has i (z ∷ xs) then none else (io.request i).dev)
  dev_after i xs free = elim (equal_or_not i z) [
    | inl e ↦ ground (arith, ap (λ j. (io'.request j).dev) e)
    | inr ne ↦ ground (arith, ap (λ r. r.dev) (same i ne))
  ]

  locked_after :
      (i b c : ℕ) (xs : List ℕ) (io'' : Io)
      → (io.request z).mbuffer ≡ some b
      → (io''.buffers b).locked ≡ false
      → (has i xs ≡ true → (io'.request i).mbuffer ≡ some c → (io''.buffers c).locked ≡ false)
      → has i (z ∷ xs) ≡ true
      → (io.request i).mbuffer ≡ some c
      → (io''.buffers c).locked ≡ false
  locked_after i b c xs io'' there unl later h e = elim (equal_or_not i z) [
    | inl p ↦
        ap (λ d. (io''.buffers d).locked)
          (same_result e (ap (λ j. (io.request j).mbuffer) p ∙ there))
        ∙ unl
    | inr ne ↦ later (ground (arith, h, ne)) (ap (λ r. r.mbuffer) (same i ne) ∙ e)
  ]

stays_unlocked :
    (io io' : Io) (b c : ℕ)
    → ((c : ℕ) → c ≢ b → io'.buffers c ≡ io.buffers c)
    → (io'.buffers b).locked ≡ false
    → (io.buffers c).locked ≡ false
    → (io'.buffers c).locked ≡ false
stays_unlocked io io' b c others unl h = elim (equal_or_not c b) [
  | inl e ↦ ap (λ d. (io'.buffers d).locked) e ∙ unl
  | inr ne ↦ ap (λ m. m.locked) (others c ne) ∙ h
]

-- In a queue of distinct entries in use, each with a buffer, as many ends as there are requests end
-- them all in the order of the queue. Then the device is idle, the entries are free, no buffer of a
-- request is locked, and no other buffer has become locked.
pub drained :
    (major : ℕ) (uptodate : Bool) (xs : List ℕ) (io : Io)
    → IsQueue major io xs
    → (io' : Io) × Steps major io xs io'
      × (io'.current major ≡ none)
      × ((i : ℕ) → (io'.request i).dev ≡ (if has i xs then none else (io.request i).dev))
      × ((i b : ℕ)
          → has i xs ≡ true
          → (io.request i).mbuffer ≡ some b
          → (io'.buffers b).locked ≡ false)
      × ((b : ℕ) → (io.buffers b).locked ≡ false → (io'.buffers b).locked ≡ false)
drained major uptodate [] io q =
    (io, stop, at_end q.chain, λ i. refl, λ i b h. absurd (nothing h), λ b h. h)
drained major uptodate (z ∷ xs) io q = elim (Option-cases ((io.request z).mbuffer)) [
  | inl none_there ↦ absurd (q.buffered z (first_in z xs) none_there)
  | inr (b, there) ↦
      let (cur, out, _) = uncons q.chain in
      let (io1, done, _, free, _, unlocked, same, others) =
        end_request_lem major z b xs uptodate io q.chain there in
      let (io', later, idle, dev, locks, kept) =
        drained major uptodate xs io1 (end_request-IsQueue major z xs uptodate io io1 q done) in
      (
        io',
        ends uptodate cur done later,
        idle,
        λ i. dev i ∙ dev_after io io1 z same i xs free,
        λ i c h e. locked_after io io1 z same i b c xs io' there (kept b unlocked) (locks i c) h e,
        λ c h. kept c (stays_unlocked io io1 b c others unlocked h),
      )
]
