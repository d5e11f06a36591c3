-- ===== src/Cache/Lookup.antt =====
-- Finding a buffer by device and block.
use lychee_os.Base.{
  ℕ, zero, suc, ◌+◌, ◌≤◌, ◌<◌, ◌≡◌, refl, ◌⊎◌, inl, inr, Bool, true, false, none, some, ◌∙◌, ◌==◌,
  ==_iff, ap, Bool-cases, arith,
}
use lychee_os.Buffer.{MemBuffer, Buffers}
use lychee_os.Blk.{Io, map_buffer}
use lychee_os.Cache.{first_buffer, find_buffer, holds, take_one}

first_buffer-step :
    (test : MemBuffer → Bool) (bs : Buffers) (n i : ℕ)
    → ((test (bs i) ≡ true) × (first_buffer test bs (suc n) i ≡ some i))
      ⊎ ((test (bs i) ≡ false) × (first_buffer test bs (suc n) i ≡ first_buffer test bs n (i + 1)))
unfolding first_buffer
first_buffer-step test bs n i = elim (Bool-cases (test (bs i))) [
  | inl h ↦ inl (h, rw h refl)
  | inr h ↦ inr (h, rw h refl)
]

-- What it is for a buffer to be the first of a range that passes the test.
pub record IsFirst (test : MemBuffer → Bool) (bs : Buffers) (from to k : ℕ) : Type 0 where
  pub ge : from ≤ k
  pub lt : k < to
  pub passes : test (bs k) ≡ true
  pub earlier : (j : ℕ) → from ≤ j → j < k → test (bs j) ≡ false

not_here :
    (test : MemBuffer → Bool) (bs : Buffers) (i to k : ℕ)
    → test (bs i) ≡ false
    → ((j : ℕ) → i + 1 ≤ j → j < k → test (bs j) ≡ false)
    → (j : ℕ) → i ≤ j
    → j < k
    → test (bs j) ≡ false
not_here test bs i to k h later j ge lt = elim (Bool-cases (i == j)) [
  | inl e ↦ ap (λ x. test (bs x)) (omega (arith, (==_iff i j).0 e)) ∙ h
  | inr e ↦ later j (ground arith) lt
]

pub first_buffer_lem :
    (test : MemBuffer → Bool) (bs : Buffers) (n i : ℕ)
    → ((first_buffer test bs n i ≡ none) × ((j : ℕ) → i ≤ j → j < i + n → test (bs j) ≡ false))
      ⊎ ((k : ℕ) × (first_buffer test bs n i ≡ some k) × IsFirst test bs i (i + n) k)
unfolding first_buffer
first_buffer_lem test bs zero i = inl (refl, λ j ge lt. absurd (omega arith))
first_buffer_lem test bs (suc n) i = elim (first_buffer-step test bs n i) [
  | inl (h, e) ↦ inr (
    i,
    e,
    record {
      ge = omega arith;
      lt = omega arith;
      passes = h;
      earlier = λ j ge lt. absurd (omega arith);
    },
  )
  | inr (h, e) ↦ elim (first_buffer_lem test bs n (i + 1)) [
    | inl (e', all) ↦ inl (
      e ∙ e',
      λ j ge lt.
          not_here test bs i (i + suc n) (i + suc n) h (λ j' ge' lt'. all j' ge' (omega arith)) j ge
            lt,
    )
    | inr (k, e', first) ↦ inr (
      k,
      e ∙ e',
      record {
        ge = omega (arith, first.ge);
        lt = omega (arith, first.lt);
        passes = first.passes;
        earlier = not_here test bs i (i + suc n) k h first.earlier;
      },
    )
  ]
]

-- A first buffer is what the search returns.
pub first_buffer-first :
    (test : MemBuffer → Bool) (bs : Buffers) (n i k : ℕ)
    → IsFirst test bs i (i + n) k
    → first_buffer test bs n i ≡ some k
unfolding first_buffer
first_buffer-first test bs zero i k f = absurd (omega (arith, f.ge, f.lt))
first_buffer-first test bs (suc n) i k f = elim (first_buffer-step test bs n i) [
  | inl (h, e) ↦ elim (Bool-cases (i == k)) [
    | inl s ↦ e ∙ ap some ((==_iff i k).0 s)
    | inr s ↦ ground (arith, f.earlier i (omega arith), f.ge)
  ]
  | inr (h, e) ↦ elim (Bool-cases (i == k)) [
    | inl s ↦ ground (arith, ap (λ x. test (bs x)) ((==_iff i k).0 s), f.passes)
    | inr s ↦
        e
        ∙ first_buffer-first test bs n (i + 1) k (record {
          ge = ground (arith, f.ge);
          lt = omega (arith, f.lt);
          passes = f.passes;
          earlier = λ j ge lt. f.earlier j (omega arith) lt;
        })
  ]
]

-- `find_buffer` returns the first buffer that holds the block of the device, with its use count
-- raised and nothing else changed, and nothing exactly when no buffer holds the block.
pub find_buffer_lem :
    (nr_buffers dev block : ℕ) (io : Io)
    → ((find_buffer nr_buffers dev block io ≡ none)
        × ((j : ℕ) → j < nr_buffers → holds dev block (io.buffers j) ≡ false))
      ⊎ ((k : ℕ) × (find_buffer nr_buffers dev block io ≡ some (k, map_buffer io k take_one))
          × IsFirst (holds dev block) io.buffers 0 nr_buffers k)
unfolding find_buffer
find_buffer_lem nr_buffers dev block io =
    elim (first_buffer_lem (holds dev block) io.buffers nr_buffers 0) [
      | inl (e, all) ↦ inl (rw (e, find_buffer) refl, λ j lt. all j (omega arith) (omega arith))
      | inr (k, e, first) ↦ inr (
        k,
        rw (e, find_buffer) refl,
        record {
          ge = omega arith;
          lt = omega (arith, first.lt);
          passes = first.passes;
          earlier = first.earlier;
        },
      )
    ]
