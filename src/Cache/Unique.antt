-- ===== src/Cache/Unique.antt =====
-- No two buffers for one block: `get_buffer` of kernel/buffer.c.
use lychee_os.Base.{
  ℕ, suc, ◌<◌, ◌≡◌, ◌⊎◌, refl, sym, ap, ◌∙◌, inl, inr, Bool, true, false, Bool-cases, some, ◌==◌,
  ==_iff, if◌then◌else◌, arith,
}
use lychee_os.Buffer.{MemBuffer, Buffers, put_buffer, dev_eq}
use lychee_os.Blk.{Io, map_buffer}
use lychee_os.Cache.{holds, take_one, unused, fresh, get_buffer}
use lychee_os.Cache.Lookup.{IsFirst, find_buffer_lem}
use lychee_os.Cache.Reading.{get_buffer-cached, get_buffer-claims}

-- No two of the first `n` buffers hold the same block of the same device.
abbrev pub IsUnique : ℕ → Buffers → Type 0
IsUnique n bs =
    (dev block i j : ℕ)
    → i < n
    → j < n
    → holds dev block (bs i) ≡ true
    → holds dev block (bs j) ≡ true
    → i ≡ j

same_tags-IsUnique :
    (n : ℕ) (bs bs' : Buffers)
    → ((dev block i : ℕ) → holds dev block (bs' i) ≡ holds dev block (bs i))
    → IsUnique n bs
    → IsUnique n bs'
same_tags-IsUnique n bs bs' same u dev block i j hi hj a b =
    u dev block i j hi hj (sym (same dev block i) ∙ a) (sym (same dev block j) ∙ b)

taken-holds :
    (bs : Buffers) (k dev block i : ℕ)
    → holds dev block (put_buffer bs k (take_one (bs k)) i) ≡ holds dev block (bs i)
taken-holds bs k dev block i = elim (Bool-cases (i == k)) [
  | inl e ↦ rw e (ap (λ j. holds dev block (bs j)) (sym ((==_iff i k).0 e)))
  | inr ne ↦ rw ne refl
]

-- A buffer that is made fresh holds its block and no other.
fresh-holds :
    (dev block d b : ℕ) (m : MemBuffer)
    → holds d b (fresh dev block m) ≡ true
    → (d ≡ dev) × (b ≡ block)
unfolding dev_eq
fresh-holds dev block d b m h = (ground (arith, h), ground (arith, h))

fresh-holds_own : (dev block : ℕ) (m : MemBuffer) → holds dev block (fresh dev block m) ≡ true
unfolding dev_eq
fresh-holds_own dev block m = ground arith

-- What holds a block after a buffer is made fresh: that buffer, for its block, or another as before.
fresh_or_before :
    (dev block k d b i : ℕ) (bs : Buffers)
    → holds d b (put_buffer bs k (fresh dev block (bs k)) i) ≡ true
    → ((i ≡ k) × (d ≡ dev) × (b ≡ block)) ⊎ (holds d b (bs i) ≡ true)
fresh_or_before dev block k d b i bs h = elim (Bool-cases (i == k)) [
  | inl e ↦
      let same =
        fresh-holds dev block d b (bs k)
          (sym (ap (λ x. holds d b (if x then fresh dev block (bs k) else bs i)) e) ∙ h) in
      inl ((==_iff i k).0 e, same.0, same.1)
  | inr ne ↦ inr (ground (arith, ne, h))
]

missed :
    (dev block d b : ℕ) (m : MemBuffer)
    → d ≡ dev
    → b ≡ block
    → holds dev block m ≡ false
    → ¬ (holds d b m ≡ true)
missed dev block d b m e e' miss h = cc

fresh-IsUnique :
    (n dev block k : ℕ) (bs : Buffers)
    → ((j : ℕ) → j < n → holds dev block (bs j) ≡ false)
    → IsUnique n bs
    → IsUnique n (put_buffer bs k (fresh dev block (bs k)))
fresh-IsUnique n dev block k bs miss u d b i j hi hj a c =
    elim (fresh_or_before dev block k d b i bs a) [
      | inl (ik, e, e') ↦ elim (fresh_or_before dev block k d b j bs c) [
        | inl (jk, _, _) ↦ ik ∙ sym jk
        | inr old ↦ absurd (missed dev block d b (bs j) e e' (miss j hj) old)
      ]
      | inr old ↦ elim (fresh_or_before dev block k d b j bs c) [
        | inl (jk, e, e') ↦ absurd (missed dev block d b (bs i) e e' (miss i hi) old)
        | inr old' ↦ u d b i j hi hj old old'
      ]
    ]

module _ (others : Io → Io) (has_fn : ℕ → Bool) (do_request_fn : ℕ → Io → Io)
    (ll_rw : ℕ → ℕ → Io → Io) (nr_buffers : ℕ) where
  -- In a cache without duplicates whose first buffer with use count 0 is clean and not locked,
  -- `get_buffer` returns a buffer that holds the block, and the cache is without duplicates again.
  pub get_buffer-IsUnique :
      (fuel dev block k : ℕ) (io : Io)
      → IsUnique nr_buffers io.buffers
      → IsFirst unused io.buffers 0 nr_buffers k
      → (io.buffers k).locked ≡ false
      → (io.buffers k).dirty ≡ false
      → (i : ℕ) × (io' : Io) × (get_buffer others has_fn do_request_fn ll_rw nr_buffers
            (suc (suc fuel))
            dev
            block
            io
          ≡ some (i, io'))
        × (i < nr_buffers)
        × (holds dev block (io'.buffers i) ≡ true)
        × IsUnique nr_buffers io'.buffers
  get_buffer-IsUnique fuel dev block k io u f idle clean =
      elim (find_buffer_lem nr_buffers dev block io) [
        | inl (miss, none_holds) ↦ (
          k,
          map_buffer io k (fresh dev block),
          get_buffer-claims others has_fn do_request_fn ll_rw nr_buffers fuel dev block k io miss f
              idle clean,
          f.lt,
          ground (arith, fresh-holds_own dev block (io.buffers k)),
          fresh-IsUnique nr_buffers dev block k io.buffers none_holds u,
        )
        | inr (i, found, first) ↦ (
          i,
          map_buffer io i take_one,
          get_buffer-cached others has_fn do_request_fn ll_rw nr_buffers (suc (suc fuel)) dev block
              i io (map_buffer io i take_one) found,
          first.lt,
          taken-holds io.buffers i dev block i ∙ first.passes,
          same_tags-IsUnique nr_buffers io.buffers (map_buffer io i take_one).buffers
              (taken-holds io.buffers i) u,
        )
      ]
