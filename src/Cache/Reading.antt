-- ===== src/Cache/Reading.antt =====
-- Getting, reading and releasing buffers.
use lychee_os.Base.{ℕ, suc, ◌≡◌, refl, Bool, true, false, none, some, ◌==◌, if◌then◌else◌, arith}
use lychee_os.Buffer.{MemBuffer}
use lychee_os.Blk.{Io, map_buffer, wait_unlocked}
use lychee_os.Cache.{
  done, halted, first_buffer, find_buffer, holds, take_one, unused, fresh, give_back, write_dirty,
  claim, claim_buffer, get_buffer, brelease, bread,
}
use lychee_os.Cache.Lookup.{IsFirst, first_buffer-first}

module _ (others : Io → Io) (has_fn : ℕ → Bool) (do_request_fn : ℕ → Io → Io)
    (ll_rw : ℕ → ℕ → Io → Io) (nr_buffers : ℕ) where
  pub no_wait :
      (fuel i : ℕ) (io : Io)
      → (io.buffers i).locked ≡ false
      → wait_unlocked others has_fn do_request_fn (suc fuel) i io ≡ some io
  unfolding wait_unlocked
  no_wait fuel i io h = rw h refl

  first_of :
      (test : MemBuffer → Bool) (io : Io) (k : ℕ)
      → IsFirst test io.buffers 0 nr_buffers k
      → first_buffer test io.buffers nr_buffers 0 ≡ some k
  first_of test io k f =
      first_buffer-first test io.buffers nr_buffers 0 k
        (record { ge = f.ge; lt = omega (arith, f.lt); passes = f.passes; earlier = f.earlier })

  pub get_buffer-cached :
      (fuel dev block k : ℕ) (io io' : Io)
      → find_buffer nr_buffers dev block io ≡ some (k, io')
      → get_buffer others has_fn do_request_fn ll_rw nr_buffers fuel dev block io ≡ some (k, io')
  unfolding get_buffer
  get_buffer-cached fuel dev block k io io' e = rw (e, get_buffer) refl

  -- A block whose valid data a buffer holds is read without a wait and without the device: `bread`
  -- returns the first buffer that holds the block, with its use count raised and nothing else changed.
  pub bread-cached :
      (fuel dev block k : ℕ) (io : Io)
      → IsFirst (holds dev block) io.buffers 0 nr_buffers k
      → (io.buffers k).uptodate ≡ true
      → bread others has_fn do_request_fn ll_rw nr_buffers fuel dev block io
        ≡ done (some k, map_buffer io k take_one)
  unfolding bread get_buffer find_buffer
  bread-cached fuel dev block k io f valid =
      let self : (k == k) ≡ true = ground arith in
      let found : find_buffer nr_buffers dev block io ≡ some (k, map_buffer io k take_one) =
        rw (first_of (holds dev block) io k f, find_buffer) refl in
      rw (get_buffer-cached fuel dev block k io (map_buffer io k take_one) found, bread)
        (rw (self, valid) refl)

  claim-clean :
      (fuel i : ℕ) (io : Io)
      → (io.buffers i).count ≡ 0
      → (io.buffers i).locked ≡ false
      → (io.buffers i).dirty ≡ false
      → claim others has_fn do_request_fn ll_rw nr_buffers (suc fuel) i io ≡ some (true, io)
  unfolding claim write_dirty
  claim-clean fuel i io c l d =
      let zero_count : ((io.buffers i).count == 0) ≡ true = ground arith in
      let clean : write_dirty others has_fn do_request_fn ll_rw nr_buffers (suc fuel) i io
          ≡ some io =
        rw d refl in
      rw (no_wait fuel i io l, claim)
        (rw (clean, zero_count, no_wait fuel i io l) (rw zero_count refl))

  pub claim_buffer-free :
      (fuel i : ℕ) (io : Io)
      → IsFirst unused io.buffers 0 nr_buffers i
      → (io.buffers i).locked ≡ false
      → (io.buffers i).dirty ≡ false
      → claim_buffer others has_fn do_request_fn ll_rw nr_buffers (suc (suc fuel)) io ≡ some (i, io)
  unfolding claim_buffer
  claim_buffer-free fuel i io f l d =
      let zero_count : (io.buffers i).count ≡ 0 = ground (arith, f.passes) in
      rw (first_of unused io i f, claim_buffer) (rw (claim-clean fuel i io zero_count l d) refl)

  -- For a block that no buffer holds, `get_buffer` takes the first buffer with use count 0, if it is
  -- clean and not locked: it returns that buffer with use count 1 for the block, marked invalid and
  -- clean, and leaves all others. Two passes of fuel are enough.
  pub get_buffer-claims :
      (fuel dev block i : ℕ) (io : Io)
      → find_buffer nr_buffers dev block io ≡ none
      → IsFirst unused io.buffers 0 nr_buffers i
      → (io.buffers i).locked ≡ false
      → (io.buffers i).dirty ≡ false
      → get_buffer others has_fn do_request_fn ll_rw nr_buffers (suc (suc fuel)) dev block io
        ≡ some (i, map_buffer io i (fresh dev block))
  unfolding get_buffer
  get_buffer-claims fuel dev block i io miss f l d =
      rw (miss, claim_buffer-free fuel i io f l d, get_buffer) refl

  -- `brelease` of NULL does nothing; of a buffer that is not locked and in use it lowers the use count
  -- by one and empties the wait pointer; of one with use count 0 it halts the machine.
  pub brelease_lem :
      (fuel i : ℕ) (io : Io)
      → (io.buffers i).locked ≡ false
      → (brelease others has_fn do_request_fn ll_rw nr_buffers (suc fuel) none io ≡ done io)
        × (brelease others has_fn do_request_fn ll_rw nr_buffers (suc fuel) (some i) io
            ≡ (if (io.buffers i).count == 0 then halted else done (map_buffer io i give_back)))
  unfolding brelease
  brelease_lem fuel i io l = (refl, rw (no_wait fuel i io l, brelease) refl)
