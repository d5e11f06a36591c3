-- ===== src/Fs/BlockDev/Roundtrip.antt =====
-- `block_read` behind `block_write`.
use lychee_os.Base.{
  ℕ, suc, ◌+◌, ◌*◌, ◌≤◌, ◌<◌, ◌≡◌, refl, ◌∙◌, Bool, tabulate, tabulate_congr, arith,
}
use lychee_os.Buffer.{block_size}
use lychee_os.Blk.{Io}
use lychee_os.Cache.{done}
use lychee_os.Fs.BlockDev.{block_write, block_read}
use lychee_os.Fs.BlockDev.Loaded.{IsLoaded, IsLoaded-Alike, byte}
use lychee_os.Fs.BlockDev.Reads.{block_read_lem}
use lychee_os.Fs.BlockDev.Writes.{block_write_lem}

-- For a range whose blocks valid, unlocked buffers hold (none used by 255 processes or more),
-- with as much fuel as bytes: the bytes that `block_write` stored are what `block_read` at the
-- same position returns next, all of them and in order, and both calls return the number of
-- bytes.
pub block_read-block_write :
    (others : Io → Io) (has_fn : ℕ → Bool) (do_request_fn : ℕ → Io → Io) (ll_rw : ℕ → ℕ → Io → Io)
    (nr_buffers wait dev lo hi : ℕ) (at : ℕ → ℕ) (fuel pos count : ℕ) (buffer : ℕ → ℕ) (io : Io)
    → IsLoaded nr_buffers dev lo hi at io
    → lo * block_size ≤ pos
    → pos + count ≤ hi * block_size
    → count ≤ fuel
    → (io1 : Io) × (io2 : Io) × (block_write others has_fn do_request_fn ll_rw nr_buffers
          (suc wait)
          fuel
          dev
          pos
          buffer
          count
          io
        ≡ done (pos + count, count, io1))
      × (block_read others has_fn do_request_fn ll_rw nr_buffers (suc wait) fuel dev pos count io1
          ≡ done (pos + count, count, tabulate count buffer, io2))
block_read-block_write others has_fn do_request_fn ll_rw nr_buffers wait dev lo hi at fuel pos count
      buffer io l ge le enough =
    let (io1, e1, same, bytes) =
      block_write_lem others has_fn do_request_fn ll_rw nr_buffers wait dev lo hi at fuel pos count
        buffer io l ge le enough in
    let l1 = IsLoaded-Alike nr_buffers dev lo hi at io io1 same l in
    let (io2, e2, _) =
      block_read_lem others has_fn do_request_fn ll_rw nr_buffers wait dev lo hi at fuel pos count
        io1 l1 ge le enough in
    let stored : (k : ℕ) → k < count → byte at io1 (pos + k) ≡ buffer k =
      λ k lt. bytes (pos + k) (omega arith) (omega arith) ∙ ground arith in
    (io1, io2, e1, e2 ∙ rw (tabulate_congr count _ buffer stored) refl)
