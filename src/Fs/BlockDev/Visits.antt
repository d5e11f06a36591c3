-- ===== src/Fs/BlockDev/Visits.antt =====
-- Taking and releasing a loaded block.
use lychee_os.Base.{ℕ, suc, ◌≤◌, ◌<◌, ◌≡◌, ap, ◌∙◌, ◌==◌, Bool, true, false, some, arith}
use lychee_os.Buffer.{MemBuffer}
use lychee_os.Blk.{Io, map_buffer}
use lychee_os.Cache.{done, bread, brelease, take_one, give_back}
use lychee_os.Cache.Reading.{bread-cached, brelease_lem}
use lychee_os.Fs.BlockDev.Loaded.{map_buffer-map_buffer, IsLoaded}

module _ (others : Io → Io) (has_fn : ℕ → Bool) (do_request_fn : ℕ → Io → Io)
    (ll_rw : ℕ → ℕ → Io → Io) (nr_buffers wait dev lo hi : ℕ) (at : ℕ → ℕ) where
  abbrev Loaded : Io → Type 0
  Loaded io = IsLoaded nr_buffers dev lo hi at io

  pub bread-Loaded :
      (b : ℕ) (io : Io)
      → Loaded io
      → lo ≤ b
      → b < hi
      → bread others has_fn do_request_fn ll_rw nr_buffers (suc wait) dev b io
        ≡ done (some (at b), map_buffer io (at b) take_one)
  bread-Loaded b io l ge lt =
      bread-cached others has_fn do_request_fn ll_rw nr_buffers (suc wait) dev b (at b) io
        (l.first b ge lt) (l.valid b ge lt)

  -- The release behind a change `g` of the buffer.
  pub brelease-Loaded :
      (b : ℕ) (g : MemBuffer → MemBuffer) (io : Io)
      → Loaded io
      → lo ≤ b
      → b < hi
      → ((m : MemBuffer) → (g m).count ≡ m.count)
      → ((m : MemBuffer) → (g m).locked ≡ m.locked)
      → brelease others has_fn do_request_fn ll_rw nr_buffers
          (suc wait)
          (some (at b))
          (map_buffer io (at b) (λ m. g (take_one m)))
        ≡ done (map_buffer io (at b) (λ m. give_back (g (take_one m))))
  brelease-Loaded b g io l ge lt same_count same_lock =
      let io1 = map_buffer io (at b) (λ m. g (take_one m)) in
      let self : (at b == at b) ≡ true = ground arith in
      let k = io.buffers (at b) in
      let unlocked : (io1.buffers (at b)).locked ≡ false =
        rw self (same_lock (take_one k) ∙ l.unlocked b ge lt) in
      let in_use : ((io1.buffers (at b)).count == 0) ≡ false =
        rw self (rw (same_count (take_one k)) (ground (arith, l.shared b ge lt))) in
      (brelease_lem others has_fn do_request_fn ll_rw nr_buffers wait (at b) io1 unlocked).1
      ∙ rw in_use (ap done (map_buffer-map_buffer io (at b) (λ m. g (take_one m)) give_back))
