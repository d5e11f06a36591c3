-- ===== src/Cache/Dirty.antt =====
-- The wait of `get_buffer` for a dirty buffer.
use lychee_os.Base.{
  ℕ, zero, suc, ◌≡◌, refl, ◌⊎◌, inl, inr, Bool, true, Option, none, some, ◌∙◌, sym, ◌==◌, ==_iff,
  ap, Bool-cases, Option-cases,
}
use lychee_os.Buffer.{MemBuffer, unlock_mem_buffer}
use lychee_os.Blk.{
  Io, map_buffer, write, nr_request, wait_unlocked, wait_request, rw_locked, rw_blk, add_request,
  fill_request, free_request, find_place, idle, no_device, major_of,
}
use lychee_os.Cache.{write_dirty}

module _ (others : Io → Io) (has_fn : ℕ → Bool) (do_request_fn : ℕ → Io → Io)
    (ll_rw : ℕ → ℕ → Io → Io) (nr_buffers i : ℕ)
    (others_keep : (io : Io) → (io.buffers i).dirty ≡ true → ((others io).buffers i).dirty ≡ true)
    (device_keeps : (m : ℕ) (io : Io)
      → (io.buffers i).dirty ≡ true
      → ((do_request_fn m io).buffers i).dirty ≡ true) where
  abbrev Keeps : Option Io → Type 0
  Keeps o = (o ≡ none) ⊎ ((io : Io) × (o ≡ some io) × ((io.buffers i).dirty ≡ true))

  wait_unlocked-Keeps :
      (fuel b : ℕ) (io : Io)
      → (io.buffers i).dirty ≡ true
      → Keeps (wait_unlocked others has_fn do_request_fn fuel b io)
  unfolding wait_unlocked
  wait_unlocked-Keeps zero b io d = inl refl
  wait_unlocked-Keeps (suc fuel) b io d = elim (Bool-cases (io.buffers b).locked) [
    | inl h ↦ rw h (wait_unlocked-Keeps fuel b (others io) (others_keep io d))
    | inr h ↦ rw h (inr (io, refl, d))
  ]

  wait_request-Keeps :
      (fuel : ℕ) (io : Io)
      → (io.buffers i).dirty ≡ true
      → (wait_request others has_fn do_request_fn fuel io ≡ none)
        ⊎ ((r : ℕ) × (io' : Io) × (wait_request others has_fn do_request_fn fuel io ≡ some (r, io'))
            × ((io'.buffers i).dirty ≡ true))
  unfolding wait_request
  wait_request-Keeps zero io d = inl refl
  wait_request-Keeps (suc fuel) io d = elim (Option-cases (free_request io.request nr_request 0)) [
    | inl e ↦ rw (e, wait_request) (wait_request-Keeps fuel (others io) (others_keep io d))
    | inr (r, e) ↦ rw (e, wait_request) (inr (r, io, refl, d))
  ]

  add_request-Keeps :
      (fuel major r : ℕ) (io : Io)
      → (io.buffers i).dirty ≡ true
      → Keeps (add_request (do_request_fn major) fuel major r io)
  unfolding add_request
  add_request-Keeps fuel major r io d = elim (Option-cases (io.current major)) [
    | inl e ↦ rw (e, add_request) (inr (_, refl, device_keeps major _ d))
    | inr (tmp, e) ↦ elim (Option-cases (find_place fuel io.request tmp (io.request r))) [
      | inl e' ↦ rw (e, add_request) (rw e' (inl refl))
      | inr (place, e') ↦ rw (e, add_request) (rw e' (inr (_, refl, d)))
    ]
  ]

  map_buffer-dirty :
      (b : ℕ) (f : MemBuffer → MemBuffer) (io : Io)
      → ((m : MemBuffer) → (f m).dirty ≡ m.dirty)
      → (io.buffers i).dirty ≡ true
      → ((map_buffer io b f).buffers i).dirty ≡ true
  map_buffer-dirty b f io same d = elim (Bool-cases (i == b)) [
    | inl e ↦
        rw e (same (io.buffers b) ∙ ap (λ x. (io.buffers x).dirty) (sym ((==_iff i b).0 e)) ∙ d)
    | inr e ↦ rw e d
  ]

  rw_locked-Keeps :
      (fuel major b : ℕ) (io : Io)
      → (io.buffers i).dirty ≡ true
      → Keeps (rw_locked others has_fn do_request_fn fuel major write b io)
  unfolding rw_locked unlock_mem_buffer fill_request
  rw_locked-Keeps fuel major b io d = elim (Bool-cases (idle write (io.buffers b))) [
    | inl h ↦ rw h (inr (_, refl, map_buffer-dirty b unlock_mem_buffer io (λ m. refl) d))
    | inr h ↦ elim (wait_request-Keeps fuel io d) [
      | inl e ↦ rw h (rw (e, rw_locked) (inl refl))
      | inr (r, io', e, d') ↦
          rw h (rw (e, rw_locked) (add_request-Keeps fuel major r (fill_request io' write b r) d'))
    ]
  ]

  rw_blk-Keeps :
      (fuel b : ℕ) (io : Io)
      → (io.buffers i).dirty ≡ true
      → Keeps (rw_blk others has_fn do_request_fn fuel write b io)
  unfolding rw_blk
  rw_blk-Keeps fuel b io d = elim (Bool-cases (no_device has_fn (io.buffers b))) [
    | inl h ↦ rw h (inr (io, refl, d))
    | inr h ↦ elim (wait_unlocked-Keeps fuel b io d) [
      | inl e ↦ rw h (rw (e, rw_blk) (inl refl))
      | inr (io', e, d') ↦ rw h (
          rw (e, rw_blk)
            (rw_locked-Keeps fuel (major_of (io.buffers b).dev) b
              (map_buffer io' b (λ m. record m { locked = true }))
              (map_buffer-dirty b (λ m. record m { locked = true }) io' (λ m. refl) d')))
    ]
  ]

  -- If neither the other processes nor the device driver clear the dirty mark of a dirty buffer,
  -- the loop of `get_buffer` that writes the buffer back never ends: no fuel is enough.
  pub write_dirty-spins :
      (fuel : ℕ) (io : Io)
      → (io.buffers i).dirty ≡ true
      → write_dirty others has_fn do_request_fn ll_rw nr_buffers fuel i io ≡ none
  unfolding write_dirty
  write_dirty-spins zero io d = refl
  write_dirty-spins (suc fuel) io d = elim (rw_blk-Keeps fuel i io d) [
    | inl e ↦ rw d (rw (e, write_dirty) refl)
    | inr (io', e, d') ↦ rw d (rw (e, write_dirty) (write_dirty-spins fuel io' d'))
  ]
