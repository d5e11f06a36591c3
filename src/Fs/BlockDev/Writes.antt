-- ===== src/Fs/BlockDev/Writes.antt =====
-- Whole transfers of `block_write` over loaded blocks.
use lychee_os.Base.{
  ℕ, zero, suc, ◌+◌, ◌-◌, ◌*◌, ◌/◌, ◌%◌, ◌≤◌, ◌<◌, ◌≡◌, refl, ap, ◌∙◌, ltb, ◌==◌, Bool-cases, inl,
  inr, Bool, false, arith,
}
use mathlib.Core.Path.{subst}
use lychee_os.Buffer.{block_size}
use lychee_os.Blk.{Io}
use lychee_os.Cache.{done, take_one}
use lychee_os.Fs.BlockDev.{chars_of, write_blocks, block_write}
use lychee_os.Fs.BlockDev.Bytes.{chars_le, chars_fit, regroup, plus_zero}
use lychee_os.Fs.BlockDev.Loaded.{
  Alike, Alike-refl, Alike-trans, map_buffer-map_buffer, IsLoaded, IsLoaded-Alike, byte,
}
use lychee_os.Fs.BlockDev.Visits.{bread-Loaded, brelease-Loaded}
use lychee_os.Fs.BlockDev.Stores.{
  written_byte, stored, written_byte-add, write_turn, write_turn-Alike, write_turn-byte,
}

module _ (others : Io → Io) (has_fn : ℕ → Bool) (do_request_fn : ℕ → Io → Io)
    (ll_rw : ℕ → ℕ → Io → Io) (nr_buffers wait dev lo hi : ℕ) (at : ℕ → ℕ) where
  abbrev Loaded : Io → Type 0
  Loaded io = IsLoaded nr_buffers dev lo hi at io

  write_blocks-step :
      (fuel b offset pos written count : ℕ) (buffer : ℕ → ℕ) (io : Io)
      → Loaded io
      → lo ≤ b
      → b < hi
      → (count == 0) ≡ false
      → write_blocks others has_fn do_request_fn ll_rw nr_buffers
          (suc wait)
          (suc fuel)
          dev
          b
          offset
          pos
          written
          count
          buffer
          io
        ≡ write_blocks others has_fn do_request_fn ll_rw nr_buffers
            (suc wait)
            fuel
            dev
            (b + 1)
            0
            (pos + chars_of offset count)
            (written + chars_of offset count)
            (count - chars_of offset count)
            (λ k. buffer (chars_of offset count + k))
            (write_turn nr_buffers dev lo hi at b offset buffer (chars_of offset count) io)
  unfolding write_blocks
  write_blocks-step fuel b offset pos written count buffer io l ge lt more =
      let c = chars_of offset count in
      rw
        (
          more,
          bread-Loaded others has_fn do_request_fn ll_rw nr_buffers wait dev lo hi at b io l ge lt,
          write_blocks,
        )
        (rw (map_buffer-map_buffer io (at b) take_one (stored offset buffer c), write_blocks)
          (rw
            (
              brelease-Loaded others has_fn do_request_fn ll_rw nr_buffers wait dev lo hi at b
                  (stored offset buffer c) io l ge lt (λ m. refl) (λ m. refl),
              write_blocks,
            )
            refl))

  abbrev WritesAll : ℕ → ℕ → ℕ → ℕ → ℕ → ℕ → (ℕ → ℕ) → Io → Type 0
  WritesAll fuel b offset pos written count buffer io =
      (io' : Io) × (write_blocks others has_fn do_request_fn ll_rw nr_buffers (suc wait) fuel dev b
          offset pos written count buffer io
        ≡ done (pos + count, written + count, io'))
      × ((j : ℕ) → Alike (io.buffers j) (io'.buffers j))
      × ((q : ℕ)
          → lo * block_size ≤ q
          → q < hi * block_size
          → byte at io' q ≡ written_byte pos count buffer (byte at io q) q)

  write_blocks-none :
      (fuel b offset pos written : ℕ) (buffer : ℕ → ℕ) (io : Io)
      → WritesAll fuel b offset pos written 0 buffer io
  unfolding write_blocks
  write_blocks-none zero b offset pos written buffer io = (
    io,
    rw (plus_zero pos, plus_zero written) refl,
    λ j. Alike-refl (io.buffers j),
    λ q ge lt. ground arith,
  )
  write_blocks-none (suc fuel) b offset pos written buffer io = (
    io,
    rw (plus_zero pos, plus_zero written) refl,
    λ j. Alike-refl (io.buffers j),
    λ q ge lt. ground arith,
  )

  write_blocks-more :
      (fuel b offset pos written count : ℕ) (buffer : ℕ → ℕ) (io : Io)
      → Loaded io
      → lo ≤ b
      → b < hi
      → (count == 0) ≡ false
      → b * block_size + offset ≡ pos
      → offset < block_size
      → WritesAll fuel
          (b + 1)
          0
          (pos + chars_of offset count)
          (written + chars_of offset count)
          (count - chars_of offset count)
          (λ k. buffer (chars_of offset count + k))
          (write_turn nr_buffers dev lo hi at b offset buffer (chars_of offset count) io)
      → WritesAll (suc fuel) b offset pos written count buffer io
  write_blocks-more fuel b offset pos written count buffer io l ge lt more e off
        (io', r, same, bytes) =
      let c = chars_of offset count in
      let le : c ≤ count = chars_le offset count in
      (
        io',
        write_blocks-step fuel b offset pos written count buffer io l ge lt more
            ∙ r
            ∙ rw (regroup pos c count le, regroup written c count le) refl,
        λ j.
            Alike-trans _ _ _
              (write_turn-Alike nr_buffers dev lo hi at b offset buffer c io l ge lt j) (same j),
        λ q q_ge q_lt.
            bytes q q_ge q_lt
            ∙ ap (λ old. written_byte (pos + c) (count - c) (λ k. buffer (c + k)) old q)
                (write_turn-byte nr_buffers dev lo hi at b offset pos buffer c io q l ge lt e
                  (chars_fit offset count off) q_ge q_lt)
            ∙ written_byte-add pos c count buffer (byte at io q) q le,
      )

  pub write_blocks_lem :
      (fuel b offset pos written count : ℕ) (buffer : ℕ → ℕ) (io : Io)
      → Loaded io
      → lo ≤ b
      → b * block_size + offset ≡ pos
      → offset < block_size
      → pos + count ≤ hi * block_size
      → count ≤ fuel
      → WritesAll fuel b offset pos written count buffer io
  write_blocks_lem fuel b offset pos written zero buffer io l ge e off end enough =
      write_blocks-none fuel b offset pos written buffer io
  write_blocks_lem zero b offset pos written (suc n) buffer io l ge e off end enough =
      absurd (omega arith)
  write_blocks_lem (suc fuel) b offset pos written (suc n) buffer io l ge e off end enough =
      let c = chars_of offset (suc n) in
      let below : b < hi = omega arith in
      let some_chars : 1 ≤ c = ground arith in
      let io1 = write_turn nr_buffers dev lo hi at b offset buffer c io in
      let l1 : Loaded io1 =
        IsLoaded-Alike nr_buffers dev lo hi at io io1
          (write_turn-Alike nr_buffers dev lo hi at b offset buffer c io l ge below) l in
      let left : ℕ → ℕ = λ k. buffer (c + k) in
      let rest : WritesAll fuel (b + 1) 0 (pos + c) (written + c) (suc n - c) left io1 =
        elim (Bool-cases (ltb (suc n) (block_size - offset))) [
          | inl h ↦
              let over : 0 ≡ suc n - c = ground arith in
              subst (λ k. WritesAll fuel (b + 1) 0 (pos + c) (written + c) k left io1) over
                (write_blocks-none fuel (b + 1) 0 (pos + c) (written + c) left io1)
          | inr h ↦
              let full : c ≡ block_size - offset = ground arith in
              write_blocks_lem fuel (b + 1) 0 (pos + c) (written + c) (suc n - c) left io1 l1
                (omega arith) (omega arith) (omega arith) (omega arith) (omega arith)
        ] in
      write_blocks-more fuel b offset pos written (suc n) buffer io l ge below (ground arith) e off
        rest

  -- Of a range whose blocks valid, unlocked buffers hold (none used by 255 processes or more),
  -- with as much fuel as bytes, `block_write` stores every byte of the caller at its place and
  -- no other byte of the loaded blocks changes; it returns the number of bytes, moves the
  -- position behind them, and keeps the buffers' blocks, marks of validity, locks, use counts
  -- and sizes.
  pub block_write_lem :
      (fuel pos count : ℕ) (buffer : ℕ → ℕ) (io : Io)
      → Loaded io
      → lo * block_size ≤ pos
      → pos + count ≤ hi * block_size
      → count ≤ fuel
      → (io' : Io) × (block_write others has_fn do_request_fn ll_rw nr_buffers
            (suc wait)
            fuel
            dev
            pos
            buffer
            count
            io
          ≡ done (pos + count, count, io'))
        × ((j : ℕ) → Alike (io.buffers j) (io'.buffers j))
        × ((q : ℕ)
            → lo * block_size ≤ q
            → q < hi * block_size
            → byte at io' q ≡ written_byte pos count buffer (byte at io q) q)
  unfolding block_write
  block_write_lem fuel pos count buffer io l ge le enough =
      let (io', e, same, bytes) =
        write_blocks_lem fuel (pos / block_size) (pos % block_size) pos 0 count buffer io l
          (omega arith) (omega arith) (omega arith) le enough in
      let zero_plus : 0 + count ≡ count = omega arith in (io', e ∙ rw zero_plus refl, same, bytes)
