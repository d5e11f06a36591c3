-- ===== src/Fs/BlockDev/Reads.antt =====
-- Whole transfers of `block_read` over loaded blocks.
use lychee_os.Base.{
  ℕ, zero, suc, ◌+◌, ◌-◌, ◌*◌, ◌/◌, ◌%◌, ◌≤◌, ◌<◌, ◌≡◌, refl, ap, ◌∙◌, sym, List, [], ◌++◌, ltb,
  ◌==◌, ==_iff, get_or, tabulate, tabulate_congr, Bool-cases, inl, inr, Bool, true, false, arith,
}
use mathlib.Core.Path.{subst}
use mathlib.Core.List.{append_assoc, append-nil}
use lychee_os.Buffer.{block_size}
use lychee_os.Blk.{Io, map_buffer}
use lychee_os.Cache.{done, take_one, give_back}
use lychee_os.Fs.BlockDev.{chars_of, get_bytes, read_blocks, block_read}
use lychee_os.Fs.BlockDev.Bytes.{
  get_bytes-eq-tabulate, tabulate-add, chars_le, chars_fit, regroup, plus_zero,
}
use lychee_os.Fs.BlockDev.Loaded.{
  Alike, Alike-refl, Alike-trans, map_buffer-Alike, IsLoaded, IsLoaded-Alike, byte,
}
use lychee_os.Fs.BlockDev.Visits.{bread-Loaded, brelease-Loaded}

module _ (others : Io → Io) (has_fn : ℕ → Bool) (do_request_fn : ℕ → Io → Io)
    (ll_rw : ℕ → ℕ → Io → Io) (nr_buffers wait dev lo hi : ℕ) (at : ℕ → ℕ) where
  abbrev Loaded : Io → Type 0
  Loaded io = IsLoaded nr_buffers dev lo hi at io

  abbrev read_turn : ℕ → Io → Io
  read_turn b io = map_buffer io (at b) (λ m. give_back (take_one m))

  read_turn-Alike :
      (b : ℕ) (io : Io)
      → Loaded io
      → lo ≤ b
      → b < hi
      → (j : ℕ) → Alike (io.buffers j) ((read_turn b io).buffers j)
  read_turn-Alike b io l ge lt =
      map_buffer-Alike io (at b) (λ m. give_back (take_one m))
        (record {
          dev = refl;
          block = refl;
          uptodate = refl;
          locked = refl;
          count = omega (arith, l.shared b ge lt);
          size = refl;
        })

  read_turn-byte : (b q : ℕ) (io : Io) → byte at (read_turn b io) q ≡ byte at io q
  read_turn-byte b q io = elim (Bool-cases (at (q / block_size) == at b)) [
    | inl h ↦ rw h (
        ap (λ k. get_or (io.buffers k).data_block (q % block_size) 0) (sym ((==_iff _ (at b)).0 h)))
    | inr h ↦ rw h refl
  ]

  read_blocks-step :
      (fuel b offset pos got count : ℕ) (out : List ℕ) (io : Io)
      → Loaded io
      → lo ≤ b
      → b < hi
      → (count == 0) ≡ false
      → read_blocks others has_fn do_request_fn ll_rw nr_buffers
          (suc wait)
          (suc fuel)
          dev
          b
          offset
          pos
          got
          count
          out
          io
        ≡ read_blocks others has_fn do_request_fn ll_rw nr_buffers
            (suc wait)
            fuel
            dev
            (b + 1)
            0
            (pos + chars_of offset count)
            (got + chars_of offset count)
            (count - chars_of offset count)
            (out ++ get_bytes (io.buffers (at b)).data_block offset (chars_of offset count))
            (read_turn b io)
  unfolding read_blocks
  read_blocks-step fuel b offset pos got count out io l ge lt more =
      let self : (at b == at b) ≡ true = ground arith in
      rw
        (
          more,
          bread-Loaded others has_fn do_request_fn ll_rw nr_buffers wait dev lo hi at b io l ge lt,
          read_blocks,
        )
        (rw
          (
            brelease-Loaded others has_fn do_request_fn ll_rw nr_buffers wait dev lo hi at b
                (λ m. m) io l ge lt (λ m. refl) (λ m. refl),
            read_blocks,
          )
          (rw self refl))

  -- The bytes of one block.
  block_bytes :
      (b offset pos n : ℕ) (io : Io)
      → b * block_size + offset ≡ pos
      → offset + n ≤ block_size
      → get_bytes (io.buffers (at b)).data_block offset n ≡ tabulate n (λ k. byte at io (pos + k))
  block_bytes b offset pos n io e le =
      get_bytes-eq-tabulate _ offset n
      ∙ tabulate_congr n _ _ (λ k lt.
        let quotient : b ≡ (pos + k) / block_size = omega arith in
        let remainder : offset + k ≡ (pos + k) % block_size = omega arith in
        ap (λ x. get_or (io.buffers (at x)).data_block (offset + k) 0) quotient
        ∙ ap (λ x. get_or (io.buffers (at ((pos + k) / block_size))).data_block x 0) remainder)

  abbrev ReadsAll : ℕ → ℕ → ℕ → ℕ → ℕ → ℕ → List ℕ → Io → Type 0
  ReadsAll fuel b offset pos got count out io =
      (io' : Io) × (read_blocks others has_fn do_request_fn ll_rw nr_buffers (suc wait) fuel dev b
          offset pos got count out io
        ≡ done (pos + count, got + count, out ++ tabulate count (λ k. byte at io (pos + k)), io'))
      × ((j : ℕ) → Alike (io.buffers j) (io'.buffers j))

  read_blocks-more :
      (fuel b offset pos got count : ℕ) (out : List ℕ) (io : Io)
      → Loaded io
      → lo ≤ b
      → b < hi
      → (count == 0) ≡ false
      → b * block_size + offset ≡ pos
      → offset < block_size
      → ReadsAll fuel
          (b + 1)
          0
          (pos + chars_of offset count)
          (got + chars_of offset count)
          (count - chars_of offset count)
          (out ++ get_bytes (io.buffers (at b)).data_block offset (chars_of offset count))
          (read_turn b io)
      → ReadsAll (suc fuel) b offset pos got count out io
  read_blocks-more fuel b offset pos got count out io l ge lt more e off (io', r, same) =
      let c = chars_of offset count in
      let le : c ≤ count = chars_le offset count in
      let total : c + (count - c) ≡ count = omega arith in
      let bytes : (out ++ get_bytes (io.buffers (at b)).data_block offset c)
            ++ tabulate (count - c) (λ k. byte at (read_turn b io) (pos + c + k))
          ≡ out ++ tabulate count (λ k. byte at io (pos + k)) =
        append_assoc out _ _
        ∙ ap (λ xs. out ++ xs)
            (ap (λ xs. xs ++ tabulate (count - c) (λ k. byte at (read_turn b io) (pos + c + k)))
                (block_bytes b offset pos c io e (chars_fit offset count off))
              ∙ ap (λ xs. tabulate c (λ k. byte at io (pos + k)) ++ xs)
                  (tabulate_congr (count - c) _ _
                    (λ k below. read_turn-byte b (pos + c + k) io ∙ ap (byte at io) (omega arith)))
              ∙ tabulate-add c (count - c) (λ k. byte at io (pos + k))
              ∙ ap (λ n. tabulate n (λ k. byte at io (pos + k))) total) in
      (
        io',
        read_blocks-step fuel b offset pos got count out io l ge lt more
            ∙ r
            ∙ rw (bytes, regroup pos c count le, regroup got c count le) refl,
        λ j. Alike-trans _ _ _ (read_turn-Alike b io l ge lt j) (same j),
      )

  read_blocks-none :
      (fuel b offset pos got : ℕ) (out : List ℕ) (io : Io) → ReadsAll fuel b offset pos got 0 out io
  unfolding read_blocks
  read_blocks-none zero b offset pos got out io =
      (io, rw (append-nil out, plus_zero pos, plus_zero got) refl, λ j. Alike-refl (io.buffers j))
  read_blocks-none (suc fuel) b offset pos got out io =
      (io, rw (append-nil out, plus_zero pos, plus_zero got) refl, λ j. Alike-refl (io.buffers j))

  pub read_blocks_lem :
      (fuel b offset pos got count : ℕ) (out : List ℕ) (io : Io)
      → Loaded io
      → lo ≤ b
      → b * block_size + offset ≡ pos
      → offset < block_size
      → pos + count ≤ hi * block_size
      → count ≤ fuel
      → ReadsAll fuel b offset pos got count out io
  read_blocks_lem fuel b offset pos got zero out io l ge e off end enough =
      read_blocks-none fuel b offset pos got out io
  read_blocks_lem zero b offset pos got (suc n) out io l ge e off end enough = absurd (omega arith)
  read_blocks_lem (suc fuel) b offset pos got (suc n) out io l ge e off end enough =
      let c = chars_of offset (suc n) in
      let below : b < hi = omega arith in
      let some_chars : 1 ≤ c = ground arith in
      let io1 = read_turn b io in
      let l1 : Loaded io1 =
        IsLoaded-Alike nr_buffers dev lo hi at io io1 (read_turn-Alike b io l ge below) l in
      let out1 = out ++ get_bytes (io.buffers (at b)).data_block offset c in
      let rest : ReadsAll fuel (b + 1) 0 (pos + c) (got + c) (suc n - c) out1 io1 =
        elim (Bool-cases (ltb (suc n) (block_size - offset))) [
          | inl h ↦
              let over : 0 ≡ suc n - c = ground arith in
              subst (λ k. ReadsAll fuel (b + 1) 0 (pos + c) (got + c) k out1 io1) over
                (read_blocks-none fuel (b + 1) 0 (pos + c) (got + c) out1 io1)
          | inr h ↦
              let full : c ≡ block_size - offset = ground arith in
              read_blocks_lem fuel (b + 1) 0 (pos + c) (got + c) (suc n - c) out1 io1 l1
                (omega arith) (omega arith) (omega arith) (omega arith) (omega arith)
        ] in
      read_blocks-more fuel b offset pos got (suc n) out io l ge below (ground arith) e off rest

  -- Of a range whose blocks valid, unlocked buffers hold (none used by 255 processes or more),
  -- with as much fuel as bytes, `block_read` returns every byte of the range in order and their
  -- number, moves the position behind them, and keeps the buffers' blocks, marks of validity,
  -- locks, use counts and sizes.
  pub block_read_lem :
      (fuel pos count : ℕ) (io : Io)
      → Loaded io
      → lo * block_size ≤ pos
      → pos + count ≤ hi * block_size
      → count ≤ fuel
      → (io' : Io) × (block_read others has_fn do_request_fn ll_rw nr_buffers
            (suc wait)
            fuel
            dev
            pos
            count
            io
          ≡ done (pos + count, count, tabulate count (λ k. byte at io (pos + k)), io'))
        × ((j : ℕ) → Alike (io.buffers j) (io'.buffers j))
  unfolding block_read
  block_read_lem fuel pos count io l ge le enough =
      let (io', e, same) =
        read_blocks_lem fuel (pos / block_size) (pos % block_size) pos 0 count [] io l (omega arith)
          (omega arith) (omega arith) le enough in
      let zero_plus : 0 + count ≡ count = omega arith in (io', e ∙ rw zero_plus refl, same)
