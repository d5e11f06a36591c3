-- ===== src/Fs/BlockDev/Stores.antt =====
-- What the write of one block leaves.
use lychee_os.Base.{
  ℕ, ◌+◌, ◌-◌, ◌*◌, ◌/◌, ◌%◌, ◌≤◌, ◌<◌, ◌≡◌, refl, ap, ◌∙◌, sym, ◌≢◌, ltb, leb, ◌==◌, ==_iff, ◌&&◌,
  if◌then◌else◌, get_or, Bool-cases, inl, inr, true, arith,
}
use lychee_os.Buffer.{MemBuffer, block_size}
use lychee_os.Blk.{Io, map_buffer}
use lychee_os.Cache.{take_one, give_back}
use lychee_os.Fs.BlockDev.{put_bytes}
use lychee_os.Fs.BlockDev.Bytes.{length-put_bytes, get_or-put_bytes}
use lychee_os.Fs.BlockDev.Loaded.{Alike, map_buffer-Alike, IsLoaded, byte, at_inj}

-- What a byte is behind a write of `count` bytes at `pos`.
abbrev pub written_byte : ℕ → ℕ → (ℕ → ℕ) → ℕ → ℕ → ℕ
written_byte pos count buffer old q =
    if leb pos q && ltb q (pos + count) then buffer (q - pos) else old

abbrev pub stored : ℕ → (ℕ → ℕ) → ℕ → MemBuffer → MemBuffer
stored offset buffer c m = record m {
  data_block = put_bytes m.data_block offset buffer c;
  dirty = true;
}

-- Two writes, one behind the other, are one.
pub written_byte-add :
    (pos c count : ℕ) (buffer : ℕ → ℕ) (old q : ℕ)
    → c ≤ count
    → written_byte (pos + c) (count - c) (λ k. buffer (c + k)) (written_byte pos c buffer old q) q
      ≡ written_byte pos count buffer old q
written_byte-add pos c count buffer old q le = elim (Bool-cases (leb (pos + c) q)) [
  | inl h ↦
      let shifted : buffer (c + (q - (pos + c))) ≡ buffer (q - pos) = ap buffer (ground arith) in
      ground (arith, shifted)
  | inr h ↦ ground arith
]

module _ (nr_buffers dev lo hi : ℕ) (at : ℕ → ℕ) where
  abbrev Loaded : Io → Type 0
  Loaded io = IsLoaded nr_buffers dev lo hi at io

  abbrev pub write_turn : ℕ → ℕ → (ℕ → ℕ) → ℕ → Io → Io
  write_turn b offset buffer c io =
      map_buffer io (at b) (λ m. give_back (stored offset buffer c (take_one m)))

  pub write_turn-Alike :
      (b offset : ℕ) (buffer : ℕ → ℕ) (c : ℕ) (io : Io)
      → Loaded io
      → lo ≤ b
      → b < hi
      → (j : ℕ) → Alike (io.buffers j) ((write_turn b offset buffer c io).buffers j)
  write_turn-Alike b offset buffer c io l ge lt =
      map_buffer-Alike io (at b) (λ m. give_back (stored offset buffer c (take_one m)))
        (record {
          dev = refl;
          block = refl;
          uptodate = refl;
          locked = refl;
          count = omega (arith, l.shared b ge lt);
          size = sym (length-put_bytes (io.buffers (at b)).data_block offset buffer c);
        })

  pub write_turn-byte :
      (b offset pos : ℕ) (buffer : ℕ → ℕ) (c : ℕ) (io : Io) (q : ℕ)
      → Loaded io
      → lo ≤ b
      → b < hi
      → b * block_size + offset ≡ pos
      → offset + c ≤ block_size
      → lo * block_size ≤ q
      → q < hi * block_size
      → byte at (write_turn b offset buffer c io) q ≡ written_byte pos c buffer (byte at io q) q
  write_turn-byte b offset pos buffer c io q l ge lt e le q_ge q_lt =
      elim (Bool-cases (at (q / block_size) == at b)) [
        | inl h ↦
            let here : q / block_size ≡ b =
              at_inj nr_buffers dev lo hi at io (q / block_size) b l (omega arith) (omega arith) ge
                lt ((==_iff _ (at b)).0 h) in
            let bytes = (io.buffers (at b)).data_block in
            let old : get_or bytes (q % block_size) 0 ≡ byte at io q =
              ap (λ k. get_or (io.buffers k).data_block (q % block_size) 0)
                (sym ((==_iff _ (at b)).0 h)) in
            let new : buffer (q % block_size - offset) ≡ buffer (q - pos) =
              ap buffer (omega (arith, here, e)) in
            rw h (
              get_or-put_bytes bytes offset buffer c (q % block_size)
                (omega (arith, l.whole b ge lt))
              ∙ ground (arith, old, new, here))
        | inr h ↦
            let elsewhere : q / block_size ≢ b = λ same. ground (arith, ap at same) in
            rw h (ground arith)
      ]
