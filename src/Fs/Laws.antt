-- ===== src/Fs/Laws.antt =====
-- What the file system relies on in the buffer cache, and that the cache of Cache has it.
use lychee_os.Base.{
  ℕ, suc, ◌≡◌, refl, sym, ap, ◌∙◌, inl, inr, Bool, true, false, some, ◌==◌, ==_iff, Bool-cases,
}
use lychee_os.Buffer.{MemBuffer}
use lychee_os.Blk.{Io, map_buffer}
use lychee_os.Cache.{done, holds, take_one, give_back}
use lychee_os.Cache.Lookup.{IsFirst}
use lychee_os.Cache.Reading.{bread-cached, brelease_lem}
use lychee_os.Fs.{BufferCache, cache_of}

-- A change of a buffer that leaves it where it is: the same block, as valid as before.
pub record KeepsPlace (f : MemBuffer → MemBuffer) : Type 0 where
  pub dev : (m : MemBuffer) → (f m).dev ≡ m.dev
  pub block : (m : MemBuffer) → (f m).block ≡ m.block
  pub uptodate : (m : MemBuffer) → (f m).uptodate ≡ m.uptodate

-- `Loaded dev block b io` is to say that the buffer `b` holds valid data of the block.
pub record IsCache (c : BufferCache) (Loaded : ℕ → ℕ → ℕ → Io → Type 0) : Type 0 where
  pub reads :
      (dev block b : ℕ) (io : Io)
      → Loaded dev block b io
      → c.read_block dev block io ≡ done (some b, map_buffer io b take_one)
  pub gives_back :
      (b : ℕ) (io : Io)
      → (io.buffers b).locked ≡ false
      → ((io.buffers b).count == 0) ≡ false
      → c.release (some b) io ≡ done (map_buffer io b give_back)
  pub stays :
      (dev block b k : ℕ) (f : MemBuffer → MemBuffer) (io : Io)
      → KeepsPlace f
      → Loaded dev block b io
      → Loaded dev block b (map_buffer io k f)

-- The blocks that the cache of Cache has loaded.
pub record IsLoadedBlock (nr_buffers dev block b : ℕ) (io : Io) : Type 0 where
  pub first : IsFirst (holds dev block) io.buffers 0 nr_buffers b
  pub valid : (io.buffers b).uptodate ≡ true

mapped :
    (A : Type 0) (field : MemBuffer → A) (k j : ℕ) (f : MemBuffer → MemBuffer) (io : Io)
    → ((m : MemBuffer) → field (f m) ≡ field m)
    → field ((map_buffer io k f).buffers j) ≡ field (io.buffers j)
mapped A field k j f io same = elim (Bool-cases (j == k)) [
  | inl h ↦ rw h (same (io.buffers k) ∙ ap (λ x. field (io.buffers x)) (sym ((==_iff j k).0 h)))
  | inr h ↦ rw h refl
]

holds_mapped :
    (dev block k j : ℕ) (f : MemBuffer → MemBuffer) (io : Io)
    → KeepsPlace f
    → holds dev block ((map_buffer io k f).buffers j) ≡ holds dev block (io.buffers j)
holds_mapped dev block k j f io keeps = mapped Bool (holds dev block) k j f io (λ m.
    ap (λ d. holds dev block (record m { dev = d; block = (f m).block })) (keeps.dev m)
    ∙ ap (λ n. holds dev block (record m { block = n })) (keeps.block m))

pub cache_of-IsCache :
    (others : Io → Io) (has_fn : ℕ → Bool) (do_request_fn : ℕ → Io → Io) (ll_rw : ℕ → ℕ → Io → Io)
    (nr_buffers fuel : ℕ)
    → IsCache
        (cache_of others has_fn do_request_fn ll_rw nr_buffers (suc fuel))
        (IsLoadedBlock nr_buffers)
unfolding cache_of
cache_of-IsCache others has_fn do_request_fn ll_rw nr_buffers fuel = record {
  reads = λ dev block b io at.
      bread-cached others has_fn do_request_fn ll_rw nr_buffers (suc fuel) dev block b io at.first
        at.valid;
  gives_back = λ b io free used.
      (brelease_lem others has_fn do_request_fn ll_rw nr_buffers fuel b io free).1 ∙ rw used refl;
  stays = λ dev block b k f io keeps at. record {
    first = record {
      ge = at.first.ge;
      lt = at.first.lt;
      passes = holds_mapped dev block k b f io keeps ∙ at.first.passes;
      earlier = λ j low high. holds_mapped dev block k j f io keeps ∙ at.first.earlier j low high;
    };
    valid = mapped Bool (λ m. m.uptodate) k b f io keeps.uptodate ∙ at.valid;
  };
}
