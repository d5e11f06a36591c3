-- ===== src/Fs/BlockDev/Loaded.antt =====
-- The blocks of a device that valid buffers hold, and what a visit to one of them leaves.
use lychee_os.Base.{
  ℕ, ◌/◌, ◌%◌, ◌≤◌, ◌<◌, ◌≡◌, refl, ap, ◌∙◌, sym, ◌==◌, ==_iff, get_or, length, Bool-cases, inl,
  inr, true, false, arith,
}
use mathlib.Core.Path.{fun_ext, subst}
use lychee_os.Buffer.{MemBuffer, Buffers, block_size}
use lychee_os.Blk.{Io, map_buffer}
use lychee_os.Cache.{holds}
use lychee_os.Cache.Lookup.{IsFirst}

-- Two states of a buffer that differ at most in its data and its marks for the disk.
pub record Alike (m m' : MemBuffer) : Type 0 where
  pub dev : m.dev ≡ m'.dev
  pub block : m.block ≡ m'.block
  pub uptodate : m.uptodate ≡ m'.uptodate
  pub locked : m.locked ≡ m'.locked
  pub count : m.count ≡ m'.count
  pub size : length m.data_block ≡ length m'.data_block

pub Alike-refl : (m : MemBuffer) → Alike m m
Alike-refl m = record {
  dev = refl;
  block = refl;
  uptodate = refl;
  locked = refl;
  count = refl;
  size = refl;
}

pub Alike-trans : (m n p : MemBuffer) → Alike m n → Alike n p → Alike m p
Alike-trans m n p a b = record {
  dev = a.dev ∙ b.dev;
  block = a.block ∙ b.block;
  uptodate = a.uptodate ∙ b.uptodate;
  locked = a.locked ∙ b.locked;
  count = a.count ∙ b.count;
  size = a.size ∙ b.size;
}

pub map_buffer-Alike :
    (io : Io) (k : ℕ) (f : MemBuffer → MemBuffer)
    → Alike (io.buffers k) (f (io.buffers k))
    → (j : ℕ) → Alike (io.buffers j) ((map_buffer io k f).buffers j)
map_buffer-Alike io k f same j = elim (Bool-cases (j == k)) [
  | inl h ↦
      rw h (subst (λ x. Alike (io.buffers x) (f (io.buffers k))) (sym ((==_iff j k).0 h)) same)
  | inr h ↦ rw h (Alike-refl (io.buffers j))
]

pub map_buffer-map_buffer :
    (io : Io) (k : ℕ) (f g : MemBuffer → MemBuffer)
    → map_buffer (map_buffer io k f) k g ≡ map_buffer io k (λ m. g (f m))
map_buffer-map_buffer io k f g =
    ap (λ (bs : Buffers). record io { buffers = bs }) (fun_ext λ j. ground arith)

-- The blocks from `lo` to below `hi` of a device; `at` gives the buffer of each.
pub record IsLoaded (nr_buffers dev lo hi : ℕ) (at : ℕ → ℕ) (io : Io) : Type 0 where
  pub first : (b : ℕ) → lo ≤ b → b < hi → IsFirst (holds dev b) io.buffers 0 nr_buffers (at b)
  pub valid : (b : ℕ) → lo ≤ b → b < hi → (io.buffers (at b)).uptodate ≡ true
  pub unlocked : (b : ℕ) → lo ≤ b → b < hi → (io.buffers (at b)).locked ≡ false
  pub shared : (b : ℕ) → lo ≤ b → b < hi → (io.buffers (at b)).count < 255
  pub whole : (b : ℕ) → lo ≤ b → b < hi → length (io.buffers (at b)).data_block ≡ block_size

-- The byte of the device at a position.
abbrev pub byte : (ℕ → ℕ) → Io → ℕ → ℕ
byte at io q = get_or (io.buffers (at (q / block_size))).data_block (q % block_size) 0

pub IsLoaded-Alike :
    (nr_buffers dev lo hi : ℕ) (at : ℕ → ℕ) (io io' : Io)
    → ((j : ℕ) → Alike (io.buffers j) (io'.buffers j))
    → IsLoaded nr_buffers dev lo hi at io
    → IsLoaded nr_buffers dev lo hi at io'
IsLoaded-Alike nr_buffers dev lo hi at io io' same l = record {
  first = λ b ge lt.
      let f = l.first b ge lt in
      let test : (j : ℕ) → holds dev b (io'.buffers j) ≡ holds dev b (io.buffers j) =
        λ j. rw ((same j).dev, (same j).block) refl in
      record {
        ge = f.ge;
        lt = f.lt;
        passes = test (at b) ∙ f.passes;
        earlier = λ j ge' lt'. test j ∙ f.earlier j ge' lt';
      };
  valid = λ b ge lt. sym (same (at b)).uptodate ∙ l.valid b ge lt;
  unlocked = λ b ge lt. sym (same (at b)).locked ∙ l.unlocked b ge lt;
  shared = λ b ge lt. omega (arith, (same (at b)).count, l.shared b ge lt);
  whole = λ b ge lt. sym (same (at b)).size ∙ l.whole b ge lt;
}

-- Different blocks lie in different buffers.
pub at_inj :
    (nr_buffers dev lo hi : ℕ) (at : ℕ → ℕ) (io : Io) (b c : ℕ)
    → IsLoaded nr_buffers dev lo hi at io
    → lo ≤ b
    → b < hi
    → lo ≤ c
    → c < hi
    → at b ≡ at c
    → b ≡ c
at_inj nr_buffers dev lo hi at io b c l lb bh lc ch e =
    let of_b : (io.buffers (at b)).block ≡ b = ground (arith, (l.first b lb bh).passes) in
    let of_c : (io.buffers (at c)).block ≡ c = ground (arith, (l.first c lc ch).passes) in
    sym of_b ∙ ap (λ x. (io.buffers x).block) e ∙ of_c
