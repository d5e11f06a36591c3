-- ===== src/Tty/Lost.antt =====
-- What a NULL pointer does to a queue of kernel/chr/tty.c.
use lychee_os.Base.{ℕ, ◌<◌, ◌≡◌, refl, true, none, inl, inr, ltb, Bool-cases, Option-cases, arith}
use lychee_os.Tty.{TtyBuffer, tty_buffer_size, store_key, load_key, put, get}

store_key-tail : (b : TtyBuffer) (key : ℕ) → (store_key b key).tail ≡ b.tail
unfolding store_key
store_key-tail b key = elim (Option-cases (b.head)) [
  | inl null ↦ rw (null, store_key) refl
  | inr (h, at) ↦ rw (at, store_key) refl
]

load_key-astray : (b : TtyBuffer) → b.astray ≡ true → (load_key b).1.astray ≡ true
unfolding load_key
load_key-astray b lost = elim (Option-cases (b.tail)) [
  | inl null ↦ rw (null, load_key) refl
  | inr (t, at) ↦ rw (at, load_key) lost
]

load_key-null : (b : TtyBuffer) → b.tail ≡ none → (load_key b).1.astray ≡ true
unfolding load_key
load_key-null b null = rw (null, load_key) refl

-- A key is put without a look at the read pointer, and then at least one key waits.
pub put-tail : (b : TtyBuffer) (key : ℕ) → (put b key).tail ≡ b.tail
unfolding put
put-tail b key = elim (Bool-cases (ltb b.count tty_buffer_size)) [
  | inl room ↦ rw room (store_key-tail b key)
  | inr full ↦ rw full refl
]

pub put-count : (b : TtyBuffer) (key : ℕ) → 0 < (put b key).count
unfolding put
put-count b key = elim (Bool-cases (ltb b.count tty_buffer_size)) [
  | inl room ↦ rw room (omega arith)
  | inr full ↦ rw full (ground (arith, full))
]

-- A queue that has gone astray stays so.
pub get-astray : (b : TtyBuffer) → b.astray ≡ true → (get b).1.astray ≡ true
unfolding get
get-astray b lost = elim (Bool-cases (ltb 0 b.count)) [
  | inl some_key ↦ rw some_key (load_key-astray b lost)
  | inr empty ↦ rw empty lost
]

-- The first key that is fetched through a NULL pointer.
pub get-null : (b : TtyBuffer) → b.tail ≡ none → 0 < b.count → (get b).1.astray ≡ true
unfolding get
get-null b null waiting =
    let some_key : ltb 0 b.count ≡ true = ground arith in rw some_key (load_key-null b null)
