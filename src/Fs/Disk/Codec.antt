-- ===== src/Fs/Disk/Codec.antt =====
-- Structures are read from a block as they were written to it.
use lychee_os.Base.{
  ℕ, zero, suc, ◌+◌, ◌*◌, ◌/◌, ◌%◌, ◌^◌, ◌<◌, ◌≤◌, ◌≡◌, ◌≢◌, ◌⊎◌, refl, sym, ap, ◌∙◌, inl, List, [],
  ◌∷◌, length, get_or, set, length-set, get_or-set_self, get_or-set_ne, arith,
}
use mathlib.Core.Path.{ap₂}
use lychee_os.Fs.{Inode}
use lychee_os.Fs.Disk.{
  get_le, put_le, get_u16s, put_u16s, inode_size, inodes_per_block, load_inode, store_inode,
}

-- One more than the largest number of `n` bytes.
unfoldable limit : ℕ → ℕ
limit zero = 1
limit (suc n) = 2 ^ 8 * limit n

-- Two ranges of bytes do not overlap.
abbrev Apart : (q n p m : ℕ) → Type 0
Apart q n p m = (q + n ≤ p) ⊎ (p + m ≤ q)

pub length-put_le : (n : ℕ) (bytes : List ℕ) (p v : ℕ) → length (put_le n bytes p v) ≡ length bytes
unfolding put_le
length-put_le zero bytes p v = refl
length-put_le (suc n) bytes p v =
    length-put_le n (set bytes p (v % 2 ^ 8)) (p + 1) (v / 2 ^ 8) ∙ length-set bytes p (v % 2 ^ 8)

get_or-put_le :
    (n : ℕ) (bytes : List ℕ) (p v a : ℕ)
    → (a < p) ⊎ (p + n ≤ a)
    → get_or (put_le n bytes p v) a 0 ≡ get_or bytes a 0
unfolding put_le
get_or-put_le zero bytes p v a h = refl
get_or-put_le (suc n) bytes p v a h =
    get_or-put_le n (set bytes p (v % 2 ^ 8)) (p + 1) (v / 2 ^ 8) a (ground arith)
    ∙ get_or-set_ne bytes p a (v % 2 ^ 8) 0 (ground arith)

get_le-put_le :
    (n : ℕ) (bytes : List ℕ) (p v : ℕ)
    → v < limit n
    → p + n ≤ length bytes
    → get_le n (put_le n bytes p v) p ≡ v
unfolding get_le put_le limit
get_le-put_le zero bytes p v small fits = omega arith
get_le-put_le (suc n) bytes p v small fits =
    let bytes' = set bytes p (v % 2 ^ 8) in
    let size = length-set bytes p (v % 2 ^ 8) in
    let low : get_or (put_le n bytes' (p + 1) (v / 2 ^ 8)) p 0 ≡ v % 2 ^ 8 =
      get_or-put_le n bytes' (p + 1) (v / 2 ^ 8) p (inl (omega arith))
      ∙ get_or-set_self bytes p (v % 2 ^ 8) 0 (omega arith) in
    let high = get_le-put_le n bytes' (p + 1) (v / 2 ^ 8) (omega arith) (omega arith) in omega arith

pub get_le2-put_le2 :
    (bytes : List ℕ) (p v : ℕ)
    → v < 2 ^ 16
    → p + 2 ≤ length bytes
    → get_le 2 (put_le 2 bytes p v) p ≡ v
unfolding limit
get_le2-put_le2 bytes p v small fits = get_le-put_le 2 bytes p v (omega arith) fits

get_le-put_le-Apart :
    (n m : ℕ) (bytes : List ℕ) (q p v : ℕ)
    → Apart q n p m
    → get_le n (put_le m bytes p v) q ≡ get_le n bytes q
unfolding get_le
get_le-put_le-Apart zero m bytes q p v h = refl
get_le-put_le-Apart (suc n) m bytes q p v h =
    ap₂ (λ a b. a + 2 ^ 8 * b) (get_or-put_le m bytes p v q (ground arith))
      (get_le-put_le-Apart n m bytes (q + 1) p v (ground arith))

length-put_u16s :
    (xs : List ℕ) (bytes : List ℕ) (p : ℕ) → length (put_u16s xs bytes p) ≡ length bytes
unfolding put_u16s
length-put_u16s [] bytes p = refl
length-put_u16s (x ∷ xs) bytes p =
    length-put_u16s xs (put_le 2 bytes p x) (p + 2) ∙ length-put_le 2 bytes p x

get_le-put_u16s-Apart :
    (n : ℕ) (xs bytes : List ℕ) (q p : ℕ)
    → Apart q n p (2 * length xs)
    → get_le n (put_u16s xs bytes p) q ≡ get_le n bytes q
unfolding put_u16s
get_le-put_u16s-Apart n [] bytes q p h = refl
get_le-put_u16s-Apart n (x ∷ xs) bytes q p h =
    get_le-put_u16s-Apart n xs (put_le 2 bytes p x) q (p + 2) (ground arith)
    ∙ get_le-put_le-Apart n 2 bytes q p x (ground arith)

get_u16s-put_le-Apart :
    (n m : ℕ) (bytes : List ℕ) (q p v : ℕ)
    → Apart q (2 * n) p m
    → get_u16s n (put_le m bytes p v) q ≡ get_u16s n bytes q
unfolding get_u16s
get_u16s-put_le-Apart zero m bytes q p v h = refl
get_u16s-put_le-Apart (suc n) m bytes q p v h =
    ap₂ ◌∷◌ (get_le-put_le-Apart 2 m bytes q p v (ground arith))
      (get_u16s-put_le-Apart n m bytes (q + 2) p v (ground arith))

get_u16s-put_u16s-Apart :
    (n : ℕ) (xs bytes : List ℕ) (q p : ℕ)
    → Apart q (2 * n) p (2 * length xs)
    → get_u16s n (put_u16s xs bytes p) q ≡ get_u16s n bytes q
unfolding get_u16s
get_u16s-put_u16s-Apart zero xs bytes q p h = refl
get_u16s-put_u16s-Apart (suc n) xs bytes q p h =
    ap₂ ◌∷◌ (get_le-put_u16s-Apart 2 xs bytes q p (ground arith))
      (get_u16s-put_u16s-Apart n xs bytes (q + 2) p (ground arith))

-- Block numbers have 16 bits.
pub data AllSmall : List ℕ → Type 0 where
  nil : AllSmall []
  cons : {x : ℕ} {xs : List ℕ} → x < 2 ^ 16 → AllSmall xs → AllSmall (x ∷ xs)

get_u16s-put_u16s :
    (xs bytes : List ℕ) (p : ℕ)
    → AllSmall xs
    → p + 2 * length xs ≤ length bytes
    → get_u16s (length xs) (put_u16s xs bytes p) p ≡ xs
unfolding get_u16s put_u16s limit
get_u16s-put_u16s [] bytes p all fits = refl
get_u16s-put_u16s (x ∷ xs) bytes p (cons small rest) fits =
    let size = length-put_le 2 bytes p x in
    ap₂ ◌∷◌
      (get_le-put_u16s-Apart 2 xs (put_le 2 bytes p x) p (p + 2) (inl (omega arith))
        ∙ get_le-put_le 2 bytes p x (omega arith) (omega arith))
      (get_u16s-put_u16s xs (put_le 2 bytes p x) (p + 2) rest (omega arith))

-- The words at the start of an inode, one after the other.
unfoldable put_words : List ℕ → List ℕ → (p : ℕ) → List ℕ
put_words [] bytes p = bytes
put_words (x ∷ xs) bytes p = put_words xs (put_le 4 bytes p x) (p + 4)

length-put_words : (xs bytes : List ℕ) (p : ℕ) → length (put_words xs bytes p) ≡ length bytes
unfolding put_words
length-put_words [] bytes p = refl
length-put_words (x ∷ xs) bytes p =
    length-put_words xs (put_le 4 bytes p x) (p + 4) ∙ length-put_le 4 bytes p x

get_le-put_words-Apart :
    (n : ℕ) (xs bytes : List ℕ) (q p : ℕ)
    → Apart q n p (4 * length xs)
    → get_le n (put_words xs bytes p) q ≡ get_le n bytes q
unfolding put_words
get_le-put_words-Apart n [] bytes q p h = refl
get_le-put_words-Apart n (x ∷ xs) bytes q p h =
    get_le-put_words-Apart n xs (put_le 4 bytes p x) q (p + 4) (ground arith)
    ∙ get_le-put_le-Apart n 4 bytes q p x (ground arith)

get_u16s-put_words-Apart :
    (n : ℕ) (xs bytes : List ℕ) (q p : ℕ)
    → Apart q (2 * n) p (4 * length xs)
    → get_u16s n (put_words xs bytes p) q ≡ get_u16s n bytes q
unfolding get_u16s
get_u16s-put_words-Apart zero xs bytes q p h = refl
get_u16s-put_words-Apart (suc n) xs bytes q p h =
    ap₂ ◌∷◌ (get_le-put_words-Apart 2 xs bytes q p (ground arith))
      (get_u16s-put_words-Apart n xs bytes (q + 2) p (ground arith))

get_le-put_words :
    (xs bytes : List ℕ) (p i : ℕ)
    → i < length xs
    → get_or xs i 0 < 2 ^ 32
    → p + 4 * length xs ≤ length bytes
    → get_le 4 (put_words xs bytes p) (p + 4 * i) ≡ get_or xs i 0
unfolding put_words limit
get_le-put_words [] bytes p i h small fits = absurd (omega arith)
get_le-put_words (x ∷ xs) bytes p zero h small fits =
    ap (get_le 4 (put_words xs (put_le 4 bytes p x) (p + 4))) (omega arith)
    ∙ get_le-put_words-Apart 4 xs (put_le 4 bytes p x) p (p + 4) (inl (omega arith))
    ∙ get_le-put_le 4 bytes p x (omega arith) (omega arith)
get_le-put_words (x ∷ xs) bytes p (suc i) h small fits =
    let size = length-put_le 4 bytes p x in
    ap (get_le 4 (put_words xs (put_le 4 bytes p x) (p + 4))) (omega arith)
    ∙ get_le-put_words xs (put_le 4 bytes p x) (p + 4) i (omega arith) small (omega arith)

-- An inode whose fields fit their types.
pub record IsStorable (inode : Inode) : Type 0 where
  pub mode : inode.mode < 2 ^ 32
  pub size : inode.size < 2 ^ 32
  pub modify_time : inode.modify_time < 2 ^ 32
  pub create_time : inode.create_time < 2 ^ 32
  pub last_access : inode.last_access < 2 ^ 32
  pub nlinks : inode.nlinks < 2 ^ 32
  pub nine : length inode.data_blocks ≡ 9
  pub small : AllSmall inode.data_blocks

abbrev words : Inode → List ℕ
words i = i.mode ∷ i.size ∷ i.modify_time ∷ i.create_time ∷ i.last_access ∷ i.nlinks ∷ []

stored : Inode → (p : ℕ) → List ℕ → List ℕ
stored i p bytes = put_u16s i.data_blocks (put_words (words i) bytes p) (p + 24)

store_inode-stored :
    (i : Inode) (k : ℕ) (bytes : List ℕ) → store_inode i k bytes ≡ stored i (k * inode_size) bytes
unfolding store_inode stored put_words
store_inode-stored i k bytes =
    let p = k * inode_size in
    let e8 : p + 8 ≡ p + 4 + 4 = omega arith in
    let e12 : p + 12 ≡ p + 4 + 4 + 4 = omega arith in
    let e16 : p + 16 ≡ p + 4 + 4 + 4 + 4 = omega arith in
    let e20 : p + 20 ≡ p + 4 + 4 + 4 + 4 + 4 = omega arith in rw (e8, e12, e16, e20) refl

-- An inode that is stored in one place of a block is loaded from there with all its fields of the disk,
-- and the inodes in the other places are loaded as before.
pub load_inode-store_inode :
    (inode other : Inode) (k l : ℕ) (bytes : List ℕ)
    → IsStorable inode
    → length bytes ≡ 1024
    → k < inodes_per_block
    → l ≢ k
    → (load_inode (store_inode inode k bytes) k other ≡ record other {
      mode = inode.mode;
      size = inode.size;
      modify_time = inode.modify_time;
      create_time = inode.create_time;
      last_access = inode.last_access;
      nlinks = inode.nlinks;
      data_blocks = inode.data_blocks;
    })
      × (load_inode (store_inode inode k bytes) l other ≡ load_inode bytes l other)
unfolding load_inode stored
load_inode-store_inode inode other k l bytes fits size within ne =
    rw (store_inode-stored inode k bytes) (
      rw
          (
            word 0 (k * inode_size) inode.mode (omega arith) (omega arith) refl fits.mode,
            word 1 (k * inode_size + 4) inode.size (omega arith) refl refl fits.size,
            word 2 (k * inode_size + 8) inode.modify_time (omega arith) refl refl fits.modify_time,
            word 3 (k * inode_size + 12) inode.create_time (omega arith) refl refl fits.create_time,
            word 4 (k * inode_size + 16) inode.last_access (omega arith) refl refl fits.last_access,
            word 5 (k * inode_size + 20) inode.nlinks (omega arith) refl refl fits.nlinks,
            zones,
          )
          refl,
      rw
          (
            kept (l * inode_size) (omega arith) (omega arith),
            kept (l * inode_size + 4) (omega arith) (omega arith),
            kept (l * inode_size + 8) (omega arith) (omega arith),
            kept (l * inode_size + 12) (omega arith) (omega arith),
            kept (l * inode_size + 16) (omega arith) (omega arith),
            kept (l * inode_size + 20) (omega arith) (omega arith),
            kept_zones,
          )
          refl,
    )
  where
    kept :
        (q : ℕ)
        → l * inode_size ≤ q
        → q + 4 ≤ l * inode_size + 42
        → get_le 4 (stored inode (k * inode_size) bytes) q ≡ get_le 4 bytes q
    kept q low high =
        let nine = fits.nine in
        get_le-put_u16s-Apart 4 inode.data_blocks (put_words (words inode) bytes (k * inode_size)) q
          (k * inode_size + 24) (ground arith)
        ∙ get_le-put_words-Apart 4 (words inode) bytes q (k * inode_size) (ground arith)

    kept_zones :
        get_u16s 9 (stored inode (k * inode_size) bytes) (l * inode_size + 24)
        ≡ get_u16s 9 bytes (l * inode_size + 24)
    kept_zones =
        let nine = fits.nine in
        get_u16s-put_u16s-Apart 9 inode.data_blocks (put_words (words inode) bytes (k * inode_size))
          (l * inode_size + 24) (k * inode_size + 24) (ground arith)
        ∙ get_u16s-put_words-Apart 9 (words inode) bytes (l * inode_size + 24) (k * inode_size)
            (ground arith)

    word :
        (i q v : ℕ)
        → i < 6
        → q ≡ k * inode_size + 4 * i
        → get_or (words inode) i 0 ≡ v
        → v < 2 ^ 32
        → get_le 4 (stored inode (k * inode_size) bytes) q ≡ v
    word i q v h place value small =
        ap (get_le 4 (stored inode (k * inode_size) bytes)) place
        ∙ get_le-put_u16s-Apart 4 inode.data_blocks (put_words (words inode) bytes (k * inode_size))
            (k * inode_size + 4 * i) (k * inode_size + 24) (inl (omega arith))
        ∙ get_le-put_words (words inode) bytes (k * inode_size) i h (omega arith) (omega arith)
        ∙ value

    zones :
        get_u16s 9 (stored inode (k * inode_size) bytes) (k * inode_size + 24) ≡ inode.data_blocks
    zones =
        ap (λ n. get_u16s n (stored inode (k * inode_size) bytes) (k * inode_size + 24))
          (sym fits.nine)
        ∙ get_u16s-put_u16s inode.data_blocks (put_words (words inode) bytes (k * inode_size))
            (k * inode_size + 24) fits.small
            (omega (arith, fits.nine, length-put_words (words inode) bytes (k * inode_size)))
