-- ===== src/Screen/Copies.antt =====
-- What the string instructions leave in memory, byte by byte.
use lychee_os.Base.{
  ℕ, zero, suc, ◌+◌, ◌%◌, ◌^◌, ◌<◌, ◌≤◌, ◌≡◌, ◌≢◌, ◌⊎◌, refl, ap, ◌∙◌, inl, inr, add32, arith,
}
use mathlib.Core.Path.{ap₂}
use native.Mathlib.Nat.{mod-lt, mod-eq_of_lt, mod_self, suc-mod, zero-mod}
use lychee_os.Screen.{poke, movsb, memset}

pub poke_self : (a b : ℕ) (m : ℕ → ℕ) → poke a b m a ≡ b
poke_self a b m = ground arith

poke_self' : (a b : ℕ) (m : ℕ → ℕ) (x : ℕ) → x ≡ a → poke a b m x ≡ b
poke_self' a b m x h = ground arith

pub poke_ne : (a b : ℕ) (m : ℕ → ℕ) (x : ℕ) → x ≢ a → poke a b m x ≡ m x
poke_ne a b m x h = ground arith

pub add32_small : (a b : ℕ) → a + b < 2 ^ 32 → add32 a b ≡ a + b
add32_small a b h = ground arith

-- One byte of a copy that stays below 2^32.
movsb_step :
    (n si di : ℕ) (m : ℕ → ℕ)
    → si + suc n ≤ 2 ^ 32
    → di + suc n ≤ 2 ^ 32
    → movsb (suc n) si di m ≡ movsb n (si + 1) (di + 1) (poke di (m si) m)
unfolding movsb
movsb_step zero si di m hs hd = refl
movsb_step (suc n) si di m hs hd =
    ap₂ (λ s d. movsb (suc n) s d (poke di (m si) m)) (add32_small si 1 (omega arith))
      (add32_small di 1 (omega arith))

pub movsb_none : (si di : ℕ) (m : ℕ → ℕ) → movsb 0 si di m ≡ m
unfolding movsb
movsb_none si di m = refl

-- Bytes outside the target stay.
pub movsb_outside :
    (count si di : ℕ) (m : ℕ → ℕ) (a : ℕ)
    → si + count ≤ 2 ^ 32
    → di + count ≤ 2 ^ 32
    → (a < di) ⊎ (di + count ≤ a)
    → movsb count si di m a ≡ m a
movsb_outside zero si di m a hs hd h = ap (λ (f : ℕ → ℕ). f a) (movsb_none si di m)
movsb_outside (suc n) si di m a hs hd h =
    ap (λ (f : ℕ → ℕ). f a) (movsb_step n si di m hs hd)
    ∙ movsb_outside n (si + 1) (di + 1) (poke di (m si) m) a (omega arith) (omega arith)
        (ground arith)
    ∙ poke_ne di (m si) m a (ground arith)

next_mod :
    (j d : ℕ)
    → 0 < d
    → ((suc j % d ≡ suc (j % d)) × (suc (j % d) < d)) ⊎ ((suc j % d ≡ 0) × (suc (j % d) ≡ d))
next_mod j d h = elim (last_or_not (j % d) d (mod-lt j h)) [
  | inl less ↦ inl (suc-mod j d ∙ mod-eq_of_lt less, less)
  | inr last ↦ inr (suc-mod j d ∙ ap (λ x. x % d) last ∙ mod_self d, last)
]
  where
    last_or_not : (r d : ℕ) → r < d → (suc r < d) ⊎ (suc r ≡ d)
    last_or_not r d h = ground arith

-- A copy to a place `d` bytes on repeats the first `d` bytes of the source.
pub movsb_repeats :
    (count si d : ℕ) (m : ℕ → ℕ) (j : ℕ)
    → 0 < d
    → si + d + count ≤ 2 ^ 32
    → j < count
    → movsb count si (si + d) m (si + d + j) ≡ m (si + j % d)
movsb_repeats zero si d m j hd h lt = absurd (omega arith)
movsb_repeats (suc n) si d m zero hd h lt =
    ap (λ (f : ℕ → ℕ). f (si + d + 0)) (movsb_step n si (si + d) m (omega arith) (omega arith))
    ∙ movsb_outside n (si + 1) (si + d + 1) (poke (si + d) (m si) m) (si + d + 0) (omega arith)
        (omega arith) (ground arith)
    ∙ poke_self' (si + d) (m si) m (si + d + 0) (omega arith)
    ∙ ap m (ground (arith, zero-mod d))
movsb_repeats (suc n) si d m (suc j) hd h lt =
    let m' : ℕ → ℕ = poke (si + d) (m si) m in
    ap (λ (f : ℕ → ℕ). f (si + d + suc j)) (movsb_step n si (si + d) m (omega arith) (omega arith))
    ∙ ap₂ (λ t a. movsb n (si + 1) t m' a) (ground arith) (ground arith)
    ∙ movsb_repeats n (si + 1) d m' j hd (omega arith) (omega arith)
    ∙ elim (next_mod j d hd) [
      | inl (more, less) ↦
          poke_ne (si + d) (m si) m (si + 1 + j % d) (ground arith) ∙ ap m (ground arith)
      | inr (start, last) ↦
          poke_self' (si + d) (m si) m (si + 1 + j % d) (ground arith) ∙ ap m (ground arith)
    ]

memset_step :
    (n s c : ℕ) (m : ℕ → ℕ)
    → s + suc n ≤ 2 ^ 32
    → memset s c (suc n) m ≡ memset (s + 1) c n (poke s (c % 2 ^ 8) m)
unfolding memset
memset_step zero s c m h = refl
memset_step (suc n) s c m h =
    ap (λ t. memset t c (suc n) (poke s (c % 2 ^ 8) m)) (add32_small s 1 (omega arith))

memset_none : (s c : ℕ) (m : ℕ → ℕ) → memset s c 0 m ≡ m
unfolding memset
memset_none s c m = refl

pub memset_outside :
    (n s c : ℕ) (m : ℕ → ℕ) (a : ℕ)
    → s + n ≤ 2 ^ 32
    → (a < s) ⊎ (s + n ≤ a)
    → memset s c n m a ≡ m a
memset_outside zero s c m a hs h = ap (λ (f : ℕ → ℕ). f a) (memset_none s c m)
memset_outside (suc n) s c m a hs h =
    ap (λ (f : ℕ → ℕ). f a) (memset_step n s c m hs)
    ∙ memset_outside n (s + 1) c (poke s (c % 2 ^ 8) m) a (omega arith) (ground arith)
    ∙ poke_ne s (c % 2 ^ 8) m a (ground arith)

pub memset_inside :
    (n s c : ℕ) (m : ℕ → ℕ) (j : ℕ) → s + n ≤ 2 ^ 32 → j < n → memset s c n m (s + j) ≡ c % 2 ^ 8
memset_inside zero s c m j hs h = absurd (omega arith)
memset_inside (suc n) s c m zero hs h =
    ap (λ (f : ℕ → ℕ). f (s + 0)) (memset_step n s c m hs)
    ∙ memset_outside n (s + 1) c (poke s (c % 2 ^ 8) m) (s + 0) (omega arith) (ground arith)
    ∙ poke_self' s (c % 2 ^ 8) m (s + 0) (omega arith)
memset_inside (suc n) s c m (suc j) hs h =
    ap (λ (f : ℕ → ℕ). f (s + suc j)) (memset_step n s c m hs)
    ∙ ap (memset (s + 1) c n (poke s (c % 2 ^ 8) m)) (ground arith)
    ∙ memset_inside n (s + 1) c (poke s (c % 2 ^ 8) m) j (omega arith) (omega arith)
