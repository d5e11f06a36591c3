-- ===== src/Mm/Pages.antt =====
-- Finding and releasing physical pages.
use lychee_os.Base.{
  ℕ, zero, suc, ◌+◌, ◌*◌, ◌%◌, ◌≤◌, ◌<◌, ◌≡◌, refl, ap, ◌∙◌, ◌≢◌, ◌⊎◌, inl, inr, false, leb, ◌==◌,
  ==_iff, Bool-cases, u32_mod, arith,
}
use lychee_os.Mm.{Memory, page_size, clear_page, first_unused, get_phy_page}

first_unused_from : (map : ℕ → ℕ) (n i : ℕ) → i ≤ first_unused map n i
unfolding first_unused
first_unused_from map zero i = omega arith
first_unused_from map (suc n) i = ground (arith, first_unused_from map n (i + 1))

first_unused_to : (map : ℕ → ℕ) (n i : ℕ) → first_unused map n i ≤ i + n
unfolding first_unused
first_unused_to map zero i = omega arith
first_unused_to map (suc n) i = ground (arith, first_unused_to map n (i + 1))

first_unused-step :
    (map : ℕ → ℕ) (n i : ℕ)
    → ((map i ≡ 0) × (first_unused map (suc n) i ≡ i))
      ⊎ ((map i ≢ 0) × (first_unused map (suc n) i ≡ first_unused map n (i + 1)))
unfolding first_unused
first_unused-step map n i = elim (Bool-cases (map i == 0)) [
  | inl h ↦ inl (ground arith, rw h refl)
  | inr h ↦ inr (λ e. ground arith, rw h refl)
]

pub first_unused-zero :
    (map : ℕ → ℕ) (n i : ℕ) → first_unused map n i < i + n → map (first_unused map n i) ≡ 0
first_unused-zero map zero i lt = absurd (omega (arith, first_unused_from map 0 i))
first_unused-zero map (suc n) i lt = elim (first_unused-step map n i) [
  | inl (z, e) ↦ ap map e ∙ z
  | inr (z, e) ↦ ap map e ∙ first_unused-zero map n (i + 1) (omega arith)
]

used_before_first : (map : ℕ → ℕ) (n i j : ℕ) → i ≤ j → j < first_unused map n i → map j ≢ 0
used_before_first map zero i j ge lt free = absurd (omega (arith, first_unused_to map 0 i))
used_before_first map (suc n) i j ge lt free = elim (first_unused-step map n i) [
  | inl (z, e) ↦ omega arith
  | inr (z, e) ↦ elim (Bool-cases (i == j)) [
    | inl h ↦ z (ap map ((==_iff i j).0 h) ∙ free)
    | inr h ↦ used_before_first map n (i + 1) j (ground arith) (omega arith) free
  ]
]

pub record IsBounded (m : Memory) : Type 0 where
  pub start : 0 < m.main_memory_start
  pub aligned : m.main_memory_start % page_size ≡ 0
  pub end : m.main_memory_start + m.main_memory_pages * page_size ≤ m.main_memory_end
  pub small : m.main_memory_end < u32_mod

abbrev pub found : Memory → ℕ
found m = first_unused m.mem_map m.main_memory_pages 0

get_phy_page-none : (m : Memory) → m.main_memory_pages ≤ found m → get_phy_page m ≡ (0, m)
unfolding get_phy_page
get_phy_page-none m h = ground arith

pub get_phy_page-some :
    (m : Memory)
    → IsBounded m
    → found m < m.main_memory_pages
    → get_phy_page m ≡ (
      m.main_memory_start + found m * page_size,
      clear_page m (m.main_memory_start + found m * page_size),
    )
unfolding get_phy_page
get_phy_page-some m b h =
    let few : leb m.main_memory_pages (found m) ≡ false = ground arith in
    let fits : (m.main_memory_start + found m * page_size) % u32_mod
        ≡ m.main_memory_start + found m * page_size =
      omega (arith, b.end, b.small) in
    rw (few, fits) refl

-- The search reads only what `get_phy_page` leaves unchanged.
get_phy_page-again : (m : Memory) → (get_phy_page (get_phy_page m).1).0 ≡ (get_phy_page m).0
unfolding get_phy_page
get_phy_page-again m = elim (Bool-cases (leb m.main_memory_pages (found m))) [
  | inl h ↦ rw h (rw h refl)
  | inr h ↦ rw h (rw h refl)
]

-- In memory whose bounds are set up, `get_phy_page` returns 0 and changes nothing exactly when every
-- page is in use; else it returns the address of the first page with no use count, sets that page to
-- zero, leaves the other words and every use count, and a second call returns the same page again.
pub get_phy_page_lem :
    (m : Memory)
    → IsBounded m
    → ((get_phy_page m ≡ (0, m)) × ((j : ℕ) → j < m.main_memory_pages → m.mem_map j ≢ 0))
      ⊎ ((i : ℕ) × (i < m.main_memory_pages)
          × (m.mem_map i ≡ 0)
          × ((j : ℕ) → j < i → m.mem_map j ≢ 0)
          × (get_phy_page m ≡ (
            m.main_memory_start + i * page_size,
            clear_page m (m.main_memory_start + i * page_size),
          ))
          × ((get_phy_page (get_phy_page m).1).0 ≡ (get_phy_page m).0))
get_phy_page_lem m b = elim (Bool-cases (leb m.main_memory_pages (found m))) [
  | inl h ↦ inl (
    get_phy_page-none m (ground arith),
    λ j lt. used_before_first m.mem_map m.main_memory_pages 0 j (omega arith) (ground arith),
  )
  | inr h ↦
      let lt : found m < m.main_memory_pages = ground arith in
      inr (
        found m,
        lt,
        first_unused-zero m.mem_map m.main_memory_pages 0 (omega arith),
        λ j. used_before_first m.mem_map m.main_memory_pages 0 j (omega arith),
        get_phy_page-some m b lt,
        get_phy_page-again m,
      )
]
