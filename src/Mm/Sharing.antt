-- ===== src/Mm/Sharing.antt =====
-- Copying and freeing page tables, and the start of the page map.
use lychee_os.Base.{
  ℕ, zero, suc, ◌+◌, ◌*◌, ◌%◌, ◌^◌, ◌≤◌, ◌<◌, ◌≡◌, refl, ap, ◌∙◌, ◌≢◌, inl, inr, true, false, ltb,
  leb, ◌==◌, ◌&&◌, ◌||◌, not, if◌then◌else◌, Bool-cases, u32_mod, arith,
}
use lychee_os.Mm.{
  Memory, page_size, nr_pages, page_used, present, read_only, pg_dir, mem_init, copy_entry,
  copy_entries, free_dir, free_dirs, free_page_tables,
}
use lychee_os.Mm.Pages.{IsBounded}

abbrev after : ℕ → ℕ → Memory → Memory
after from to m = (copy_entry (from, to, m)).2

triple_eq : (s : ℕ × ℕ × Memory) (a b : ℕ) → ◌≡◌ {A = ℕ} s.0 a → ◌≡◌ {A = ℕ} s.1 b → s ≡ (a, b, s.2)
triple_eq s a b e0 e1 = ap (λ (x : ℕ). (x, s.1, s.2)) e0 ∙ ap (λ (y : ℕ). (a, y, s.2)) e1

copy_entry-present :
    (from to : ℕ) (m : Memory)
    → present (m.word from) ≡ true
    → copy_entry (from, to, m) ≡ (from + 4, to + 4, after from to m)
unfolding copy_entry
copy_entry-present from to m h =
    triple_eq (copy_entry (from, to, m)) (from + 4) (to + 4) (rw h refl) (rw h refl)

copy_entry-frame :
    (from to a : ℕ) (m : Memory)
    → a ≢ from
    → a ≢ to
    → (copy_entry (from, to, m)).2.word a ≡ m.word a
unfolding copy_entry
copy_entry-frame from to a m nf nt = ground arith

copy_entry-to :
    (from to : ℕ) (m : Memory)
    → present (m.word from) ≡ true
    → from ≢ to
    → (copy_entry (from, to, m)).2.word to ≡ read_only (m.word from)
unfolding copy_entry
copy_entry-to from to m h ne = ground arith

copy_entry-absent :
    (from to : ℕ) (m : Memory)
    → present (m.word from) ≡ false
    → copy_entry (from, to, m) ≡ (from, to, m)
unfolding copy_entry
copy_entry-absent from to m h = rw h refl

-- Once the entry of the source table is not present, the further passes change nothing.
pub copy_entries-absent :
    (n from to : ℕ) (m : Memory)
    → present (m.word from) ≡ false
    → copy_entries n (from, to, m) ≡ (from, to, m)
unfolding copy_entries
copy_entries-absent zero from to m h = refl
copy_entries-absent (suc n) from to m h =
    rw (copy_entry-absent from to m h) (copy_entries-absent n from to m h)

-- The rest of a run is still present after a pass on its first entry.
rest_present :
    (n from to : ℕ) (m : Memory)
    → from + 4 * suc n ≤ to
    → ((j : ℕ) → j < suc n → present (m.word (from + 4 * j)) ≡ true)
    → (j : ℕ) → j < n
    → (after from to m).word (from + 4 + 4 * j) ≡ m.word (from + 4 * suc j)
rest_present n from to m le all j lt =
    copy_entry-frame from to (from + 4 + 4 * j) m (λ e. omega arith) (λ e. omega arith)
    ∙ ap m.word (omega arith)

first_present :
    (n from : ℕ) (m : Memory)
    → ((j : ℕ) → j < suc n → present (m.word (from + 4 * j)) ≡ true)
    → present (m.word from) ≡ true
first_present n from m all =
    let e : from ≡ from + 4 * 0 = omega arith in
    ap (λ a. present (m.word a)) e ∙ all 0 (omega arith)

copy_entries-frame :
    (n from to a : ℕ) (m : Memory)
    → a < to
    → from + 4 * n ≤ to
    → ((j : ℕ) → j < n → a ≢ from + 4 * j)
    → ((j : ℕ) → j < n → present (m.word (from + 4 * j)) ≡ true)
    → (copy_entries n (from, to, m)).2.word a ≡ m.word a
unfolding copy_entries
copy_entries-frame zero from to a m lt le out all = refl
copy_entries-frame (suc n) from to a m lt le out all =
    let h = first_present n from m all in
    ap (λ s. (copy_entries n s).2.word a) (copy_entry-present from to m h)
    ∙ copy_entries-frame n (from + 4) (to + 4) a (after from to m) (omega arith) (omega arith)
        (λ j l e. out (suc j) (omega arith) (omega arith))
        (λ j l. ap present (rest_present n from to m le all j l) ∙ all (suc j) (omega arith))
    ∙ copy_entry-frame from to a m (λ e. out 0 (omega arith) (omega arith)) (λ e. omega arith)

-- A run of `n` present entries of the source table, with the target table behind it, is copied in
-- order: each entry of the target becomes the one of the source without its write bit.
pub copy_entries_lem :
    (n from to : ℕ) (m : Memory)
    → from + 4 * n ≤ to
    → ((j : ℕ) → j < n → present (m.word (from + 4 * j)) ≡ true)
    → (j : ℕ) → j < n
    → (copy_entries n (from, to, m)).2.word (to + 4 * j) ≡ read_only (m.word (from + 4 * j))
unfolding copy_entries
copy_entries_lem zero from to m le all j lt = absurd (omega arith)
copy_entries_lem (suc n) from to m le all zero lt =
    let h = first_present n from m all in
    let at : to + 4 * 0 ≡ to = omega arith in
    let at_from : from ≡ from + 4 * 0 = omega arith in
    ap (λ s. (copy_entries n s).2.word (to + 4 * 0)) (copy_entry-present from to m h)
    ∙ ap (copy_entries n (from + 4, to + 4, after from to m)).2.word at
    ∙ copy_entries-frame n (from + 4) (to + 4) to (after from to m) (omega arith) (omega arith)
        (λ j l e. omega arith)
        (λ j l. ap present (rest_present n from to m le all j l) ∙ all (suc j) (omega arith))
    ∙ copy_entry-to from to m h (λ e. omega arith)
    ∙ ap (λ a. read_only (m.word a)) at_from
copy_entries_lem (suc n) from to m le all (suc j) lt =
    let h = first_present n from m all in
    let at : to + 4 * suc j ≡ to + 4 + 4 * j = omega arith in
    ap (λ s. (copy_entries n s).2.word (to + 4 * suc j)) (copy_entry-present from to m h)
    ∙ ap (copy_entries n (from + 4, to + 4, after from to m)).2.word at
    ∙ copy_entries_lem n (from + 4) (to + 4) (after from to m) (omega arith)
        (λ j l. ap present (rest_present n from to m le all j l) ∙ all (suc j) (omega arith)) j
        (omega arith)
    ∙ ap read_only (rest_present n from to m le all j (omega arith))

-- The start of the page map: with main memory above 0 and below 2^32 that starts at a page, `mem_init`
-- sets up the bounds, and exactly the pages of main memory are unused among those of the map.
pub mem_init-IsBounded :
    (m : Memory)
    → 0 < m.main_memory_start
    → m.main_memory_start % page_size ≡ 0
    → m.main_memory_start ≤ m.main_memory_end
    → m.main_memory_end < u32_mod
    → IsBounded (mem_init m)
      × ((i : ℕ)
          → i < nr_pages
          → (mem_init m).mem_map i ≡ (
              if leb (m.main_memory_start + (i + 1) * page_size) m.main_memory_end
              then 0
              else page_used))
unfolding mem_init
mem_init-IsBounded m pos al le lt =
    (record { start = pos; aligned = al; end = omega arith; small = lt }, λ i h. ground arith)

free_dirs-absent :
    (free_page : ℕ → Memory → Memory) (n d : ℕ) (m : Memory)
    → present (m.word d) ≡ false
    → free_dirs free_page n d m ≡ m
unfolding free_dirs free_dir
free_dirs-absent free_page zero d m h = refl
free_dirs-absent free_page (suc n) d m h = rw h (free_dirs-absent free_page n d m h)

-- `free_page_tables` changes nothing, whatever the size, for an address that is not a multiple of
-- 4 MB, that lies in system or buffer memory, or whose first directory entry is not present.
pub free_page_tables-rests :
    (free_page : ℕ → Memory → Memory) (addr size : ℕ) (m : Memory)
    → (not (addr % 2 ^ 22 == 0)
        || (leb m.sys_memory_start addr && ltb addr m.sys_memory_end)
        || (leb m.buffer_memory_start addr && ltb addr m.buffer_memory_end)
        || not (present (m.word (pg_dir m addr))))
      ≡ true
    → free_page_tables free_page addr size m ≡ m
unfolding free_page_tables
free_page_tables-rests free_page addr size m h =
    elim (Bool-cases (present (m.word (pg_dir m addr)))) [
      | inl p ↦ ground arith
      | inr p ↦ rw (free_dirs-absent free_page size (pg_dir m addr) m p) (ground arith)
    ]
