-- ===== src/Mm/Faults.antt =====
-- Mapping a new page, and the write fault on a shared page.
use lychee_os.Base.{
  ℕ, ◌+◌, ◌-◌, ◌*◌, ◌≤◌, ◌<◌, ◌≡◌, refl, ◌∙◌, ◌≢◌, inl, inr, true, false, ltb, leb, ◌==◌, ◌&&◌,
  ◌||◌, Bool-cases, sub32, arith,
}
use lychee_os.Mm.{
  Memory, page_size, page_nr, put_count, clear_page, page_of, pg_tbl, memcpy, free_phy_page,
  map_page, do_wp_page, get_empty_page,
}
use lychee_os.Mm.Pages.{IsBounded, found, first_unused-zero, get_phy_page-some}

page_nr-found :
    (m : Memory) (i : ℕ)
    → IsBounded m
    → i < m.main_memory_pages
    → page_nr m (m.main_memory_start + i * page_size) ≡ i
page_nr-found m i b lt = omega (arith, b.end, b.small, b.start)

map_page-unused :
    (junk p address : ℕ) (m : Memory)
    → m.mem_map (page_nr m p) ≡ 0
    → map_page junk p address m ≡ (0, m)
unfolding map_page
map_page-unused junk p address m z =
    elim (Bool-cases (ltb junk m.main_memory_start && leb m.main_memory_end junk)) [
      | inl h ↦ rw h refl
      | inr h ↦ rw (h, z) refl
    ]

free_phy_page-unused :
    (m : Memory) (i : ℕ)
    → IsBounded m
    → i < m.main_memory_pages
    → m.mem_map i ≡ 0
    → m.mem_map 0 ≢ 0
    → free_phy_page (m.main_memory_start + i * page_size) m ≡ put_count m i 255
unfolding free_phy_page
free_phy_page-unused m i b lt z used =
    let above : ltb (m.main_memory_start + i * page_size) m.main_memory_start ≡ false =
      ground arith in
    let below : ltb (sub32 m.main_memory_end page_size) (m.main_memory_start + i * page_size)
        ≡ false =
      ground (arith, b.end, b.small) in
    let in_use : (m.mem_map 0 == 0) ≡ false = ground arith in
    rw (above, below, in_use, page_nr-found m i b lt, z) refl

-- In memory whose bounds are set up and that has an unused page behind a used page 0,
-- `get_empty_page` returns 0, maps nothing at the address whatever it is, and leaves the page that
-- it found cleared and with the use count 255.
pub get_empty_page_lem :
    (junk address : ℕ) (m : Memory)
    → IsBounded m
    → found m < m.main_memory_pages
    → m.mem_map 0 ≢ 0
    → get_empty_page junk address m
      ≡ (0, put_count (clear_page m (m.main_memory_start + found m * page_size)) (found m) 255)
unfolding get_empty_page
get_empty_page_lem junk address m b lt used =
    let p = m.main_memory_start + found m * page_size in
    let nr = page_nr-found m (found m) b lt in
    let free = first_unused-zero m.mem_map m.main_memory_pages 0 (omega arith) in
    let unmapped = map_page-unused junk p address (clear_page m p) (rw nr free) in
    let nonzero : (p == 0) ≡ false = ground (arith, b.start) in
    let b' : IsBounded (clear_page m p) = record {
      start = b.start;
      aligned = b.aligned;
      end = b.end;
      small = b.small;
    } in
    rw
      (
        get_phy_page-some m b lt,
        unmapped,
        nonzero,
        free_phy_page-unused (clear_page m p) (found m) b' lt free used,
      )
      refl

memcpy-target :
    (m : Memory) (dst src count a : ℕ)
    → src ≤ a
    → a < src + count
    → (memcpy m dst src count).word a ≡ m.word (dst + (a - src))
unfolding memcpy
memcpy-target m dst src count a ge lt = ground arith

-- A write fault on a page of main memory whose use count is not 1, while a page is free, leaves every
-- word of the old page at 0, if the page table entry lies outside the new page: the copy goes from
-- the new page to the old one.
pub do_wp_page-shared :
    (address a : ℕ) (m : Memory)
    → IsBounded m
    → found m < m.main_memory_pages
    → let pte = pg_tbl m address in
      let old_page = page_of (m.word pte) in
      let new_page = m.main_memory_start + found m * page_size in
      m.main_memory_start ≤ old_page
      → m.mem_map (page_nr m old_page) ≢ 1
      → ltb pte new_page || leb (new_page + page_size) pte ≡ true
      → old_page ≤ a
      → a < old_page + page_size
      → (do_wp_page address m).word a ≡ 0
unfolding do_wp_page
do_wp_page-shared address a m b lt old_in shared pte_out ge le =
    let p = m.main_memory_start + found m * page_size in
    let inside : leb m.main_memory_start (page_of (m.word (pg_tbl m address))) ≡ true =
      ground arith in
    let several : (m.mem_map (page_nr m (page_of (m.word (pg_tbl m address)))) == 1) ≡ false =
      ground arith in
    let nonzero : (p == 0) ≡ false = ground (arith, b.start) in
    let source = p + (a - page_of (m.word (pg_tbl m address))) in
    let not_pte : (source == pg_tbl m address) ≡ false = ground arith in
    let from : leb p source ≡ true = ground arith in
    let to : ltb source (p + page_size) ≡ true = ground arith in
    rw (get_phy_page-some m b lt, inside, several, nonzero)
      (memcpy-target _ p (page_of (m.word (pg_tbl m address))) page_size a ge le
        ∙ rw (not_pte, from, to) refl)
