-- ===== src/Mm/Tests.antt =====
-- Runs of memory management on two pages of main memory at 1 MB.
use lychee_os.Base.{ℕ, ◌+◌, ◌*◌, ◌<◌, ◌≡◌, refl, ◌≢◌, ◌⊎◌, ltb, ◌==◌, if◌then◌else◌, arith}
use lychee_os.Mm.{Memory, page_size, clear_page, first_unused, get_phy_page, do_wp_page}
use lychee_os.Mm.Pages.{IsBounded, found, get_phy_page_lem}
use lychee_os.Mm.Faults.{do_wp_page-shared}

-- The directory at 0 has one table at 0x2000, whose entries map 1 MB and the page behind, both in
-- use and present; the third page is free.
abbrev sample : Memory
sample = record {
  word = λ a.
      if a == 0
      then 0x2007
      else if a == 0x2000
      then 0x100007
      else if a == 0x2004
      then 0x101007
      else if ltb a 0x3000
      then 0
      else 9;
  mem_map = λ i. if i == 0 then 2 else if i == 1 then 1 else 0;
  main_memory_pages = 3;
  main_memory_start = 0x100000;
  main_memory_end = 0x103000;
  sys_memory_start = 0;
  sys_memory_end = 0x80000;
  buffer_memory_start = 0x80000;
  buffer_memory_end = 0x100000;
  sys_pgdir = 0;
}

bounded : IsBounded sample
bounded = record { start = omega arith; aligned = refl; end = omega arith; small = omega arith }

sample_found : found sample ≡ 2
unfolding first_unused
sample_found = refl

sample_free : found sample < 3
sample_free = rw sample_found (omega arith)

get_phy_page_lem_example :
    ((get_phy_page sample ≡ (0, sample)) × ((j : ℕ) → j < 3 → sample.mem_map j ≢ 0))
    ⊎ ((i : ℕ) × (i < 3)
        × (sample.mem_map i ≡ 0)
        × ((j : ℕ) → j < i → sample.mem_map j ≢ 0)
        × (get_phy_page sample
            ≡ (0x100000 + i * page_size, clear_page sample (0x100000 + i * page_size)))
        × ((get_phy_page (get_phy_page sample).1).0 ≡ (get_phy_page sample).0))
get_phy_page_lem_example = get_phy_page_lem sample bounded

do_wp_page-shared_example : (do_wp_page 0 sample).word 0x100ffc ≡ 0
do_wp_page-shared_example =
    do_wp_page-shared 0 0x100ffc sample bounded sample_free (omega arith) (λ e. omega arith)
      (rw sample_found refl) (omega arith) (omega arith)
