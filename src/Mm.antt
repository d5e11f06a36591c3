-- ===== src/Mm.antt =====
-- Physical pages and page tables: mm/memory.c, and `memset` and `memcpy` of oslib/string.asm on
-- whole words.
pub mod Pages
pub mod Faults
pub mod Sharing
mod Tests
use lychee_os.Base.{
  ℕ, zero, suc, ◌+◌, ◌-◌, ◌*◌, ◌/◌, ◌%◌, ◌^◌, Bool, true, false, ◌&&◌, ◌||◌, not, ltb, leb, ◌==◌,
  if◌then◌else◌, u32_mod, add32, sub32,
}

abbrev pub page_size : ℕ
page_size = 4096

abbrev pub nr_pages : ℕ
nr_pages = 63 * 1024 * 1024 / 2 ^ 12

abbrev pub page_used : ℕ
page_used = 0x7F

abbrev pub page_unused : ℕ
page_unused = 0

-- The memory, as aligned 32-bit words at their byte addresses, the use counts of the pages (bytes;
-- the function goes on behind the array), and the bounds that the kernel sets up at its start.
pub record Memory : Type 0 where
  pub word : ℕ → ℕ
  pub mem_map : ℕ → ℕ
  pub main_memory_pages : ℕ
  pub main_memory_start : ℕ
  pub main_memory_end : ℕ
  pub sys_memory_start : ℕ
  pub sys_memory_end : ℕ
  pub buffer_memory_start : ℕ
  pub buffer_memory_end : ℕ
  pub sys_pgdir : ℕ

abbrev pub put_word : Memory → ℕ → ℕ → Memory
put_word m a v = record m { word = λ b. if b == a then v else m.word b }

abbrev pub put_count : Memory → ℕ → ℕ → Memory
put_count m i v = record m { mem_map = λ j. if j == i then v else m.mem_map j }

-- `a & 0xFFFFF000`.
abbrev pub page_of : ℕ → ℕ
page_of a = a - a % 2 ^ 12

-- Bit 0, PD_P and PT_P.
abbrev pub present : ℕ → Bool
present e = e % 2 == 1

-- `page | 7`: present, writable, user.
abbrev pub or_7 : ℕ → ℕ
or_7 e = e - e % 8 + 7

-- `e & ~2`.
abbrev pub read_only : ℕ → ℕ
read_only e = e - e / 2 % 2 * 2

abbrev pub page_nr : Memory → ℕ → ℕ
page_nr m addr = sub32 addr m.main_memory_start / 2 ^ 12

abbrev pub pg_dir : Memory → ℕ → ℕ
pg_dir m addr = m.sys_pgdir + addr / 2 ^ 22 % 1024 * 4

abbrev pub pg_tbl : Memory → ℕ → ℕ
pg_tbl m addr = page_of (m.word (pg_dir m addr)) + addr / 2 ^ 12 % 1024 * 4

-- `memset` of a page with 0.
abbrev pub clear_page : Memory → ℕ → Memory
clear_page m p = record m { word = λ a. if leb p a && ltb a (p + page_size) then 0 else m.word a }

-- `memcpy` loads its first argument, `dst`, into the source register of `movsb` and `src` into the
-- target register.
unfoldable pub memcpy : Memory → ℕ → ℕ → ℕ → Memory
memcpy m dst src count = record m {
  word = λ a. if leb src a && ltb a (src + count) then m.word (dst + (a - src)) else m.word a;
}

-- The loop of `get_phy_page`, over the `n` pages from `i` on.
unfoldable pub first_unused : (ℕ → ℕ) → ℕ → ℕ → ℕ
first_unused map zero i = i
first_unused map (suc n) i = let rest = first_unused map n (i + 1) in if map i == 0 then i else rest

unfoldable pub get_phy_page : Memory → ℕ × Memory
get_phy_page m =
    let i = first_unused m.mem_map m.main_memory_pages 0 in
    let phy = (m.main_memory_start + i * page_size) % u32_mod in
    if leb m.main_memory_pages i then (0, m) else (phy, clear_page m phy)

unfoldable pub free_phy_page : ℕ → Memory → Memory
free_phy_page addr m =
    let i = page_nr m addr in
    if ltb addr m.main_memory_start || ltb (sub32 m.main_memory_end page_size) addr
    then m
    else if m.mem_map 0 == 0
    then m
    else put_count m i ((m.mem_map i + 255) % 256)

-- The inner loop of `free_page_tables`, over `n` entries from `pt` on.
unfoldable pub free_entries : ℕ → ℕ → Memory → Memory
free_entries zero pt m = m
free_entries (suc n) pt m =
    let m' = if present (m.word pt) then free_phy_page (page_of (m.word pt)) m else m in
    free_entries n (pt + 4) (put_word m' pt 0)

-- A pass of the outer loop: a directory entry that is not present is not stepped over.
-- `free_page` is declared nowhere in the repository and enters as a parameter.
unfoldable pub free_dir : (ℕ → Memory → Memory) → ℕ → Memory → ℕ × Memory
free_dir free_page d m =
    let m' = free_entries 1024 (page_of (m.word d)) m in
    if not (present (m.word d))
    then (d, m)
    else (d + 4, put_word (free_page (page_of (m'.word d)) m') d 0)

unfoldable pub free_dirs : (ℕ → Memory → Memory) → ℕ → ℕ → Memory → Memory
free_dirs free_page zero d m = m
free_dirs free_page (suc n) d m =
    let next = free_dir free_page d m in free_dirs free_page n next.0 next.1

unfoldable pub free_page_tables : (ℕ → Memory → Memory) → ℕ → ℕ → Memory → Memory
free_page_tables free_page addr size m =
    if not (addr % 2 ^ 22 == 0)
    then m
    else if (leb m.sys_memory_start addr && ltb addr m.sys_memory_end)
        || (leb m.buffer_memory_start addr && ltb addr m.buffer_memory_end)
    then m
    else free_dirs free_page size (pg_dir m addr) m

-- A pass of the inner loop of `copy_page_tables`, with both table pointers.
unfoldable pub copy_entry : ℕ × ℕ × Memory → ℕ × ℕ × Memory
copy_entry (from, to, m) =
    let page = read_only (m.word from) in
    let m' = put_word m to page in
    let shared =
      put_count (put_word m' from (read_only (m'.word from))) (page_nr m page)
        ((m.mem_map (page_nr m page) + 1) % 256) in
    if not (present (m.word from))
    then (from, to, m)
    else (from + 4, to + 4, if leb m.main_memory_start (page_of page) then shared else m')

unfoldable pub copy_entries : ℕ → ℕ × ℕ × Memory → ℕ × ℕ × Memory
copy_entries zero s = s
copy_entries (suc n) s = copy_entries n (copy_entry s)

-- `halted` is the end in `halts`.
pub data Copied : Type 0 where
  halted : Copied
  returned : Bool → Memory → Copied

-- The outer loop. The directory pointers never move.
unfoldable pub copy_tables : ℕ → ℕ → ℕ → ℕ → Memory → Copied
copy_tables zero entries from_pd to_pd m = returned true m
copy_tables (suc n) entries from_pd to_pd m =
    let got = get_phy_page m in
    let m' = put_word got.1 to_pd (or_7 (page_of got.0)) in
    let copied = copy_entries entries (page_of (m.word from_pd), got.0, m') in
    let next = if present (m.word from_pd) then copied.2 else m in
    let rest = copy_tables n entries from_pd to_pd next in
    if present (m.word to_pd)
    then halted
    else if present (m.word from_pd) && (got.0 == 0)
    then returned false m
    else rest

unfoldable pub copy_page_tables : ℕ → ℕ → ℕ → Memory → Copied
copy_page_tables from to size m =
    let count = add32 size 0x3FFFFF / 2 ^ 22 in
    let entries = if from == 0 then 160 else 1024 in
    if not (from % 2 ^ 22 == 0) || not (to % 2 ^ 22 == 0)
    then returned false m
    else copy_tables count entries (from / 2 ^ 22 % 1024 * 4) (to / 2 ^ 22 % 1024 * 4) m

-- `junk` is the variable `page`, which is read before it is set.
unfoldable pub map_page : ℕ → ℕ → ℕ → Memory → ℕ × Memory
map_page junk phy_page address m =
    let d = pg_dir m address in
    let index = address / 2 ^ 12 % 1024 * 4 in
    let got = get_phy_page m in
    let m' = put_word got.1 d (or_7 got.0) in
    if ltb junk m.main_memory_start && leb m.main_memory_end junk
    then (0, m)
    else if not (m.mem_map (page_nr m phy_page) == 1)
    then (0, m)
    else if present (m.word d)
    then (junk, put_word m (page_of (m.word d) + index) (or_7 phy_page))
    else if got.0 == 0
    then (0, m)
    else (got.0, put_word m' (got.0 + index) (or_7 phy_page))

unfoldable pub do_wp_page : ℕ → Memory → Memory
do_wp_page address m =
    let pte = pg_tbl m address in
    let old_page = page_of (m.word pte) in
    let got = get_phy_page m in
    let new_page = got.0 in
    let m' =
      if leb m.main_memory_start old_page
      then put_count got.1 (page_nr m old_page) ((m.mem_map (page_nr m old_page) + 255) % 256)
      else got.1 in
    if leb m.main_memory_start old_page && (m.mem_map (page_nr m old_page) == 1)
    then put_word m pte (m.word pte + (2 - m.word pte / 2 % 2 * 2))
    else if new_page == 0
    then m
    else memcpy (put_word m' pte (or_7 new_page)) new_page old_page page_size

-- The code takes the address of the directory entry for the entry.
unfoldable pub write_verify : ℕ → Memory → Memory
write_verify address m =
    let entry = pg_dir m address in
    let page = page_of entry + address / 2 ^ 12 % 1024 * 4 in
    if not (present entry) then m else if m.word page % 4 == 1 then do_wp_page page m else m

unfoldable pub get_empty_page : ℕ → ℕ → Memory → ℕ × Memory
get_empty_page junk address m =
    let got = get_phy_page m in
    let mapped = map_page junk got.0 address got.1 in
    if got.0 == 0
    then (0, m)
    else if mapped.0 == 0
    then (0, free_phy_page got.0 mapped.1)
    else (address, mapped.1)

unfoldable pub mem_init : Memory → Memory
mem_init m =
    let count = sub32 m.main_memory_end m.main_memory_start / 2 ^ 12 in
    record m {
      main_memory_pages = count;
      mem_map = λ i.
          if ltb i count then page_unused else if ltb i nr_pages then page_used else m.mem_map i;
    }
