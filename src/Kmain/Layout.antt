-- ===== src/Kmain/Layout.antt =====
-- The bounds of memory fit together.
use lychee_os.Base.{
  ℕ, suc, ◌+◌, ◌%◌, ◌^◌, ◌<◌, ◌≤◌, ◌≡◌, refl, sym, ap, ◌∙◌, inr, some, List, arith,
}
use mathlib.Core.Path.{subst}
use lychee_os.Mm.{Memory, page_size, nr_pages, mem_init}
use lychee_os.Mm.Pages.{IsBounded}
use lychee_os.Mm.Sharing.{mem_init-IsBounded}
use lychee_os.Cache.{mem_buffer_init}
use lychee_os.Cache.Layout.{Placed, mem_buffer_init-Placed}
use lychee_os.Kmain.{KernelBounds, memory_end, buffer_end, kernel_bounds, with_bounds, start_memory}

-- Main memory starts at a megabyte, where the buffers end, and ends at 64 MB at most.
pub record IsLaidOut (b : KernelBounds) : Type 0 where
  pub start : 2 ^ 20 ≤ b.main_memory_start
  pub whole : b.main_memory_start % 2 ^ 20 ≡ 0
  pub behind_buffers : b.main_memory_start ≡ b.buffer_memory_end
  pub order : b.main_memory_start ≤ b.main_memory_end
  pub end : b.main_memory_end ≤ 2 ^ 26
  pub page_end : b.main_memory_end % page_size ≡ 0

kernel_bounds-IsLaidOut :
    (ext_memory end : ℕ) → ext_memory < 2 ^ 16 → IsLaidOut (kernel_bounds ext_memory end)
unfolding kernel_bounds memory_end buffer_end
kernel_bounds-IsLaidOut ext_memory end small = record {
  start = ground arith;
  whole = ground arith;
  behind_buffers = refl;
  order = ground arith;
  end = ground arith;
  page_end = ground arith;
}

abbrev fuel_of : KernelBounds → ℕ
fuel_of b = b.buffer_memory_end + 1

-- For every size of the extended memory below 2^16 KB, and whatever word lies at the end of the kernel,
-- the start sets up main memory so that its pages lie inside of it and fill no more than the page map.
-- One more fuel than the end of the buffers has bytes is enough to place them, and their blocks lie
-- above their headers, below main memory and outside of the range from 640 KB to 1 MB.
pub start_memory_lem :
    (ext_memory end : ℕ) (m : Memory)
    → ext_memory < 2 ^ 16
    → (bs : List ℕ) × (m' : Memory) × (start_memory
          (fuel_of (kernel_bounds ext_memory end))
          ext_memory
          end
          m
        ≡ (m', some bs))
      × IsBounded m'
      × (m'.main_memory_pages ≤ nr_pages)
      × Placed m'.buffer_memory_start m'.main_memory_start bs
unfolding start_memory mem_init
start_memory_lem ext_memory end m small =
    let b = kernel_bounds ext_memory end in
    let laid = kernel_bounds-IsLaidOut ext_memory end small in
    let one : suc b.buffer_memory_end ≡ b.buffer_memory_end + 1 = omega arith in
    let bounded =
      mem_init-IsBounded (with_bounds b m) (omega (arith, laid.start)) (omega (arith, laid.whole))
        laid.order (omega (arith, laid.end)) in
    let (bs, placed, layout) =
      mem_buffer_init-Placed b.buffer_memory_start b.buffer_memory_end
        (omega (arith, laid.whole, laid.behind_buffers))
        (inr (omega (arith, laid.start, laid.behind_buffers))) in
    (
      bs,
      mem_init (with_bounds b m),
      ap
            (λ fuel. (
              mem_init (with_bounds b m),
              mem_buffer_init fuel b.buffer_memory_start b.buffer_memory_end,
            ))
            (sym one)
          ∙ ap (λ r. (mem_init (with_bounds b m), r)) placed,
      bounded.0,
      omega (arith, laid.start, laid.order, laid.end),
      subst (λ top. Placed b.buffer_memory_start top bs) (sym laid.behind_buffers) layout,
    )
