-- ===== src/Cache/Layout.antt =====
-- Where `mem_buffer_init` puts the data blocks.
use lychee_os.Base.{
  ℕ, zero, suc, ◌+◌, ◌-◌, ◌%◌, ◌^◌, ◌≤◌, ◌<◌, ◌≡◌, refl, ◌⊎◌, inl, inr, true, false, some, List, [],
  ◌∷◌, leb, ◌==◌, if◌then◌else◌, Bool-cases, arith,
}
use lychee_os.Buffer.{block_size}
use lychee_os.Cache.{header_size, place_buffers, mem_buffer_init}

abbrev next_temp : ℕ → ℕ
next_temp temp = if temp - block_size == 2 ^ 20 then 0xA0000 else temp - block_size

-- The blocks lie below `top`, above the headers, one below the other, and outside the range from
-- 640 KB to 1 MB that belongs to the machine.
pub data Placed : ℕ → ℕ → List ℕ → Type 0 where
  nothing : {mb top : ℕ} → Placed mb top []
  block :
      {mb top b : ℕ} {rest : List ℕ}
      → b + block_size ≤ top
      → mb + header_size ≤ b
      → (b + block_size ≤ 0xA0000) ⊎ (2 ^ 20 ≤ b)
      → Placed (mb + header_size) b rest
      → Placed mb top (b ∷ rest)

lower : {mb top top' : ℕ} {bs : List ℕ} → top' ≤ top → Placed mb top' bs → Placed mb top bs
lower le nothing = nothing
lower le (block a b c d) = block (omega arith) b c d

abbrev Lays : ℕ → ℕ → ℕ → Type 0
Lays fuel mb temp = (bs : List ℕ) × (place_buffers (suc fuel) mb temp ≡ some bs) × Placed mb temp bs

place_buffers-stop :
    (fuel mb temp : ℕ) → leb (mb + header_size) (temp - block_size) ≡ false → Lays fuel mb temp
unfolding place_buffers
place_buffers-stop fuel mb temp h = ([], rw h refl, nothing)

place_buffers-go :
    (fuel mb temp : ℕ)
    → leb (mb + header_size) (temp - block_size) ≡ true
    → (temp - block_size + block_size ≤ 0xA0000) ⊎ (2 ^ 20 ≤ temp - block_size)
    → next_temp temp ≤ temp - block_size
    → Lays fuel (mb + header_size) (next_temp temp)
    → Lays (suc fuel) mb temp
unfolding place_buffers
place_buffers-go fuel mb temp h out le (bs, e, p) = (
  (temp - block_size) ∷ bs,
  rw h (rw e refl),
  block (ground arith) (ground arith) out (lower le p),
)

-- From a multiple of the block size outside the range, with enough fuel.
place_buffers_lem :
    (fuel mb temp : ℕ)
    → temp ≤ fuel
    → temp % block_size ≡ 0
    → (temp ≤ 0xA0000) ⊎ (2 ^ 20 < temp)
    → Lays fuel mb temp
place_buffers_lem zero mb temp le al out = place_buffers-stop zero mb temp (ground arith)
place_buffers_lem (suc fuel) mb temp le al out =
    elim (Bool-cases (leb (mb + header_size) (temp - block_size))) [
      | inr h ↦ place_buffers-stop (suc fuel) mb temp h
      | inl h ↦ place_buffers-go fuel mb temp h (ground arith) (ground arith) (
          place_buffers_lem fuel (mb + header_size) (next_temp temp) (ground arith) (ground arith)
            (ground arith))
    ]

-- For an end of the buffer memory at a multiple of the block size outside the range from 640 KB to
-- 1 MB, as much fuel as the end has bytes is enough for `mem_buffer_init`, and the data blocks lie
-- below the end, above their headers, one below the other, and outside that range.
pub mem_buffer_init-Placed :
    (buffer_memory_start buffer_memory_end : ℕ)
    → buffer_memory_end % block_size ≡ 0
    → (buffer_memory_end ≤ 0xA0000) ⊎ (2 ^ 20 ≤ buffer_memory_end)
    → (bs : List ℕ) × (mem_buffer_init (suc buffer_memory_end) buffer_memory_start buffer_memory_end
        ≡ some bs)
      × Placed buffer_memory_start buffer_memory_end bs
unfolding mem_buffer_init
mem_buffer_init-Placed start end al out = elim (Bool-cases (end == 2 ^ 20)) [
  | inl h ↦
      let (bs, e, p) =
        place_buffers_lem end start 0xA0000 (ground arith) (omega arith) (inl (omega arith)) in
      (bs, rw h e, lower (ground arith) p)
  | inr h ↦
      let (bs, e, p) = place_buffers_lem end start end (omega arith) al (ground arith) in
      (bs, rw h e, p)
]
