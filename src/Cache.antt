-- ===== src/Cache.antt =====
-- The buffer cache of kernel/buffer.c, on the buffers and the block requests.
pub mod Lookup
pub mod Reading
pub mod Unique
pub mod Fetching
pub mod Dirty
pub mod Layout
mod Tests
use lychee_os.Base.{
  ℕ, zero, suc, ◌+◌, ◌-◌, ◌*◌, ◌%◌, ◌^◌, Bool, true, false, Option, none, some, List, [], ◌∷◌, ◌&&◌,
  ◌||◌, not, leb, ◌==◌, if◌then◌else◌,
}
use lychee_os.Buffer.{MemBuffer, Buffers, put_buffer, dev_eq, block_size}
use lychee_os.Blk.{Io, map_buffer, write, read, wait_unlocked, rw_blk}

-- The end of a function that may halt the machine, or whose loop runs out of fuel.
pub data Outcome {ℓ} (A : Type ℓ) : Type ℓ where
  done : A → Outcome A
  halted : Outcome A
  spun : Outcome A

abbrev pub holds : ℕ → ℕ → MemBuffer → Bool
holds dev block m = dev_eq m.dev (some dev) && (m.block == block)

-- The first of the `n` buffers from `i` on that passes a test, as the loops over `mem_buffers` look
-- for it.
unfoldable pub first_buffer : (MemBuffer → Bool) → Buffers → ℕ → ℕ → Option ℕ
first_buffer test bs zero i = none
first_buffer test bs (suc n) i =
    let rest = first_buffer test bs n (i + 1) in if test (bs i) then some i else rest

abbrev pub unused : MemBuffer → Bool
unused m = m.count == 0

abbrev pub take_one : MemBuffer → MemBuffer
take_one m = record m { count = (m.count + 1) % 256 }

abbrev pub fresh : ℕ → ℕ → MemBuffer → MemBuffer
fresh dev block m = record m {
  count = 1;
  dirty = false;
  uptodate = false;
  dev = some dev;
  block = block;
}

-- `mbuffer->count --; wake_up(&mbuffer->proc_wait);`, where `wake_up` clears the pointer.
abbrev pub give_back : MemBuffer → MemBuffer
give_back m = record m { count = m.count - 1; proc_wait = none }

-- Nothing if none of the `nr_buffers` buffers holds the block.
unfoldable pub find_buffer : ℕ → ℕ → ℕ → Io → Option (ℕ × Io)
find_buffer nr_buffers dev block io =
    elim (first_buffer (holds dev block) io.buffers nr_buffers 0) [
      | none ↦ none
      | some i ↦ some (i, map_buffer io i take_one)
    ]

-- `nr_buffers` is set once, by `mem_buffer_init`; the rest of the system enters as for `rw_blk`.
-- `ll_rw` is declared nowhere in the repository.
module _ (others : Io → Io) (has_fn : ℕ → Bool) (do_request_fn : ℕ → Io → Io)
    (ll_rw : ℕ → ℕ → Io → Io) (nr_buffers : ℕ) where
  -- `while(mem_buffers[i].dirty) rw_blk(WRITE,&mem_buffers[i]);` on fuel.
  unfoldable pub write_dirty : ℕ → ℕ → Io → Option Io
  write_dirty zero i io = none
  write_dirty (suc fuel) i io =
      let written : Option Io = elim (rw_blk others has_fn do_request_fn fuel write i io) [
        | none ↦ none
        | some io' ↦ write_dirty fuel i io'
      ] in
      if (io.buffers i).dirty then written else some io

  -- The wait for a buffer that the loop of `get_buffer` found: `none` is no fuel, `some (false, _)`
  -- is `continue`.
  unfoldable pub claim : ℕ → ℕ → Io → Option (Bool × Io)
  claim fuel i io = elim (wait_unlocked others has_fn do_request_fn fuel i io) [
    | none ↦ none
    | some io1 ↦
        let cleaned : Option (Bool × Io) = elim (write_dirty fuel i io1) [
          | none ↦ none
          | some io2 ↦ elim (wait_unlocked others has_fn do_request_fn fuel i io2) [
            | none ↦ none
            | some io3 ↦ some ((io3.buffers i).count == 0, io3)
          ]
        ] in
        if (io1.buffers i).count == 0 then cleaned else some (false, io1)
  ]

  -- The loop of `get_buffer`, on fuel.
  unfoldable pub claim_buffer : ℕ → Io → Option (ℕ × Io)
  claim_buffer zero io = none
  claim_buffer (suc fuel) io = elim (first_buffer unused io.buffers nr_buffers 0) [
    | none ↦ claim_buffer fuel (others io)
    | some i ↦ elim (claim fuel i io) [
      | none ↦ none
      | some (true, io') ↦ some (i, io')
      | some (false, io') ↦ claim_buffer fuel io'
    ]
  ]

  unfoldable pub get_buffer : ℕ → ℕ → ℕ → Io → Option (ℕ × Io)
  get_buffer fuel dev block io = elim (find_buffer nr_buffers dev block io) [
    | some hit ↦ some hit
    | none ↦ elim (claim_buffer fuel io) [
      | none ↦ none
      | some (i, io') ↦ some (i, map_buffer io' i (fresh dev block))
    ]
  ]

  unfoldable pub brelease : ℕ → Option ℕ → Io → Outcome Io
  brelease fuel none io = done io
  brelease fuel (some i) io = elim (wait_unlocked others has_fn do_request_fn fuel i io) [
    | none ↦ spun
    | some io' ↦ if (io'.buffers i).count == 0 then halted else done (map_buffer io' i give_back)
  ]

  -- `done (none, _)` is the result NULL.
  unfoldable pub bread : ℕ → ℕ → ℕ → Io → Outcome (Option ℕ × Io)
  bread fuel dev block io = elim (get_buffer fuel dev block io) [
    | none ↦ spun
    | some (i, io1) ↦
        let fetched : Outcome (Option ℕ × Io) =
          elim (rw_blk others has_fn do_request_fn fuel read i io1) [
            | none ↦ spun
            | some io2 ↦ elim (wait_unlocked others has_fn do_request_fn fuel i io2) [
              | none ↦ spun
              | some io3 ↦
                  let released : Outcome (Option ℕ × Io) = elim (brelease fuel (some i) io3) [
                    | done io4 ↦ done (none, io4)
                    | halted ↦ halted
                    | spun ↦ spun
                  ] in
                  if (io3.buffers i).uptodate then done (some i, io3) else released
            ]
          ] in
        if (io1.buffers i).uptodate then done (some i, io1) else fetched
  ]

  -- A pass of a loop over the buffers of a device: the wait, and what follows it if the buffer is
  -- still one of the device.
  unfoldable pub visit : (ℕ → Io → Io) → ℕ → ℕ → ℕ → Io → Option Io
  visit act fuel dev i io =
      let waited : Option Io = elim (wait_unlocked others has_fn do_request_fn fuel i io) [
        | none ↦ none
        | some io' ↦ some (if dev_eq (io'.buffers i).dev (some dev) then act i io' else io')
      ] in
      if dev_eq (io.buffers i).dev (some dev) then waited else some io

  unfoldable pub visit_all : (ℕ → Io → Io) → ℕ → ℕ → ℕ → ℕ → Io → Option Io
  visit_all act fuel dev zero i io = some io
  visit_all act fuel dev (suc n) i io = elim (visit act fuel dev i io) [
    | none ↦ none
    | some io' ↦ visit_all act fuel dev n (i + 1) io'
  ]

  unfoldable pub sync_dev : ℕ → ℕ → Io → Option Io
  sync_dev fuel dev io =
      visit_all (λ i io'. if (io'.buffers i).dirty then ll_rw write i io' else io') fuel dev
        nr_buffers 0 io

  unfoldable pub invalid_dev_buffers : ℕ → ℕ → Io → Option Io
  invalid_dev_buffers fuel dev io =
      visit_all (λ i io'. map_buffer io' i (λ m. record m { dirty = false; uptodate = false })) fuel
        dev nr_buffers 0 io

abbrev pub header_size : ℕ
header_size = 28

-- The loop of `mem_buffer_init`, on fuel: the addresses of the data blocks, in the order of the
-- headers. `mb` and `temp` are addresses; the headers go up from `buffer_memory_start`.
unfoldable pub place_buffers : ℕ → ℕ → ℕ → Option (List ℕ)
place_buffers zero mb temp = none
place_buffers (suc fuel) mb temp =
    let next = if temp - block_size == 2 ^ 20 then 0xA0000 else temp - block_size in
    let placed : Option (List ℕ) = elim (place_buffers fuel (mb + header_size) next) [
      | none ↦ none
      | some blocks ↦ some ((temp - block_size) ∷ blocks)
    ] in
    if leb (mb + header_size) (temp - block_size) then placed else some []

unfoldable pub mem_buffer_init : ℕ → ℕ → ℕ → Option (List ℕ)
mem_buffer_init fuel buffer_memory_start buffer_memory_end =
    place_buffers fuel buffer_memory_start
      (if buffer_memory_end == 2 ^ 20 then 640 * 1024 else buffer_memory_end)
