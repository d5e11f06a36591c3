-- ===== src/Blk.antt =====
-- The request queues of kernel/blk/rw_blk.c and kernel/blk/blk.c with include/blk.h.
pub mod Order
pub mod Insert
pub mod Requests
pub mod Fuel
pub mod Reachable
pub mod Draining
mod Tests
use lychee_os.Base.{
  ℕ, zero, suc, ◌+◌, ◌-◌, ◌*◌, ◌/◌, ◌%◌, ◌^◌, Bool, true, false, Option, none, some, List, [], ◌∷◌,
  ◌&&◌, ◌||◌, not, ltb, leb, ◌==◌, if◌then◌else◌, u32_mod,
}
use lychee_os.Buffer.{MemBuffer, Buffers, put_buffer, unlock_mem_buffer, dev_eq, block_size}

abbrev pub read : ℕ
read = 0

abbrev pub write : ℕ
write = 1

abbrev pub nr_request : ℕ
nr_request = 32

abbrev pub sector_size : ℕ
sector_size = 512

-- A request; `dev` is `none` for -1, a free entry. `mbuffer` and `next` are indices of a buffer
-- and of another request. `buffer` is the data of `mbuffer` from `offset` on. `proc_wait` is NULL
-- in every request.
pub record Request : Type 0 where
  pub dev : Option ℕ
  pub cmd : ℕ
  pub nr_errors : ℕ
  pub start_sector : ℕ
  pub nr_sectors : ℕ
  pub offset : ℕ
  pub mbuffer : Option ℕ
  pub next : Option ℕ

abbrev pub Table : Type 0
Table = ℕ → Request

abbrev pub put_request : Table → ℕ → Request → Table
put_request t i r j = if j == i then r else t j

unfoldable pub dev_lt : Option ℕ → Option ℕ → Bool
dev_lt none none = false
dev_lt none (some b) = true
dev_lt (some a) none = false
dev_lt (some a) (some b) = ltb a b

unfoldable pub in_order : Request → Request → Bool
unfolding dev_lt dev_eq
in_order sr1 sr2 =
    if ltb sr1.cmd sr2.cmd
    then true
    else if (sr1.cmd == sr2.cmd) && dev_lt sr1.dev sr2.dev
    then true
    else if (sr1.cmd == sr2.cmd)
        && (dev_eq sr1.dev sr2.dev && ltb sr1.start_sector sr2.start_sector)
    then true
    else false

-- The test of the loop of `add_request`.
unfoldable pub fits : Request → Request → Request → Bool
fits tmp request next =
    (in_order tmp request && in_order request next)
    || (in_order request tmp && in_order next request)

-- The loop of `add_request`, on fuel: the entry behind which the request goes.
unfoldable pub find_place : ℕ → Table → ℕ → Request → Option ℕ
find_place zero t tmp request = none
find_place (suc fuel) t tmp request = elim ((t tmp).next) [
  | none ↦ some tmp
  | some n ↦ if fits (t tmp) request (t n) then some tmp else find_place fuel t n request
]

-- `request->next = tmp->next; tmp->next = request;`
unfoldable pub link : Table → ℕ → ℕ → Table
link t tmp r =
    let t' = put_request t r (record (t r) { next = (t tmp).next }) in
    put_request t' tmp (record (t' tmp) { next = some r })

-- The block layer: the requests, `current_request` of each major device, and the buffers.
pub record Io : Type 0 where
  pub request : Table
  pub current : ℕ → Option ℕ
  pub buffers : Buffers

abbrev pub set_current : Io → ℕ → Option ℕ → Io
set_current io major c = record io { current = λ m. if m == major then c else io.current m }

-- `none` is a loop that runs out of fuel. `do_request_fn` starts the device.
unfoldable pub add_request : (Io → Io) → ℕ → ℕ → ℕ → Io → Option Io
unfolding find_place link
add_request do_request_fn fuel major r io = elim (io.current major) [
  | none ↦ some (do_request_fn (set_current io major (some r)))
  | some tmp ↦ elim (find_place fuel io.request tmp (io.request r)) [
    | none ↦ none
    | some place ↦ some (record io { request = link io.request place r })
  ]
]

-- `none` is the access through a NULL `current_request`.
unfoldable pub end_request : ℕ → Bool → Io → Option Io
end_request dev uptodate io = elim (io.current dev) [
  | none ↦ none
  | some c ↦
      let r = io.request c in
      let buffers : Buffers = elim (r.mbuffer) [
        | none ↦ io.buffers
        | some b ↦
            put_buffer io.buffers b
              (unlock_mem_buffer (record (io.buffers b) { uptodate = uptodate }))
      ] in
      some (record {
        request = put_request io.request c (record r { dev = none });
        current = λ m. if m == dev then r.next else io.current m;
        buffers = buffers;
      })
]

-- The search of `rw_blk` for a free entry, among the `n` entries from `i` on.
unfoldable pub free_request : Table → ℕ → ℕ → Option ℕ
unfolding dev_eq
free_request t zero i = none
free_request t (suc n) i =
    let rest = free_request t n (i + 1) in if dev_eq (t i).dev none then some i else rest

unfoldable pub fill_request : Io → ℕ → ℕ → ℕ → Io
fill_request io rw b i =
    let m = io.buffers b in
    record io {
      request = put_request io.request i (record {
        dev = m.dev;
        cmd = rw;
        nr_errors = 0;
        start_sector = m.block * 2 ^ 2 % u32_mod;
        nr_sectors = block_size / sector_size;
        offset = 0;
        mbuffer = some b;
        next = none;
      });
    }

abbrev pub map_buffer : Io → ℕ → (MemBuffer → MemBuffer) → Io
map_buffer io b f = record io { buffers = put_buffer io.buffers b (f (io.buffers b)) }

-- `MAJOR(mbuffer->dev)`; -1 gives 0xFFFFFF.
abbrev pub major_of : Option ℕ → ℕ
major_of none = 2 ^ 24 - 1
major_of (some dev) = dev / 2 ^ 8

-- The first test of `rw_blk`.
abbrev pub no_device : (ℕ → Bool) → MemBuffer → Bool
no_device has_fn m = ltb 7 (major_of m.dev) || not (has_fn (major_of m.dev))

-- What a buffer needs no transfer for.
abbrev pub idle : ℕ → MemBuffer → Bool
idle rw m = ((rw == read) && m.uptodate) || ((rw == write) && not m.dirty)

-- The rest of the system enters as parameters: `others` is what happens while the process sleeps,
-- `has_fn` and `do_request_fn` are the entries of `blk_dev`.
module _ (others : Io → Io) (has_fn : ℕ → Bool) (do_request_fn : ℕ → Io → Io) where
  -- `while(mbuffer->locked) sleep_on(&mbuffer->proc_wait);` on fuel.
  unfoldable pub wait_unlocked : ℕ → ℕ → Io → Option Io
  wait_unlocked zero b io = none
  wait_unlocked (suc fuel) b io =
      let again = wait_unlocked fuel b (others io) in
      if (io.buffers b).locked then again else some io

  -- The loop of `rw_blk` that looks for a free request, on fuel.
  unfoldable pub wait_request : ℕ → Io → Option (ℕ × Io)
  unfolding free_request
  wait_request zero io = none
  wait_request (suc fuel) io =
      let again = wait_request fuel (others io) in
      elim (free_request io.request nr_request 0) [ none ↦ again | some i ↦ some (i, io) ]

  -- `rw_blk` behind its call of `lock_mem_buffer`.
  unfoldable pub rw_locked : ℕ → ℕ → ℕ → ℕ → Io → Option Io
  rw_locked fuel major rw b io =
      if idle rw (io.buffers b)
      then some (map_buffer io b unlock_mem_buffer)
      else elim (wait_request fuel io) [
        | none ↦ none
        | some (i, io') ↦ add_request (do_request_fn major) fuel major i (fill_request io' rw b i)
      ]

  abbrev pub lock_mem_buffer : ℕ → ℕ → Io → Option Io
  lock_mem_buffer fuel b io = elim (wait_unlocked fuel b io) [
    | none ↦ none
    | some io' ↦ some (map_buffer io' b (λ m. record m { locked = true }))
  ]

  unfoldable pub rw_blk : ℕ → ℕ → ℕ → Io → Option Io
  rw_blk fuel rw b io =
      let major = major_of (io.buffers b).dev in
      if no_device has_fn (io.buffers b) then some io else elim (lock_mem_buffer fuel b io) [
        | none ↦ none
        | some io' ↦ rw_locked fuel major rw b io'
      ]
