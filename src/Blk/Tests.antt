-- ===== src/Blk/Tests.antt =====
-- Requests at a disk with two entries in its queue.
use lychee_os.Base.{
  ℕ, ◌≡◌, refl, Bool, true, false, Option, none, some, ◌||◌, List, [], ◌∷◌, ◌++◌, ◌==◌,
  if◌then◌else◌, arith,
}
use lychee_os.Buffer.{Buffers}
use lychee_os.Blk.{
  Request, Table, Io, add_request, end_request, rw_blk, free_request, fill_request, find_place,
  link, fits, in_order, dev_lt,
}
use lychee_os.Blk.Insert.{Chain, nil, cons, Follows, has, fields, add_request_lem}
use lychee_os.Buffer.{dev_eq, unlock_mem_buffer}
use lychee_os.Blk.Reachable.{IsQueue, Steps, stop, adds, ends, Steps-IsQueue}
use lychee_os.Blk.Draining.{drained}
use lychee_os.Blk.Requests.{rw_blk_queues}

abbrev reading : ℕ → ℕ → Option ℕ → Request
reading sector b next = record {
  dev = some 0x301;
  cmd = 0;
  nr_errors = 0;
  start_sector = sector;
  nr_sectors = 2;
  offset = 0;
  mbuffer = some b;
  next = next;
}

abbrev free_entry : Request
free_entry = record (reading 0 0 none) { dev = none; mbuffer = none }

-- Sectors 8 and 40 wait in entries 0 and 1.
abbrev table : Table
table i = if i == 0 then reading 8 0 (some 1) else if i == 1 then reading 40 1 none else free_entry

abbrev buffers : Buffers
buffers b = record {
  data_block = [];
  block = 5;
  dev = some 0x301;
  uptodate = false;
  dirty = false;
  count = 1;
  locked = b == 0;
  proc_wait = none;
}

abbrev io : Io
io = record { request = table; current = λ m. if m == 3 then some 0 else none; buffers = buffers }

queue : Chain table (some 0) (0 ∷ 1 ∷ [])
queue = cons refl refl (cons refl refl nil)

abbrev io_new : Io
io_new = record io { request = λ i. if i == 2 then reading 20 2 none else table i }

add_request_lem_example :
    (io' : Io) × (ys : List ℕ) × (y : ℕ) × (zs : List ℕ) × (add_request (λ s. s) 4 3 2 io_new
      ≡ some io')
    × (0 ∷ 1 ∷ [] ≡ ys ++ (y ∷ zs))
    × Chain io'.request (some 0) (ys ++ (y ∷ 2 ∷ zs))
    × (io'.current 3 ≡ some 0)
    × Follows io_new.request y 2 zs
    × ((i : ℕ) → fields (io'.request i) ≡ fields (io_new.request i))
    × (io'.buffers ≡ buffers)
add_request_lem_example =
    add_request_lem (λ s. s) 4 3 2 0 (1 ∷ []) io_new (cons refl refl (cons refl refl nil)) refl
      (omega arith)

abbrev has_hd : ℕ → Bool
has_hd m = m == 3

rw_blk_queues_example :
    (io' : Io) × (ys : List ℕ) × (y : ℕ) × (zs : List ℕ) × (rw_blk
        (λ s. s)
        has_hd
        (λ m s. s)
        4
        0
        2
        io
      ≡ some io')
    × (0 ∷ 1 ∷ [] ≡ ys ++ (y ∷ zs))
    × Chain io'.request (some 0) (ys ++ (y ∷ 2 ∷ zs))
    × ((io'.buffers 2).locked ≡ true)
    × (fields (io'.request 2) ≡ reading 20 2 none)
unfolding free_request
rw_blk_queues_example =
    rw_blk_queues (λ s. s) has_hd (λ m s. s) 3 0 2 2 0 (1 ∷ []) io refl refl refl refl queue
      (ground arith) (omega arith)

abbrev or_else : Option Io → Io
or_else none = io
or_else (some io') = io'

abbrev io_added : Io
io_added = or_else (add_request (λ s. s) 4 3 2 (fill_request io 0 2 2))

abbrev io_ended : Io
io_ended = or_else (end_request 3 true io_added)

io-IsQueue : IsQueue 3 io (0 ∷ 1 ∷ [])
io-IsQueue = record {
  chain = queue;
  busy = λ i h. ground (arith, h);
  buffered = λ i h. ground (arith, h);
}

-- A request is added behind the two, and the first ends.
steps : Steps 3 io (0 ∷ []) io_ended
unfolding add_request find_place link fits in_order dev_lt dev_eq fill_request end_request
    unlock_mem_buffer
steps = adds 4 0 2 2 refl (λ e. cc) refl (ends true refl refl stop)

Steps-IsQueue_example :
    (ys : List ℕ) × IsQueue 3 io_ended ys
    × ((i : ℕ) → has i (0 ∷ 1 ∷ []) ≡ true → (has i (0 ∷ []) || has i ys) ≡ true)
Steps-IsQueue_example = Steps-IsQueue 3 (0 ∷ 1 ∷ []) (0 ∷ []) io io_ended io-IsQueue steps

drained_example :
    (io' : Io) × Steps 3 io (0 ∷ 1 ∷ []) io'
    × (io'.current 3 ≡ none)
    × ((i : ℕ) → (io'.request i).dev ≡ (if has i (0 ∷ 1 ∷ []) then none else (table i).dev))
    × ((i b : ℕ)
        → has i (0 ∷ 1 ∷ []) ≡ true
        → (table i).mbuffer ≡ some b
        → (io'.buffers b).locked ≡ false)
    × ((b : ℕ) → (buffers b).locked ≡ false → (io'.buffers b).locked ≡ false)
drained_example = drained 3 true (0 ∷ 1 ∷ []) io io-IsQueue
