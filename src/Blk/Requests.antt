-- ===== src/Blk/Requests.antt =====
-- The life of a request: a free entry is taken, queued and given back.
use lychee_os.Base.{
  ℕ, zero, suc, ◌+◌, ◌*◌, ◌%◌, ◌^◌, ◌≤◌, ◌<◌, ◌≡◌, refl, ◌≢◌, ap, ◌∙◌, Bool, true, false, Option,
  none, some, List, [], ◌∷◌, ◌++◌, length, ◌==◌, if◌then◌else◌, arith,
}
use mathlib.Core.Path.{fun_ext}
use lychee_os.Buffer.{Buffers, put_buffer, unlock_mem_buffer, dev_eq}
use lychee_os.Blk.{
  Table, put_request, Io, end_request, free_request, fill_request, nr_request, map_buffer, major_of,
  no_device, idle, add_request, rw_locked, rw_blk, wait_unlocked, wait_request,
}
use lychee_os.Blk.Insert.{Chain, has, frame, uncons, fields, add_request_lem}

-- The state that `end_request` leaves, when request `z` of buffer `b` is in progress.
abbrev pub ended : ℕ → ℕ → ℕ → Bool → Io → Io
ended dev z b uptodate io = record {
  request = put_request io.request z (record (io.request z) { dev = none });
  current = λ m. if m == dev then (io.request z).next else io.current m;
  buffers =
      put_buffer io.buffers b (unlock_mem_buffer (record (io.buffers b) { uptodate = uptodate }));
}

pub end_request_found :
    (dev z b : ℕ) (uptodate : Bool) (io : Io)
    → io.current dev ≡ some z
    → (io.request z).mbuffer ≡ some b
    → end_request dev uptodate io ≡ some (ended dev z b uptodate io)
unfolding end_request
end_request_found dev z b uptodate io cur m = rw (cur, end_request, m)

-- When the request in progress ends, its entry is free again, the next request of the queue is in
-- progress, and the buffer is unlocked with the result of the transfer; no other entry or buffer
-- changes.
pub end_request_lem :
    (dev z b : ℕ) (xs : List ℕ) (uptodate : Bool) (io : Io)
    → Chain io.request (io.current dev) (z ∷ xs)
    → (io.request z).mbuffer ≡ some b
    → (io' : Io) × (end_request dev uptodate io ≡ some io')
      × Chain io'.request (io'.current dev) xs
      × ((io'.request z).dev ≡ none)
      × ((io'.buffers b).uptodate ≡ uptodate)
      × ((io'.buffers b).locked ≡ false)
      × ((i : ℕ) → i ≢ z → io'.request i ≡ io.request i)
      × ((c : ℕ) → c ≢ b → io'.buffers c ≡ io.buffers c)
unfolding unlock_mem_buffer
end_request_lem dev z b xs uptodate io chain m =
    let (cur, out, c) = uncons chain in
    let io' = ended dev z b uptodate io in
    let at_dev : io'.current dev ≡ (io.request z).next = ground arith in
    (
      io',
      end_request_found dev z b uptodate io cur m,
      rw at_dev (frame io'.request c (λ i h. ground arith)),
      ground arith,
      ground arith,
      ground arith,
      λ i ne. ground arith,
      λ d ne. ground arith,
    )

free_request-some :
    (t : Table) (n i k : ℕ)
    → free_request t n i ≡ some k
    → (i ≤ k) × (k < i + n) × ((t k).dev ≡ none)
unfolding free_request dev_eq
free_request-some t zero i k h = cc
free_request-some t (suc n) i k h = ground (arith, free_request-some t n (i + 1) k)

abbrev pub AllBusy : Table → List ℕ → Type 0
AllBusy t [] = Unit
AllBusy t (x ∷ xs) = ((t x).dev ≢ none) × AllBusy t xs

pub has-free :
    (t : Table) (i : ℕ) (xs : List ℕ) → (t i).dev ≡ none → AllBusy t xs → has i xs ≡ false
has-free t i [] e h = refl
has-free t i (x ∷ xs) e h = ground (arith, h.0, has-free t i xs e h.1)

pub chain-fill_request :
    (io : Io) (cmd b i : ℕ) {o : Option ℕ} {xs : List ℕ}
    → Chain io.request o xs
    → has i xs ≡ false
    → Chain (fill_request io cmd b i).request o xs
unfolding fill_request
chain-fill_request io cmd b i c out =
    frame (fill_request io cmd b i).request c (λ j h. ground arith)

abbrev pub locked_at : Io → ℕ → Io
locked_at io b = map_buffer io b (λ m. record m { locked = true })

-- What `rw_blk` does with an unlocked buffer when an entry is free, on a device with a queue.
module _ (others : Io → Io) (has_fn : ℕ → Bool) (do_request_fn : ℕ → Io → Io) where
  pub rw_blk_unlocked :
      (fuel cmd b : ℕ) (io : Io)
      → no_device has_fn (io.buffers b) ≡ false
      → (io.buffers b).locked ≡ false
      → rw_blk others has_fn do_request_fn (suc fuel) cmd b io
        ≡ rw_locked others has_fn do_request_fn
            (suc fuel)
            (major_of (io.buffers b).dev)
            cmd
            b
            (locked_at io b)
  unfolding rw_blk wait_unlocked
  rw_blk_unlocked fuel cmd b io ok free = rw (ok, free)

  pub rw_locked_queues :
      (fuel cmd b major i : ℕ) (io : Io)
      → idle cmd (io.buffers b) ≡ false
      → free_request io.request nr_request 0 ≡ some i
      → rw_locked others has_fn do_request_fn (suc fuel) major cmd b io
        ≡ add_request (do_request_fn major) (suc fuel) major i (fill_request io cmd b i)
  unfolding rw_locked wait_request
  rw_locked_queues fuel cmd b major i io work free = rw (work, free, wait_request)

  rw_locked_rests :
      (fuel cmd b major : ℕ) (io : Io)
      → idle cmd (io.buffers b) ≡ true
      → rw_locked others has_fn do_request_fn (suc fuel) major cmd b io
        ≡ some (map_buffer io b unlock_mem_buffer)
  unfolding rw_locked
  rw_locked_rests fuel cmd b major io rest = rw rest

  -- A transfer that is needed, of an unlocked buffer, on a device with a queue and with an entry
  -- free: the buffer is locked, and a request for its two sectors joins the queue behind some
  -- request of it.
  pub rw_blk_queues :
      (fuel cmd b i z : ℕ) (xs : List ℕ) (io : Io)
      → let m = io.buffers b in
        let major = major_of m.dev in
        no_device has_fn m ≡ false
        → m.locked ≡ false
        → idle cmd m ≡ false
        → free_request io.request nr_request 0 ≡ some i
        → Chain io.request (io.current major) (z ∷ xs)
        → AllBusy io.request (z ∷ xs)
        → length xs < suc fuel
        → (io' : Io) × (ys : List ℕ) × (y : ℕ) × (zs : List ℕ) × (rw_blk others has_fn do_request_fn
              (suc fuel)
              cmd
              b
              io
            ≡ some io')
          × (z ∷ xs ≡ ys ++ (y ∷ zs))
          × Chain io'.request (some z) (ys ++ (y ∷ i ∷ zs))
          × ((io'.buffers b).locked ≡ true)
          × (fields (io'.request i) ≡ record {
            dev = m.dev;
            cmd = cmd;
            nr_errors = 0;
            start_sector = m.block * 4 % 2 ^ 32;
            nr_sectors = 2;
            offset = 0;
            mbuffer = some b;
            next = none;
          })
  unfolding fill_request
  rw_blk_queues fuel cmd b i z xs io ok free work entry chain busy enough =
      let major = major_of (io.buffers b).dev in
      let io₁ = fill_request (locked_at io b) cmd b i in
      let out =
        has-free io.request i (z ∷ xs) (free_request-some io.request nr_request 0 i entry).2 busy in
      let (io', ys, y, zs, run, whole, linked, cur, next, same, bufs) =
        add_request_lem (do_request_fn major) (suc fuel) major i z xs io₁
          (chain-fill_request (locked_at io b) cmd b i chain out) out enough in
      (
        io',
        ys,
        y,
        zs,
        rw_blk_unlocked fuel cmd b io ok free
            ∙ rw_locked_queues fuel cmd b major i (locked_at io b) (ground (arith, work)) entry
            ∙ run,
        whole,
        linked,
        ap (λ (bs : Buffers). (bs b).locked) bufs ∙ ground arith,
        same i ∙ ground arith,
      )

  -- A buffer that needs no transfer is only unlocked again, and one of an unknown device is left
  -- alone; no request is queued.
  pub rw_blk_rests :
      (fuel cmd b : ℕ) (io : Io)
      → (io.buffers b).locked ≡ false
      → idle cmd (io.buffers b) ≡ true
      → let out = rw_blk others has_fn do_request_fn (suc fuel) cmd b io in
        (no_device has_fn (io.buffers b) ≡ false
          → out ≡ some (map_buffer io b (λ m. record m { locked = false; proc_wait = none })))
        × (no_device has_fn (io.buffers b) ≡ true → out ≡ some io)
  rw_blk_rests fuel cmd b io free rest = (
    λ ok.
        rw_blk_unlocked fuel cmd b io ok free
        ∙ rw_locked_rests fuel cmd b (major_of (io.buffers b).dev) (locked_at io b)
            (ground (arith, rest))
        ∙ unfold unlock_mem_buffer in
          ap (λ (bs : Buffers). some (record io { buffers = bs })) (fun_ext λ j. ground arith),
    λ gone. unfold rw_blk in rw gone,
  )
