-- ===== src/Hd/Retries.antt =====
-- Errors of the disk, and the requests that the driver refuses.
use lychee_os.Base.{
  ℕ, ◌+◌, ◌-◌, ◌*◌, ◌/◌, ◌%◌, ◌^◌, ◌<◌, ◌≡◌, refl, ◌∙◌, Bool, true, false, Option, none, some, [],
  ◌∷◌, ◌||◌, ltb, leb, ◌==◌, if◌then◌else◌, Bool-cases, inl, inr, add32, u32_mod, arith,
}
use lychee_os.Blk.{Request, Table}
use lychee_os.Blk.Insert.{Chain, nil, cons, uncons}
use lychee_os.Blk.Requests.{end_request_lem}
use lychee_os.Hd.{
  Hd, Ended, returned, null_request, max_errors, major_hd, is_hd_error, on_current, put_current,
  end_hd,
}
use lychee_os.Hd.Requests.{failed_rw, do_hd_request, on_read, start_request}

is_hd_error-true : (s : Hd) → (is_hd_error s).0 ≡ true
unfolding is_hd_error
is_hd_error-true s = ground arith

is_hd_error-io : (s : Hd) → (is_hd_error s).1.io ≡ s.io
unfolding is_hd_error
is_hd_error-io s = ground arith

on_current-some :
    (f : ℕ → Request → Hd → Ended) (s : Hd) (c : ℕ)
    → s.io.current major_hd ≡ some c
    → on_current f s ≡ f c (s.io.request c) s
unfolding on_current
on_current-some f s c e = rw (e, on_current) refl

on_current-none :
    (f : ℕ → Request → Hd → Ended) (s : Hd)
    → s.io.current major_hd ≡ none
    → on_current f s ≡ null_request
unfolding on_current
on_current-none f s e = rw (e, on_current) refl

-- A request with one error more.
abbrev pub failed_once : Request → Request
failed_once r = record r { nr_errors = r.nr_errors + 1 }

no_chain : {t : Table} {o : Option ℕ} → Chain t o [] → o ≡ none
no_chain nil = refl

-- Ending the only request of the queue leaves no current request.
end_hd-last :
    (uptodate : Bool) (s : Hd) (z b : ℕ)
    → Chain s.io.request (s.io.current major_hd) (z ∷ [])
    → (s.io.request z).mbuffer ≡ some b
    → (s' : Hd) × (end_hd uptodate s ≡ returned s')
      × (s'.io.current major_hd ≡ none)
      × (s'.hd ≡ s.hd)
unfolding end_hd
end_hd-last uptodate s z b chain m =
    let (io', e, rest, _, _, _, _, _) = end_request_lem major_hd z b [] uptodate s.io chain m in
    (record s { io = io' }, rw (e, end_hd) refl, no_chain rest, refl)

failed_rw-few :
    (s : Hd) (z : ℕ)
    → s.io.current major_hd ≡ some z
    → leb max_errors ((s.io.request z).nr_errors + 1) ≡ false
    → failed_rw s ≡ returned (put_current z (failed_once (s.io.request z)) s)
unfolding failed_rw
failed_rw-few s z cur few = on_current-some _ s z cur ∙ rw few refl

failed_rw-last :
    (s : Hd) (z b : ℕ)
    → Chain s.io.request (s.io.current major_hd) (z ∷ [])
    → (s.io.request z).mbuffer ≡ some b
    → leb max_errors ((s.io.request z).nr_errors + 1) ≡ true
    → (s' : Hd) × (failed_rw s ≡ returned s') × (s'.io.current major_hd ≡ none)
unfolding failed_rw
failed_rw-last s z b chain m many =
    let (cur, out, c) = uncons chain in
    let s1 = put_current z (failed_once (s.io.request z)) s in
    let last : (s1.io.request z).next ≡ none = ground (arith, no_chain c) in
    let alone : Chain s1.io.request (s1.io.current major_hd) (z ∷ []) =
      rw cur (cons last refl nil) in
    let (s2, ended, empty, _) = end_hd-last false s1 z b alone (ground (arith, m)) in
    (s2, on_current-some _ s z cur ∙ rw many ended, empty)

is_hd_error-accesses : (s : Hd) → (is_hd_error s).1.accesses ≡ s.accesses
unfolding is_hd_error
is_hd_error-accesses s = ground arith

do_hd_request-none : (s : Hd) → s.io.current major_hd ≡ none → do_hd_request s ≡ null_request
unfolding do_hd_request
do_hd_request-none s e = on_current-none _ s e

start_request-none :
    (dev block : ℕ) (s : Hd)
    → s.io.current major_hd ≡ none
    → 0 < (s.hd (dev / 5)).sectors_per_track
    → 0 < (s.hd (dev / 5)).head
    → start_request dev block s ≡ null_request
unfolding start_request
start_request-none dev block s e sectors heads =
    let divides : ((s.hd (dev / 5)).sectors_per_track == 0) || ((s.hd (dev / 5)).head == 0)
        ≡ false =
      ground arith in
    rw divides (on_current-none _ s e)

-- Whatever the status register says, a read interrupt for the only request of the queue takes no
-- data: it counts an error of the request and starts it again, or, at the seventh error, goes
-- through the NULL current request that the end of the request leaves.
pub on_read_lem :
    (s : Hd) (z b : ℕ)
    → Chain s.io.request (s.io.current major_hd) (z ∷ [])
    → (s.io.request z).mbuffer ≡ some b
    → (s' : Hd) × (s'.io ≡ s.io)
      × (s'.accesses ≡ s.accesses)
      × (on_read s ≡ (
          if leb max_errors ((s.io.request z).nr_errors + 1)
          then null_request
          else do_hd_request (put_current z (failed_once (s.io.request z)) s')))
unfolding on_read
on_read_lem s z b chain m =
    let s1 = (is_hd_error s).1 in
    let same : s1.io ≡ s.io = is_hd_error-io s in
    let chain1 : Chain s1.io.request (s1.io.current major_hd) (z ∷ []) = rw same chain in
    let (cur, out, c) = uncons chain1 in
    (
      s1,
      same,
      is_hd_error-accesses s,
      elim (Bool-cases (leb max_errors ((s.io.request z).nr_errors + 1))) [
        | inl many ↦
            let (s2, e, empty) = failed_rw-last s1 z b chain1 (rw same m) (rw same many) in
            rw many (rw (is_hd_error-true s, on_read) (rw e (do_hd_request-none s2 empty)))
        | inr few ↦
            let e = failed_rw-few s1 z cur (rw same few) in
            rw few (rw (is_hd_error-true s, on_read) (rw e (rw same refl)))
      ],
    )

-- A request of two sectors, as `rw_blk` makes them, that does not start at the first sector of
-- its partition and is the only one of its queue, is not served: on a disk with heads and
-- sectors, `do_hd_request` goes through the NULL current request.
pub do_hd_request-refuses :
    (s : Hd) (z b dev : ℕ)
    → Chain s.io.request (s.io.current major_hd) (z ∷ [])
    → (s.io.request z).mbuffer ≡ some b
    → (s.io.request z).dev ≡ some dev
    → (s.io.request z).nr_sectors ≡ 2
    → 0 < (s.io.request z).start_sector
    → (s.io.request z).start_sector < u32_mod - 2
    → 0 < (s.hd (dev % 2 ^ 8 / 5)).sectors_per_track
    → 0 < (s.hd (dev % 2 ^ 8 / 5)).head
    → do_hd_request s ≡ null_request
unfolding do_hd_request
do_hd_request-refuses s z b dev chain m d two pos small sectors heads =
    let (cur, out, c) = uncons chain in
    let (s2, ended, empty, same) = end_hd-last false s z b chain m in
    let refused : ltb (5 * s.nr_hd) (dev % 2 ^ 8)
          || ltb (s.io.request z).nr_sectors (add32 (s.io.request z).start_sector 2)
        ≡ true =
      ground arith in
    on_current-some _ s z cur
    ∙ rw d (
        rw (refused, ended)
          (start_request-none (dev % 2 ^ 8) (s.io.request z).start_sector s2 empty (rw same sectors)
            (rw same heads)))
