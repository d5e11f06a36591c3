-- ===== src/Blk/Reachable.antt =====
-- The queue of a device through any sequence of requests and interrupts: kernel/blk/blk.c and
-- include/blk.h.
use lychee_os.Base.{
  ℕ, suc, ◌+◌, ◌≡◌, ◌≢◌, refl, sym, ap, ◌∙◌, Bool, true, false, inl, inr, Bool-cases, Option, none,
  some, Option-cases, List, [], ◌∷◌, ◌++◌, length, ◌||◌, ◌==◌, arith,
}
use mathlib.Core.Path.{subst}
use lychee_os.Blk.{Table, Io, set_current, fill_request, add_request, end_request}
use lychee_os.Blk.Fuel.{no_result, same_result, add_request_more}
use lychee_os.Blk.Insert.{Chain, nil, cons, has, uncons, add_request_lem, add_request_idle}
use lychee_os.Blk.Requests.{chain-fill_request, end_request_lem}

-- What happens to the queue of the device `major`: a free entry is filled for a buffer that has a device
-- and is added, or the request in progress ends. What the start of the device does are further steps.
-- `over` are the requests that end.
pub data Steps (major : ℕ) : Io → (over : List ℕ) → Io → Type 0 where
  stop : {io : Io} → Steps major io [] io
  adds :
      (fuel cmd b r : ℕ) {io io' io'' : Io} {over : List ℕ}
      → (io.request r).dev ≡ none
      → (io.buffers b).dev ≢ none
      → add_request (λ s. s) fuel major r (fill_request io cmd b r) ≡ some io'
      → Steps major io' over io''
      → Steps major io over io''
  ends :
      (uptodate : Bool) {z : ℕ} {io io' io'' : Io} {over : List ℕ}
      → io.current major ≡ some z
      → end_request major uptodate io ≡ some io'
      → Steps major io' over io''
      → Steps major io (z ∷ over) io''

-- The requests of the queue are distinct entries, all in use and all of a buffer.
pub record IsQueue (major : ℕ) (io : Io) (xs : List ℕ) : Type 0 where
  pub chain : Chain io.request (io.current major) xs
  pub busy : (i : ℕ) → has i xs ≡ true → (io.request i).dev ≢ none
  pub buffered : (i : ℕ) → has i xs ≡ true → (io.request i).mbuffer ≢ none

not_queued :
    (r : ℕ) (xs : List ℕ) (io : Io)
    → (io.request r).dev ≡ none
    → ((i : ℕ) → has i xs ≡ true → (io.request i).dev ≢ none)
    → has r xs ≡ false
not_queued r xs io free busy = elim (Bool-cases (has r xs)) [
  | inl h ↦ absurd (busy r h free)
  | inr h ↦ h
]

has-inserted :
    (i r y : ℕ) (ys zs : List ℕ) → has i (ys ++ (y ∷ r ∷ zs)) ≡ ((i == r) || has i (ys ++ (y ∷ zs)))
has-inserted i r y [] zs = ground arith
has-inserted i r y (x ∷ ys) zs = ground (arith, has-inserted i r y ys zs)

-- The entries in use and the new one, after it is filled.
filled_dev :
    (io : Io) (cmd b r i : ℕ) (xs : List ℕ)
    → (io.buffers b).dev ≢ none
    → ((j : ℕ) → has j xs ≡ true → (io.request j).dev ≢ none)
    → ((i == r) || has i xs) ≡ true
    → ((fill_request io cmd b r).request i).dev ≢ none
unfolding fill_request
filled_dev io cmd b r i xs known busy inside = ground (arith, busy i)

filled_mbuffer :
    (io : Io) (cmd b r i : ℕ) (xs : List ℕ)
    → ((j : ℕ) → has j xs ≡ true → (io.request j).mbuffer ≢ none)
    → ((i == r) || has i xs) ≡ true
    → ((fill_request io cmd b r).request i).mbuffer ≢ none
unfolding fill_request
filled_mbuffer io cmd b r i xs buffered inside = ground (arith, buffered i)

add_request-IsQueue :
    (fuel cmd b r major z : ℕ) (xs : List ℕ) (io io' : Io)
    → IsQueue major io (z ∷ xs)
    → (io.request r).dev ≡ none
    → (io.buffers b).dev ≢ none
    → add_request (λ s. s) fuel major r (fill_request io cmd b r) ≡ some io'
    → (ys : List ℕ) × IsQueue major io' ys × ((i : ℕ) → has i (z ∷ xs) ≡ true → has i ys ≡ true)
unfolding fill_request
add_request-IsQueue fuel cmd b r major z xs io io' q free known done =
    let new : has r (z ∷ xs) ≡ false = not_queued r (z ∷ xs) io free q.busy in
    let (io'', ys, y, zs, found, whole, linked, at, _, same, _) =
      add_request_lem (λ s. s) (fuel + suc (length xs)) major r z xs (fill_request io cmd b r)
        (chain-fill_request io cmd b r q.chain new) new (omega arith) in
    let e : io'' ≡ io' =
      same_result found
        (add_request_more fuel (suc (length xs)) major r (fill_request io cmd b r) io' done) in
    let inside : (i : ℕ) → has i (ys ++ (y ∷ r ∷ zs)) ≡ true → ((i == r) || has i (z ∷ xs)) ≡ true =
      λ i h. ap (λ l. (i == r) || has i l) whole ∙ sym (has-inserted i r y ys zs) ∙ h in
    (
      ys ++ (y ∷ r ∷ zs),
      subst (λ t. IsQueue major t (ys ++ (y ∷ r ∷ zs))) e
          (record {
            chain = rw at linked;
            busy = λ i h.
                subst (λ d. d ≢ none) (sym (ap (λ p. p.dev) (same i)))
                  (filled_dev io cmd b r i (z ∷ xs) known q.busy (inside i h));
            buffered = λ i h.
                subst (λ d. d ≢ none) (sym (ap (λ p. p.mbuffer) (same i)))
                  (filled_mbuffer io cmd b r i (z ∷ xs) q.buffered (inside i h));
          }),
      λ i h. has-inserted i r y ys zs ∙ ground (arith, sym whole, h),
    )

pub nothing : ¬ (false ≡ true)
nothing h = cc

get_current : (io : Io) (major : ℕ) (o : Option ℕ) → (set_current io major o).current major ≡ o
get_current io major o = ground arith

pub first_in : (z : ℕ) (xs : List ℕ) → has z (z ∷ xs) ≡ true
first_in z xs = ground arith

pub other_than : (i z : ℕ) (xs : List ℕ) → has z xs ≡ false → has i xs ≡ true → i ≢ z
other_than i z xs out h e = ground (arith, out, h, ap (λ j. has j xs) e)

first_request-IsQueue :
    (fuel cmd b r major : ℕ) (io io' : Io)
    → io.current major ≡ none
    → (io.buffers b).dev ≢ none
    → add_request (λ s. s) fuel major r (fill_request io cmd b r) ≡ some io'
    → IsQueue major io' (r ∷ [])
unfolding fill_request
first_request-IsQueue fuel cmd b r major io io' idle known done =
    let e : set_current (fill_request io cmd b r) major (some r) ≡ io' =
      same_result (add_request_idle (λ s. s) fuel major r (fill_request io cmd b r) idle) done in
    subst (λ t. IsQueue major t (r ∷ [])) e
      (record {
        chain =
            rw (get_current (fill_request io cmd b r) major (some r))
              (cons (ground arith) refl nil);
        busy = λ i h. filled_dev io cmd b r i [] known (λ j k. absurd (nothing k)) h;
        buffered = λ i h. filled_mbuffer io cmd b r i [] (λ j k. absurd (nothing k)) h;
      })

pub end_request-IsQueue :
    (major z : ℕ) (xs : List ℕ) (uptodate : Bool) (io io' : Io)
    → IsQueue major io (z ∷ xs)
    → end_request major uptodate io ≡ some io'
    → IsQueue major io' xs
end_request-IsQueue major z xs uptodate io io' q done =
    let (_, out, _) = uncons q.chain in
    elim (Option-cases ((io.request z).mbuffer)) [
      | inl none_there ↦ absurd (q.buffered z (first_in z xs) none_there)
      | inr (b, there) ↦
          let (io'', found, chain, _, _, _, same, _) =
            end_request_lem major z b xs uptodate io q.chain there in
          subst (λ t. IsQueue major t xs) (same_result found done)
            (record {
              chain = chain;
              busy = λ i h.
                  subst (λ p. p.dev ≢ none) (sym (same i (other_than i z xs out h)))
                    (q.busy i (ground (arith, h)));
              buffered = λ i h.
                  subst (λ p. p.mbuffer ≢ none) (sym (same i (other_than i z xs out h)))
                    (q.buffered i (ground (arith, h)));
            })
    ]

head-eq :
    {t : Table} {o : Option ℕ} {z : ℕ} {xs : List ℕ}
    → Chain t o xs
    → o ≡ some z
    → (ys : List ℕ) × (xs ≡ z ∷ ys)
head-eq nil e = absurd (no_result e)
head-eq (cons {i} {xs} _ _ _) e = (xs, ap (λ j. j ∷ xs) (same_result refl e))

pub at_end : {t : Table} {o : Option ℕ} → Chain t o [] → o ≡ none
at_end nil = refl

ended_or_kept :
    (z : ℕ) (ys over zs : List ℕ) (i : ℕ)
    → has i (z ∷ ys) ≡ true
    → (has i ys ≡ true → (has i over || has i zs) ≡ true)
    → (has i (z ∷ over) || has i zs) ≡ true
ended_or_kept z ys over zs i h kept = ground (arith, h, kept)

add-IsQueue :
    (fuel cmd b r major : ℕ) {xs : List ℕ} (io io' : Io)
    → IsQueue major io xs
    → (io.request r).dev ≡ none
    → (io.buffers b).dev ≢ none
    → add_request (λ s. s) fuel major r (fill_request io cmd b r) ≡ some io'
    → (ys : List ℕ) × IsQueue major io' ys × ((i : ℕ) → has i xs ≡ true → has i ys ≡ true)
add-IsQueue fuel cmd b r major {xs = []} io io' q free known done = (
  r ∷ [],
  first_request-IsQueue fuel cmd b r major io io' (at_end q.chain) known done,
  λ i h. absurd (nothing h),
)
add-IsQueue fuel cmd b r major {xs = z ∷ xs} io io' q free known done =
    add_request-IsQueue fuel cmd b r major z xs io io' q free known done

-- Let the requests in the queue of a device be distinct entries in use, each with a buffer. However free
-- entries are then filled and added and requests in progress end, this stays so, and each request
-- that was in the queue is still in it or has ended.
pub Steps-IsQueue :
    (major : ℕ) (xs over : List ℕ) (io io' : Io)
    → IsQueue major io xs
    → Steps major io over io'
    → (ys : List ℕ) × IsQueue major io' ys
      × ((i : ℕ) → has i xs ≡ true → (has i over || has i ys) ≡ true)
Steps-IsQueue major xs [] io io' q stop = (xs, q, λ i h. h)
Steps-IsQueue major xs over io io' q (adds fuel cmd b r {io' = io1} free known done later) =
    let (ys, q', more) = add-IsQueue fuel cmd b r major io io1 q free known done in
    let (zs, q'', kept) = Steps-IsQueue major ys over io1 io' q' later in
    (zs, q'', λ i h. kept i (more i h))
Steps-IsQueue major xs over io io' q (ends uptodate {z} {io' = io1} {over = over'} cur done later) =
    let (ys, e) = head-eq q.chain cur in
    let q' = end_request-IsQueue major z ys uptodate io io1 (subst (IsQueue major io) e q) done in
    let (zs, q'', kept) = Steps-IsQueue major ys over' io1 io' q' later in
    (zs, q'', λ i h. ended_or_kept z ys over' zs i (sym (ap (has i) e) ∙ h) (kept i))
