-- ===== src/Blk/Insert.antt =====
-- `add_request` on the linked queue is an insertion into the list of the waiting requests.
use lychee_os.Base.{
  ℕ, zero, suc, ◌<◌, ◌≡◌, refl, ◌≢◌, ap, ◌∙◌, Bool, true, false, inl, inr, Bool-cases, Option, none,
  some, List, [], ◌∷◌, ◌++◌, length, ◌||◌, ◌==◌, if◌then◌else◌, arith,
}
use lychee_os.Blk.{Request, Table, fits, find_place, link, Io, set_current, add_request}

abbrev pub has : ℕ → List ℕ → Bool
has i [] = false
has i (x ∷ xs) = (i == x) || has i xs

-- From `start` the `next` pointers lead through the distinct entries `xs` to NULL.
pub data Chain (t : Table) : Option ℕ → List ℕ → Type 0 where
  nil : Chain t none []
  cons :
      {i : ℕ} {o : Option ℕ} {xs : List ℕ}
      → (t i).next ≡ o
      → has i xs ≡ false
      → Chain t o xs
      → Chain t (some i) (i ∷ xs)

-- The queue with the new request: behind the first request whose successor the new one is to precede, in
-- either direction, or at the end.
unfoldable pub insert : Table → ℕ → List ℕ → List ℕ
insert t r [] = r ∷ []
insert t r (z ∷ []) = z ∷ r ∷ []
insert t r (z ∷ w ∷ zs) =
    let rest = insert t r (w ∷ zs) in if fits (t z) (t r) (t w) then z ∷ r ∷ w ∷ zs else z ∷ rest

has-insert : (t : Table) (r q : ℕ) (xs : List ℕ) → has q (insert t r xs) ≡ ((q == r) || has q xs)
unfolding insert
has-insert t r q [] = refl
has-insert t r q (z ∷ []) = ground arith
has-insert t r q (z ∷ w ∷ zs) = ground (arith, has-insert t r q (w ∷ zs))

pub frame :
    {t : Table} (t' : Table) {o : Option ℕ} {xs : List ℕ}
    → Chain t o xs
    → ((i : ℕ) → has i xs ≡ true → (t' i).next ≡ (t i).next)
    → Chain t' o xs
frame t' nil same = nil
frame t' (cons {i} e out c) same =
    cons (same i (ground arith) ∙ e) out (frame t' c (λ j h. same j (ground (arith, h))))

link-next :
    (t : Table) (p r i : ℕ)
    → p ≢ r
    → (link t p r i).next ≡ (if i == p then some r else if i == r then (t p).next else (t i).next)
unfolding link
link-next t p r i ne = ground arith

-- The place that the loop finds in a chain, and the chain that the two assignments leave.
record Placed (t : Table) (fuel z r : ℕ) (xs : List ℕ) : Type 0 where
  place : ℕ
  found : find_place fuel t z (t r) ≡ some place
  inside : has place (z ∷ xs) ≡ true
  linked : Chain (link t place r) (some z) (insert t r (z ∷ xs))

link_end :
    (t : Table) (z r : ℕ) → (t z).next ≡ none → z ≢ r → Chain (link t z r) (some z) (z ∷ r ∷ [])
link_end t z r e ne =
    cons (ground (arith, link-next t z r z)) (ground arith)
      (cons (ground (arith, link-next t z r r)) refl nil)

link_between :
    (t : Table) (z w r : ℕ) (zs : List ℕ)
    → (t z).next ≡ some w
    → z ≢ r
    → has z (w ∷ zs) ≡ false
    → has r (w ∷ zs) ≡ false
    → Chain t (some w) (w ∷ zs)
    → Chain (link t z r) (some z) (z ∷ r ∷ w ∷ zs)
link_between t z w r zs e ne out new c = cons (ground (arith, link-next t z r z)) (ground arith) (
    cons (ground (arith, link-next t z r r)) new
      (frame (link t z r) c (λ i h. ground (arith, link-next t z r i))))

placed :
    (fuel : ℕ) {t : Table} {z : ℕ} {xs : List ℕ} {o : Option ℕ} (r : ℕ)
    → (t z).next ≡ o
    → has z xs ≡ false
    → Chain t o xs
    → has r (z ∷ xs) ≡ false
    → length xs < fuel
    → Placed t fuel z r xs
unfolding find_place insert
placed zero r e out c new enough = absurd (omega arith)
placed (suc fuel) {t} {z} r e out nil new enough = record {
  place = z;
  found = rw (e, find_place);
  inside = ground arith;
  linked = link_end t z r e (ground arith);
}
placed (suc fuel) {t} {z} r e out (cons {i = w} {xs = zs} e' out' c) new enough =
    elim (Bool-cases (fits (t z) (t r) (t w))) [
      | inl fit ↦ record {
        place = z;
        found = rw (e, find_place, fit);
        inside = ground arith;
        linked =
            rw fit (link_between t z w r zs e (ground arith) out (ground arith) (cons e' out' c));
      }
      | inr no_fit ↦
          let later = placed fuel r e' out' c (ground arith) (omega arith) in
          record {
            place = later.place;
            found = rw (e, find_place, no_fit) later.found;
            inside = ground (arith, later.inside);
            linked = rw no_fit (
                cons (ground (arith, link-next t later.place r z, later.inside))
                  (ground (arith, has-insert t r z (w ∷ zs))) later.linked);
          }
    ]

-- A request without its link.
abbrev pub fields : Request → Request
fields r = record r { next = none }

fields-link : (t : Table) (p r i : ℕ) → fields (link t p r i) ≡ fields (t i)
unfolding link
fields-link t p r i = ground arith

pub uncons :
    {t : Table} {o : Option ℕ} {z : ℕ} {xs : List ℕ}
    → Chain t o (z ∷ xs)
    → (o ≡ some z) × (has z xs ≡ false) × Chain t (t z).next xs
uncons (cons {i} {o} e out c) = (refl, out, rw e c)

-- The request `r` may stand between `y` and what follows it.
abbrev pub Follows : Table → ℕ → ℕ → List ℕ → Type 0
Follows t y r [] = Unit
Follows t y r (w ∷ zs) = fits (t y) (t r) (t w) ≡ true

insert_split :
    (t : Table) (r z : ℕ) (xs : List ℕ)
    → (ys : List ℕ) × (y : ℕ) × (zs : List ℕ) × (z ∷ xs ≡ ys ++ (y ∷ zs))
      × (insert t r (z ∷ xs) ≡ ys ++ (y ∷ r ∷ zs))
      × Follows t y r zs
unfolding insert
insert_split t r z [] = ([], z, [], refl, refl, tt)
insert_split t r z (w ∷ zs) = elim (Bool-cases (fits (t z) (t r) (t w))) [
  | inl fit ↦ ([], z, w ∷ zs, refl, rw fit, fit)
  | inr no_fit ↦
      let (ys, y, us, whole, new, next) = insert_split t r w zs in
      (z ∷ ys, y, us, ap (λ l. z ∷ l) whole, rw no_fit (ap (λ l. z ∷ l) new), next)
]

pub add_request_found :
    (do_request_fn : Io → Io) (fuel major r z place : ℕ) (io : Io)
    → io.current major ≡ some z
    → find_place fuel io.request z (io.request r) ≡ some place
    → add_request do_request_fn fuel major r io
      ≡ some (record io { request = link io.request place r })
unfolding add_request
add_request_found do_request_fn fuel major r z place io cur found = rw (cur, add_request, found)

-- On a device with a queue, `add_request` puts the new request behind some request `y` of the
-- queue: at the end, or where `in_order` lets it stand between `y` and its successor. The request
-- in progress stays at the head, the others keep their order, the queue stays a chain of distinct
-- entries, and only links are written.
pub add_request_lem :
    (do_request_fn : Io → Io) (fuel major r z : ℕ) (xs : List ℕ) (io : Io)
    → Chain io.request (io.current major) (z ∷ xs)
    → has r (z ∷ xs) ≡ false
    → length xs < fuel
    → (io' : Io) × (ys : List ℕ) × (y : ℕ) × (zs : List ℕ) × (add_request do_request_fn fuel major r
          io
        ≡ some io')
      × (z ∷ xs ≡ ys ++ (y ∷ zs))
      × Chain io'.request (some z) (ys ++ (y ∷ r ∷ zs))
      × (io'.current major ≡ some z)
      × Follows io.request y r zs
      × ((i : ℕ) → fields (io'.request i) ≡ fields (io.request i))
      × (io'.buffers ≡ io.buffers)
add_request_lem do_request_fn fuel major r z xs io chain new enough =
    let (cur, out, c) = uncons chain in
    let p = placed fuel r refl out c new enough in
    let (ys, y, zs, whole, new_list, next) = insert_split io.request r z xs in
    (
      record io { request = link io.request p.place r },
      ys,
      y,
      zs,
      add_request_found do_request_fn fuel major r z p.place io cur p.found,
      whole,
      rw (← new_list) p.linked,
      cur,
      next,
      fields-link io.request p.place r,
      refl,
    )

-- On an idle device the request becomes the current one and the device is started.
pub add_request_idle :
    (do_request_fn : Io → Io) (fuel major r : ℕ) (io : Io)
    → io.current major ≡ none
    → add_request do_request_fn fuel major r io
      ≡ some (do_request_fn (set_current io major (some r)))
unfolding add_request
add_request_idle do_request_fn fuel major r io cur = rw (cur, add_request)
