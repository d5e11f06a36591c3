-- ===== src/Blk/Fuel.antt =====
-- The fuel of `add_request` of kernel/blk/blk.c: more of it gives the same queue.
use lychee_os.Base.{
  ℕ, zero, suc, ◌+◌, ◌≡◌, sym, ◌∙◌, inl, inr, Bool-cases, Option, none, some, Option-cases,
  if◌then◌else◌, arith,
}
use lychee_os.Blk.{Request, Table, Io, fits, in_order, find_place, add_request}
use lychee_os.Blk.Insert.{add_request_idle, add_request_found}

find_place_end :
    (fuel : ℕ) (t : Table) (z : ℕ) (q : Request)
    → (t z).next ≡ none
    → find_place (suc fuel) t z q ≡ some z
unfolding find_place
find_place_end fuel t z q e = rw (e, find_place)

find_place_on :
    (fuel : ℕ) (t : Table) (z w : ℕ) (q : Request)
    → (t z).next ≡ some w
    → find_place (suc fuel) t z q ≡ (if fits (t z) q (t w) then some z else find_place fuel t w q)
unfolding find_place fits in_order
find_place_on fuel t z w q e = rw (e, find_place)

-- More fuel finds the same place.
find_place_more :
    (fuel n : ℕ) (t : Table) (z p : ℕ) (q : Request)
    → find_place fuel t z q ≡ some p
    → find_place (fuel + n) t z q ≡ some p
unfolding find_place
find_place_more zero n t z p q found = cc
find_place_more (suc fuel) n t z p q found =
    let again : suc fuel + n ≡ suc (fuel + n) = omega arith in
    elim (Option-cases ((t z).next)) [
      | inl e ↦
          rw again (find_place_end (fuel + n) t z q e ∙ sym (find_place_end fuel t z q e) ∙ found)
      | inr (w, e) ↦ elim (Bool-cases (fits (t z) q (t w))) [
        | inl fit ↦ ground (
          arith,
          find_place_on fuel t z w q e,
          find_place_on (fuel + n) t z w q e,
          fit,
          again,
          found,
        )
        | inr no_fit ↦ ground (
          arith,
          find_place_on fuel t z w q e,
          find_place_on (fuel + n) t z w q e,
          again,
          found,
          find_place_more fuel n t w p q,
        )
      ]
    ]

-- With too little fuel there is no result.
add_request_lost :
    (fuel major r z : ℕ) (io : Io)
    → io.current major ≡ some z
    → find_place fuel io.request z (io.request r) ≡ none
    → add_request (λ s. s) fuel major r io ≡ none
unfolding add_request
add_request_lost fuel major r z io cur lost = rw (cur, add_request, lost)

pub no_result {ℓ} : {A : Type ℓ} {a : A} → ¬ (none ≡ some a)
no_result e = cc

pub same_result {ℓ} : {A : Type ℓ} {a b : A} {o : Option A} → o ≡ some a → o ≡ some b → a ≡ b
same_result p q = cc

pub add_request_more :
    (fuel n major r : ℕ) (io io' : Io)
    → add_request (λ s. s) fuel major r io ≡ some io'
    → add_request (λ s. s) (fuel + n) major r io ≡ some io'
unfolding add_request
add_request_more fuel n major r io io' done = elim (Option-cases (io.current major)) [
  | inl cur ↦
      add_request_idle (λ s. s) (fuel + n) major r io cur
      ∙ sym (add_request_idle (λ s. s) fuel major r io cur)
      ∙ done
  | inr (z, cur) ↦ elim (Option-cases (find_place fuel io.request z (io.request r))) [
    | inl lost ↦ absurd (no_result (sym (add_request_lost fuel major r z io cur lost) ∙ done))
    | inr (p, found) ↦
        add_request_found (λ s. s) (fuel + n) major r z p io cur
          (find_place_more fuel n io.request z p (io.request r) found)
        ∙ sym (add_request_found (λ s. s) fuel major r z p io cur found)
        ∙ done
  ]
]
