-- ===== src/Tty/Queue.antt =====
-- A key queue of kernel/chr/tty.c is a bounded first-in first-out queue.
use lychee_os.Base.{
  ℕ, suc, refl, true, false, Option, none, some, ◌+◌, ◌-◌, ◌%◌, ◌≤◌, ◌<◌, ◌≡◌, sym, ap, ◌∙◌, inl,
  inr, List, [], ◌∷◌, ◌++◌, ltb, ltb→lt, Bool-cases, length, get_or, set, length-set,
  get_or-set_self, get_or-set_ne, tabulate, length-tabulate, tabulate_congr, tabulate_last,
  if◌then◌else◌, arith,
}
use mathlib.Core.Path.{ap₂, subst}
use lychee_os.Tty.{TtyBuffer, tty_buffer_size, advance, store_key, load_key, put, get}

-- Both pointers are in the array, `count` places apart, and no key went through NULL.
pub record IsValid (b : TtyBuffer) : Type 0 where
  pub start : ℕ
  pub room : length b.buffer ≡ tty_buffer_size
  pub start_in : start < tty_buffer_size
  pub small : b.count ≤ tty_buffer_size
  pub tail_at : b.tail ≡ some start
  pub head_at : b.head ≡ some ((start + b.count) % tty_buffer_size)
  pub sound : b.astray ≡ false

abbrev pub index : Option ℕ → ℕ
index none = 0
index (some i) = i

-- The key that is `j` places behind the oldest.
abbrev slot : TtyBuffer → ℕ → ℕ
slot b j = get_or b.buffer ((index b.tail + j) % tty_buffer_size) 0

-- The keys that wait, oldest first.
abbrev pub contents : TtyBuffer → List ℕ
contents b = tabulate b.count (slot b)

-- The specification: a queue that drops what does not fit, and yields 0 when it is empty.
unfoldable pub enqueue : List ℕ → ℕ → List ℕ
enqueue q key = if ltb (length q) tty_buffer_size then q ++ (key ∷ []) else q

unfoldable pub dequeue : List ℕ → ℕ × List ℕ
dequeue [] = (0, [])
dequeue (key ∷ q) = (key, q)

-- What a valid queue stores and loads.
store_key-valid :
    (b : TtyBuffer) (key : ℕ) (v : IsValid b)
    → let h = (v.start + b.count) % tty_buffer_size in
      store_key b key ≡ record b { buffer = set b.buffer h key; head = some (advance h) }
unfolding store_key
store_key-valid b key v = rw (v.head_at, store_key)

load_key-valid :
    (b : TtyBuffer) (v : IsValid b)
    → load_key b ≡ (get_or b.buffer v.start 0, record b { tail = some (advance v.start) })
unfolding load_key
load_key-valid b v = rw (v.tail_at, load_key)

-- A queue with room after a key is put, and one with keys after one is fetched.
abbrev longer : (b : TtyBuffer) → ℕ → IsValid b → TtyBuffer
longer b key v =
    let h = (v.start + b.count) % tty_buffer_size in
    record b { buffer = set b.buffer h key; head = some (advance h); count = b.count + 1 }

abbrev shorter : (b : TtyBuffer) → IsValid b → TtyBuffer
shorter b v = record b { tail = some (advance v.start); count = b.count - 1 }

longer-IsValid :
    (b : TtyBuffer) (key : ℕ) (v : IsValid b) → b.count < tty_buffer_size → IsValid (longer b key v)
longer-IsValid b key v lt = record {
  start = v.start;
  room = length-set b.buffer ((v.start + b.count) % tty_buffer_size) key ∙ v.room;
  start_in = v.start_in;
  small = omega arith;
  tail_at = v.tail_at;
  head_at = ap some (ground (arith, v.start_in));
  sound = v.sound;
}

shorter-IsValid : (b : TtyBuffer) (v : IsValid b) → 0 < b.count → IsValid (shorter b v)
shorter-IsValid b v lt = record {
  start = advance v.start;
  room = v.room;
  start_in = ground (arith, v.start_in);
  small = omega (arith, v.small);
  tail_at = refl;
  head_at = v.head_at ∙ ap some (ground (arith, v.start_in, v.small));
  sound = v.sound;
}

put-eq :
    (b : TtyBuffer) (key : ℕ) (v : IsValid b)
    → put b key ≡ (if ltb b.count tty_buffer_size then longer b key v else b)
unfolding put
put-eq b key v =
    ap
      (λ (s : TtyBuffer).
        if ltb b.count tty_buffer_size then record s { count = b.count + 1 } else b)
      (store_key-valid b key v)

get-eq :
    (b : TtyBuffer) (v : IsValid b)
    → get b ≡ (if ltb 0 b.count then (get_or b.buffer v.start 0, shorter b v) else (0, b))
unfolding get
get-eq b v =
    ap
      (λ (p : ℕ × TtyBuffer).
        if ltb 0 b.count then (p.0, record (p.1) { count = b.count - 1 }) else (0, b))
      (load_key-valid b v)

put-room :
    (b : TtyBuffer) (key : ℕ) (v : IsValid b)
    → ltb b.count tty_buffer_size ≡ true
    → put b key ≡ longer b key v
put-room b key v room = put-eq b key v ∙ rw room refl

put-full :
    (b : TtyBuffer) (key : ℕ) (v : IsValid b) → ltb b.count tty_buffer_size ≡ false → put b key ≡ b
put-full b key v full = put-eq b key v ∙ rw full refl

get-some :
    (b : TtyBuffer) (v : IsValid b)
    → ltb 0 b.count ≡ true
    → get b ≡ (get_or b.buffer v.start 0, shorter b v)
get-some b v some_key = get-eq b v ∙ rw some_key refl

get-none : (b : TtyBuffer) (v : IsValid b) → ltb 0 b.count ≡ false → get b ≡ (0, b)
get-none b v empty = get-eq b v ∙ rw empty refl

-- Putting and getting keep the invariant.
pub put-IsValid : (b : TtyBuffer) (key : ℕ) → IsValid b → IsValid (put b key)
put-IsValid b key v = elim (Bool-cases (ltb b.count tty_buffer_size)) [
  | inl room ↦
      subst IsValid (sym (put-room b key v room)) (longer-IsValid b key v (ltb→lt _ _ room))
  | inr full ↦ subst IsValid (sym (put-full b key v full)) v
]

pub get-IsValid : (b : TtyBuffer) → IsValid b → IsValid (get b).1
get-IsValid b v = elim (Bool-cases (ltb 0 b.count)) [
  | inl some_key ↦
      subst (λ (p : ℕ × TtyBuffer). IsValid p.1) (sym (get-some b v some_key))
        (shorter-IsValid b v (ltb→lt _ _ some_key))
  | inr empty ↦ subst (λ (p : ℕ × TtyBuffer). IsValid p.1) (sym (get-none b v empty)) v
]

contents-longer :
    (b : TtyBuffer) (key : ℕ) (v : IsValid b)
    → b.count < tty_buffer_size
    → contents (longer b key v) ≡ contents b ++ (key ∷ [])
contents-longer b key v lt =
    let h = (v.start + b.count) % tty_buffer_size in
    let put_at : ℕ → ℕ =
      λ j. get_or (set b.buffer h key) ((index b.tail + j) % tty_buffer_size) 0 in
    let at : index b.tail ≡ v.start = ap index v.tail_at in
    let kept : tabulate b.count put_at ≡ contents b =
      tabulate_congr b.count put_at (slot b) (λ j lt'.
        get_or-set_ne b.buffer h ((index b.tail + j) % tty_buffer_size) key 0
          (omega (arith, at, v.start_in, v.small))) in
    ap (λ n. tabulate n put_at) add-one_sym
    ∙ tabulate_last b.count put_at
    ∙ ap₂ (λ q k. q ++ (k ∷ [])) kept
        (ap (λ i. get_or (set b.buffer h key) ((i + b.count) % tty_buffer_size) 0) at
          ∙ get_or-set_self b.buffer h key 0 (omega (arith, v.room)))
  where
    add-one_sym : b.count + 1 ≡ suc b.count
    add-one_sym = omega arith

pub contents-put :
    (b : TtyBuffer) (key : ℕ) → IsValid b → contents (put b key) ≡ enqueue (contents b) key
unfolding enqueue
contents-put b key v = elim (Bool-cases (ltb b.count tty_buffer_size)) [
  | inl room ↦
      ap contents (put-room b key v room)
      ∙ contents-longer b key v (ltb→lt _ _ room)
      ∙ rw (length-tabulate, room) refl
  | inr full ↦ ap contents (put-full b key v full) ∙ rw (length-tabulate, full) refl
]

contents-shorter :
    (b : TtyBuffer) (n : ℕ) (v : IsValid b)
    → tabulate (suc n) (slot b) ≡ get_or b.buffer v.start 0 ∷ tabulate n (slot (shorter b v))
contents-shorter b n v =
    let at : index b.tail ≡ v.start = ap index v.tail_at in
    ap₂ ◌∷◌ (ap (λ i. get_or b.buffer i 0) (omega (arith, at, v.start_in))) (
      tabulate_congr n (λ j. slot b (suc j)) (slot (shorter b v))
        (λ j h. ap (λ i. get_or b.buffer i 0) (ground (arith, at, v.start_in))))

pub get-contents :
    (b : TtyBuffer) → IsValid b → ((get b).0, contents (get b).1) ≡ dequeue (contents b)
unfolding dequeue
get-contents b v = elim (Bool-cases (ltb 0 b.count)) [
  | inl some_key ↦
      let e : b.count ≡ suc (b.count - 1) = omega (arith, ltb→lt 0 b.count some_key) in
      ap (λ (p : ℕ × TtyBuffer). (p.0, contents (p.1))) (get-some b v some_key)
      ∙ sym (ap dequeue (ap (λ n. tabulate n (slot b)) e ∙ contents-shorter b (b.count - 1) v))
  | inr empty ↦
      let e : b.count ≡ 0 = ground arith in
      ap (λ (p : ℕ × TtyBuffer). (p.0, contents (p.1))) (get-none b v empty)
      ∙ ap (λ q. (0, q)) (ap (λ n. tabulate n (slot b)) e)
      ∙ sym (ap dequeue (ap (λ n. tabulate n (slot b)) e))
]
