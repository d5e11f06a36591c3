-- ===== src/Tty/Keys.antt =====
-- What the functions of kernel/chr/tty.c do to the keys that wait in a terminal.
use lychee_os.Base.{
  ℕ, suc, ◌%◌, ◌^◌, ◌≡◌, refl, ◌≢◌, ap, ◌∙◌, false, some, inl, inr, Bool-cases, List, [], ◌∷◌, ◌++◌,
  map, length, ◌||◌, ◌==◌, if◌then◌else◌, arith,
}
use mathlib.Core.Path.{ap₂}
use lychee_os.Tty.{
  Tty, key_enter, key_tab, key_backspace, is_ext, char_to_u32, key_to_char, get,
  put_key_to_tty_write, put_char_to_tty_write, put_key_to_tty_read, get_key_from_tty_read,
  get_char_from_write, wait_key, tty_read,
}
use lychee_os.Tty.Queue.{
  IsValid, contents, enqueue, dequeue, put-IsValid, get-IsValid, contents-put, get-contents,
}

pub record IsValidTty (tty : Tty) : Type 0 where
  pub read : IsValid tty.read_buffer
  pub write : IsValid tty.write_buffer

abbrev pub reads : Tty → List ℕ
reads tty = contents tty.read_buffer

abbrev pub writes : Tty → List ℕ
writes tty = contents tty.write_buffer

-- The echo of a key: a printable key is queued for the screen if the terminal echoes.
abbrev pub echo : Tty → ℕ → List ℕ → List ℕ
echo tty key q =
    if tty.ctl_flags % 2 == 1 then (if is_ext key then q else enqueue q (key % 2 ^ 8)) else q

char_to_u32_plain : (key : ℕ) → is_ext key ≡ false → char_to_u32 key ≡ key % 2 ^ 8
char_to_u32_plain key h = ground arith

-- A key that arrives joins the read queue unless that is full, its echo joins the write queue, and
-- both queues stay valid.
pub put_key_to_tty_read_lem :
    (tty : Tty) (key : ℕ)
    → IsValidTty tty
    → (reads (put_key_to_tty_read tty key) ≡ enqueue (reads tty) key)
      × (writes (put_key_to_tty_read tty key) ≡ echo tty key (writes tty))
      × IsValidTty (put_key_to_tty_read tty key)
unfolding put_key_to_tty_read put_char_to_tty_write put_key_to_tty_write
put_key_to_tty_read_lem tty key v = elim (Bool-cases (tty.ctl_flags % 2 == 1)) [
  | inl on ↦ elim (Bool-cases (is_ext key)) [
    | inl ext ↦
        rw (on, ext)
          (
            contents-put tty.read_buffer key v.read,
            refl,
            record { read = put-IsValid tty.read_buffer key v.read; write = v.write },
          )
    | inr plain ↦
        rw (on, plain, char_to_u32_plain key plain)
          (
            contents-put tty.read_buffer key v.read,
            contents-put tty.write_buffer (key % 2 ^ 8) v.write,
            record {
              read = put-IsValid tty.read_buffer key v.read;
              write = put-IsValid tty.write_buffer (key % 2 ^ 8) v.write;
            },
          )
  ]
  | inr off ↦ rw off (
    contents-put tty.read_buffer key v.read,
    refl,
    record { read = put-IsValid tty.read_buffer key v.read; write = v.write },
  )
]

get_key_from_tty_read-IsValidTty :
    (tty : Tty) → IsValidTty tty → IsValidTty (get_key_from_tty_read tty).1
unfolding get_key_from_tty_read
get_key_from_tty_read-IsValidTty tty v = record {
  read = get-IsValid tty.read_buffer v.read;
  write = v.write;
}

-- One event at the read queue.
pub data Event : Type 0 where
  arrive : ℕ → Event
  fetch : Event

-- What the fetches of a series of events return.
unfoldable pub fetched : Tty → List Event → List ℕ
fetched tty [] = []
fetched tty (arrive key ∷ es) = fetched (put_key_to_tty_read tty key) es
fetched tty (fetch ∷ es) = let (key, tty') = get_key_from_tty_read tty in key ∷ fetched tty' es

unfoldable pub fetched_queue : List ℕ → List Event → List ℕ
fetched_queue q [] = []
fetched_queue q (arrive key ∷ es) = fetched_queue (enqueue q key) es
fetched_queue q (fetch ∷ es) = let (key, q') = dequeue q in key ∷ fetched_queue q' es

-- On a terminal whose queues have both pointers in their array, as many places apart as keys wait (no
-- function of the kernel sets them up so), no series of arrivals and fetches tells the read queue from
-- a bounded first-in first-out queue.
pub fetched-eq-fetched_queue :
    (es : List Event) (tty : Tty) → IsValidTty tty → fetched tty es ≡ fetched_queue (reads tty) es
unfolding fetched fetched_queue get_key_from_tty_read
fetched-eq-fetched_queue [] tty v = refl
fetched-eq-fetched_queue (arrive key ∷ es) tty v =
    let put_key = put_key_to_tty_read_lem tty key v in
    fetched-eq-fetched_queue es (put_key_to_tty_read tty key) put_key.2
    ∙ ap (λ q. fetched_queue q es) put_key.0
fetched-eq-fetched_queue (fetch ∷ es) tty v =
    ap₂ ◌∷◌ (ap (λ (p : ℕ × List ℕ). p.0) (get-contents tty.read_buffer v.read)) (
      fetched-eq-fetched_queue es (get_key_from_tty_read tty).1
        (get_key_from_tty_read-IsValidTty tty v)
      ∙ ap (λ (p : ℕ × List ℕ). fetched_queue p.1 es) (get-contents tty.read_buffer v.read))

-- `key & KEYMASK_PRINT_CHAR`
abbrev pub low : ℕ → ℕ
low key = key % 2 ^ 7

abbrev pub AllNonzero : List ℕ → Type 0
AllNonzero [] = Unit
AllNonzero (k ∷ ks) = (k ≢ 0) × AllNonzero ks

get_key-cons :
    (tty : Tty) (k : ℕ) (q : List ℕ)
    → IsValidTty tty
    → reads tty ≡ k ∷ q
    → ((get_key_from_tty_read tty).0 ≡ k) × (reads (get_key_from_tty_read tty).1 ≡ q)
unfolding get_key_from_tty_read dequeue
get_key-cons tty k q v e =
    let step = get-contents tty.read_buffer v.read ∙ ap dequeue e in
    (ap (λ (p : ℕ × List ℕ). p.0) step, ap (λ (p : ℕ × List ℕ). p.1) step)

wait_key-cons :
    (others : Tty → Tty) (fuel k : ℕ) (tty : Tty)
    → (get_key_from_tty_read tty).0 ≡ k
    → k ≢ 0
    → wait_key others (suc fuel) tty ≡ some (k, (get_key_from_tty_read tty).1)
unfolding wait_key
wait_key-cons others fuel k tty e ne = let test : (k == 0) ≡ false = ground arith in rw (e, test)

writes-get_key : (tty : Tty) → writes (get_key_from_tty_read tty).1 ≡ writes tty
unfolding get_key_from_tty_read
writes-get_key tty = refl

-- When as many keys wait as are asked for, none of them 0, `tty_read` does not wait: it returns
-- their low seven bits in the order of their arrival, and leaves the keys behind them.
pub tty_read_lem :
    (others : Tty → Tty) (fuel : ℕ) (ks rest : List ℕ) (tty : Tty)
    → IsValidTty tty
    → AllNonzero ks
    → reads tty ≡ ks ++ rest
    → (tty' : Tty) × (tty_read others (suc fuel) tty (length ks) ≡ some (map low ks, tty'))
      × (reads tty' ≡ rest)
      × (writes tty' ≡ writes tty)
unfolding tty_read
tty_read_lem others fuel [] rest tty v h e = (tty, refl, e, refl)
tty_read_lem others fuel (k ∷ ks) rest tty v h e =
    let (got, left) = get_key-cons tty k (ks ++ rest) v e in
    let tty₁ = (get_key_from_tty_read tty).1 in
    let (tty', run, r, w) =
      tty_read_lem others fuel ks rest tty₁ (get_key_from_tty_read-IsValidTty tty v) h.1 left in
    (
      tty',
      rw (wait_key-cons others fuel k tty got h.0, tty_read, run)
          (ap (λ c. some (c ∷ map low ks, tty')) (omega arith)),
      r,
      w ∙ writes-get_key tty,
    )

-- What a key in the write queue shows as: a printable key as itself, ENTER as a line feed,
-- BACKSPACE as a backspace, and TAB, whose case falls through, as a backspace too; any other key
-- as 0. The oldest key is taken, and the read queue is left alone.
pub get_char_from_write_lem :
    (tty : Tty) (key : ℕ) (q : List ℕ)
    → IsValidTty tty
    → writes tty ≡ key ∷ q
    → ((get_char_from_write tty).0 ≡ (
        if is_ext key
        then (if key % 2 ^ 8 == key_enter
            then 10
            else if (key % 2 ^ 8 == key_tab) || (key % 2 ^ 8 == key_backspace)
            then 8
            else 0)
        else low key))
      × (writes (get_char_from_write tty).1 ≡ q)
      × (reads (get_char_from_write tty).1 ≡ reads tty)
unfolding get_char_from_write
get_char_from_write_lem tty key q v e = (
  ap key_to_char (ap (λ (p : ℕ × List ℕ). p.0) step) ∙ decoded,
  ap (λ (p : ℕ × List ℕ). p.1) step,
  refl,
)
  where
    step :
        ◌≡◌ {A = ℕ × List ℕ} ((get tty.write_buffer).0, contents (get tty.write_buffer).1) (key, q)
    step = get-contents tty.write_buffer v.write ∙ ap dequeue e ∙ unfold dequeue in refl

    decoded : key_to_char key ≡ (
        if is_ext key
        then (if key % 2 ^ 8 == key_enter
            then 10
            else if (key % 2 ^ 8 == key_tab) || (key % 2 ^ 8 == key_backspace)
            then 8
            else 0)
        else low key)
    decoded = unfold key_to_char in ground arith
