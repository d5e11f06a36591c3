-- ===== src/Tty/Table.antt =====
-- The table of terminals of kernel/chr/tty.c: `get_empty_tty`, `release_tty`, `init_tty`.
use lychee_os.Base.{
  ℕ, zero, suc, ◌+◌, ◌≡◌, refl, ◌≢◌, true, false, Option, none, some, List, [], ◌∷◌, ◌++◌, length,
  get_elem?, set, ◌==◌, if◌then◌else◌, ap, ◌∙◌, arith,
}
use mathlib.Core.Logic.{◌↔◌}
use lychee_os.Tty.{TtyBuffer, Tty}
use lychee_os.Tty.Queue.{IsValid, index, contents}

-- The end of the search for a free terminal: its index and the new table, or the read of
-- `tty_table[NR_TTY].pid` behind the last entry.
pub data Acquired : Type 0 where
  found : ℕ → List Tty → Acquired
  past_end : Acquired

-- The index of the first entry with pid 0, counted from `i`.
unfoldable pub first_free : List Tty → ℕ → Option ℕ
first_free [] i = none
first_free (tty ∷ ttys) i =
    let rest = first_free ttys (i + 1) in if tty.pid == 0 then some i else rest

abbrev pub rewind : TtyBuffer → TtyBuffer
rewind b = record b { head = some 0; count = 0 }

unfoldable pub prepare : Tty → ℕ → Tty
prepare tty pid = record tty {
  read_buffer = rewind tty.read_buffer;
  write_buffer = rewind tty.write_buffer;
  console = record (tty.console) {
    current_mem_addr = tty.console.start_mem_addr;
    cursor_pos = tty.console.start_mem_addr;
  };
  pid = pid;
}

unfoldable pub get_empty_tty : List Tty → ℕ → Acquired
get_empty_tty table pid = elim (first_free table 0) [
  | none ↦ past_end
  | some i ↦ elim (get_elem? table i) [
    | none ↦ past_end
    | some tty ↦ found i (set table i (prepare tty pid))
  ]
]

unfoldable pub release_tty : Tty → Tty
release_tty tty = record tty { pid = 0 }

abbrev pub AllUsed : List Tty → Type 0
AllUsed [] = Unit
AllUsed (tty ∷ ttys) = (tty.pid ≢ 0) × AllUsed ttys

first_free-used : (table : List Tty) (i : ℕ) → AllUsed table → first_free table i ≡ none
unfolding first_free
first_free-used [] i h = refl
first_free-used (tty ∷ ttys) i h =
    let test : (tty.pid == 0) ≡ false = ground (arith, h.0) in
    rw (test, first_free-used ttys (i + 1) h.1)

first_free-at :
    (used : List Tty) (tty : Tty) (more : List Tty) (i : ℕ)
    → AllUsed used
    → tty.pid ≡ 0
    → first_free (used ++ (tty ∷ more)) i ≡ some (length used + i)
unfolding first_free
first_free-at [] tty more i h e =
    let test : (tty.pid == 0) ≡ true = ground arith in rw test (ap some (omega arith))
first_free-at (t ∷ used) tty more i h e =
    let test : (t.pid == 0) ≡ false = ground (arith, h.0) in
    rw (test, first_free-at used tty more (i + 1) h.1 e) (ap some (omega arith))

entry-append :
    (used : List Tty) (tty : Tty) (more : List Tty) (n : ℕ)
    → n ≡ length used
    → get_elem? (used ++ (tty ∷ more)) n ≡ some tty
entry-append [] tty more zero e = refl
entry-append [] tty more (suc n) e = absurd (omega arith)
entry-append (t ∷ used) tty more zero e = absurd (omega arith)
entry-append (t ∷ used) tty more (suc n) e = entry-append used tty more n (omega arith)

set-append :
    (used : List Tty) (tty tty' : Tty) (more : List Tty) (n : ℕ)
    → n ≡ length used
    → set (used ++ (tty ∷ more)) n tty' ≡ used ++ (tty' ∷ more)
set-append [] tty tty' more zero e = refl
set-append [] tty tty' more (suc n) e = absurd (omega arith)
set-append (t ∷ used) tty tty' more zero e = absurd (omega arith)
set-append (t ∷ used) tty tty' more (suc n) e =
    ap (λ ts. t ∷ ts) (set-append used tty tty' more n (omega arith))

-- The first terminal that is free is handed out, prepared for its process; the others are left
-- alone. With no free terminal the search reads behind the end of the table.
pub get_empty_tty_lem :
    (used : List Tty) (tty : Tty) (more : List Tty) (pid : ℕ)
    → AllUsed used
    → tty.pid ≡ 0
    → (get_empty_tty (used ++ (tty ∷ more)) pid
        ≡ found (length used) (used ++ (prepare tty pid ∷ more)))
      × (get_empty_tty used pid ≡ past_end)
unfolding get_empty_tty
get_empty_tty_lem used tty more pid h e =
    let at : length used + 0 ≡ length used = omega arith in
    (
      rw (
        first_free-at used tty more 0 h e ∙ ap some at,
        get_empty_tty,
        entry-append used tty more (length used) refl,
        set-append used tty (prepare tty pid) more (length used) refl,
      ),
      rw (first_free-used used 0 h, get_empty_tty),
    )

-- A terminal that is handed out has an empty read queue in a valid state exactly when the read
-- pointer already stood at the start, since `get_empty_tty` does not reset it.
pub prepare-IsValid :
    (tty : Tty) (pid : ℕ)
    → IsValid tty.read_buffer
    → (contents (prepare tty pid).read_buffer ≡ [])
      × (IsValid (prepare tty pid).read_buffer ↔ (tty.read_buffer.tail ≡ some 0))
unfolding prepare
prepare-IsValid tty pid v = (
  refl,
  (
    λ w. w.tail_at ∙ ap some (omega (arith, ap index w.head_at, w.start_in)),
    λ e. record {
      start = 0;
      room = v.room;
      start_in = omega arith;
      small = omega arith;
      tail_at = e;
      head_at = refl;
      sound = v.sound;
    },
  ),
)
