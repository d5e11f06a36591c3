-- ===== src/Keyboard/Task.antt =====
-- The table of terminals at the start, the choice of the current one, and the process of the
-- terminals: the rest of kernel/chr/tty.c.
use lychee_os.Base.{
  ℕ, zero, suc, ◌+◌, ◌≡◌, refl, Bool, ◌&&◌, not, Option, none, some, List, [], ◌∷◌, leb, ◌==◌,
  if◌then◌else◌,
}
use lychee_os.Tty.{Tty, Console, nr_tty}
use lychee_os.Tty.Table.{found, prepare, get_empty_tty, get_empty_tty_lem}
use lychee_os.Screen.{Screen, set_current_console}
use lychee_os.Screen.Editing.{console_write}
use lychee_os.Keyboard.{Desk, Act}
use lychee_os.Keyboard.Keys.{keyboard_read}

abbrev pub ttl_ctl_echo : ℕ
ttl_ctl_echo = 1

-- A terminal is its index.
unfoldable pub is_current_tty : (nr_current_tty tty : ℕ) → Bool
is_current_tty nr_current_tty tty = nr_current_tty == tty

-- The body of the loop of `init_tty`.
unfoldable pub reset_tty : Console → Tty → Tty
reset_tty console tty = record tty {
  output_flags = 0;
  input_flags = 0;
  ctl_flags = ttl_ctl_echo;
  pid = 0;
  console = console;
}

-- The loop, from the entry `i` on. The keyboard is started by `init_keyboard`, and the consoles by
-- `init_console`, which nothing declares.
unfoldable pub init_tty : (console_table : ℕ → Console) (i : ℕ) → List Tty → List Tty
init_tty console_table i [] = []
init_tty console_table i (tty ∷ ttys) =
    reset_tty (console_table i) tty ∷ init_tty console_table (i + 1) ttys

-- The number of a terminal is given to `set_current_console` for the pointer to one: `at` is what lies
-- at an address.
unfoldable pub set_current_tty : (at : ℕ → Tty) (nr : ℕ) → ℕ × Screen → ℕ × Screen
set_current_tty at nr (nr_current_tty, s) =
    if leb nr nr_tty && not (nr_current_tty == nr)
    then (nr, set_current_console (at nr) s)
    else (nr_current_tty, s)

-- A round of `task_tty` on the current terminal, which is the one at the desk.
unfoldable pub task_round : (read_byte : Act ℕ) (fuel : ℕ) → Desk × Screen → Option (Desk × Screen)
task_round read_byte fuel (d, s) = elim (keyboard_read read_byte d) [
  | none ↦ none
  | some (_, d') ↦ elim (console_write fuel d'.tty s) [
    | none ↦ none
    | some (tty, s') ↦ some (record d' { tty = tty }, s')
  ]
]

-- `n` rounds of the loop, which does not end.
unfoldable pub task_tty : (read_byte : Act ℕ) (fuel n : ℕ) → Desk × Screen → Option (Desk × Screen)
task_tty read_byte fuel zero at = some at
task_tty read_byte fuel (suc n) at = elim (task_round read_byte fuel at) [
  | none ↦ none
  | some at' ↦ task_tty read_byte fuel n at'
]

-- After `init_tty` the first terminal is handed out to a process.
get_empty_tty-init_tty :
    (console_table : ℕ → Console) (tty : Tty) (ttys : List Tty) (pid : ℕ)
    → get_empty_tty (init_tty console_table 0 (tty ∷ ttys)) pid
      ≡ found 0 (prepare (reset_tty (console_table 0) tty) pid ∷ init_tty console_table 1 ttys)
unfolding init_tty reset_tty
get_empty_tty-init_tty console_table tty ttys pid =
    (get_empty_tty_lem [] (reset_tty (console_table 0) tty) (init_tty console_table 1 ttys) pid tt
      refl).0
