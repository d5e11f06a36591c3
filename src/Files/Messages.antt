-- ===== src/Files/Messages.antt =====
-- Messages of the kernel: `printfs` of kernel/printfs.c, from the format to the screen.
use lychee_os.Base.{
  ℕ, ◌+◌, ◌*◌, ◌<◌, ◌≤◌, ◌≡◌, refl, ap, ◌∙◌, ◌⊎◌, true, false, Option, none, some, List, [], ◌∷◌,
  leb, if◌then◌else◌, length, get_or, tabulate, arith,
}
use lychee_os.Tty.{tty_buffer_size, nr_tty}
use lychee_os.Tty.Queue.{IsValid, contents}
use lychee_os.Screen.Text.{all_plain, HasRoom}
use lychee_os.Vsprintf.Format.{vsprintf, Begins, vsprintf-plain, vsprintf-percent}
use lychee_os.Files.{System, Call, Reply, answers, stops, loops, goes_astray}
use lychee_os.Files.Chars.{tty_write}
use lychee_os.Files.Printing.{tty_write_lem}

-- `i` is returned whatever `tty_write` answers.
abbrev pub answer : ℕ → Reply ℕ → Reply ℕ
answer i (answers n s) = answers i s
answer i stops = stops
answer i loops = loops
answer i goes_astray = goes_astray

-- The array `buffer` has TTY_BUFFER_SIZE bytes, one of them for the 0 at the end.
unfoldable pub printfs :
    (convert : ℕ × (ℕ → ℕ) → Option (List ℕ)) (fuel nr_current_tty : ℕ) (fmt : ℕ → ℕ) → Call ℕ
printfs convert fuel nr_current_tty fmt s = elim (vsprintf convert fuel fmt) [
  | none ↦ loops
  | some cs ↦
      if leb tty_buffer_size (length cs)
      then goes_astray
      else answer (length cs) (tty_write nr_current_tty (λ k. get_or cs k 0) (length cs) s)
]

tabulate-get_or : (cs : List ℕ) → tabulate (length cs) (λ k. get_or cs k 0) ≡ cs
tabulate-get_or [] = refl
tabulate-get_or (c ∷ cs) = ap (λ ds. c ∷ ds) (tabulate-get_or cs)

-- A message without `%` of fewer than 1024 plain characters (printable, not n), with fuel above its length, on
-- a terminal whose write queue is empty with both pointers at one place of its array, with the cursor at the end of the text and room behind it:
-- `printfs` returns the length, each character and the attribute are in its cell of the screen, no
-- other byte of the memory has changed, and the cursor is behind the message.
pub printfs_prints :
    (convert : ℕ × (ℕ → ℕ) → Option (List ℕ)) (fuel nr : ℕ) (fmt : ℕ → ℕ) (cs : List ℕ) (s : System)
    (k address : ℕ)
    → Begins fmt cs 0
    → length cs < fuel
    → length cs < tty_buffer_size
    → nr < nr_tty
    → IsValid (s.tty_table nr).write_buffer
    → contents (s.tty_table nr).write_buffer ≡ []
    → all_plain cs ≡ true
    → HasRoom (length cs) (record { console = (s.tty_table nr).console; screen = s.screen })
    → k < length cs
    → (address < (s.tty_table nr).console.cursor_pos)
      ⊎ ((s.tty_table nr).console.cursor_pos + 2 * length cs ≤ address)
    → (s' : System) × (printfs convert fuel nr fmt s ≡ answers (length cs) s')
      × ((s'.tty_table nr).console.cursor_pos ≡ (s.tty_table nr).console.cursor_pos + 2 * length cs)
      × (s'.screen.memory ((s.tty_table nr).console.cursor_pos + 2 * k) ≡ get_or cs k 0)
      × (s'.screen.memory ((s.tty_table nr).console.cursor_pos + 2 * k + 1)
          ≡ s.screen.video.char_attr)
      × (s'.screen.memory address ≡ s.screen.memory address)
unfolding printfs
printfs_prints convert fuel nr fmt cs s k address text enough few known valid waiting plain room
      within outside =
    let all : all_plain (tabulate (length cs) (λ j. get_or cs j 0)) ≡ true =
      ap all_plain (tabulate-get_or cs) ∙ plain in
    let (s', run, cursor, char, colour, other) =
      tty_write_lem nr (length cs) (λ j. get_or cs j 0) s k address known valid waiting all
        (omega arith) room within outside in
    let fits : leb tty_buffer_size (length cs) ≡ false = ground arith in
    (
      s',
      rw (vsprintf-plain convert fuel fmt cs text enough, fits, printfs)
          (ap (answer (length cs)) run),
      cursor,
      char,
      colour,
      other,
    )

-- A message with a `%` in it keeps `printfs` in a loop, however much fuel it has, and whatever stands
-- behind the loop over the flags.
pub printfs-percent :
    (convert : ℕ × (ℕ → ℕ) → Option (List ℕ)) (fuel nr : ℕ) (fmt : ℕ → ℕ) (cs : List ℕ) (s : System)
    → Begins fmt cs b'%'
    → printfs convert fuel nr fmt s ≡ loops
unfolding printfs
printfs-percent convert fuel nr fmt cs s text =
    rw (vsprintf-percent convert fuel fmt cs text, printfs) refl
