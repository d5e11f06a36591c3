-- ===== src/Files/Chars.antt =====
-- fs/chr_dev.c, and tty_write of kernel/chr/tty.c.
use lychee_os.Base.{
  ℕ, zero, suc, ◌/◌, ◌%◌, ◌^◌, none, some, List, [], leb, not, ◌==◌, if◌then◌else◌,
}
use lychee_os.Tty.{Tty, nr_tty, put_char_to_tty_write, tty_read}
use lychee_os.Screen.Editing.{console_write}
use lychee_os.Files.{System, Call, answers, loops, goes_astray, Around}

abbrev pub major_tty : ℕ
major_tty = 5

-- The loop of `tty_write`; `buffer` is the caller's bytes from the pointer on.
unfoldable pub put_chars : (len : ℕ) → (buffer : ℕ → ℕ) → Tty → Tty
put_chars zero buffer tty = tty
put_chars (suc len) buffer tty =
    put_chars len (λ k. buffer (suc k)) (put_char_to_tty_write tty (buffer 0))

abbrev pub set_tty : ℕ → Tty → System → System
set_tty nr tty s = record s { tty_table = λ j. if j == nr then tty else s.tty_table j }

-- `console_write` gets one round more than there are keys. A terminal behind the table is out of bounds,
-- and so is a queue without its pointers.
unfoldable pub tty_write : (nr : ℕ) → (buffer : ℕ → ℕ) → (len : ℕ) → Call ℕ
tty_write nr buffer len s =
    let tty = put_chars len buffer (s.tty_table nr) in
    if leb nr_tty nr
    then goes_astray
    else elim (console_write (suc tty.write_buffer.count) tty s.screen) [
      | none ↦ loops
      | some (tty', screen) ↦
          if tty'.write_buffer.astray
          then goes_astray
          else answers len (record (set_tty nr tty' s) { screen = screen })
    ]

module _ (a : Around) where
  -- Without a device of the terminals the functions end without a value.
  unfoldable pub chr_write : (dev : ℕ) → (buffer : ℕ → ℕ) → (count : ℕ) → Call ℕ
  chr_write dev buffer count s =
      if dev / 2 ^ 8 == major_tty then tty_write (dev % 2 ^ 8) buffer count s else answers a.junk s

  unfoldable pub chr_read : (dev count : ℕ) → Call (ℕ × List ℕ)
  chr_read dev count s =
      if not (dev / 2 ^ 8 == major_tty)
      then answers (a.junk, []) s
      else if leb nr_tty (dev % 2 ^ 8)
      then goes_astray
      else elim (tty_read a.tty_others a.fuel (s.tty_table (dev % 2 ^ 8)) count) [
        | none ↦ loops
        | some (cs, tty) ↦
            if tty.read_buffer.astray
            then goes_astray
            else answers (count, cs) (set_tty (dev % 2 ^ 8) tty s)
      ]
