-- ===== src/Files/Lost.antt =====
-- What sys_write does on the terminals that kernel/chr/tty.c sets up.
use lychee_os.Base.{
  ℕ, zero, suc, ◌+◌, ◌*◌, ◌/◌, ◌%◌, ◌^◌, ◌<◌, ◌≡◌, refl, ap, ◌∙◌, true, false, none, some, inl, inr,
  ◌==◌, leb, get_or, Bool-cases, arith,
}
use lychee_os.Tty.{
  Tty, Console, nr_tty, get, put_key_to_tty_write, put_char_to_tty_write, char_to_u32,
  get_char_from_write,
}
use lychee_os.Tty.Lost.{put-tail, put-count, get-astray, get-null}
use lychee_os.Tty.Table.{prepare}
use lychee_os.Keyboard.Task.{reset_tty}
use lychee_os.Screen.{Screen}
use lychee_os.Screen.Steps.{
  next_char, shown, after, console_write-next, console_write-stops, get_char-count,
}
use lychee_os.Screen.Editing.{console_write}
use lychee_os.Fs.{is_chr}
use lychee_os.Files.{System, goes_astray, Around}
use lychee_os.Files.Chars.{major_tty, put_chars, tty_write, chr_write}
use lychee_os.Files.Handles.{file_of-open}
use lychee_os.Files.Calls.{nr_open, sys_write}

put_chars-tail :
    (len : ℕ) (buffer : ℕ → ℕ) (tty : Tty)
    → (put_chars len buffer tty).write_buffer.tail ≡ tty.write_buffer.tail
unfolding put_chars put_char_to_tty_write put_key_to_tty_write
put_chars-tail zero buffer tty = refl
put_chars-tail (suc len) buffer tty =
    put_chars-tail len (λ k. buffer (suc k)) (put_char_to_tty_write tty (buffer 0))
    ∙ put-tail tty.write_buffer (char_to_u32 (buffer 0))

put_chars-count :
    (len : ℕ) (buffer : ℕ → ℕ) (tty : Tty)
    → 0 < tty.write_buffer.count
    → 0 < (put_chars len buffer tty).write_buffer.count
unfolding put_chars put_char_to_tty_write put_key_to_tty_write
put_chars-count zero buffer tty h = h
put_chars-count (suc len) buffer tty h =
    put_chars-count len (λ k. buffer (suc k)) (put_char_to_tty_write tty (buffer 0))
      (put-count tty.write_buffer (char_to_u32 (buffer 0)))

waiting_after :
    (len : ℕ) (buffer : ℕ → ℕ) (tty : Tty)
    → 0 < len
    → 0 < (put_chars len buffer tty).write_buffer.count
unfolding put_chars put_char_to_tty_write put_key_to_tty_write
waiting_after zero buffer tty h = absurd (omega arith)
waiting_after (suc len) buffer tty h =
    put_chars-count len (λ k. buffer (suc k)) (put_char_to_tty_write tty (buffer 0))
      (put-count tty.write_buffer (char_to_u32 (buffer 0)))

-- The write queue has gone astray when the next key is fetched.
abbrev LostNext : Tty → Type 0
LostNext tty = (get tty.write_buffer).1.astray ≡ true

-- What `console_write` leaves of a queue that goes astray in the first round.
console_write-lost :
    (fuel : ℕ) (tty : Tty) (s : Screen)
    → LostNext tty
    → tty.write_buffer.count < fuel
    → (tty' : Tty) × (s' : Screen) × (console_write fuel tty s ≡ some (tty', s'))
      × (tty'.write_buffer.astray ≡ true)
unfolding get_char_from_write
console_write-lost zero tty s lost enough = absurd (omega arith)
console_write-lost (suc fuel) tty s lost enough = elim (Bool-cases (next_char tty == 0)) [
  | inl last ↦ ((get_char_from_write tty).1, s, console_write-stops fuel tty s last, lost)
  | inr more ↦
      let (tty', s', runs, astray) =
        console_write-lost fuel (after tty s) (shown tty s).screen
          (get-astray (after tty s).write_buffer lost) (omega (arith, get_char-count tty s more)) in
      (tty', s', console_write-next fuel tty s more ∙ runs, astray)
]

tty_write-goes_astray :
    (nr len : ℕ) (buffer : ℕ → ℕ) (s : System)
    → nr < nr_tty
    → (s.tty_table nr).write_buffer.tail ≡ none
    → 0 < len
    → tty_write nr buffer len s ≡ goes_astray
unfolding tty_write
tty_write-goes_astray nr len buffer s known null some_char =
    let tty = put_chars len buffer (s.tty_table nr) in
    let inside : leb nr_tty nr ≡ false = ground arith in
    let lost : LostNext tty =
      get-null tty.write_buffer (put_chars-tail len buffer (s.tty_table nr) ∙ null)
        (waiting_after len buffer (s.tty_table nr) some_char) in
    let (tty', screen, runs, astray) =
      console_write-lost (suc tty.write_buffer.count) tty s.screen lost (omega arith) in
    rw (inside, runs, astray) refl

-- A call of `sys_write` with a character or more, and fewer than 2^31, on an open handle of a terminal
-- as `init_tty` and `get_empty_tty` leave it (`init_tty` found the NULL pointer that static memory
-- holds, and neither function sets it) goes through that pointer.
pub sys_write-goes_astray :
    (a : Around) (block fhandle f nr len : ℕ) (buffer : ℕ → ℕ) (s : System) (tty : Tty)
    (console : Console) (pid : ℕ)
    → fhandle < nr_open
    → get_or s.files fhandle none ≡ some f
    → is_chr (s.store.inodes (s.file_table f).inode).mode ≡ true
    → get_or (s.store.inodes (s.file_table f).inode).data_blocks 0 0 ≡ major_tty * 2 ^ 8 + nr
    → nr < nr_tty
    → tty.write_buffer.tail ≡ none
    → s.tty_table nr ≡ prepare (reset_tty console tty) pid
    → 0 < len
    → len < 2 ^ 31
    → sys_write a block fhandle buffer len s ≡ goes_astray
unfolding sys_write chr_write prepare reset_tty
sys_write-goes_astray a block fhandle f nr len buffer s tty console pid handle opened chr device
      known null set_up some_char small =
    let major : (major_tty * 2 ^ 8 + nr) / 2 ^ 8 ≡ major_tty = omega arith in
    let minor : (major_tty * 2 ^ 8 + nr) % 2 ^ 8 ≡ nr = omega arith in
    rw
      (
        sys_write,
        file_of-open s.files fhandle len f handle (omega arith) (omega arith) opened,
        chr,
        device,
        chr_write,
        major,
        minor,
      )
      (tty_write-goes_astray nr len buffer s known
        (ap (λ (t : Tty). t.write_buffer.tail) set_up ∙ null) some_char)
