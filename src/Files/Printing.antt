-- ===== src/Files/Printing.antt =====
-- From the call sys_write to the screen.
use lychee_os.Base.{
  ℕ, zero, suc, ◌+◌, ◌*◌, ◌/◌, ◌%◌, ◌^◌, ◌<◌, ◌≤◌, ◌≡◌, refl, sym, ap, ◌∙◌, ◌⊎◌, true, false, none,
  some, List, [], ◌∷◌, ◌++◌, length, get_or, ltb, leb, ◌==◌, tabulate, length-tabulate,
  length-append, arith,
}
use mathlib.Core.List.{append-nil, append_assoc}
use lychee_os.Tty.{
  Tty, TtyBuffer, Console, tty_buffer_size, nr_tty, put_key_to_tty_write, put_char_to_tty_write,
  char_to_u32,
}
use lychee_os.Tty.Queue.{IsValid, index, contents, enqueue, put-IsValid, contents-put}
use lychee_os.Screen.Text.{is_plain, all_plain, HasRoom, all_plain-cons, console_write_lem}
use lychee_os.Fs.{is_chr}
use lychee_os.Files.{System, answers, Around}
use lychee_os.Files.Chars.{major_tty, put_chars, set_tty, tty_write, chr_write}
use lychee_os.Files.Handles.{file_of-open}
use lychee_os.Files.Calls.{nr_open, sys_write}

-- A terminal after characters joined its queue for the screen.
record Queued (q : List ℕ) (tty tty' : Tty) : Type 0 where
  valid : IsValid tty'.write_buffer
  queue : contents tty'.write_buffer ≡ q
  console : tty'.console ≡ tty.console

put_char-Queued :
    (c : ℕ) (q : List ℕ) (tty : Tty)
    → is_plain c ≡ true
    → IsValid tty.write_buffer
    → contents tty.write_buffer ≡ q
    → length q < tty_buffer_size
    → Queued (q ++ (c ∷ [])) tty (put_char_to_tty_write tty c)
unfolding put_char_to_tty_write put_key_to_tty_write enqueue
put_char-Queued c q tty plain valid waiting room =
    let same : char_to_u32 c ≡ c = ground arith in
    let fits : ltb (length q) tty_buffer_size ≡ true = ground arith in
    record {
      valid = put-IsValid tty.write_buffer (char_to_u32 c) valid;
      queue =
          contents-put tty.write_buffer (char_to_u32 c) valid
          ∙ ap (λ r. enqueue r (char_to_u32 c)) waiting
          ∙ rw (fits, same) refl;
      console = refl;
    }

put_chars-Queued :
    (len : ℕ) (buffer : ℕ → ℕ) (q : List ℕ) (tty : Tty)
    → all_plain (tabulate len buffer) ≡ true
    → IsValid tty.write_buffer
    → contents tty.write_buffer ≡ q
    → length q + len ≤ tty_buffer_size
    → Queued (q ++ tabulate len buffer) tty (put_chars len buffer tty)
unfolding put_chars
put_chars-Queued zero buffer q tty plain valid waiting room = record {
  valid = valid;
  queue = waiting ∙ sym (append-nil q);
  console = refl;
}
put_chars-Queued (suc len) buffer q tty plain valid waiting room =
    let rest : ℕ → ℕ = λ k. buffer (suc k) in
    let (here, later) = all_plain-cons (buffer 0) (tabulate len rest) plain in
    let first = put_char-Queued (buffer 0) q tty here valid waiting (omega arith) in
    let tty' = put_char_to_tty_write tty (buffer 0) in
    let all =
      put_chars-Queued len rest (q ++ (buffer 0 ∷ [])) tty' later first.valid first.queue
        (omega (arith, length-append q (buffer 0 ∷ []))) in
    record {
      valid = all.valid;
      queue = all.queue ∙ append_assoc q (buffer 0 ∷ []) (tabulate len rest);
      console = all.console ∙ first.console;
    }

get_or-tabulate : (n k : ℕ) (f : ℕ → ℕ) → k < n → get_or (tabulate n f) k 0 ≡ f k
get_or-tabulate zero k f h = absurd (omega arith)
get_or-tabulate (suc n) zero f h = refl
get_or-tabulate (suc n) (suc k) f h = get_or-tabulate n k (λ j. f (suc j)) (omega arith)

-- The queued keys are `len` many.
queued_count :
    (len : ℕ) (buffer : ℕ → ℕ) (b : TtyBuffer) → contents b ≡ tabulate len buffer → b.count ≡ len
queued_count len buffer b e =
    sym (length-tabulate b.count (λ j. get_or b.buffer ((index b.tail + j) % tty_buffer_size) 0))
    ∙ ap length e
    ∙ length-tabulate len buffer

set_tty-same : (nr : ℕ) (tty : Tty) (s : System) → (set_tty nr tty s).tty_table nr ≡ tty
set_tty-same nr tty s = let self : (nr == nr) ≡ true = ground arith in rw self refl

-- `tty_write` of plain characters on a terminal whose queue is empty.
pub tty_write_lem :
    (nr len : ℕ) (buffer : ℕ → ℕ) (s : System) (k address : ℕ)
    → nr < nr_tty
    → IsValid (s.tty_table nr).write_buffer
    → contents (s.tty_table nr).write_buffer ≡ []
    → all_plain (tabulate len buffer) ≡ true
    → len ≤ tty_buffer_size
    → HasRoom len (record { console = (s.tty_table nr).console; screen = s.screen })
    → k < len
    → (address < (s.tty_table nr).console.cursor_pos)
      ⊎ ((s.tty_table nr).console.cursor_pos + 2 * len ≤ address)
    → (s' : System) × (tty_write nr buffer len s ≡ answers len s')
      × ((s'.tty_table nr).console.cursor_pos ≡ (s.tty_table nr).console.cursor_pos + 2 * len)
      × (s'.screen.memory ((s.tty_table nr).console.cursor_pos + 2 * k) ≡ buffer k)
      × (s'.screen.memory ((s.tty_table nr).console.cursor_pos + 2 * k + 1)
          ≡ s.screen.video.char_attr)
      × (s'.screen.memory address ≡ s.screen.memory address)
unfolding tty_write
tty_write_lem nr len buffer s k address known valid waiting plain few room within outside =
    let tty0 = s.tty_table nr in
    let tty = put_chars len buffer tty0 in
    let queued = put_chars-Queued len buffer [] tty0 plain valid waiting (omega arith) in
    let cs = tabulate len buffer in
    let size : length cs ≡ len = length-tabulate len buffer in
    let count : tty.write_buffer.count ≡ len =
      queued_count len buffer tty.write_buffer queued.queue in
    let (tty', screen, run, cursor, char, colour, other, sound, _) =
      console_write_lem cs (suc tty.write_buffer.count) tty s.screen k address queued.valid
        queued.queue plain (rw (queued.console, size) room) (omega (arith, size, count))
        (omega (arith, size)) (rw (queued.console, size) outside) in
    let test : leb nr_tty nr ≡ false = ground arith in
    let pos : tty.console.cursor_pos ≡ tty0.console.cursor_pos =
      ap (λ (c : Console). c.cursor_pos) queued.console in
    (
      record (set_tty nr tty' s) { screen = screen },
      rw (test, run, sound.sound) refl,
      ap (λ (t : Tty). t.console.cursor_pos) (set_tty-same nr tty' s)
          ∙ cursor
          ∙ rw (pos, size) refl,
      ap (λ a. screen.memory (a + 2 * k)) (sym pos) ∙ char ∙ get_or-tabulate len k buffer within,
      ap (λ a. screen.memory (a + 2 * k + 1)) (sym pos) ∙ colour,
      other,
    )

-- A call of `sys_write` on an open handle of a terminal whose write queue is empty with both pointers at
-- the same place in its array (no function of the kernel sets them up so), for at most 1024 plain
-- characters (printable, not n) that fit behind the text, with the cursor at its end: it returns their
-- number, each character and the attribute are in its cell of the screen, no other byte of the memory
-- has changed, and the cursor is behind the text.
pub sys_write-prints :
    (a : Around) (block fhandle f nr len : ℕ) (buffer : ℕ → ℕ) (s : System) (k address : ℕ)
    → fhandle < nr_open
    → get_or s.files fhandle none ≡ some f
    → is_chr (s.store.inodes (s.file_table f).inode).mode ≡ true
    → get_or (s.store.inodes (s.file_table f).inode).data_blocks 0 0 ≡ major_tty * 2 ^ 8 + nr
    → nr < nr_tty
    → IsValid (s.tty_table nr).write_buffer
    → contents (s.tty_table nr).write_buffer ≡ []
    → all_plain (tabulate len buffer) ≡ true
    → len ≤ tty_buffer_size
    → HasRoom len (record { console = (s.tty_table nr).console; screen = s.screen })
    → k < len
    → (address < (s.tty_table nr).console.cursor_pos)
      ⊎ ((s.tty_table nr).console.cursor_pos + 2 * len ≤ address)
    → (s' : System) × (sys_write a block fhandle buffer len s ≡ answers len s')
      × ((s'.tty_table nr).console.cursor_pos ≡ (s.tty_table nr).console.cursor_pos + 2 * len)
      × (s'.screen.memory ((s.tty_table nr).console.cursor_pos + 2 * k) ≡ buffer k)
      × (s'.screen.memory ((s.tty_table nr).console.cursor_pos + 2 * k + 1)
          ≡ s.screen.video.char_attr)
      × (s'.screen.memory address ≡ s.screen.memory address)
unfolding sys_write chr_write
sys_write-prints a block fhandle f nr len buffer s k address handle opened chr device known valid
      waiting plain few room within outside =
    let (s', run, cursor, char, colour, other) =
      tty_write_lem nr len buffer s k address known valid waiting plain few room within outside in
    let major : (major_tty * 2 ^ 8 + nr) / 2 ^ 8 ≡ major_tty = omega arith in
    let minor : (major_tty * 2 ^ 8 + nr) % 2 ^ 8 ≡ nr = omega arith in
    (
      s',
      rw
          (
            sys_write,
            file_of-open s.files fhandle len f handle (omega arith) (omega arith) opened,
            chr,
            device,
            chr_write,
            major,
            minor,
          )
          run,
      cursor,
      char,
      colour,
      other,
    )
