-- ===== src/Screen/Text.antt =====
-- Text at the end of what is on the screen, and the character n.
use lychee_os.Base.{
  ℕ, zero, suc, ◌+◌, ◌*◌, ◌%◌, ◌^◌, ◌<◌, ◌≤◌, ◌≡◌, ◌≢◌, refl, sym, ap, ◌∙◌, inl, inr, ◌⊎◌, Bool,
  true, false, ◌&&◌, not, some, List, [], ◌∷◌, length, get_or, ltb, leb, ◌==◌, if◌then◌else◌,
  Bool-cases, add32, sub32, arith,
}
use mathlib.Core.Path.{ap₂, subst}
use lychee_os.Tty.{Tty, get, key_to_char, get_char_from_write}
use lychee_os.Tty.Queue.{IsValid, contents, dequeue, get-IsValid, get-contents}
use lychee_os.Screen.{Display, Screen, Video, out_byte, poke, memcpy, set_console_cursor}
use lychee_os.Screen.Copies.{poke_ne, movsb_none}
use lychee_os.Screen.Steps.{next_char, shown, after, console_write-next, console_write-stops}
use lychee_os.Screen.Editing.{put_char, insert_char, show, console_write}

-- The characters that `console_write` puts on the screen as they are: printable and not n.
abbrev pub is_plain : ℕ → Bool
is_plain c = leb 0x20 c && ltb c 0x80 && not (c == b'n')

abbrev pub all_plain : List ℕ → Bool
all_plain [] = true
all_plain (c ∷ cs) = let rest = all_plain cs in if is_plain c then rest else false

-- The cells of the screen after text is written at a position.
unfoldable typed : (attr pos : ℕ) → List ℕ → (ℕ → ℕ) → ℕ → ℕ
typed attr pos [] m = m
typed attr pos (c ∷ cs) m = typed attr (pos + 2) cs (poke (pos + 1) attr (poke pos c m))

-- The cursor is at the end of the text and `n` characters fit.
pub record HasRoom (n : ℕ) (d : Display) : Type 0 where
  pub at_end : d.console.current_mem_addr ≡ d.console.cursor_pos
  pub room : d.console.cursor_pos + 2 * n < d.console.start_mem_addr + d.console.mem_size
  pub below : d.console.start_mem_addr + d.console.mem_size < 2 ^ 31

-- A plain character in a display with room.
record Put (c : ℕ) (d d' : Display) : Type 0 where
  memory :
      d'.screen.memory
      ≡ poke
          (d.console.cursor_pos + 1)
          d.screen.video.char_attr
          (poke d.console.cursor_pos c d.screen.memory)
  video : d'.screen.video ≡ d.screen.video
  cursor : d'.console.cursor_pos ≡ d.console.cursor_pos + 2
  current : d'.console.current_mem_addr ≡ d.console.cursor_pos + 2
  start : d'.console.start_mem_addr ≡ d.console.start_mem_addr
  size : d'.console.mem_size ≡ d.console.mem_size

put_char-Put : (n c : ℕ) (d : Display) → HasRoom (suc n) d → Put c d (put_char c d)
unfolding put_char set_console_cursor memcpy out_byte
put_char-Put n c d r =
    let end = r.at_end in
    let room = r.room in
    let below = r.below in
    let pos = d.console.cursor_pos in
    let here : sub32 d.console.current_mem_addr pos ≡ 0 = ground arith in
    let one : add32 pos 1 ≡ pos + 1 = ground arith in
    let two : add32 pos 2 ≡ pos + 2 = ground arith in
    let grown : add32 d.console.current_mem_addr 2 ≡ pos + 2 = ground arith in
    record {
      memory =
          rw (here, one, two)
            (ap (λ m. poke (pos + 1) d.screen.video.char_attr (poke pos c m))
              (movsb_none pos (pos + 2) d.screen.memory));
      video = refl;
      cursor = two;
      current = grown;
      start = refl;
      size = refl;
    }

show-Put : (n c : ℕ) (d : Display) → is_plain c ≡ true → HasRoom (suc n) d → Put c d (show c d)
unfolding show insert_char
show-Put n c d plain r =
    let end = r.at_end in
    let room = r.room in
    let below = r.below in
    let tab : (c == b'\t') ≡ false = ground arith in
    let back : (c == 8) ≡ false = ground arith in
    let line : (c == b'n') ≡ false = ground arith in
    let shows : (leb 0x20 c && ltb c 0x80) ≡ true = ground arith in
    let fits : leb (add32 d.console.start_mem_addr d.console.mem_size)
          (add32 d.console.current_mem_addr 2)
        ≡ false =
      ground arith in
    rw (tab, back, line, shows, fits) (put_char-Put n c d r)

plain_char : (c : ℕ) → is_plain c ≡ true → key_to_char c % 2 ^ 8 ≡ c
unfolding key_to_char
plain_char c h = ground arith

next_char-cons :
    (tty : Tty) (c : ℕ) (cs : List ℕ)
    → IsValid tty.write_buffer
    → contents tty.write_buffer ≡ c ∷ cs
    → is_plain c ≡ true
    → (next_char tty ≡ c) × (contents (get tty.write_buffer).1 ≡ cs)
unfolding get_char_from_write dequeue
next_char-cons tty c cs v waiting plain =
    let taken : ((get tty.write_buffer).0, contents (get tty.write_buffer).1) ≡ (c, cs) =
      get-contents tty.write_buffer v ∙ ap dequeue waiting in
    (
      ap (λ k. key_to_char k % 2 ^ 8) (ap (λ (p : ℕ × List ℕ). p.0) taken) ∙ plain_char c plain,
      ap (λ (p : ℕ × List ℕ). p.1) taken,
    )

next_char-nil :
    (tty : Tty)
    → IsValid tty.write_buffer
    → contents tty.write_buffer ≡ []
    → (next_char tty == 0) ≡ true
unfolding get_char_from_write dequeue key_to_char
next_char-nil tty v waiting =
    ap (λ (p : ℕ × List ℕ). key_to_char (p.0) % 2 ^ 8 == 0)
      (get-contents tty.write_buffer v ∙ ap dequeue waiting)

false-ne-true : false ≢ true
false-ne-true = ground arith

pub all_plain-cons :
    (c : ℕ) (cs : List ℕ) → all_plain (c ∷ cs) ≡ true → (is_plain c ≡ true) × (all_plain cs ≡ true)
all_plain-cons c cs h = elim (Bool-cases (is_plain c)) [
  | inl plain ↦ (plain, sym (ap (λ b. if b then all_plain cs else false) plain) ∙ h)
  | inr other ↦ absurd (false-ne-true (sym (ap (λ b. if b then all_plain cs else false) other) ∙ h))
]

-- What a run of `console_write` leaves after text.
record Wrote (cs : List ℕ) (tty : Tty) (s : Screen) (tty' : Tty) (s' : Screen) : Type 0 where
  memory : s'.memory ≡ typed s.video.char_attr tty.console.cursor_pos cs s.memory
  cursor : tty'.console.cursor_pos ≡ tty.console.cursor_pos + 2 * length cs
  valid : IsValid tty'.write_buffer
  empty : contents tty'.write_buffer ≡ []

nothing_written :
    (tty : Tty) (s : Screen)
    → IsValid tty.write_buffer
    → contents tty.write_buffer ≡ []
    → Wrote [] tty s (get_char_from_write tty).1 s
unfolding typed get_char_from_write dequeue
nothing_written tty s v waiting = record {
  memory = refl;
  cursor = omega arith;
  valid = get-IsValid tty.write_buffer v;
  empty = ap (λ (p : ℕ × List ℕ). p.1) (get-contents tty.write_buffer v ∙ ap dequeue waiting);
}

shown-Put :
    (n c : ℕ) (tty : Tty) (s : Screen)
    → next_char tty ≡ c
    → is_plain c ≡ true
    → HasRoom (suc n) (record { console = tty.console; screen = s })
    → Put c (record { console = tty.console; screen = s }) (shown tty s)
unfolding get_char_from_write
shown-Put n c tty s is_c plain room =
    let d : Display = record { console = tty.console; screen = s } in
    subst (λ k. Put c d (show k d)) (sym is_c) (show-Put n c d plain room)

more_room : (n c : ℕ) (d d' : Display) → HasRoom (suc n) d → Put c d d' → HasRoom n d'
more_room n c d d' r p =
    let room = r.room in
    let below = r.below in
    let at = p.cursor in
    let start = p.start in
    let size = p.size in
    record { at_end = p.current ∙ sym p.cursor; room = omega arith; below = omega arith }

more_written :
    (c : ℕ) (cs : List ℕ) (tty tty' : Tty) (s s' : Screen)
    → Put c (record { console = tty.console; screen = s }) (shown tty s)
    → Wrote cs (after tty s) (shown tty s).screen tty' s'
    → Wrote (c ∷ cs) tty s tty' s'
unfolding typed
more_written c cs tty tty' s s' p w =
    let at = p.cursor in
    let end = w.cursor in
    record {
      memory =
          w.memory
          ∙ ap
              (λ (v : Video).
                typed v.char_attr (shown tty s).console.cursor_pos cs (shown tty s).screen.memory)
              p.video
          ∙ ap₂ (λ pos m. typed s.video.char_attr pos cs m) p.cursor p.memory;
      cursor = omega arith;
      valid = w.valid;
      empty = w.empty;
    }

console_write_typed :
    (cs : List ℕ) (fuel : ℕ) (tty : Tty) (s : Screen)
    → IsValid tty.write_buffer
    → contents tty.write_buffer ≡ cs
    → all_plain cs ≡ true
    → HasRoom (length cs) (record { console = tty.console; screen = s })
    → length cs < fuel
    → (tty' : Tty) × (s' : Screen) × (console_write fuel tty s ≡ some (tty', s'))
      × Wrote cs tty s tty' s'
unfolding get_char_from_write
console_write_typed cs zero tty s v waiting plain room enough = absurd (omega arith)
console_write_typed [] (suc fuel) tty s v waiting plain room enough = (
  (get_char_from_write tty).1,
  s,
  console_write-stops fuel tty s (next_char-nil tty v waiting),
  nothing_written tty s v waiting,
)
console_write_typed (c ∷ cs) (suc fuel) tty s v waiting plain room enough =
    let (plain_c, plain_cs) = all_plain-cons c cs plain in
    let (is_c, rest) = next_char-cons tty c cs v waiting plain_c in
    let put = shown-Put (length cs) c tty s is_c plain_c room in
    let more : (next_char tty == 0) ≡ false = ground arith in
    let (tty', s', runs, wrote) =
      console_write_typed cs fuel (after tty s) (shown tty s).screen
        (get-IsValid tty.write_buffer v) rest plain_cs (more_room (length cs) c _ _ room put)
        (omega arith) in
    (tty', s', console_write-next fuel tty s more ∙ runs, more_written c cs tty tty' s s' put wrote)

-- Cells before the position, and from the end of the text on, keep their bytes.
typed_outside :
    (attr pos : ℕ) (cs : List ℕ) (m : ℕ → ℕ) (a : ℕ)
    → (a < pos) ⊎ (pos + 2 * length cs ≤ a)
    → typed attr pos cs m a ≡ m a
unfolding typed
typed_outside attr pos [] m a h = refl
typed_outside attr pos (c ∷ cs) m a h =
    typed_outside attr (pos + 2) cs (poke (pos + 1) attr (poke pos c m)) a (ground arith)
    ∙ poke_ne (pos + 1) attr (poke pos c m) a (ground arith)
    ∙ poke_ne pos c m a (ground arith)

-- The cell of the k-th character.
typed_cell :
    (attr pos : ℕ) (cs : List ℕ) (m : ℕ → ℕ) (k : ℕ)
    → k < length cs
    → (typed attr pos cs m (pos + 2 * k) ≡ get_or cs k 0)
      × (typed attr pos cs m (pos + 2 * k + 1) ≡ attr)
unfolding typed
typed_cell attr pos [] m k h = absurd (omega arith)
typed_cell attr pos (c ∷ cs) m zero h =
    let m' : ℕ → ℕ = poke (pos + 1) attr (poke pos c m) in
    (
      typed_outside attr (pos + 2) cs m' (pos + 0) (inl (omega arith)) ∙ ground arith,
      typed_outside attr (pos + 2) cs m' (pos + 0 + 1) (inl (omega arith)) ∙ ground arith,
    )
typed_cell attr pos (c ∷ cs) m (suc k) h =
    let m' : ℕ → ℕ = poke (pos + 1) attr (poke pos c m) in
    let (char, colour) = typed_cell attr (pos + 2) cs m' k (omega arith) in
    (
      ap (typed attr (pos + 2) cs m') (omega arith) ∙ char,
      ap (typed attr (pos + 2) cs m') (omega arith) ∙ colour,
    )

-- Let both pointers of the write queue be in its array, as many places apart as keys wait (no function of
-- the kernel sets them up so). If the keys that wait are printable characters other than n, the cursor
-- is at the end of the text, they fit and there is more fuel than keys, then `console_write` returns,
-- the cursor is behind the text, the k-th character and the attribute are in the k-th cell, no other
-- byte has changed, and the queue is empty with its pointers in the array.
pub console_write_lem :
    (cs : List ℕ) (fuel : ℕ) (tty : Tty) (s : Screen) (k a : ℕ)
    → IsValid tty.write_buffer
    → contents tty.write_buffer ≡ cs
    → all_plain cs ≡ true
    → HasRoom (length cs) (record { console = tty.console; screen = s })
    → length cs < fuel
    → k < length cs
    → (a < tty.console.cursor_pos) ⊎ (tty.console.cursor_pos + 2 * length cs ≤ a)
    → (tty' : Tty) × (s' : Screen) × (console_write fuel tty s ≡ some (tty', s'))
      × (tty'.console.cursor_pos ≡ tty.console.cursor_pos + 2 * length cs)
      × (s'.memory (tty.console.cursor_pos + 2 * k) ≡ get_or cs k 0)
      × (s'.memory (tty.console.cursor_pos + 2 * k + 1) ≡ s.video.char_attr)
      × (s'.memory a ≡ s.memory a)
      × IsValid tty'.write_buffer
      × (contents tty'.write_buffer ≡ [])
console_write_lem cs fuel tty s k a v waiting plain room enough within outside =
    let (tty', s', runs, wrote) = console_write_typed cs fuel tty s v waiting plain room enough in
    let attr = s.video.char_attr in
    let pos = tty.console.cursor_pos in
    let (char, colour) = typed_cell attr pos cs s.memory k within in
    let at : (x : ℕ) → s'.memory x ≡ typed attr pos cs s.memory x =
      λ x. ap (λ (f : ℕ → ℕ). f x) wrote.memory in
    (
      tty',
      s',
      runs,
      wrote.cursor,
      at (pos + 2 * k) ∙ char,
      at (pos + 2 * k + 1) ∙ colour,
      at a ∙ typed_outside attr pos cs s.memory a outside,
      wrote.valid,
      wrote.empty,
    )
