-- ===== src/Screen/Steps.antt =====
-- One round of the loop of `console_write`, and the end of the loop.
use lychee_os.Base.{
  ℕ, zero, suc, ◌%◌, ◌^◌, ◌<◌, ◌≡◌, refl, ◌≢◌, sym, ◌∙◌, inl, inr, true, false, some, none, ltb,
  ◌==◌, Bool-cases, Option-cases, arith,
}
use lychee_os.Tty.{Tty, TtyBuffer, load_key, get, key_to_char, get_char_from_write}
use lychee_os.Screen.{Display, Screen}
use lychee_os.Screen.Editing.{show, console_write}

-- The character that the next round sees, and what the round leaves if it is not the last.
abbrev pub next_char : Tty → ℕ
next_char tty = (get_char_from_write tty).0 % 2 ^ 8

abbrev pub shown : Tty → Screen → Display
shown tty s =
    show (next_char tty) (record { console = (get_char_from_write tty).1.console; screen = s })

abbrev pub after : Tty → Screen → Tty
after tty s = record ((get_char_from_write tty).1) { console = (shown tty s).console }

pub console_write-out : (tty : Tty) (s : Screen) → console_write 0 tty s ≡ none
unfolding console_write
console_write-out tty s = refl

pub console_write-next :
    (fuel : ℕ) (tty : Tty) (s : Screen)
    → (next_char tty == 0) ≡ false
    → console_write (suc fuel) tty s ≡ console_write fuel (after tty s) (shown tty s).screen
unfolding console_write
console_write-next fuel tty s h = rw h refl

pub console_write-stops :
    (fuel : ℕ) (tty : Tty) (s : Screen)
    → (next_char tty == 0) ≡ true
    → console_write (suc fuel) tty s ≡ some ((get_char_from_write tty).1, s)
unfolding console_write
console_write-stops fuel tty s h = rw h refl

load_key-count : (b : TtyBuffer) → (load_key b).1.count ≡ b.count
unfolding load_key
load_key-count b = elim (Option-cases (b.tail)) [
  | inl null ↦ rw (null, load_key) refl
  | inr (t, at) ↦ rw (at, load_key) refl
]

get-empty : (b : TtyBuffer) → ltb 0 b.count ≡ false → (key_to_char (get b).0 % 2 ^ 8 == 0) ≡ true
unfolding get key_to_char
get-empty b h = rw h refl

true-ne-false : true ≢ false
true-ne-false = ground arith

get-count :
    (b : TtyBuffer) → (key_to_char (get b).0 % 2 ^ 8 == 0) ≡ false → suc (get b).1.count ≡ b.count
unfolding get key_to_char
get-count b h = elim (Bool-cases (ltb 0 b.count)) [
  | inl some_key ↦ rw some_key (ground (arith, load_key-count b))
  | inr no_key ↦ absurd (true-ne-false (sym (get-empty b no_key) ∙ h))
]

pub get_char-count :
    (tty : Tty) (s : Screen)
    → (next_char tty == 0) ≡ false
    → suc (after tty s).write_buffer.count ≡ tty.write_buffer.count
unfolding get_char_from_write
get_char-count tty s h = get-count tty.write_buffer h

-- `console_write` ends after at most one round more than keys wait.
pub console_write_ends :
    (fuel : ℕ) (tty : Tty) (s : Screen)
    → tty.write_buffer.count < fuel
    → (end : Tty × Screen) × (console_write fuel tty s ≡ some end)
console_write_ends zero tty s h = absurd (omega arith)
console_write_ends (suc fuel) tty s h = elim (Bool-cases (next_char tty == 0)) [
  | inl last ↦ (((get_char_from_write tty).1, s), console_write-stops fuel tty s last)
  | inr more ↦
      let (end, e) =
        console_write_ends fuel (after tty s) (shown tty s).screen
          (omega (arith, get_char-count tty s more)) in
      (end, console_write-next fuel tty s more ∙ e)
]
