-- ===== src/Keyboard/Arrivals.antt =====
-- What the keyboard's interrupt keeps of the scan codes.
use lychee_os.Base.{ℕ, ◌≡◌, refl, ap, ◌∙◌, List, [], ◌∷◌, length, ltb, Bool-cases, inl, inr, arith}
use lychee_os.Keyboard.{Keyboard, keyboard_buffer_size, irq_keyboard_handler}

-- The interrupts for a series of scan codes.
unfoldable pub handle_all : List ℕ → Keyboard → Keyboard
handle_all [] k = k
handle_all (scan_code ∷ scan_codes) k = handle_all scan_codes (irq_keyboard_handler scan_code k)

handler-buffer : (c : ℕ) (k : Keyboard) → (irq_keyboard_handler c k).buffer ≡ k.buffer
unfolding irq_keyboard_handler
handler-buffer c k = elim (Bool-cases (ltb k.count keyboard_buffer_size)) [
  | inl room ↦ rw room refl
  | inr full ↦ rw full refl
]

-- Of a series of scan codes the keyboard keeps only how many they are: two series of the same length leave
-- the same state, and the bytes of the buffer are those from before.
pub handle_all_lem :
    (cs cs' : List ℕ) (k : Keyboard)
    → length cs ≡ length cs'
    → (handle_all cs k ≡ handle_all cs' k) × ((handle_all cs k).buffer ≡ k.buffer)
unfolding handle_all
handle_all_lem [] [] k same = (refl, refl)
handle_all_lem [] (c ∷ cs) k same = absurd (omega arith)
handle_all_lem (c ∷ cs) [] k same = absurd (omega arith)
handle_all_lem (c ∷ cs) (c' ∷ cs') k same =
    let (states, bytes) = handle_all_lem cs cs' (irq_keyboard_handler c k) (omega arith) in
    (states ∙ ap (handle_all cs') (unfold irq_keyboard_handler in refl), bytes ∙ handler-buffer c k)
