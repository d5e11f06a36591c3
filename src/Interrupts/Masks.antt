-- ===== src/Interrupts/Masks.antt =====
-- What the masks and the table of handlers hold after the operations of kernel/i8259.c.
use lychee_os.Base.{
  ℕ, ◌-◌, ◌/◌, ◌%◌, ◌^◌, ◌<◌, ◌≡◌, ◌≢◌, refl, ap, Bool, true, ◌&&◌, ◌||◌, none, some, List, [], ◌∷◌,
  ◌++◌, ltb, ◌==◌, if◌then◌else◌, get_or, set, length, every_below, every_below_entry, arith,
  ==_iff, Bool-cases, inl, inr, get_or-set_self, get_or-set_ne,
}
use mathlib.Core.List.{append-nil}
use Prim.Native.Nat.{bit_and, bit_or}
use lychee_os.Interrupts.{
  Controllers, out_byte, master_ctl, slave_ctl, master_mask, slave_mask, mask_port, init_8259A,
  enable_irq, disable_irq, set_irq_handler, Line, irq_clock, irq_keyboard, irq_cascade, irq_com2,
  irq_com1, irq_lpt2, irq_floppy, irq_lpt1, irq_real_clock, irq_hd, irq_of,
}

abbrev pub bit : ℕ → ℕ → ℕ
bit j x = x / 2 ^ j % 2

-- Whether the mask `al` with the bit of `line` set, or cleared, differs from `al` in that bit only.
abbrev masks_right : ℕ → ℕ → ℕ → Bool
masks_right al line j =
    (bit j (bit_or al (2 ^ line) % 2 ^ 8) == (if j == line then 1 else bit j al))
    && (bit j (bit_and al (255 - 2 ^ line) % 2 ^ 8) == (if j == line then 0 else bit j al))

masks_all :
    every_below (λ al. every_below (λ line. every_below (masks_right al line) 8) 8) 256 ≡ true
unfolding every_below
masks_all = refl

&&_left : (a b : Bool) → (a && b) ≡ true → a ≡ true
&&_left a b h = ground arith

&&_right : (a b : Bool) → (a && b) ≡ true → b ≡ true
&&_right a b h = ground arith

masks_lem : (al line j : ℕ) → al < 256 → line < 8 → j < 8 → masks_right al line j ≡ true
masks_lem al line j al_byte line_byte j_byte = every_below_entry (masks_right al line) 8 j j_byte (
    every_below_entry (λ line'. every_below (masks_right al line') 8) 8 line line_byte
      (every_below_entry (λ al'. every_below (λ line'. every_below (masks_right al' line') 8) 8) 256
        al al_byte masks_all))

-- For a line below 16, `enable_irq` writes to the line's controller the mask that it reads there with
-- the line's bit set, and `disable_irq` with the bit cleared; the other seven bits stay.
pub enable_irq_masks :
    (c : Controllers) (irq j : ℕ)
    → irq < 16
    → c.in_byte (mask_port irq) < 256
    → j < 8
    → (set_mask clear_mask : ℕ) × ((enable_irq irq c).writes
        ≡ c.writes ++ ((mask_port irq, set_mask) ∷ []))
      × (bit j set_mask ≡ (if j == irq % 8 then 1 else bit j (c.in_byte (mask_port irq))))
      × ((disable_irq irq c).writes ≡ c.writes ++ ((mask_port irq, clear_mask) ∷ []))
      × (bit j clear_mask ≡ (if j == irq % 8 then 0 else bit j (c.in_byte (mask_port irq))))
unfolding enable_irq disable_irq out_byte
enable_irq_masks c irq j h byte low =
    let right = masks_lem (c.in_byte (mask_port irq)) (irq % 8) j byte (omega arith) low in
    let port : mask_port irq % 2 ^ 16 ≡ mask_port irq = ground arith in
    (
      bit_or (c.in_byte (mask_port irq)) (2 ^ (irq % 8)) % 2 ^ 8,
      bit_and (c.in_byte (mask_port irq)) (255 - 2 ^ (irq % 8)) % 2 ^ 8,
      ap (λ p. c.writes ++ ((p, bit_or (c.in_byte (mask_port irq)) (2 ^ (irq % 8)) % 2 ^ 8) ∷ []))
          port,
      (==_iff _ _).0 (&&_left _ _ right),
      ap
          (λ p.
            c.writes
            ++ ((p, bit_and (c.in_byte (mask_port irq)) (255 - 2 ^ (irq % 8)) % 2 ^ 8) ∷ []))
          port,
      (==_iff _ _).0 (&&_right _ _ right),
    )

-- The ports of the two controllers.
abbrev pub is_controller : ℕ → Bool
is_controller port =
    (port == master_ctl) || (port == master_mask) || (port == slave_ctl) || (port == slave_mask)

abbrev pub to_controllers : List (ℕ × ℕ) → List (ℕ × ℕ)
to_controllers [] = []
to_controllers (w ∷ ws) =
    let rest = to_controllers ws in if is_controller (w.0) then w ∷ rest else rest

to_controllers-append :
    (ws vs : List (ℕ × ℕ)) → to_controllers (ws ++ vs) ≡ to_controllers ws ++ to_controllers vs
to_controllers-append [] vs = refl
to_controllers-append (w ∷ ws) vs = elim (Bool-cases (is_controller (w.0))) [
  | inl h ↦ rw (h, to_controllers-append ws vs) refl
  | inr h ↦ rw (h, to_controllers-append ws vs) refl
]

-- Of the ten bytes that `init_8259A` sends, one reaches a controller, and that is a port number
-- at the control port of the first.
pub init_8259A-misses :
    (irq : ℕ → ℕ) (c : Controllers)
    → to_controllers (init_8259A irq c).writes
      ≡ to_controllers c.writes ++ ((master_ctl, master_mask) ∷ [])
unfolding init_8259A out_byte
init_8259A-misses irq c = simp (to_controllers-append, append-nil)

-- A handler can be set for the lines 0 to 15, and then the table holds it at that line and what it
-- held at the others. For every line that the kernel names, the write is behind the table.
pub set_irq_handler_lem :
    (c : Controllers) (nr other handler d : ℕ) (line : Line)
    → length c.irq_handler_table ≡ 16
    → nr < 16
    → nr ≢ other
    → (set_irq_handler (irq_of line) handler c ≡ none)
      × ((c' : Controllers) × (set_irq_handler nr handler c ≡ some c')
          × (get_or c'.irq_handler_table nr d ≡ handler)
          × (get_or c'.irq_handler_table other d ≡ get_or c.irq_handler_table other d))
unfolding set_irq_handler disable_irq out_byte irq_of
set_irq_handler_lem c nr other handler d line size h ne = (behind line, stored)
  where
    behind : (l : Line) → set_irq_handler (irq_of l) handler c ≡ none
    behind irq_clock = refl
    behind irq_keyboard = refl
    behind irq_cascade = refl
    behind irq_com2 = refl
    behind irq_com1 = refl
    behind irq_lpt2 = refl
    behind irq_floppy = refl
    behind irq_lpt1 = refl
    behind irq_real_clock = refl
    behind irq_hd = refl

    same : nr % 2 ^ 8 ≡ nr
    same = omega arith

    below : ltb nr 16 ≡ true
    below = ground arith

    stored :
        (c' : Controllers) × (set_irq_handler nr handler c ≡ some c')
        × (get_or c'.irq_handler_table nr d ≡ handler)
        × (get_or c'.irq_handler_table other d ≡ get_or c.irq_handler_table other d)
    stored = (
      record (disable_irq nr c) { irq_handler_table = set c.irq_handler_table nr handler },
      rw (same, below) refl,
      get_or-set_self c.irq_handler_table nr handler d (omega arith),
      get_or-set_ne c.irq_handler_table nr other handler d ne,
    )
