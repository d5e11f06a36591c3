-- ===== src/Kmain/Segments.antt =====
-- The segments that process 0 starts with.
use lychee_os.Base.{
  ℕ, zero, suc, ◌+◌, ◌*◌, ◌/◌, ◌%◌, ◌^◌, ◌<◌, ◌≡◌, ◌≢◌, refl, ap, ◌∙◌, false, List, [], ◌∷◌, ◌==◌,
  arith,
}
use lychee_os.Kernel.{
  Descriptor, desc_tss, set_descriptor, set_tss_desc, get_seg_limit, get_seg_base,
}
use lychee_os.Mm.{Memory, put_word}
use lychee_os.Fork.At
use lychee_os.Fork.{byte_at, load_descriptor, user_cs, user_ds}
use lychee_os.Fork.Segments.{byte_of_word}
use lychee_os.Kmain.FirstProcess.{
  clear_words, put_fields, store_descriptor, set_fields, set_segments, set_tss, init_process, Gdt,
  describe_process,
}

clear_words-below : (n b a : ℕ) (m : Memory) → a < b → (clear_words n b m).word a ≡ m.word a
unfolding clear_words
clear_words-below zero b a m low = refl
clear_words-below (suc n) b a m low =
    let apart : (a == b) ≡ false = ground arith in
    clear_words-below n (b + 4) a (put_word m b 0) (omega arith) ∙ rw apart refl

put_fields-below :
    (fields : List (ℕ × ℕ)) (b a : ℕ) (m : Memory)
    → a < b
    → (put_fields b fields m).word a ≡ m.word a
unfolding put_fields
put_fields-below [] b a m low = refl
put_fields-below ((at, v) ∷ rest) b a m low =
    let apart : (a == b + at) ≡ false = ground arith in
    put_fields-below rest b a (put_word m (b + at) v) low ∙ rw apart refl

-- A segment of 640 KB from 0 on, whose attributes say that it is not present and that it is a descriptor of
-- the system: bits 7 and 4 are 0.
pub record IsAbsent (sd : Descriptor) : Type 0 where
  pub limit : get_seg_limit sd ≡ 640 * 1024
  pub base : get_seg_base sd ≡ 0
  pub absent : sd.attribute / 2 ^ 7 ≡ 0
  pub system : sd.attribute / 2 ^ 4 % 2 ≡ 0

loaded-IsAbsent :
    (m : Memory) (a attribute : ℕ)
    → a % 4 ≡ 0
    → attribute < 2 ^ 4
    → m.word a ≡ 0xA0
    → m.word (a + 4) ≡ attribute * 2 ^ 8 + 0xC0 * 2 ^ 16
    → IsAbsent (load_descriptor m a)
unfolding load_descriptor get_seg_limit get_seg_base
loaded-IsAbsent m a attribute aligned small low high =
    let b0 : byte_at m a ≡ 0xA0 =
      ap (byte_at m) (omega arith) ∙ byte_of_word m a 0 aligned (omega arith) ∙ rw low refl in
    let b1 : byte_at m (a + 1) ≡ 0 = byte_of_word m a 1 aligned (omega arith) ∙ rw low refl in
    let b2 : byte_at m (a + 2) ≡ 0 = byte_of_word m a 2 aligned (omega arith) ∙ rw low refl in
    let b3 : byte_at m (a + 3) ≡ 0 = byte_of_word m a 3 aligned (omega arith) ∙ rw low refl in
    let next : (a + 4) % 4 ≡ 0 = omega arith in
    let b4 : byte_at m (a + 4) ≡ 0 =
      ap (byte_at m) (omega arith)
      ∙ byte_of_word m (a + 4) 0 next (omega arith)
      ∙ rw high (omega arith) in
    let b5 : byte_at m (a + 5) ≡ attribute =
      ap (byte_at m) (omega arith)
      ∙ byte_of_word m (a + 4) 1 next (omega arith)
      ∙ rw high (omega arith) in
    let b6 : byte_at m (a + 6) ≡ 0xC0 =
      ap (byte_at m) (omega arith)
      ∙ byte_of_word m (a + 4) 2 next (omega arith)
      ∙ rw high (omega arith) in
    let b7 : byte_at m (a + 7) ≡ 0 =
      ap (byte_at m) (omega arith)
      ∙ byte_of_word m (a + 4) 3 next (omega arith)
      ∙ rw high (omega arith) in
    record {
      limit = rw (b0, b1, b6) refl;
      base = rw (b2, b3, b4, b7) refl;
      absent = rw b5 (omega arith);
      system = rw b5 (omega arith);
    }

set_tss-below :
    (proc pgdir a : ℕ) (m : Memory) → a < proc + At.tss → (set_tss proc pgdir m).word a ≡ m.word a
unfolding set_tss
set_tss-below proc pgdir a m low =
    put_fields-below _ (proc + At.tss) a (clear_words 26 (proc + At.tss) m) low
    ∙ clear_words-below 26 (proc + At.tss) a m low

module _ (proc : ℕ) (m : Memory) where
  words_of_cs :
      ((set_segments proc m).word (user_cs proc) ≡ 0xA0)
      × ((set_segments proc m).word (user_cs proc + 4) ≡ 0x0A * 2 ^ 8 + 0xC0 * 2 ^ 16)
  unfolding set_segments store_descriptor put_fields set_descriptor
  words_of_cs = (ground arith, ground arith)

  words_of_ds :
      ((set_segments proc m).word (user_ds proc) ≡ 0xA0)
      × ((set_segments proc m).word (user_ds proc + 4) ≡ 0x02 * 2 ^ 8 + 0xC0 * 2 ^ 16)
  unfolding set_segments store_descriptor put_fields set_descriptor
  words_of_ds = (ground arith, ground arith)

-- `sched_init` gives process 0, whose structure lies at a multiple of 4, two segments of 640 KB from 0 on that
-- are not marked present. `kmain` then describes its task state segment in the entry of the GDT that is
-- meant for the LDT, where no LDT is left, and leaves every other entry as it is.
pub init_process-IsAbsent :
    (proc now tty pgdir : ℕ) (m : Memory) (gdt : Gdt)
    → proc % 4 ≡ 0
    → proc < 2 ^ 31
    → IsAbsent (load_descriptor (init_process proc now tty pgdir m) (user_cs proc))
      × IsAbsent (load_descriptor (init_process proc now tty pgdir m) (user_ds proc))
      × (get_seg_base (describe_process proc gdt 3) ≡ proc + At.tss)
      × ((describe_process proc gdt 3).attribute ≡ desc_tss)
      × ((k : ℕ) → k ≢ 3 → describe_process proc gdt k ≡ gdt k)
unfolding init_process describe_process get_seg_base set_tss_desc set_descriptor
init_process-IsAbsent proc now tty pgdir m gdt aligned near =
    let m1 = set_fields proc now tty m in
    let m2 = set_segments proc m1 in
    let m' = init_process proc now tty pgdir m in
    let keeps : (a : ℕ) → a < proc + At.tss → m'.word a ≡ m2.word a =
      λ a low. set_tss-below proc pgdir a m2 low in
    (
      loaded-IsAbsent m' (user_cs proc) 0x0A (omega arith) (omega arith)
          (keeps (user_cs proc) (omega arith) ∙ (words_of_cs proc m1).0)
          (keeps (user_cs proc + 4) (omega arith) ∙ (words_of_cs proc m1).1),
      loaded-IsAbsent m' (user_ds proc) 0x02 (omega arith) (omega arith)
          (keeps (user_ds proc) (omega arith) ∙ (words_of_ds proc m1).0)
          (keeps (user_ds proc + 4) (omega arith) ∙ (words_of_ds proc m1).1),
      omega arith,
      refl,
      λ k apart. (let other : (k == 3) ≡ false = ground arith in rw other refl),
    )
