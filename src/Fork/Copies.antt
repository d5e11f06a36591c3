-- ===== src/Fork/Copies.antt =====
-- When a new process comes about, and what becomes of the segments of its parent.
use lychee_os.Base.{
  ℕ, ◌+◌, ◌*◌, ◌%◌, ◌<◌, ◌≤◌, ◌≡◌, ◌≢◌, ◌⊎◌, ◌&&◌, inl, inr, Bool-cases, refl, Bool, true, false,
  some, ◌==◌, if◌then◌else◌, u32_mod, arith,
}
use lychee_os.Kernel.{get_seg_limit, get_seg_base}
use lychee_os.Mm.{
  Memory, Copied, returned, halted, put_word, get_phy_page, free_phy_page, free_page_tables,
  copy_page_tables,
}
use lychee_os.Process.{running}
use lychee_os.Fork.At
use lychee_os.Fork.Segments.{move_segments_lem}
use lychee_os.Fork.{
  Tasks, Registers, user_cs, user_ds, load_descriptor, move_segments, copy_memory,
  process_mem_space, fill_process, get_last_pid, finish_process, copy_process, share,
}

-- The structure of the new process, the state once its entry is set, and the memory once it is filled in.
abbrev pub child : Tasks → ℕ
child s = (get_phy_page s.memory).0

abbrev pub entered : (proc_nr : ℕ) → Tasks → Tasks
entered proc_nr s = record s {
  process = λ j. if j == proc_nr then child s else s.process j;
  last_pid = s.last_pid + 1;
}

abbrev pub filled : (proc_nr : ℕ) → Registers → Tasks → Memory
filled proc_nr r s =
    fill_process (entered proc_nr s) (child s) s.last_pid r (get_phy_page s.memory).1

-- The base that `copy_memory` reads from a descriptor, and the limit.
abbrev pub base_of : Memory → ℕ → ℕ
base_of m a = get_seg_base (load_descriptor m (m.word a))

abbrev pub limit_of : Memory → ℕ → ℕ
limit_of m a = get_seg_limit (load_descriptor m a)

-- The code and the data segment of a process agree.
pub record IsFlat (process : ℕ) (m : Memory) : Type 0 where
  pub limits : (limit_of m (user_cs process) == limit_of m (user_ds process)) ≡ true
  pub bases : (base_of m (user_cs process) == base_of m (user_ds process)) ≡ true

-- What becomes of the result of `copy_page_tables`.
abbrev pub after_copy : (free_page : ℕ → Memory → Memory) (base limit : ℕ) → Copied → Copied
after_copy free_page base limit halted = halted
after_copy free_page base limit (returned true m) =
    returned false (free_page_tables free_page base limit m)
after_copy free_page base limit (returned false m) = returned true m

after_copy_lem :
    (free_page : ℕ → Memory → Memory) (base limit : ℕ) (c : Copied)
    → (elim c [
      | halted ↦ halted
      | returned ok m' ↦
          if ok then returned false (free_page_tables free_page base limit m') else returned true m'
    ])
      ≡ after_copy free_page base limit c
after_copy_lem free_page base limit halted = refl
after_copy_lem free_page base limit (returned true m) = refl
after_copy_lem free_page base limit (returned false m) = refl

-- `copy_memory` halts the machine unless the limits and the bases of the code and the data segment of the
-- running process, the parent, agree. Otherwise it copies the page tables in a memory where both
-- segments of the parent, whose structure is aligned, have been moved to the base of the child; no word
-- outside of these two descriptors and the child's `start_code` has changed there.
pub copy_memory_lem :
    (free_page : ℕ → Memory → Memory) (current proc_nr proc other : ℕ) (m : Memory)
    → current % 4 ≡ 0
    → (other < user_cs current) ⊎ (user_ds current + 8 ≤ other)
    → other ≢ proc + At.start_code
    → let base = proc_nr * process_mem_space % u32_mod in
      let limit = limit_of m (user_ds current) in
      (moved : Memory) × (copy_memory free_page current proc_nr proc m ≡ (
        if (limit_of m (user_cs current) == limit)
          && (base_of m (user_cs current) == base_of m (user_ds current))
        then after_copy free_page base limit
            (copy_page_tables (base_of m (user_cs current)) base limit moved)
        else halted))
      × (get_seg_base (load_descriptor moved (user_cs current)) ≡ base)
      × (get_seg_base (load_descriptor moved (user_ds current)) ≡ base)
      × (moved.word other ≡ m.word other)
unfolding copy_memory
copy_memory_lem free_page current proc_nr proc other m aligned outside different =
    let base = proc_nr * process_mem_space % u32_mod in
    let moved = move_segments current proc base m in
    let (code_at, data_at, kept) =
      move_segments_lem current proc base other m aligned (omega arith) outside different in
    (
      moved,
      elim (Bool-cases (limit_of m (user_cs current) == limit_of m (user_ds current))) [
        | inr differ ↦ rw (differ, copy_memory) refl
        | inl limits ↦
            elim (Bool-cases (base_of m (user_cs current) == base_of m (user_ds current))) [
              | inr differ ↦ rw (limits, differ, copy_memory) refl
              | inl bases ↦
                  rw (limits, bases, copy_memory)
                    (after_copy_lem free_page base (limit_of m (user_ds current)) (
                      copy_page_tables (base_of m (user_cs current)) base
                        (limit_of m (user_ds current)) moved))
            ]
      ],
      code_at,
      data_at,
      kept,
    )

-- The copy of the parent's page tables.
abbrev pub copied : (proc_nr : ℕ) → Registers → Tasks → Copied
copied proc_nr r s =
    let m = filled proc_nr r s in
    let base = proc_nr * process_mem_space % u32_mod in
    copy_page_tables (base_of m (user_cs s.current)) base (limit_of m (user_ds s.current))
      (move_segments s.current (child s) base m)

-- With a page for the child and segments of the parent that agree: if the copy of the page tables
-- succeeds, `copy_process` returns 0 and the entry of the process table is free; if it fails, the
-- entry is the child, and the pid in its structure is returned. Either way a pid is used up.
pub copy_process_lem :
    (free_page : ℕ → Memory → Memory) (proc_nr : ℕ) (r : Registers) (s : Tasks) (ok : Bool)
    (m' : Memory)
    → (child s == 0) ≡ false
    → IsFlat s.current (filled proc_nr r s)
    → copied proc_nr r s ≡ returned ok m'
    → (pid : ℕ) × (s' : Tasks) × (copy_process free_page proc_nr r s ≡ some (pid, s'))
      × (pid ≡ (if ok then 0 else s'.memory.word (child s + At.pid)))
      × (s'.process proc_nr ≡ (if ok then 0 else child s))
      × (s'.last_pid ≡ s.last_pid + 1)
unfolding copy_process finish_process copy_memory get_last_pid
copy_process_lem free_page proc_nr r s true m' page flat done =
    let self : (proc_nr == proc_nr) ≡ true = ground arith in
    (
      0,
      record (entered proc_nr s) {
        memory = free_phy_page (child s) (
            free_page_tables free_page (proc_nr * process_mem_space % u32_mod)
              (limit_of (filled proc_nr r s) (user_ds s.current)) m');
        process = λ j. if j == proc_nr then 0 else (entered proc_nr s).process j;
      },
      rw (copy_process, page, copy_memory, flat.limits, flat.bases, done) refl,
      refl,
      rw self refl,
      refl,
    )
copy_process_lem free_page proc_nr r s false m' page flat done =
    let self : (proc_nr == proc_nr) ≡ true = ground arith in
    (
      (put_word (share (child s) m') (child s) running).word (child s + At.pid),
      record (entered proc_nr s) { memory = put_word (share (child s) m') (child s) running },
      rw (copy_process, page, copy_memory, flat.limits, flat.bases, done) refl,
      refl,
      rw self refl,
      refl,
    )
