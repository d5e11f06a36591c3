-- ===== src/Syscall/Dispatch.antt =====
-- Which function a system call reaches.
use lychee_os.Base.{
  ℕ, ◌*◌, ◌%◌, ◌/◌, ◌^◌, ◌<◌, ◌≡◌, refl, ◌∙◌, false, some, ◌&&◌, ltb, leb, ◌==◌, if◌then◌else◌,
  sub32, arith,
}
use lychee_os.Syscall.{Table, nr_sys_calls, set_system_call, sys_call}

-- Every number is accepted, and reaches the table at the lower 30 of its bits.
pub sys_call_lem :
    (eax : ℕ) (table : Table) → eax < 2 ^ 32 → sys_call eax table ≡ some (table (eax % 2 ^ 30))
unfolding sys_call
sys_call_lem eax table word =
    let passes : ltb (sub32 0 1) eax ≡ false = ground arith in
    let place : eax * 4 % 2 ^ 32 / 4 ≡ eax % 2 ^ 30 = omega arith in
    let positive : ltb eax 0 ≡ false = ground arith in rw (passes, positive, place) refl

-- No call number below 2^30 is refused. After `set_system_call` the call reaches the new function when
-- its number is the one that was given and is at most 5, which is one more than the last entry of the
-- table; it reaches what the table held for every other number, and behind the table what lies there.
pub sys_call-set_system_call :
    (nr fn eax : ℕ) (table : Table)
    → eax < 2 ^ 30
    → sys_call eax (set_system_call nr fn table)
      ≡ some (if leb nr nr_sys_calls && (eax == nr) then fn else table eax)
unfolding set_system_call
sys_call-set_system_call nr fn eax table small =
    let same : eax % 2 ^ 30 ≡ eax = omega arith in
    sys_call_lem eax (set_system_call nr fn table) (omega arith) ∙ rw same refl
