-- ===== src/Syscall.antt =====
-- System calls: kernel/syscall.c with include/syscall.h, and the entry sys_call of kernel/syscall.asm.
pub mod Dispatch
mod Tests
use lychee_os.Base.{
  ℕ, ◌-◌, ◌*◌, ◌%◌, ◌/◌, ◌^◌, ◌&&◌, Option, none, some, ltb, leb, ◌==◌, if◌then◌else◌, sub32,
}
use lychee_os.Kernel.{Idt, set_system_gate}

abbrev pub nr_sys_calls : ℕ
nr_sys_calls = 5

abbrev pub nr_int_sys_call : ℕ
nr_int_sys_call = 0x80

-- The functions that the table holds at first.
pub data SysCall : Type 0 where
  sys_fork : SysCall
  sys_pause : SysCall
  sys_write : SysCall
  sys_read : SysCall
  sys_getpid : SysCall

-- `sys_call_table`: the addresses of functions. What follows the array in memory goes on behind it.
abbrev pub Table : Type 0
Table = ℕ → ℕ

-- `address` gives the addresses that the linker chose, `behind` the words behind the array.
unfoldable pub sys_call_table : (address : SysCall → ℕ) (behind : ℕ → ℕ) → Table
sys_call_table address behind k =
    if k == 0
    then address sys_fork
    else if k == 1
    then address sys_pause
    else if k == 2
    then address sys_write
    else if k == 3
    then address sys_read
    else if k == 4
    then address sys_getpid
    else behind k

unfoldable pub set_system_call : (nr_call fn_sys_call : ℕ) → Table → Table
set_system_call nr_call fn_sys_call table k =
    if leb nr_call nr_sys_calls && (k == nr_call) then fn_sys_call else table k

-- NR_SYS_CALLS of the assembly file is 0, so the first comparison is with 2^32 - 1; `jb` after a
-- comparison with 0 never jumps. The result is the address that is called, at `sys_call_table + eax*4`.
unfoldable pub sys_call : (eax : ℕ) → Table → Option ℕ
sys_call eax table =
    if ltb (sub32 0 1) eax
    then none
    else if ltb eax 0
    then none
    else some (table (eax * 4 % 2 ^ 32 / 4))

-- `entry` is the address of `sys_call`.
unfoldable pub syscall_init : (entry : ℕ) → Idt → Idt
syscall_init entry idt = set_system_gate idt nr_int_sys_call entry
