-- ===== src/Syscall/Tests.antt =====
-- System calls at concrete numbers.
use lychee_os.Base.{ℕ, ◌≡◌, some, arith}
use lychee_os.Syscall.{
  SysCall, sys_fork, sys_pause, sys_write, sys_read, sys_getpid, Table, sys_call_table,
  set_system_call, sys_call,
}
use lychee_os.Syscall.Dispatch.{sys_call_lem, sys_call-set_system_call}

abbrev address : SysCall → ℕ
address sys_fork = 0x1000
address sys_pause = 0x1010
address sys_write = 0x1020
address sys_read = 0x1030
address sys_getpid = 0x1040

abbrev table : Table
table = sys_call_table address (λ k. 0xBAD)

-- A number behind the table is called.
calls_behind : sys_call 77 table ≡ some 0xBAD
unfolding sys_call_table
calls_behind = sys_call_lem 77 table (omega arith)

sys_call-set_system_call_example : sys_call 5 (set_system_call 5 0x9000 table) ≡ some 0x9000
sys_call-set_system_call_example = sys_call-set_system_call 5 0x9000 5 table (omega arith)
