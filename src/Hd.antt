-- ===== src/Hd.antt =====
-- The hard disk driver: kernel/blk/hd.c with include/hd.h.
pub mod Requests
pub mod Init
pub mod Places
pub mod Retries
pub mod Setup
pub mod Install
mod Tests
use Prim.Native.Nat.{bit_or}
use lychee_os.Base.{
  ℕ, zero, suc, ◌+◌, ◌-◌, ◌*◌, ◌/◌, ◌%◌, ◌^◌, Bool, true, false, Option, none, some, List, [], ◌∷◌,
  ◌++◌, ◌&&◌, ◌||◌, not, ltb, leb, ◌==◌, if◌then◌else◌, u32_mod, add32, sub32,
}
use lychee_os.Blk.{Request, Io, put_request, read, write, end_request}

abbrev pub max_errors : ℕ
max_errors = 7

abbrev pub major_hd : ℕ
major_hd = 3

-- `struct_hd`.
pub record Disk : Type 0 where
  pub head : ℕ
  pub cylinder : ℕ
  pub precomp : ℕ
  pub land_zone : ℕ
  pub sectors_per_track : ℕ
  pub ctl : ℕ

-- `struct_hd_partition`.
pub record Partition : Type 0 where
  pub start_sector : ℕ
  pub nr_sectors : ℕ

-- The functions that `do_hd` points to; `no_handler` is NULL.
pub data Handler : Type 0 where
  no_handler : Handler
  int_hd_read : Handler
  int_hd_write : Handler

-- What the driver does at the ports: a byte out, and 256 words in or out at an offset in the data of a
-- buffer.
pub data Access : Type 0 where
  out_byte : ℕ → ℕ → Access
  port_read : Option ℕ → ℕ → Access
  port_write : Option ℕ → ℕ → Access

-- The driver's state. `status k` is the k-th byte that the state register yields, `reads` counts the
-- reads, and `accesses` holds the port accesses, the last one last.
pub record Hd : Type 0 where
  pub io : Io
  pub do_hd : Handler
  pub nr_hd : ℕ
  pub hd : ℕ → Disk
  pub hd_partition : ℕ → Partition
  pub status : ℕ → ℕ
  pub reads : ℕ
  pub accesses : List Access

-- The end of a driver function: it returns, halts the machine, goes through a NULL current request, or
-- divides by zero.
pub data Ended : Type 0 where
  returned : Hd → Ended
  halted : Ended
  null_request : Ended
  divided_by_zero : Ended

abbrev pub out : ℕ → ℕ → Hd → Hd
out value port s = record s { accesses = s.accesses ++ (out_byte (value % 2 ^ 8) port ∷ []) }

-- A loop `while(--n && ...)` that reads the state register until a test holds; `n` is what `--n`
-- leaves.
unfoldable pub poll : (ℕ → Bool) → ℕ → Hd → ℕ × Hd
poll test zero s = (0, s)
poll test (suc n) s =
    let s' = record s { reads = s.reads + 1 } in
    let rest = poll test n s' in if test (s.status s.reads) then (suc n, s') else rest

-- `(state & (HD_STATE_READY | HD_STATE_BUSY)) == HD_STATE_READY`.
abbrev pub ready : ℕ → Bool
ready state = state / 2 ^ 6 % 4 == 1

unfoldable pub is_hd_ready : Hd → ℕ × Hd
is_hd_ready s = poll ready 9999 s

-- `==` binds tighter than `&`: the mask, 0xF5, is compared with 0x50, and `state` is masked with the
-- result. The error register is read at the next place of the stream.
unfoldable pub is_hd_error : Hd → Bool × Hd
is_hd_error s =
    let state = s.status s.reads in
    let s' = record s { reads = s.reads + 1 } in
    let masked = state % 2 * (if 0xF5 == 0x50 then 1 else 0) in
    if not (masked == 0)
    then (false, s')
    else (true, if state % 2 == 1 then record s' { reads = s'.reads + 1 } else s')

unfoldable pub is_hd_busy : Hd → Bool × Hd
is_hd_busy s = let polled = poll ready 9999 s in (polled.0 == 0, polled.1)

-- The parameters and the command, in the order of the ports.
abbrev pub send : ℕ → ℕ → ℕ → ℕ → ℕ → ℕ → Hd → Hd
send driver nsectors sector head cyl cmd s =
    let d = s.hd driver in
    out cmd 0x1F7 (
      out (bit_or (bit_or 0xA0 (driver * 2 ^ 4)) head) 0x1F6 (
        out (cyl / 2 ^ 8) 0x1F5 (
          out (cyl % 2 ^ 8) 0x1F4 (
            out sector 0x1F3
              (out nsectors 0x1F2 (out (d.precomp / 4) 0x1F1 (out d.ctl 0x3F6 s)))))))

unfoldable pub hd_cmd_out : ℕ → ℕ → ℕ → ℕ → ℕ → ℕ → Handler → Hd → Ended
hd_cmd_out driver nsectors sector head cyl cmd pfn_int s =
    let polled = is_hd_ready s in
    if ltb 1 driver
    then halted
    else if polled.0 == 0
    then halted
    else returned (send driver nsectors sector head cyl cmd (record (polled.1) { do_hd = pfn_int }))

unfoldable pub reset_controller : Hd → Hd
reset_controller s = (is_hd_busy (out (s.hd 0).ctl 0x1F7 (out 4 0x1F7 s))).1

unfoldable pub reset_hd : ℕ → Hd → Ended
reset_hd driver s =
    let d = s.hd driver in
    if ltb 1 driver
    then returned s
    else hd_cmd_out driver d.sectors_per_track d.sectors_per_track (sub32 d.head 1) d.cylinder 0x91
        no_handler (reset_controller s)

-- A change of the current request; `null_request` if there is none.
unfoldable pub on_current : (ℕ → Request → Hd → Ended) → Hd → Ended
on_current f s = elim (s.io.current major_hd) [
  | none ↦ null_request
  | some c ↦ f c (s.io.request c) s
]

abbrev pub put_current : ℕ → Request → Hd → Hd
put_current c r s = record s { io = record (s.io) { request = put_request s.io.request c r } }

unfoldable pub end_hd : Bool → Hd → Ended
end_hd uptodate s = elim (end_request major_hd uptodate s.io) [
  | none ↦ null_request
  | some io ↦ returned (record s { io = io })
]

abbrev pub and_then : Ended → (Hd → Ended) → Ended
and_then (returned s) f = f s
and_then halted f = halted
and_then null_request f = null_request
and_then divided_by_zero f = divided_by_zero
