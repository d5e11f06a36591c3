-- ===== src/Hd/Requests.antt =====
-- The requests and the interrupts of the driver in kernel/blk/hd.c.
use lychee_os.Base.{
  ℕ, ◌+◌, ◌*◌, ◌/◌, ◌%◌, ◌^◌, true, false, Option, none, some, [], ◌∷◌, ◌++◌, ◌||◌, not, ltb, leb,
  ◌==◌, if◌then◌else◌, add32, sub32,
}
use lychee_os.Blk.{Request, read, write}
use lychee_os.Hd.{
  max_errors, Disk, Hd, Ended, poll, is_hd_error, hd_cmd_out, on_current, put_current, end_hd,
  and_then, no_handler, int_hd_read, int_hd_write, port_read, port_write, returned, halted,
  divided_by_zero,
}

unfoldable pub failed_rw : Hd → Ended
failed_rw s =
    on_current
      (λ c r s.
        let s' = put_current c (record r { nr_errors = r.nr_errors + 1 }) s in
        if leb max_errors (r.nr_errors + 1) then end_hd false s' else returned s')
      s

-- Division of an `int`, a 32-bit pattern, by a positive `int`, and the rest: of a negative one both are
-- those of its absolute value, negated.
unfoldable pub int_div : (a d : ℕ) → ℕ
int_div a d = if ltb a (2 ^ 31) then a / d else sub32 0 (sub32 0 a / d)

unfoldable pub int_mod : (a d : ℕ) → ℕ
int_mod a d = if ltb a (2 ^ 31) then a % d else sub32 0 (sub32 0 a % d)

-- The sector on the track, from 1, the head and the cylinder of a sector of the disk.
unfoldable pub place : Disk → ℕ → ℕ × ℕ × ℕ
place d block =
    let track = int_div block d.sectors_per_track in
    (add32 (int_mod block d.sectors_per_track) 1, int_mod track d.head, int_div track d.head)

-- The write command behind `hd_cmd_out`: the wait for HD_STATE_DRQ, bit 3, and the first sector.
unfoldable pub push_sector : Hd → Ended
push_sector s =
    let polled = poll (λ state. state / 2 ^ 3 % 2 == 1) 10000 s in
    let ready_to_write = if polled.0 == 0 then failed_rw polled.1 else returned polled.1 in
    and_then ready_to_write (λ s'.
      on_current
        (λ c r s''.
          returned (record s'' { accesses = s''.accesses ++ (port_write r.mbuffer r.offset ∷ []) }))
        s')

-- The part of `do_hd_request` that starts the current request at `block` of the partition `dev`.
unfoldable pub start_request : ℕ → ℕ → Hd → Ended
start_request dev block s =
    let absolute = add32 block (s.hd_partition dev).start_sector in
    let driver = dev / 5 in
    let d = s.hd driver in
    let at = place d absolute in
    if (d.sectors_per_track == 0) || (d.head == 0)
    then divided_by_zero
    else on_current
        (λ c r s'.
          if r.cmd == write
          then and_then (hd_cmd_out driver r.nr_sectors at.0 at.1 at.2 0x30 int_hd_write s')
              push_sector
          else if r.cmd == read
          then hd_cmd_out driver r.nr_sectors at.0 at.1 at.2 0x20 int_hd_read s'
          else halted)
        s

-- The test that ends the request does not return.
unfoldable pub do_hd_request : Hd → Ended
do_hd_request s =
    on_current
      (λ c r s'. elim (r.dev) [
        | none ↦ returned s'
        | some full_dev ↦
            let dev = full_dev % 2 ^ 8 in
            let block = r.start_sector in
            let checked =
              if ltb (5 * s'.nr_hd) dev || ltb r.nr_sectors (add32 block 2)
              then end_hd false s'
              else returned s' in
            and_then checked (start_request dev block)
      ])
      s

-- A sector more of a transfer: what both interrupt functions do to the request.
abbrev pub next_sector : Request → Request
next_sector r = record r {
  nr_errors = 0;
  offset = r.offset + 512;
  start_sector = add32 r.start_sector 1;
  nr_sectors = sub32 r.nr_sectors 1;
}

unfoldable pub on_read : Hd → Ended
on_read s =
    let checked = is_hd_error s in
    let ok =
      on_current
        (λ c r s'.
          let s'' =
            put_current c (next_sector r)
              (record s' { accesses = s'.accesses ++ (port_read r.mbuffer r.offset ∷ []) }) in
          if not (sub32 r.nr_sectors 1 == 0)
          then returned (record s'' { do_hd = int_hd_read })
          else and_then (end_hd true s'') do_hd_request)
        checked.1 in
    if checked.0 then and_then (failed_rw checked.1) do_hd_request else ok

unfoldable pub on_write : Hd → Ended
on_write s =
    let checked = is_hd_error s in
    let ok =
      on_current
        (λ c r s'.
          let s'' = put_current c (next_sector r) s' in
          if not (sub32 r.nr_sectors 1 == 0)
          then returned (record s'' {
            do_hd = int_hd_write;
            accesses = s'.accesses ++ (port_write r.mbuffer (r.offset + 512) ∷ []);
          })
          else and_then (end_hd true s'') do_hd_request)
        checked.1 in
    if checked.0 then and_then (failed_rw checked.1) do_hd_request else ok

-- The call of a NULL `do_hd` is left out.
unfoldable pub irq_hd_handler : Hd → Option Ended
irq_hd_handler s = elim (s.do_hd) [
  | no_handler ↦ none
  | int_hd_read ↦ some (on_read s)
  | int_hd_write ↦ some (on_write s)
]
