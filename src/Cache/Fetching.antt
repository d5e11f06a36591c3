-- ===== src/Cache/Fetching.antt =====
-- Reading a block from the device: `bread` of kernel/buffer.c over `rw_blk` and `end_request`.
use lychee_os.Base.{ℕ, some}
use lychee_os.Blk.{Io, read, set_current, fill_request}
use lychee_os.Blk.Requests.{locked_at}

-- The request `r` for the buffer `k`, in progress.
abbrev in_progress : (major k r : ℕ) → Io → Io
in_progress major k r io = set_current (fill_request (locked_at io k) read k r) major (some r)
