-- ===== src/Hd/Tests.antt =====
-- Runs of the driver on one disk of 4 heads and 17 sectors.
use lychee_os.Base.{◌*◌, ◌≡◌, refl, true, false, none, some, [], ◌∷◌, ◌==◌, if◌then◌else◌, arith}
use lychee_os.Buffer.{MemBuffer}
use lychee_os.Blk.{Request}
use lychee_os.Blk.Insert.{Chain, nil, cons}
use lychee_os.Hd.{Hd, Disk, no_handler, null_request}
use lychee_os.Hd.Requests.{do_hd_request}
use lychee_os.Hd.Retries.{do_hd_request-refuses}

abbrev disk : Disk
disk = record {
  head = 4;
  cylinder = 615;
  precomp = 300;
  land_zone = 615;
  sectors_per_track = 17;
  ctl = 0;
}

abbrev request : Request
request = record {
  dev = some 0x301;
  cmd = 0;
  nr_errors = 2;
  start_sector = 28;
  nr_sectors = 2;
  offset = 0;
  mbuffer = some 5;
  next = none;
}

abbrev buffer : MemBuffer
buffer = record {
  data_block = [];
  block = 7;
  dev = some 0x301;
  uptodate = false;
  dirty = false;
  count = 1;
  locked = true;
  proc_wait = none;
}

abbrev driver : Hd
driver = record {
  io = record {
    request = λ i. request;
    current = λ m. if m == 3 then some 0 else none;
    buffers = λ i. buffer;
  };
  do_hd = no_handler;
  nr_hd = 1;
  hd = λ i. if i == 0 then disk else record disk { cylinder = 0 };
  hd_partition = λ i. record { start_sector = 17 * i; nr_sectors = 1000 };
  status = λ k. 0x50;
  reads = 0;
  accesses = [];
}

alone : Chain driver.io.request (driver.io.current 3) (0 ∷ [])
alone = cons refl refl nil

do_hd_request-refuses_example : do_hd_request driver ≡ null_request
do_hd_request-refuses_example =
    do_hd_request-refuses driver 0 5 0x301 alone refl refl refl (omega arith) (omega arith)
      (omega arith) (omega arith)
