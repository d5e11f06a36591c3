-- ===== src/Tty/Tests.antt =====
-- A terminal at work.
use lychee_os.Base.{ℕ, ◌≡◌, refl, some, false, List, [], ◌∷◌, length-replicate, replicate, arith}
use lychee_os.Tty.{TtyBuffer, Console, Tty}
use lychee_os.Tty.Queue.{IsValid, enqueue, dequeue}
use lychee_os.Tty.Keys.{
  IsValidTty, Event, arrive, fetch, fetched, fetched_queue, fetched-eq-fetched_queue,
}

abbrev empty_at : ℕ → TtyBuffer
empty_at i = record {
  head = some i;
  tail = some i;
  count = 0;
  buffer = replicate 1024 0;
  astray = false;
}

abbrev console : Console
console = record {
  start_mem_addr = 0xb8000;
  current_mem_addr = 0xb8000;
  mem_size = 8192;
  cursor_pos = 0xb8000;
  top = 0;
}

abbrev fresh : ℕ → Tty
fresh pid = record {
  output_flags = 0;
  input_flags = 0;
  ctl_flags = 1;
  pid = pid;
  read_buffer = empty_at 0;
  write_buffer = empty_at 0;
  console = console;
}

empty_at-IsValid : IsValid (empty_at 0)
empty_at-IsValid = record {
  room = length-replicate {A = ℕ} 1024 0;
  start = 0;
  start_in = omega arith;
  small = omega arith;
  tail_at = refl;
  head_at = refl;
  sound = refl;
}

fresh-IsValidTty : IsValidTty (fresh 0)
fresh-IsValidTty = record { read = empty_at-IsValid; write = empty_at-IsValid }

abbrev script : List Event
script = arrive 0x61 ∷ arrive 0x62 ∷ fetch ∷ fetch ∷ fetch ∷ []

fetched-eq-fetched_queue_example : fetched (fresh 0) script ≡ 0x61 ∷ 0x62 ∷ 0 ∷ []
unfolding fetched_queue enqueue dequeue
fetched-eq-fetched_queue_example = fetched-eq-fetched_queue script (fresh 0) fresh-IsValidTty
