-- ===== src/Screen/Start.antt =====
-- What `console_init` makes of the video memory.
use lychee_os.Base.{ℕ, ◌+◌, ◌%◌, ◌<◌, ◌≤◌, ◌≡◌, inl, inr, ◌==◌, Bool-cases, arith}
use lychee_os.Tty.{Console}
use lychee_os.Screen.{nr_console}
use lychee_os.Screen.Editing.{Original, video_of, console_of, init_consoles, console_init}

-- `console_init` divides the video memory among the four consoles in order, and it also sets the entry
-- behind the table, for a fifth console that starts where the video memory ends.
pub console_init_lem :
    (o : Original) (table : ℕ → Console) (i j : ℕ)
    → i < j
    → j < nr_console
    → ((console_init o table).1 i).start_mem_addr + ((console_init o table).1 i).mem_size
        ≤ ((console_init o table).1 j).start_mem_addr
      × (((console_init o table).1 j).start_mem_addr + ((console_init o table).1 j).mem_size
          ≤ (console_init o table).0.mem_start + (console_init o table).0.video_mem_size)
      × (((console_init o table).1 nr_console).start_mem_addr
          ≡ (console_init o table).0.mem_start + (console_init o table).0.video_mem_size)
unfolding console_init init_consoles console_of video_of
console_init_lem o table i j h lt = elim (Bool-cases (o.mode == 0x07)) [
  | inl mono ↦ elim (Bool-cases (o.bx % 2 == 1)) [
    | inl large ↦ rw (mono, large) (ground arith)
    | inr small ↦ rw (mono, small) (ground arith)
  ]
  | inr colour ↦ elim (Bool-cases (o.bx % 2 == 1)) [
    | inl large ↦ rw (colour, large) (ground arith)
    | inr small ↦ rw (colour, small) (ground arith)
  ]
]
