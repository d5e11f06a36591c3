-- ===== src/Files/Handles.antt =====
-- Open handles.
use lychee_os.Base.{
  ℕ, ◌^◌, ◌<◌, ◌≡◌, false, Option, none, some, List, ◌||◌, leb, ◌==◌, get_or, arith,
}
use lychee_os.Files.Regular.{is_negative}
use lychee_os.Files.Calls.{nr_open, file_of}

pub file_of-open :
    (files : List (Option ℕ)) (fhandle count f : ℕ)
    → fhandle < nr_open
    → 0 < count
    → count < 2 ^ 31
    → get_or files fhandle none ≡ some f
    → file_of files fhandle count ≡ some f
unfolding file_of
file_of-open files fhandle count f handle some_count small opened =
    let test : (leb nr_open fhandle || is_negative count || (count == 0)) ≡ false = ground arith in
    rw test opened
