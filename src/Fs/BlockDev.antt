-- ===== src/Fs/BlockDev.antt =====
-- Reading and writing a device as a file: fs/block_dev.c.
pub mod Bytes
pub mod Loaded
pub mod Visits
pub mod Stores
pub mod Reads
pub mod Writes
pub mod Roundtrip
mod Tests
use lychee_os.Base.{
  ℕ, zero, suc, ◌+◌, ◌-◌, ◌/◌, ◌%◌, Bool, true, Option, none, some, List, [], ◌∷◌, ◌++◌, ltb, ◌==◌,
  if◌then◌else◌, get_or, set,
}
use lychee_os.Buffer.{block_size}
use lychee_os.Blk.{Io, map_buffer}
use lychee_os.Cache.{Outcome, done, halted, spun, bread, brelease}

-- `while(chars -- > 0) *(p ++) = *(buffer ++);` into a block; `buffer` is the caller's bytes from the
-- pointer on.
unfoldable pub put_bytes : List ℕ → ℕ → (ℕ → ℕ) → ℕ → List ℕ
put_bytes bytes p buffer zero = bytes
put_bytes bytes p buffer (suc chars) =
    put_bytes (set bytes p (buffer 0)) (p + 1) (λ k. buffer (suc k)) chars

-- The same loop out of a block.
unfoldable pub get_bytes : List ℕ → ℕ → ℕ → List ℕ
get_bytes bytes p zero = []
get_bytes bytes p (suc chars) = get_or bytes p 0 ∷ get_bytes bytes (p + 1) chars

-- The bytes to move in the current block.
abbrev pub chars_of : ℕ → ℕ → ℕ
chars_of offset count = if ltb count (block_size - offset) then count else block_size - offset

module _ (others : Io → Io) (has_fn : ℕ → Bool) (do_request_fn : ℕ → Io → Io)
    (ll_rw : ℕ → ℕ → Io → Io) (nr_buffers wait_fuel : ℕ) where
  -- The loop of `block_write` on fuel. It returns `*pos`, the bytes written and the buffers. Positions
  -- and counts are `int`s that stay below 2^31.
  unfoldable pub write_blocks : ℕ → ℕ → ℕ → ℕ → ℕ → ℕ → ℕ → (ℕ → ℕ) → Io → Outcome (ℕ × ℕ × Io)
  write_blocks zero dev block offset pos written count buffer io =
      if count == 0 then done (pos, written, io) else spun
  write_blocks (suc fuel) dev block offset pos written count buffer io =
      let chars = chars_of offset count in
      let next : Outcome (ℕ × ℕ × Io) =
        elim (bread others has_fn do_request_fn ll_rw nr_buffers wait_fuel dev block io) [
          | spun ↦ spun
          | halted ↦ halted
          | done (none, io1) ↦ done (pos, written, io1)
          | done (some b, io1) ↦
              elim (brelease others has_fn do_request_fn ll_rw nr_buffers wait_fuel (some b) (
                map_buffer io1 b (λ m. record m {
                  data_block = put_bytes m.data_block offset buffer chars;
                  dirty = true;
                }))) [
                  | spun ↦ spun
                  | halted ↦ halted
                  | done io2 ↦
                      write_blocks fuel dev (block + 1) 0 (pos + chars) (written + chars)
                        (count - chars) (λ k. buffer (chars + k)) io2
                ]
        ] in
      if count == 0 then done (pos, written, io) else next

  unfoldable pub block_write : ℕ → ℕ → ℕ → (ℕ → ℕ) → ℕ → Io → Outcome (ℕ × ℕ × Io)
  block_write fuel dev pos buffer count io =
      write_blocks fuel dev (pos / block_size) (pos % block_size) pos 0 count buffer io

  -- The loop of `block_read`; the bytes that it stores for the caller come last.
  unfoldable pub read_blocks :
      ℕ → ℕ → ℕ → ℕ → ℕ → ℕ → ℕ → List ℕ → Io → Outcome (ℕ × ℕ × List ℕ × Io)
  read_blocks zero dev block offset pos got count buffer io =
      if count == 0 then done (pos, got, buffer, io) else spun
  read_blocks (suc fuel) dev block offset pos got count buffer io =
      let chars = chars_of offset count in
      let next : Outcome (ℕ × ℕ × List ℕ × Io) =
        elim (bread others has_fn do_request_fn ll_rw nr_buffers wait_fuel dev block io) [
          | spun ↦ spun
          | halted ↦ halted
          | done (none, io1) ↦ done (pos, got, buffer, io1)
          | done (some b, io1) ↦
              elim (brelease others has_fn do_request_fn ll_rw nr_buffers wait_fuel (some b) io1) [
                | spun ↦ spun
                | halted ↦ halted
                | done io2 ↦
                    read_blocks fuel dev (block + 1) 0 (pos + chars) (got + chars) (count - chars)
                      (buffer ++ get_bytes (io1.buffers b).data_block offset chars) io2
              ]
        ] in
      if count == 0 then done (pos, got, buffer, io) else next

  unfoldable pub block_read : ℕ → ℕ → ℕ → ℕ → Io → Outcome (ℕ × ℕ × List ℕ × Io)
  block_read fuel dev pos count io =
      read_blocks fuel dev (pos / block_size) (pos % block_size) pos 0 count [] io
