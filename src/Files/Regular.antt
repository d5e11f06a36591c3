-- ===== src/Files/Regular.antt =====
-- fs/file_dev.c: directories and normal files. An `int` is a 32-bit word; positions are below 2^31.
use lychee_os.Base.{
  ℕ, zero, suc, ◌+◌, ◌-◌, ◌/◌, ◌%◌, ◌^◌, Bool, true, none, some, List, [], ◌++◌, not, leb, ltb,
  ◌==◌, if◌then◌else◌, add32, sub32,
}
use lychee_os.Buffer.{block_size}
use lychee_os.Fs.{
  World, Cmd, pure, spin, ◌>>=◌, ◌>>◌, inode_at, set_inode, buffer_at, set_buffer, time,
  read_buffer, release_buffer,
}
use lychee_os.Fs.BlockDev.{put_bytes, get_bytes}
use lychee_os.Fs.Mapping.{touch, ib_map, ib_map_new}
use lychee_os.Files.{File}

abbrev pub is_negative : ℕ → Bool
is_negative x = leb (2 ^ 31) x

-- `x < y` for two words with a sign.
abbrev pub less_int : (x y : ℕ) → Bool
less_int x y = ltb ((x + 2 ^ 31) % 2 ^ 32) ((y + 2 ^ 31) % 2 ^ 32)

-- The bytes to move in a block, and how many a loop `while(chars -- > 0)` moves.
abbrev pub chars_in : (offset count : ℕ) → ℕ
chars_in offset count = if less_int count (block_size - offset) then count else block_size - offset

abbrev pub rounds : ℕ → ℕ
rounds chars = if is_negative chars then 0 else chars

-- `flags & FILE_CTL_APPEND`
abbrev pub appends : File → Bool
appends file = file.flags / 2 ^ 11 % 2 == 1

module _ (w : World) where
  -- The loop of `file_write` on fuel, `while(count < 0)`; its results are `pos` and `write`. The variable
  -- `block` is compared with the mapped block, `==` for `=`, and never set.
  unfoldable pub write_file : (fuel block i pos write count : ℕ) → (buffer : ℕ → ℕ) → Cmd (ℕ × ℕ)
  write_file zero block i pos write count buffer = spin
  write_file (suc fuel) block i pos write count buffer =
      if not (is_negative count) then pure (pos, write) else (do
        mapped ← ib_map_new w (some i) (pos / 2 ^ 10)
        if not (block == mapped) then pure (pos, write) else (do
          n ← inode_at i
          got ← read_buffer w n.dev block
          let chars = chars_in (pos % block_size) count
          elim got [
            | none ↦ pure (pos, write)
            | some b ↦ (do
              set_buffer b (λ m. record m {
                data_block = put_bytes m.data_block (pos % block_size) buffer (rounds chars);
                dirty = true;
              })
              release_buffer w (some b)
              write_file fuel block i (add32 pos chars) (add32 write chars) (sub32 count chars)
                  (λ k. buffer (rounds chars + k)))
          ]))

  -- The end of `file_write`; the results are the bytes written and the file.
  unfoldable pub finish_write : (i : ℕ) → (file : File) → (pos write : ℕ) → Cmd (ℕ × File)
  finish_write i file pos write = do
    now ← time
    set_inode i (touch now)
    if appends file
        then pure (write, file)
        else (do set_inode i (touch now); pure (write, record file { offset = pos }))

  unfoldable pub file_write :
      (block i : ℕ) → (file : File) → (buffer : ℕ → ℕ) → (count : ℕ) → Cmd (ℕ × File)
  file_write block i file buffer count = do
    n ← inode_at i
    end ← write_file w.fuel block i (if appends file then n.size else file.offset) 0 count buffer
    finish_write i file (end.0) (end.1)

  -- The loop of `file_read` on fuel; its results are `read` and the bytes stored.
  unfoldable pub read_file : (fuel i pos got count : ℕ) → List ℕ → Cmd (ℕ × List ℕ)
  read_file zero i pos got count bytes = spin
  read_file (suc fuel) i pos got count bytes =
      if not (is_negative count) then pure (got, bytes) else (do
        block ← ib_map w (some i) (pos / 2 ^ 10)
        if block == 0 then pure (got, bytes) else (do
          n ← inode_at i
          buffer ← read_buffer w n.dev block
          let chars = chars_in (pos % block_size) count
          elim buffer [
            | none ↦ pure (got, bytes)
            | some b ↦ (do
              m ← buffer_at b
              release_buffer w (some b)
              read_file fuel i (add32 pos chars) (add32 got chars) (sub32 count chars)
                  (bytes ++ get_bytes m.data_block (pos % block_size) (rounds chars)))
          ]))

  -- The position of the file is not moved.
  unfoldable pub file_read : (i : ℕ) → (file : File) → (count : ℕ) → Cmd (ℕ × List ℕ)
  file_read i file count = do
    end ← read_file w.fuel i file.offset 0 count []
    now ← time
    set_inode i (touch now)
    pure end
