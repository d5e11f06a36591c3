-- ===== src/Names/Adding.antt =====
-- A new entry of a directory: `add_entry` of fs/namei.c.
use lychee_os.Base.{
  ℕ, zero, suc, ◌+◌, ◌*◌, ◌/◌, ◌%◌, ◌^◌, true, Option, none, some, List, ◌||◌, ltb, leb, not, ◌==◌,
  if◌then◌else◌, set,
}
use lychee_os.Process.{Process}
use lychee_os.Fs.{
  Cmd, World, pure, spin, stray, ◌>>=◌, ◌>>◌, inode_at, set_inode, set_buffer, time, read_buffer,
  release_buffer,
}
use lychee_os.Fs.Disk.{put_u16}
use lychee_os.Fs.Mapping.{touch, ib_map_new}
use lychee_os.Names.{
  Text, Around, DirEntry, name_len, entry_size, dirs_per_block, strlen, inode_of, renamed,
  first_block, find_entry,
}

-- The loop over `de->name[i]`.
unfoldable pub put_name : (n p : ℕ) (filename : Text) → List ℕ → List ℕ
put_name zero p filename bytes = bytes
put_name (suc n) p filename bytes =
    put_name n (p + 1) (λ k. filename (suc k)) (set bytes p (filename 0))

module _ (w : World) where
  -- At the end of the directory the entry becomes a part of it, with no inode. The buffer is not marked
  -- for the disk.
  unfoldable pub extend_dir : (dir i : ℕ) → DirEntry → Cmd (Unit {0})
  extend_dir dir i e = do
    n ← inode_at dir
    now ← time
    if ltb ((i * entry_size) % 2 ^ 32) n.size then pure tt else (do
      set_buffer e.buffer (λ m. record m { data_block = put_u16 m.data_block (8 * e.place) 0 })
      set_inode dir
          (λ n. record (touch now n) { size = (n.size + entry_size) % 2 ^ 32; dirty = true }))

  unfoldable pub fill_entry : (dir : ℕ) (filename : Text) → DirEntry → Cmd (Option DirEntry)
  fill_entry dir filename e = do
    now ← time
    set_inode dir (touch now)
    set_buffer e.buffer (λ m. record m {
      data_block = put_name name_len (entry_size * e.place + 2) filename m.data_block;
    })
    pure (some e)

  -- A round of the loop at the entry `i`, before the rest of the loop.
  unfoldable pub use_entry :
      (dir : ℕ) (filename : Text) (i : ℕ)
      → DirEntry
      → (rest : Cmd (Option DirEntry)) → Cmd (Option DirEntry)
  use_entry dir filename i e rest = do
    extend_dir dir i e
    inode ← inode_of e
    if inode == 0 then fill_entry dir filename e else rest

  -- The loop, on fuel, from the entry `i` on at the place `k` of the buffer. When a block cannot be
  -- read, the next round reads through NULL.
  unfoldable pub find_room : (fuel dir : ℕ) (filename : Text) (i b k : ℕ) → Cmd (Option DirEntry)
  find_room zero dir filename i b k = spin
  find_room (suc fuel) dir filename i b k =
      if not (leb dirs_per_block k)
      then use_entry dir filename i (record { buffer = b; place = k })
          (find_room fuel dir filename (i + 1) b (k + 1))
      else (do
        release_buffer w (some b)
        block ← ib_map_new w (some dir) (i / dirs_per_block)
        n ← inode_at dir
        if block == 0 then pure none else (do
          got ← read_buffer w n.dev block
          elim got [
            | none ↦ stray
            | some b' ↦
                use_entry dir filename i (record { buffer = b'; place = 0 })
                  (find_room fuel dir filename (i + 1) b' 1)
          ]))

module _ (w : World) (around : Around) (current : Process) where
  unfoldable pub add_entry : (dir : Option ℕ) (filename : Text) → Cmd (Option DirEntry)
  add_entry none filename = pure none
  add_entry (some dir) filename =
      if (filename 0 == 0) || ltb name_len (strlen (around.turns 6 filename) filename)
      then pure none
      else (do
        there ← find_entry w around current (some dir) filename
        elim there [
          | some e ↦ pure none
          | none ↦ (do
            got ← first_block w dir
            elim got [
              | none ↦ pure none
              | some b ↦ find_room w w.fuel dir (renamed around current dir filename) 0 b 0
            ])
        ])
