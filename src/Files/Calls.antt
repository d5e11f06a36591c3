-- ===== src/Files/Calls.antt =====
-- fs/rw.c: the calls sys_write and sys_read.
use lychee_os.Base.{ℕ, Option, none, some, List, [], ◌||◌, leb, ◌==◌, if◌then◌else◌, get_or}
use lychee_os.Cache.{done, halted, spun}
use lychee_os.Fs.{is_chr, is_blk, is_dir, is_normal}
use lychee_os.Fs.BlockDev.{block_write}
use lychee_os.Files.{Call, answers, stops, loops, Around, world_of, on_result, set_file}
use lychee_os.Files.Chars.{chr_write, chr_read}
use lychee_os.Files.Regular.{is_negative, file_write, file_read}

abbrev pub nr_open : ℕ
nr_open = 8

-- The file of a handle that the tests let through.
unfoldable pub file_of : (files : List (Option ℕ)) (fhandle count : ℕ) → Option ℕ
file_of files fhandle count =
    if leb nr_open fhandle || is_negative count || (count == 0)
    then none
    else get_or files fhandle none

module _ (a : Around) where
  -- `block_write(inode->data[0],&file->offset,buffer,count)`
  unfoldable pub write_device : (dev f : ℕ) → (buffer : ℕ → ℕ) → (count : ℕ) → Call ℕ
  write_device dev f buffer count s =
      elim (block_write a.io_others a.has_fn a.do_request_fn a.ll_rw a.nr_buffers a.wait_fuel count
        dev ((s.file_table f).offset) buffer count (s.store.io)) [
          | spun ↦ loops
          | halted ↦ stops
          | done (pos, written, io) ↦ answers written (
              set_file f (λ file. record file { offset = pos })
                (record s { store = record (s.store) { io = io } }))
        ]

  -- `block` is what the variable of `file_write` holds that is never set.
  unfoldable pub sys_write : (block fhandle : ℕ) → (buffer : ℕ → ℕ) → (count : ℕ) → Call ℕ
  sys_write block fhandle buffer count s = elim (file_of s.files fhandle count) [
    | none ↦ answers 0 s
    | some f ↦
        let file = s.file_table f in
        let inode = s.store.inodes file.inode in
        let dev = get_or inode.data_blocks 0 0 in
        if is_chr inode.mode
        then chr_write a dev buffer count s
        else if is_blk inode.mode
        then write_device dev f buffer count s
        else if is_dir inode.mode || is_normal inode.mode
        then on_result (file_write (world_of a) block file.inode file buffer count s.store)
            (λ end s'. answers (end.0) (set_file f (λ old. end.1) s')) s
        else answers 0 s
  ]

  -- The value and the bytes stored; a file of no type ends without a value.
  unfoldable pub sys_read : (fhandle count : ℕ) → Call (ℕ × List ℕ)
  sys_read fhandle count s = elim (file_of s.files fhandle count) [
    | none ↦ answers (0, []) s
    | some f ↦
        let file = s.file_table f in
        let inode = s.store.inodes file.inode in
        let dev = get_or inode.data_blocks 0 0 in
        if is_chr inode.mode
        then chr_read a dev count s
        else if is_blk inode.mode
        then a.blk_read dev f count s
        else if is_dir inode.mode || is_normal inode.mode
        then on_result (file_read (world_of a) file.inode file count s.store) answers s
        else answers (a.junk, []) s
  ]
