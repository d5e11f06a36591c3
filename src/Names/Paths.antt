-- ===== src/Names/Paths.antt =====
-- Walking down a path: `get_dir`, `dir_namei` and `namei` of fs/namei.c.
use lychee_os.Base.{
  ℕ, zero, suc, ◌+◌, ◌-◌, ◌^◌, Bool, true, false, Option, none, some, ltb, leb, not, ◌==◌,
  if◌then◌else◌,
}
use lychee_os.Process.{Process}
use lychee_os.Fs.{
  Cmd, World, pure, halt, spin, stray, ◌>>=◌, ◌>>◌, inode_at, set_inode, time, release_buffer,
  is_dir,
}
use lychee_os.Fs.Inodes.{one_more, get_inode}
use lychee_os.Fs.Release.{put_inode}
use lychee_os.Names.{
  Text, Around, name_len, skip, cut, strlen, strchr, inode_of, renamed, find_entry,
}

-- A directory and `*isfile`.
pub record Place : Type 0 where
  pub inode : ℕ
  pub isfile : Bool

-- `i >= 0` and `== -1` of an int.
abbrev pub is_positive : ℕ → Bool
is_positive i = ltb i (2 ^ 31)

abbrev pub is_minus_one : ℕ → Bool
is_minus_one i = i == 2 ^ 32 - 1

-- The value of a comparison.
abbrev pub flag : Bool → ℕ
flag b = if b then 1 else 0

-- The state of the loop: the rest of the path, the array `name` and the variable `i`.
pub record Walk : Type 0 where
  pub path : Text
  pub name : Text
  pub index : ℕ

module _ (w : World) (around : Around) (current : Process) where
  -- `inode = current->root`, or `pwd`, which have to be there and in use.
  unfoldable pub used : Option ℕ → Cmd ℕ
  used none = halt
  used (some i) = do n ← inode_at i; if n.count == 0 then halt else pure i

  -- The branch for the last part of the path. `mbuffer` is not set when no entry is found, and a copy
  -- of `name` by `strncpy`, which goes from its first argument to its second, changes neither the
  -- directory nor the file name.
  unfoldable pub last_part : (inode : ℕ) (path : Text) → Cmd (Option Place)
  last_part inode path = do
    found ← find_entry w around current (some inode) path
    elim found [
      | none ↦ w.iput inode >> stray
      | some e ↦ (do
        n ← inode_at inode
        nr ← inode_of e
        target ← get_inode w n.dev nr
        elim target [
          | none ↦ (do w.iput inode; release_buffer w (some (e.buffer)); pure none)
          | some t ↦ (do
            m ← inode_at t
            release_buffer w (some (e.buffer))
            pure (
                some (
                  if is_dir m.mode
                  then record { inode = t; isfile = false }
                  else record { inode = inode; isfile = true })))
        ])
    ]

  -- `strncpy(name,path,i + 1)` writes `name` over the path; `name[i + 1] = 0` leaves the array from 14
  -- on.
  unfoldable pub take_name : Walk → (i : ℕ) → Cmd Walk
  take_name walk i =
      if not (is_positive i)
      then pure (record walk { index = i })
      else if leb name_len (i + 1)
      then stray
      else pure (record { path = skip (i + 1) walk.path; name = cut (i + 1) walk.name; index = i })

  -- The step down into a directory: its inode.
  unfoldable pub step_down : (inode : ℕ) (name : Text) → Cmd (Option ℕ)
  step_down inode name = do
    found ← find_entry w around current (some inode) name
    elim found [
      | none ↦ put_inode w (some inode) >> pure none
      | some e ↦ (do
        n ← inode_at inode
        nr ← inode_of e
        release_buffer w (some (e.buffer))
        w.iput inode
        get_inode w n.dev nr)
    ]

  -- `strchr(path,'/',strlen(path))`, at one of its two calls.
  unfoldable pub find_slash : (call : ℕ) (path : Text) → ℕ
  find_slash call path =
      strchr around.at_edi around.return_address b'/' (strlen (around.turns call path) path)

  -- The loop of `get_dir`, on fuel. The value of `i == strchr(..)` is compared with -1, and not the
  -- result of `strchr`.
  unfoldable pub walk_down : (fuel inode : ℕ) → Walk → Cmd (Option Place)
  walk_down zero inode walk = spin
  walk_down (suc fuel) inode walk = do
    n ← inode_at inode
    if not (is_dir n.mode)
        then put_inode w (some inode) >> pure none
        else if strlen (around.turns 7 walk.path) walk.path == 0
        then pure (some (record { inode = inode; isfile = false }))
        else if is_minus_one (flag (walk.index == find_slash 8 walk.path))
        then last_part inode walk.path
        else (do
          walk' ← take_name walk (find_slash 9 walk.path)
          next ← step_down inode walk'.name
          elim next [
            | none ↦ pure none
            | some i ↦
                walk_down fuel i (record walk' { name = renamed around current inode walk'.name })
          ])

  unfoldable pub enter : (inode : ℕ) (path : Text) → Cmd (Option Place)
  enter inode path = do
    set_inode inode one_more
    walk_down w.fuel inode (record { path = path; name = around.stack; index = around.index })

  -- The array `name` lies on the stack and is not set.
  unfoldable pub get_dir : (path : Text) → Cmd (Option Place)
  get_dir path = do
    root ← used current.root
    pwd ← used current.pwd
    if path 0 == b'/'
        then enter root (skip 1 path)
        else if not (path 0 == 0)
        then enter pwd path
        else pure none

  unfoldable pub dir_namei : (path : Text) → Cmd (Option Place)
  dir_namei path = get_dir path

  -- The file branch of `namei`. `mbuffer` is not set when no entry is found.
  unfoldable pub open_file : (inode : ℕ) (filename : Text) → Cmd (Option ℕ)
  open_file inode filename = do
    found ← find_entry w around current (some inode) filename
    elim found [
      | none ↦ stray
      | some e ↦ (do
        n ← inode_at inode
        nr ← inode_of e
        release_buffer w (some (e.buffer))
        put_inode w (some inode)
        target ← get_inode w n.dev nr
        now ← time
        elim target [
          | none ↦ pure none
          | some t ↦ (do
            set_inode t (λ m. record m { last_access = now; dirty = true })
            pure (some t))
        ])
    ]

  -- The array `filename` lies on the stack and is not set.
  unfoldable pub namei : (pathname : Text) → Cmd (Option ℕ)
  namei pathname = do
    place ← dir_namei pathname
    elim place [
      | none ↦ pure none
      | some p ↦ if not p.isfile then pure (some (p.inode)) else open_file p.inode around.stack
    ]
