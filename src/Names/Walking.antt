-- ===== src/Names/Walking.antt =====
-- Where `namei` gets to: the start of a path, and what becomes of the rest.
use lychee_os.Base.{
  ℕ, zero, suc, ◌+◌, ◌^◌, ◌<◌, ◌≤◌, ◌≡◌, ◌≢◌, refl, inl, inr, Bool, true, false, Option, none, some,
  List, not, leb, ◌==◌, if◌then◌else◌, length, Bool-cases, arith,
}
use lychee_os.Process.{Process}
use lychee_os.Fs.{Store, World, Result, returns, strays, is_dir}
use lychee_os.Fs.Inodes.Search.{counted}
use lychee_os.Names.{Text, Around, name_len, skip, strchr, all_equal}
use lychee_os.Names.Matching.{Spells, strlen-Spells}
use lychee_os.Names.Paths.{
  Walk, Place, is_minus_one, is_positive, flag, used, take_name, find_slash, walk_down, enter,
  get_dir, dir_namei, namei,
}

-- An inode that is there and in use.
pub record IsUsed (o : Option ℕ) (i : ℕ) (s : Store) : Type 0 where
  pub here : o ≡ some i
  pub counted : (s.inodes i).count ≢ 0

used-IsUsed :
    (w : World) (around : Around) (current : Process) (o : Option ℕ) (i : ℕ) (s : Store)
    → IsUsed o i s
    → used w around current o s ≡ returns i s
unfolding used
used-IsUsed w around current o i s there =
    let busy : ((s.inodes i).count == 0) ≡ false = ground (arith, there.counted) in
    rw (there.here, used, busy) refl

-- The inode that the walk along a path starts from, and the rest of the path.
pub data Start (path : Text) (root pwd : ℕ) : (start : ℕ) → (rest : Text) → Type 0 where
  absolute : path 0 ≡ b'/' → Start path root pwd root (skip 1 path)
  relative : path 0 ≢ b'/' → path 0 ≢ 0 → Start path root pwd pwd path

get_dir-Start :
    (w : World) (around : Around) (current : Process) (path rest : Text) (root pwd start : ℕ)
    (s : Store)
    → IsUsed current.root root s
    → IsUsed current.pwd pwd s
    → Start path root pwd start rest
    → get_dir w around current path s ≡ enter w around current start rest s
unfolding get_dir
get_dir-Start w around current path rest root pwd start s has_root has_pwd from =
    rw
      (
        used-IsUsed w around current current.root root s has_root,
        used-IsUsed w around current current.pwd pwd s has_pwd,
      )
      (branch start rest from)
  where
    branch :
        (start : ℕ) (rest : Text)
        → Start path root pwd start rest
        → (if path 0 == b'/'
              then enter w around current root (skip 1 path)
              else if not (path 0 == 0)
              then enter w around current pwd path
              else returns none)
            s
          ≡ enter w around current start rest s
    branch start rest (absolute slash) =
        let is_slash : (path 0 == b'/') ≡ true = ground arith in rw is_slash refl
    branch start rest (relative other more) =
        let no_slash : (path 0 == b'/') ≡ false = ground arith in
        let some_char : (path 0 == 0) ≡ false = ground arith in rw (no_slash, some_char) refl

-- Where edi points to another byte than a slash, `strchr` comes back with its return address.
strchr-other :
    (at_edi : Text) (back c len : ℕ) → 0 < len → at_edi 0 ≢ c → strchr at_edi back c len ≡ back
unfolding strchr all_equal
strchr-other at_edi back c zero some_char other = absurd (omega arith)
strchr-other at_edi back c (suc len) some_char other =
    let apart : (at_edi 0 == c) ≡ false = ground arith in rw apart refl

-- `strchr` does not look at the slash, and the kernel's code lies where an address is a large int that is not negative.
pub record IsLost (around : Around) : Type 0 where
  pub other : around.at_edi 0 ≢ b'/'
  pub far : name_len ≤ around.return_address + 1
  pub near : around.return_address < 2 ^ 31

-- The first round at a directory: the path ends there, or the walk goes astray.
abbrev pub first_round : (start rest_len : ℕ) (s : Store) → Result (Option Place)
first_round start rest_len s =
    if rest_len == 0 then returns (some (record { inode = start; isfile = false })) s else strays

module _ (w : World) (around : Around) (current : Process) where
  find_slash-IsLost :
      (call : ℕ) (path : Text) (xs : List ℕ)
      → Spells path xs
      → length xs < around.turns call path
      → IsLost around
      → (length xs == 0) ≡ false
      → find_slash w around current call path ≡ around.return_address
  unfolding find_slash
  find_slash-IsLost call path xs spelled room lost more =
      rw (strlen-Spells (around.turns call path) path xs spelled room) (
        strchr-other around.at_edi around.return_address b'/' (length xs) (ground arith) lost.other)

  take_name-IsLost :
      (walk : Walk) (s : Store)
      → IsLost around
      → take_name w around current walk around.return_address s ≡ strays
  unfolding take_name
  take_name-IsLost walk s lost =
      let positive : is_positive around.return_address ≡ true = ground (arith, lost.near) in
      let outside : leb name_len (around.return_address + 1) ≡ true = ground (arith, lost.far) in
      rw (positive, outside) refl

flag-small : (b : Bool) → is_minus_one (flag b) ≡ false
flag-small true = refl
flag-small false = refl

module _ (w : World) (around : Around) (current : Process) (start : ℕ) (s : Store) where
  walk_down-first_round :
      (fuel : ℕ) (walk : Walk) (xs : List ℕ)
      → 0 < fuel
      → is_dir (s.inodes start).mode ≡ true
      → Spells walk.path xs
      → ((call : ℕ) → length xs < around.turns call walk.path)
      → IsLost around
      → walk_down w around current fuel start walk s ≡ first_round start (length xs) s
  unfolding walk_down
  walk_down-first_round zero walk xs enough dir spelled room lost = absurd (omega arith)
  walk_down-first_round (suc fuel) walk xs enough dir spelled room lost =
      let len7 = strlen-Spells (around.turns 7 walk.path) walk.path xs spelled (room 7) in
      elim (Bool-cases (length xs == 0)) [
        | inl ended ↦ rw (dir, len7, ended) refl
        | inr more ↦
            let slash : find_slash w around current 9 walk.path ≡ around.return_address =
              find_slash-IsLost w around current 9 walk.path xs spelled (room 9) lost more in
            let unequal : is_minus_one
                  (flag (walk.index == find_slash w around current 8 walk.path))
                ≡ false =
              flag-small (walk.index == find_slash w around current 8 walk.path) in
            rw (dir, len7, more, unequal, slash, take_name-IsLost w around current walk s lost) refl
      ]

enter-first_round :
    (w : World) (around : Around) (current : Process) (start : ℕ) (s : Store) (rest : Text)
    (xs : List ℕ)
    → 0 < w.fuel
    → is_dir (s.inodes start).mode ≡ true
    → Spells rest xs
    → ((call : ℕ) → length xs < around.turns call rest)
    → IsLost around
    → enter w around current start rest s ≡ first_round start (length xs) (counted start s)
unfolding enter
enter-first_round w around current start s rest xs enough dir spelled room lost =
    let self : (start == start) ≡ true = ground arith in
    let still : is_dir ((counted start s).inodes start).mode ≡ true = rw self dir in
    walk_down-first_round w around current start (counted start s) w.fuel
      (record { path = rest; name = around.stack; index = around.index }) xs enough still spelled
      room lost

-- What `namei` makes of the end of the first round.
abbrev pub named : (start rest_len : ℕ) (s : Store) → Result (Option ℕ)
named start rest_len s = if rest_len == 0 then returns (some start) (counted start s) else strays

-- The root and the working directory of the process are used inodes, the walk starts from one of them, which is a
-- directory, and `xs` spells the rest of the path, which is shorter than the loops of `strlen` may turn.
-- With fuel, where `strchr` meets no slash and returns to an address from 13 to below 2^31, `namei` gives the
-- start with one more user when the rest is empty, and goes astray for every other path.
pub namei-named :
    (w : World) (around : Around) (current : Process) (path rest : Text) (root pwd start : ℕ)
    (xs : List ℕ) (s : Store)
    → 0 < w.fuel
    → IsUsed current.root root s
    → IsUsed current.pwd pwd s
    → Start path root pwd start rest
    → is_dir (s.inodes start).mode ≡ true
    → Spells rest xs
    → ((call : ℕ) → length xs < around.turns call rest)
    → IsLost around
    → namei w around current path s ≡ named start (length xs) s
unfolding namei dir_namei
namei-named w around current path rest root pwd start xs s enough has_root has_pwd from dir spelled
      room lost =
    rw
      (
        get_dir-Start w around current path rest root pwd start s has_root has_pwd from,
        enter-first_round w around current start s rest xs enough dir spelled room lost,
      )
      (elim (Bool-cases (length xs == 0)) [ inl ended ↦ rw ended refl | inr more ↦ rw more refl ])
