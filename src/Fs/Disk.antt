-- ===== src/Fs/Disk.antt =====
-- How structures lie in the bytes of a block, and the bit operations of oslib/string.asm.
pub mod Codec
pub mod Bits
use lychee_os.Base.{
  ℕ, zero, suc, ◌+◌, ◌*◌, ◌-◌, ◌/◌, ◌%◌, ◌^◌, Bool, List, [], ◌∷◌, ◌==◌, if◌then◌else◌, get_or, set,
}
use lychee_os.Fs.{Inode, SuperBlock}

-- A number of `n` bytes from a place on, low byte first.
unfoldable pub get_le : (n : ℕ) → List ℕ → (p : ℕ) → ℕ
get_le zero bytes p = 0
get_le (suc n) bytes p = get_or bytes p 0 + 2 ^ 8 * get_le n bytes (p + 1)

unfoldable pub put_le : (n : ℕ) → List ℕ → (p value : ℕ) → List ℕ
put_le zero bytes p value = bytes
put_le (suc n) bytes p value = put_le n (set bytes p (value % 2 ^ 8)) (p + 1) (value / 2 ^ 8)

-- `((u16 *)data)[k]`
abbrev pub u16_at : List ℕ → ℕ → ℕ
u16_at bytes k = get_le 2 bytes (2 * k)

abbrev pub put_u16 : List ℕ → (k value : ℕ) → List ℕ
put_u16 bytes k value = put_le 2 bytes (2 * k) value

-- `struct_inode` has 42 bytes, and 44 with its padding, which a copy leaves alone here.
abbrev pub inode_size : ℕ
inode_size = 44

abbrev pub inodes_per_block : ℕ
inodes_per_block = 1024 / inode_size

unfoldable pub get_u16s : (n : ℕ) → List ℕ → (p : ℕ) → List ℕ
get_u16s zero bytes p = []
get_u16s (suc n) bytes p = get_le 2 bytes p ∷ get_u16s n bytes (p + 2)

unfoldable pub put_u16s : List ℕ → List ℕ → (p : ℕ) → List ℕ
put_u16s [] bytes p = bytes
put_u16s (x ∷ xs) bytes p = put_u16s xs (put_le 2 bytes p x) (p + 2)

-- `*(struct_inode *)inode = ((struct_inode *)data)[k];`
unfoldable pub load_inode : List ℕ → (k : ℕ) → Inode → Inode
load_inode bytes k inode =
    let p = k * inode_size in
    record inode {
      mode = get_le 4 bytes p;
      size = get_le 4 bytes (p + 4);
      modify_time = get_le 4 bytes (p + 8);
      create_time = get_le 4 bytes (p + 12);
      last_access = get_le 4 bytes (p + 16);
      nlinks = get_le 4 bytes (p + 20);
      data_blocks = get_u16s 9 bytes (p + 24);
    }

-- `((struct_inode *)data)[k] = *(struct_inode *)inode;`
unfoldable pub store_inode : Inode → (k : ℕ) → List ℕ → List ℕ
store_inode inode k bytes0 =
    let p = k * inode_size in
    let bytes1 = put_le 4 bytes0 p inode.mode in
    let bytes2 = put_le 4 bytes1 (p + 4) inode.size in
    let bytes3 = put_le 4 bytes2 (p + 8) inode.modify_time in
    let bytes4 = put_le 4 bytes3 (p + 12) inode.create_time in
    let bytes5 = put_le 4 bytes4 (p + 16) inode.last_access in
    let bytes6 = put_le 4 bytes5 (p + 20) inode.nlinks in put_u16s inode.data_blocks bytes6 (p + 24)

-- `*((struct_super_block *)sb) = *((struct_super_block *)data);`, with two bytes of padding before
-- `max_size`.
unfoldable pub load_super : List ℕ → SuperBlock → SuperBlock
load_super bytes sb = record sb {
  nr_inodes = get_le 2 bytes 0;
  nr_blocks = get_le 2 bytes 2;
  imap_blocks = get_le 2 bytes 4;
  dmap_blocks = get_le 2 bytes 6;
  first_data_block = get_le 2 bytes 8;
  max_size = get_le 4 bytes 12;
  magic = get_le 2 bytes 16;
}

-- `bts` and `btr` on the bytes from an address on: the old bit, and the bytes with the bit set or
-- cleared.
abbrev pub get_bit : List ℕ → (nr : ℕ) → ℕ
get_bit bytes nr = get_or bytes (nr / 8) 0 / 2 ^ (nr % 8) % 2

unfoldable pub set_bit : List ℕ → (nr : ℕ) → ℕ × List ℕ
set_bit bytes nr =
    let byte = get_or bytes (nr / 8) 0 in
    let old = get_bit bytes nr in
    (old, if old == 1 then bytes else set bytes (nr / 8) (byte + 2 ^ (nr % 8)))

unfoldable pub clear_bit : List ℕ → (nr : ℕ) → ℕ × List ℕ
clear_bit bytes nr =
    let byte = get_or bytes (nr / 8) 0 in
    let old = get_bit bytes nr in
    (old, if old == 1 then set bytes (nr / 8) (byte - 2 ^ (nr % 8)) else bytes)
