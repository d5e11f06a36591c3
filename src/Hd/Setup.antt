-- ===== src/Hd/Setup.antt =====
-- The partition table that `hd_init` builds.
use lychee_os.Base.{
  ℕ, ◌+◌, ◌*◌, ◌%◌, ◌^◌, ◌≤◌, ◌<◌, ◌≡◌, refl, ap, ◌∙◌, Option, some, ◌&&◌, ltb, leb, ◌==◌,
  if◌then◌else◌, u32_mod, arith,
}
use lychee_os.Hd.{Hd, returned, and_then}
use lychee_os.Hd.Init.{hd_init, read_partitions, read_disk, find_disks, disk_at, u32_at}

abbrev with_partitions : (ℕ → ℕ) → Hd → Hd
with_partitions boot s = record s {
  hd_partition = λ k.
      if leb 1 k && ltb k 5
      then record { start_sector = u32_at boot 0x1C6; nr_sectors = u32_at boot 0x1CA }
      else s.hd_partition k;
}

read_partitions-signed :
    (boot : ℕ → ℕ) (s : Hd)
    → boot 510 ≡ 0x55
    → boot 511 ≡ 0xAA
    → read_partitions 0 boot s ≡ returned (with_partitions boot s)
unfolding read_partitions
read_partitions-signed boot s a b = rw (a, b) refl

init_of :
    (bios : ℕ → ℕ) (boot : ℕ → Option (ℕ → ℕ)) (s s' : Hd)
    → read_disk boot 0 (find_disks bios s) ≡ returned s'
    → s'.nr_hd ≡ 1
    → hd_init bios boot s ≡ returned s'
unfolding hd_init
init_of bios boot s s' e one =
    ap (λ r. and_then r (λ t. if t.nr_hd == 2 then read_disk boot 1 t else returned t)) e
    ∙ rw one refl

-- With nothing behind the table of disks, and a first block with its signature, `hd_init` counts one
-- disk, takes its size from the BIOS entry, and enters the first partition of the table four times.
pub hd_init_lem :
    (bios : ℕ → ℕ) (boot : ℕ → Option (ℕ → ℕ)) (bytes : ℕ → ℕ) (s : Hd)
    → (s.hd 2).cylinder ≡ 0
    → boot 0 ≡ some bytes
    → bytes 510 ≡ 0x55
    → bytes 511 ≡ 0xAA
    → (s' : Hd) × (hd_init bios boot s ≡ returned s')
      × (s'.nr_hd ≡ 1)
      × ((s'.hd_partition 0).nr_sectors ≡ bios 2 * (bios 0 + bios 1 * 2 ^ 8) * bios 14 % u32_mod)
      × ((j : ℕ)
          → 1 ≤ j
          → j < 5
          → s'.hd_partition j
            ≡ record { start_sector = u32_at bytes 0x1C6; nr_sectors = u32_at bytes 0x1CA })
unfolding find_disks disk_at
hd_init_lem bios boot bytes s one e sig sig' =
    let s1 = find_disks bios s in
    let one_disk : s1.nr_hd ≡ 1 = rw one refl in
    (
      with_partitions bytes s1,
      init_of bios boot s (with_partitions bytes s1)
          (rw (e, read_disk) (read_partitions-signed bytes s1 sig sig')) one_disk,
      one_disk,
      refl,
      λ j ge lt. ground arith,
    )
