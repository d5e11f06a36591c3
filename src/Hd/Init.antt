-- ===== src/Hd/Init.antt =====
-- What `hd_init` of kernel/blk/hd.c reads from the BIOS table and the first blocks.
use lychee_os.Base.{
  ℕ, ◌+◌, ◌*◌, ◌%◌, ◌^◌, Option, none, some, ◌&&◌, ◌||◌, not, ltb, leb, ◌==◌, if◌then◌else◌,
  u32_mod,
}
use lychee_os.Hd.{Disk, Partition, Hd, Ended, and_then, returned, halted}

abbrev pub u16_at : (ℕ → ℕ) → ℕ → ℕ
u16_at bytes a = bytes a + bytes (a + 1) * 2 ^ 8

abbrev pub u32_at : (ℕ → ℕ) → ℕ → ℕ
u32_at bytes a = u16_at bytes a + u16_at bytes (a + 2) * 2 ^ 16

-- A disk's entry in the BIOS table.
unfoldable pub disk_at : (ℕ → ℕ) → ℕ → Disk
disk_at bios a = record {
  cylinder = u16_at bios a;
  head = bios (a + 2);
  precomp = u16_at bios (a + 5);
  ctl = bios (a + 8);
  land_zone = u16_at bios (a + 0x0C);
  sectors_per_track = bios (a + 0x0E);
}

-- The partitions of one disk from its first block: `partition` is not moved in the loop.
unfoldable pub read_partitions : ℕ → (ℕ → ℕ) → Hd → Ended
read_partitions i boot s =
    let p : Partition = record {
      start_sector = u32_at boot (0x1BE + 8);
      nr_sectors = u32_at boot (0x1BE + 12);
    } in
    if not (boot 510 == 0x55) || not (boot 511 == 0xAA)
    then halted
    else returned (record s {
      hd_partition = λ k. if leb (i * 5 + 1) k && ltb k (i * 5 + 5) then p else s.hd_partition k;
    })

abbrev pub read_disk : (ℕ → Option (ℕ → ℕ)) → ℕ → Hd → Ended
read_disk boot i s = elim (boot i) [ none ↦ halted | some bytes ↦ read_partitions i bytes s ]

-- The disks and their whole sizes. They are counted by hd[2], behind the array.
unfoldable pub find_disks : (ℕ → ℕ) → Hd → Hd
find_disks bios s =
    let hd : ℕ → Disk =
      λ i. if i == 0 then disk_at bios 0 else if i == 1 then disk_at bios 16 else s.hd i in
    let nr_hd = if (hd 2).cylinder == 0 then 1 else 2 in
    let whole : ℕ → Partition = λ i. record {
      start_sector = 0;
      nr_sectors = (hd i).head * (hd i).cylinder * (hd i).sectors_per_track % u32_mod;
    } in
    record s {
      hd = hd;
      nr_hd = nr_hd;
      hd_partition = λ k.
          if k == 0
          then whole 0
          else if (k == 5) && (nr_hd == 2)
          then whole 1
          else s.hd_partition k;
    }

-- `hd_init` up to its calls that install the driver. `boot i` is the first block of disk i, as `bread`
-- returns it; `none` is NULL.
unfoldable pub hd_init : (ℕ → ℕ) → (ℕ → Option (ℕ → ℕ)) → Hd → Ended
hd_init bios boot s =
    and_then (read_disk boot 0 (find_disks bios s))
      (λ s'. if s'.nr_hd == 2 then read_disk boot 1 s' else returned s')
