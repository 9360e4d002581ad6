-- ===== src/Bio.antt =====
-- kernel/bio.c: the block devices, the first of which has the file system's partition. A device's driver
-- is given by its functions on the state M of the machine.
pub mod Range
pub mod Names
mod Tests
use vampire_os.Prelude.{
  ℕ, zero, suc, ◌+◌, ◌-◌, ◌*◌, ◌%◌, ◌^◌, List, [], ◌∷◌, ◌++◌, Option, none, some, Bool, true, false,
  ◌&&◌, ◌||◌, not, length, get_or, bit_or, ltb, leb, ◌==◌, if◌then◌else◌,
}

abbrev pub bdev_max : ℕ
bdev_max = 4

-- `struct bdev`. A read gives the bytes, or none for a result that is not 0; a write is true for 0.
pub record Bdev {ℓ} (M : Type ℓ) : Type ℓ where
  pub name : List ℕ
  pub read : ℕ → ℕ → M → Option (List ℕ) × M
  pub write : ℕ → ℕ → List ℕ → M → Bool × M
  pub flush : Option (M → Bool × M)
  pub sectors : ℕ

-- `table`, as far as `n_devs`, and `part_lba`.
pub record Bio {ℓ} (M : Type ℓ) : Type ℓ where
  pub table : List (Bdev M)
  pub part_lba : ℕ

-- The number that four bytes give, the low one first.
abbrev pub rd32 : List ℕ → ℕ → ℕ
rd32 p i =
    bit_or
      (bit_or (bit_or (get_or p i 0) (get_or p (i + 1) 0 * 2 ^ 8)) (get_or p (i + 2) 0 * 2 ^ 16))
      (get_or p (i + 3) 0 * 2 ^ 24)

-- The test of a range of sectors against the size of the device, by 32-bit sums.
abbrev pub beyond : ℕ → ℕ → ℕ → ℕ → Bool
beyond lim part lba sectors =
    let abs = (lba + part) % 2 ^ 32 in
    if lim == 0 then false else ltb abs lba || leb lim abs || ltb (lim - abs) sectors

-- The entry of the partition table, where it is a FAT12 one.
abbrev pub partition : List ℕ → ℕ → Option ℕ
partition mbr i =
    let at_ = 0x1be + i * 16 in
    let start = rd32 mbr (at_ + 8) in
    if (get_or mbr (at_ + 4) 0 == 1) && not (start == 0) && not (rd32 mbr (at_ + 12) == 0)
    then some start
    else none

-- The first such entry from the i-th on, by the entries that are left.
unfoldable pub find_partition : ℕ → ℕ → List ℕ → Option ℕ
find_partition zero i mbr = none
find_partition (suc left) i mbr = elim (partition mbr i) [
  | some start ↦ some start
  | none ↦ find_partition left (i + 1) mbr
]

abbrev pub from_mbr : List ℕ → Option ℕ
from_mbr mbr =
    if not (get_or mbr 510 0 == 0x55) || not (get_or mbr 511 0 == 0xaa)
    then none
    else find_partition 4 0 mbr

-- The bytes that a NUL-terminated name of a device leaves room for: `while (*s && n + 1 < max)`.
unfoldable pub put_name : ℕ → List ℕ → List ℕ → List ℕ
put_name max dst [] = dst
put_name max dst (c ∷ s) =
    let rest = put_name max (dst ++ (c ∷ [])) s in if ltb (length dst + 1) max then rest else dst

module _ {ℓ} {M : Type ℓ} where
  unfoldable pub past_end : ℕ → ℕ → Bio M → Bool
  past_end lba sectors b = elim b.table [
    | [] ↦ true
    | d ∷ _ ↦ (sectors == 0) || beyond d.sectors b.part_lba lba sectors
  ]

  -- True for 0.
  unfoldable pub bio_init : Bio M → M → Bool × Bio M × M
  bio_init b m = elim b.table [
    | [] ↦ (false, record b { part_lba = 0 }, m)
    | d ∷ _ ↦
        let (got, m') = d.read 0 1 m in
        elim got [
          | none ↦ (false, record b { part_lba = 0 }, m')
          | some mbr ↦ elim (from_mbr mbr) [
            | none ↦ (false, record b { part_lba = 0 }, m')
            | some start ↦ (true, record b { part_lba = start }, m')
          ]
        ]
  ]

  -- A driver's functions are not null; none stands for a null name.
  unfoldable pub bdev_register :
      Option (List ℕ)
      → (ℕ → ℕ → M → Option (List ℕ) × M)
      → (ℕ → ℕ → List ℕ → M → Bool × M)
      → Bio M
      → Bool × Bio M
  bdev_register none read write b = (false, b)
  bdev_register (some name) read write b = if leb bdev_max (length b.table) then (false, b) else (
    true,
    record b {
      table =
          b.table
          ++ (record { name = name; read = read; write = write; flush = none; sectors = 0 } ∷ []);
    },
  )

  -- A change of the last device.
  unfoldable pub on_last : (Bdev M → Bdev M) → List (Bdev M) → List (Bdev M)
  on_last f [] = []
  on_last f (d ∷ []) = f d ∷ []
  on_last f (d ∷ e ∷ ds) = d ∷ on_last f (e ∷ ds)

  pub bdev_set_sectors : ℕ → Bio M → Bio M
  bdev_set_sectors n b = record b { table = on_last (λ d. record d { sectors = n }) b.table }

  pub bdev_set_flush : Option (M → Bool × M) → Bio M → Bio M
  bdev_set_flush f b = record b { table = on_last (λ d. record d { flush = f }) b.table }

  unfoldable pub bflush : Bio M → M → Bool × M
  bflush b m = elim b.table [
    | [] ↦ (false, m)
    | d ∷ _ ↦ elim d.flush [ none ↦ (false, m) | some f ↦ f m ]
  ]

  -- The driver is called with the sector of the whole disk.
  unfoldable pub bread : ℕ → ℕ → Bio M → M → Option (List ℕ) × M
  bread lba sectors b m = elim b.table [
    | [] ↦ (none, m)
    | d ∷ _ ↦
        let r = d.read ((lba + b.part_lba) % 2 ^ 32) sectors m in
        if past_end lba sectors b then (none, m) else r
  ]

  unfoldable pub bwrite : ℕ → ℕ → List ℕ → Bio M → M → Bool × M
  bwrite lba sectors src b m = elim b.table [
    | [] ↦ (false, m)
    | d ∷ _ ↦
        let r = d.write ((lba + b.part_lba) % 2 ^ 32) sectors src m in
        if past_end lba sectors b then (false, m) else r
  ]

  -- The loop over the devices; the result has no NUL.
  unfoldable pub list_names : ℕ → List (Bdev M) → List ℕ → List ℕ
  list_names max [] dst = dst
  list_names max (d ∷ ds) dst =
      let first = list_names max ds (put_name max dst d.name) in
      let next = list_names max ds (put_name max (dst ++ (32 ∷ [])) d.name) in
      if ltb 0 (length dst) then if leb max (length dst + 1) then dst else next else first

  -- None is -1: no room at all.
  unfoldable pub bdev_list : ℕ → Bio M → Option (List ℕ)
  bdev_list zero b = none
  bdev_list (suc room) b = some (list_names (suc room) b.table [])
