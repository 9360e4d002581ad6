-- ===== src/Fs.antt =====
-- kernel/fs.c: the FAT12 volume on the disk, one directory of it at a time. A C string is the list of its
-- bytes in front of the NUL; a byte buffer is the list of its bytes.
pub mod Fat
pub mod Path
pub mod Name
pub mod Lfn
pub mod Disk
pub mod File
pub mod Dir
pub mod Action
pub mod Dirs
pub mod Scan
pub mod Walk
pub mod Create
pub mod Edit
pub mod Look
pub mod Safe
mod Tests
use vampire_os.Prelude.{
  ℕ, ◌+◌, ◌*◌, ◌/◌, ◌^◌, List, [], ◌∷◌, Option, none, some, Bool, true, false, ◌&&◌, get_or, bit_or,
  ltb, leb, ◌==◌, if◌then◌else◌,
}
use vampire_os.Prelude.Bytes.{u8}

abbrev pub sec : ℕ
sec = 512

abbrev pub chain_max : ℕ
chain_max = 8

abbrev pub fat12_eof : ℕ
fat12_eof = 0xff8

-- The byte at `p[i]`.
abbrev pub byte : List ℕ → ℕ → ℕ
byte p i = get_or p i 0

abbrev pub path_max : ℕ
path_max = 80

abbrev pub name_max : ℕ
name_max = 16

abbrev pub slash : ℕ
slash = 47

abbrev pub dot : ℕ
dot = 46

unfoldable pub names_eq : List ℕ → List ℕ → Bool
names_eq [] [] = true
names_eq [] (_ ∷ _) = false
names_eq (_ ∷ _) [] = false
names_eq (a ∷ as_) (b ∷ bs) = (a == b) && names_eq as_ bs

abbrev pub cons? : ℕ → Option (List ℕ) → Option (List ℕ)
cons? c none = none
cons? c (some s) = some (c ∷ s)

-- The copy from the n-th byte on; the destination has room for `max` bytes with the NUL.
unfoldable pub copy_str : ℕ → ℕ → List ℕ → Option (List ℕ)
copy_str n max [] = some []
copy_str n max (c ∷ s) =
    let rest = copy_str (n + 1) max s in if leb max (n + 1) then none else cons? c rest

unfoldable pub rd_u16 : List ℕ → ℕ → ℕ
rd_u16 p i = bit_or (byte p i) (byte p (i + 1) * 2 ^ 8)

unfoldable pub rd_u32 : List ℕ → ℕ → ℕ
rd_u32 p i =
    bit_or (bit_or (bit_or (byte p i) (byte p (i + 1) * 2 ^ 8)) (byte p (i + 2) * 2 ^ 16))
      (byte p (i + 3) * 2 ^ 24)

-- The bytes that `wr_u16` and `wr_u32` write.
abbrev pub wr_u16 : ℕ → List ℕ
wr_u16 v = u8 v ∷ u8 (v / 2 ^ 8) ∷ []

abbrev pub wr_u32 : ℕ → List ℕ
wr_u32 v = u8 v ∷ u8 (v / 2 ^ 8) ∷ u8 (v / 2 ^ 16) ∷ u8 (v / 2 ^ 24) ∷ []
