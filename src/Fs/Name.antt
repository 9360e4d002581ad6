-- ===== src/Fs/Name.antt =====
-- kernel/fs.c: the short names of eight and three bytes, and which names there may be.
pub mod RoundTrip
use vampire_os.Prelude.{
  ℕ, zero, suc, ◌+◌, ◌-◌, List, [], ◌∷◌, ◌++◌, Option, none, some, Bool, true, false, ◌&&◌, ◌||◌,
  not, length, drop, replicate, ltb, leb, ◌==◌, if◌then◌else◌,
}
use vampire_os.Fs.{name_max, dot, byte, cons?}

abbrev pub space : ℕ
space = 32

abbrev pub is_lower : ℕ → Bool
is_lower c = leb 97 c && leb c 122

abbrev pub is_upper : ℕ → Bool
is_upper c = leb 65 c && leb c 90

unfoldable pub name_char : ℕ → Bool
name_char c = is_lower c || leb 48 c && leb c 57

unfoldable pub fold_az : ℕ → ℕ
fold_az c = if is_upper c then c - 65 + 97 else c

-- The byte of a short name for a folded one.
unfoldable pub raise_az : ℕ → ℕ
raise_az c = if is_lower c then c - 97 + 65 else c

abbrev pub cons_byte : ℕ → Option (List ℕ × List ℕ) → Option (List ℕ × List ℕ)
cons_byte c none = none
cons_byte c (some (out, rest)) = some (c ∷ out, rest)

-- The loop over the name in front of the dot, by the bytes that have room; what is left of the name.
unfoldable pub stem_bytes : ℕ → List ℕ → Option (List ℕ × List ℕ)
stem_bytes n [] = some ([], [])
stem_bytes zero (c ∷ s) = some ([], c ∷ s)
stem_bytes (suc n) (c ∷ s) =
    let rest = stem_bytes n s in
    if c == dot
    then some ([], c ∷ s)
    else if name_char (fold_az c)
    then cons_byte (raise_az (fold_az c)) rest
    else none

-- The loop over the name behind the dot.
unfoldable pub ext_bytes : ℕ → List ℕ → Option (List ℕ × List ℕ)
ext_bytes n [] = some ([], [])
ext_bytes zero (c ∷ s) = some ([], c ∷ s)
ext_bytes (suc n) (c ∷ s) =
    let rest = ext_bytes n s in
    if name_char (fold_az c) then cons_byte (raise_az (fold_az c)) rest else none

-- The bytes on a field of n spaces.
unfoldable pub padded : ℕ → List ℕ → List ℕ
padded zero s = []
padded (suc n) [] = space ∷ padded n []
padded (suc n) (c ∷ s) = c ∷ padded n s

abbrev pub with_ext : List ℕ → Option (List ℕ × List ℕ) → Option (List ℕ)
with_ext stem none = none
with_ext stem (some ([], rest)) = none
with_ext stem (some (e ∷ ext, [])) = some (padded 8 stem ++ padded 3 (e ∷ ext))
with_ext stem (some (e ∷ ext, _ ∷ _)) = none

abbrev pub with_stem : Option (List ℕ × List ℕ) → Option (List ℕ)
with_stem none = none
with_stem (some ([], rest)) = none
with_stem (some (b ∷ stem, [])) = some (padded 8 (b ∷ stem) ++ padded 3 [])
with_stem (some (b ∷ stem, c ∷ rest)) =
    if c == dot then with_ext (b ∷ stem) (ext_bytes 3 rest) else none

unfoldable pub to_83 : List ℕ → Option (List ℕ)
to_83 name = with_stem (stem_bytes 8 name)

-- The bytes in front of the first space, of n at most.
unfoldable pub name_run : ℕ → List ℕ → List ℕ
name_run zero s = []
name_run (suc n) [] = []
name_run (suc n) (c ∷ s) = let rest = name_run n s in if c == space then [] else fold_az c ∷ rest

unfoldable pub fat_name : List ℕ → List ℕ
fat_name ent = name_run 8 ent ++ (if byte ent 8 == space then [] else dot ∷ name_run 3 (drop 8 ent))

-- The loop of `lfn_ok` from the n-th byte on; true for 0.
unfoldable pub lfn_bytes_ok : ℕ → List ℕ → Bool
lfn_bytes_ok n [] = true
lfn_bytes_ok n (c ∷ s) =
    not (leb name_max (n + 1)) && ((c == dot) || name_char (fold_az c)) && lfn_bytes_ok (n + 1) s

unfoldable pub lfn_ok : List ℕ → Bool
lfn_ok [] = false
lfn_ok (c ∷ s) = lfn_bytes_ok 0 (c ∷ s)
