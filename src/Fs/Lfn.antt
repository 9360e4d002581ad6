-- ===== src/Fs/Lfn.antt =====
-- kernel/fs.c: the long names of VFAT, thirteen bytes in each directory entry.
pub mod Chars
pub mod RoundTrip
use vampire_os.Prelude.{
  ℕ, zero, suc, ◌+◌, ◌-◌, ◌*◌, ◌/◌, ◌%◌, List, [], ◌∷◌, ◌++◌, Option, none, some, Bool, true, false,
  ◌&&◌, ◌||◌, not, length, get_or, set, replicate, drop, bit_or, ltb, leb, ◌==◌, if◌then◌else◌,
}
use vampire_os.Prelude.Bytes.{u8}
use vampire_os.Fs.{name_max, byte}

abbrev pub lfn_chars_max : ℕ
lfn_chars_max = 13

abbrev pub lfn_max : ℕ
lfn_max = 2

-- `lfn_slot`: where the entry has the thirteen bytes, each with a zero behind it.
abbrev pub lfn_slot : List ℕ
lfn_slot = 1 ∷ 3 ∷ 5 ∷ 7 ∷ 9 ∷ 14 ∷ 16 ∷ 18 ∷ 20 ∷ 22 ∷ 24 ∷ 28 ∷ 30 ∷ []

-- The sum after one more byte.
abbrev pub add_byte : ℕ → ℕ → ℕ
add_byte s b = u8 ((if s % 2 == 1 then 0x80 else 0) + s / 2 + b)

unfoldable pub cksum_from : ℕ → ℕ → List ℕ → ℕ
cksum_from zero s n83 = s
cksum_from (suc n) s n83 = cksum_from n (add_byte s (byte n83 0)) (drop 1 n83)

unfoldable pub lfn_cksum : List ℕ → ℕ
lfn_cksum n83 = cksum_from 11 0 n83

-- The loop of `lfn_store` over the slots that are left, with the bytes of the name from there on.
unfoldable pub put_chars : List ℕ → Bool → List ℕ → List ℕ → List ℕ
put_chars [] done name ent = ent
put_chars (s ∷ slots) true name ent = put_chars slots true name (set (set ent s 0xff) (s + 1) 0xff)
put_chars (s ∷ slots) false [] ent = put_chars slots true [] ent
put_chars (s ∷ slots) false (c ∷ name) ent = put_chars slots false name (set ent s (u8 c))

-- The entry in front of its characters.
abbrev pub blank_entry : ℕ → ℕ → List ℕ
blank_entry seq sum = set (set (set (replicate 32 0) 0 seq) 11 0x0f) 13 sum

unfoldable pub lfn_store : ℕ → ℕ → List ℕ → ℕ → List ℕ
lfn_store seq sum name start = put_chars lfn_slot false (drop start name) (blank_entry seq sum)

-- The loop of `fs_create` over the entries of a long name, the last part of the name first.
unfoldable pub lfn_entries : ℕ → ℕ → ℕ → List ℕ → List ℕ
lfn_entries zero lfn_n sum name = []
lfn_entries (suc seq) lfn_n sum name =
    let bits = if suc seq == lfn_n then bit_or (u8 (suc seq)) 0x40 else u8 (suc seq) in
    lfn_store bits sum name (seq * lfn_chars_max) ++ lfn_entries seq lfn_n sum name

-- The loop of `lfn_chars` over the slots that are left; `out` is what the name has so far.
unfoldable pub get_chars : List ℕ → List ℕ → List ℕ → Option (List ℕ)
get_chars [] ent out = some out
get_chars (s ∷ slots) ent out =
    let lo = byte ent s in
    let hi = byte ent (s + 1) in
    let rest = get_chars slots ent (out ++ (lo ∷ [])) in
    if (lo == 0) && (hi == 0)
    then some out
    else if not (hi == 0) || ltb lo 0x20 || leb name_max (length out + 1)
    then none
    else rest

unfoldable pub lfn_chars : List ℕ → List ℕ → Option (List ℕ)
lfn_chars ent out =
    if not (byte ent 11 == 0x0f) || not (byte ent 12 == 0) then none else get_chars lfn_slot ent out

-- The entry's number and sum are those wanted.
abbrev pub entry_fits : ℕ → ℕ → ℕ → List ℕ → Bool
entry_fits i count sum ent =
    let seq = u8 (count - i) in
    (byte ent 0 == (if i == 0 then bit_or seq 0x40 else seq)) && (byte ent 13 == sum)

-- `for (i = 0; i < count; i++)`, by the entries that are left.
unfoldable pub entries_fit : ℕ → ℕ → ℕ → ℕ → List ℕ → Bool
entries_fit zero i count sum first = true
entries_fit (suc left) i count sum first =
    entry_fits i count sum (drop (i * 32) first) && entries_fit left (i + 1) count sum first

-- `while (i > 0)`: the entries from the last one on.
unfoldable pub join_chars : ℕ → List ℕ → List ℕ → Option (List ℕ)
join_chars zero first out = some out
join_chars (suc i) first out = elim (lfn_chars (drop (i * 32) first) out) [
  | none ↦ none
  | some more ↦ join_chars i first more
]

abbrev pub not_empty : Option (List ℕ) → Option (List ℕ)
not_empty none = none
not_empty (some []) = none
not_empty (some (c ∷ out)) = some (c ∷ out)

unfoldable pub lfn_build : List ℕ → ℕ → List ℕ → Option (List ℕ)
lfn_build first count n83 =
    if (count == 0) || ltb lfn_max count || not (entries_fit count 0 count (lfn_cksum n83) first)
    then none
    else not_empty (join_chars count first [])
