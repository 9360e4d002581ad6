-- ===== src/Fs/Scan.antt =====
-- kernel/fs.c: the files of the directory that is loaded.
use vampire_os.Prelude.{
  ℕ, zero, suc, List, [], ◌∷◌, ◌++◌, Option, none, some, Bool, true, false, not, ◌||◌, length,
  bit_and, ltb, leb, ◌==◌, if◌then◌else◌,
}
use vampire_os.Fs.{names_eq, byte, dot, rd_u16, rd_u32}
use vampire_os.Fs.Name.{fat_name}
use vampire_os.Fs.Lfn.{lfn_max, lfn_build}
use vampire_os.Fs.File.{load_file}
use vampire_os.Fs.Dir.{dir_ents, entry}
use vampire_os.Fs.Dirs.{dir_load}
use vampire_os.Fs.Action.{
  File, Volume, Machine, Act, ⊤, pure, gets, modify, fail_if, call, ◌>>=◌, ◌>>◌,
}

abbrev pub fs_max : ℕ
fs_max = 48

abbrev pub file_max : ℕ
file_max = 0x1000

abbrev pub plus_one : Option ℕ → Option ℕ
plus_one none = none
plus_one (some i) = some (suc i)

unfoldable pub file_named : List ℕ → List File → Option ℕ
file_named name [] = none
file_named name (f ∷ files) =
    let rest = plus_one (file_named name files) in if names_eq name f.name then some 0 else rest

unfoldable pub find_file : List ℕ → Volume → Option ℕ
find_file [] v = none
find_file (c ∷ name) v = file_named (c ∷ name) v.files

-- `lfn_ent` and `lfn_n`: the first entry of a long name and how many there are of it.
abbrev pub LongName : Type 0
LongName = Option (ℕ × ℕ)

-- What an entry of a long name makes of that.
abbrev pub more_name : ℕ → List ℕ → LongName → LongName
more_name i ent lfn = if not (bit_and (byte ent 0) 0x40 == 0) then some (i, 1) else elim lfn [
  | none ↦ none
  | some (first, n) ↦ if ltb n lfn_max then some (first, suc n) else none
]

-- The name of an entry: the long one in front of it, where it is whole, else the short one.
unfoldable pub name_at : List ℕ → ℕ → LongName → List ℕ
name_at dir i none = fat_name (entry dir i)
name_at dir i (some (first, n)) = elim (lfn_build (entry dir first) n (entry dir i)) [
  | none ↦ fat_name (entry dir i)
  | some name ↦ name
]

abbrev pub add_file : File → Volume → Volume
add_file f v = record v { files = v.files ++ (f ∷ []) }

-- The bytes of an entry that name no file, the last two an old 0xe5 and the directory's own entries.
abbrev pub is_no_file : ℕ → Bool
is_no_file c = (c == 0xe5) || (c == 0x05) || (c == dot)

module _ {ℓ} {M : Type ℓ} (k : Machine M) where
  -- Whether load_file returned 0, and what it copied.
  abbrev pub load_act : ℕ → ℕ → Act M (Bool × List ℕ)
  load_act cl size s =
      let (ok, bytes, m) = load_file k.disk s.vol.table s.vol.first_data cl size s.rest in
      (some (ok, bytes), record s { rest = m })

  -- A plain file: none of it where it is larger than a page, -1 where there is no page. One that cannot be
  -- read to its end stays listed, with the bytes that were read.
  unfoldable pub scan_file : ℕ → List ℕ → ℕ → ℕ → Act M ⊤
  scan_file i name cl size =
      let step : Act M ⊤ = do
        page ← call k.page_buf
        fail_if (not page)
        (ok, bytes) ← load_act cl size
        modify (
            add_file (record {
              name = name;
              page = some bytes;
              len = size;
              cluster = cl;
              slot = i;
              is_dir = false;
            }))
      in if ltb file_max size then pure tt else step

  unfoldable pub scan_entry : ℕ → LongName → Act M ⊤
  scan_entry i lfn = do
    v ← gets (λ v. v)
    let ent = entry v.dir i
    let name = name_at v.dir i lfn
    let cl = rd_u16 ent 26
    let directory : File = record {
      name = name;
      page = none;
      len = 0;
      cluster = cl;
      slot = i;
      is_dir = true;
    }
    let plain = scan_file i name cl (rd_u32 ent 28)
    if bit_and (byte ent 11) 0x10 == 0 then plain else modify (add_file directory)

  -- The loop of `scan_dir`, by the entries that are left.
  unfoldable pub scan_from : ℕ → ℕ → LongName → Act M ⊤
  scan_from zero i lfn s = (some tt, s)
  scan_from (suc left) i lfn s =
      let ent = entry s.vol.dir i in
      let c = byte ent 0 in
      let attr = byte ent 11 in
      let next = λ (l : LongName). scan_from left (suc i) l s in
      if leb fs_max (length s.vol.files) || (c == 0)
      then (some tt, s)
      else if is_no_file c
      then next none
      else if attr == 0x0f
      then next (more_name i ent lfn)
      else if not (bit_and attr 0x08 == 0)
      then next none
      else (scan_entry i lfn >> scan_from left (suc i) none) s

  abbrev pub drop_file : File → M → M
  drop_file f m = elim f.page [ none ↦ m | some _ ↦ k.drop_page m ]

  unfoldable pub drop_pages : List File → M → M
  drop_pages [] m = m
  drop_pages (f ∷ files) m = drop_pages files (drop_file f m)

  abbrev pub drop_files : Act M ⊤
  drop_files s = (
    some tt,
    record s { vol = record s.vol { files = [] }; rest = drop_pages s.vol.files s.rest },
  )

  unfoldable pub scan_dir : Act M ⊤
  scan_dir = do drop_files; dir_load k; v ← gets (λ v. v); scan_from (dir_ents v.dir_bytes) 0 none
