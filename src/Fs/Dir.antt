-- ===== src/Fs/Dir.antt =====
-- kernel/fs.c: the entries of the directory that is loaded, 32 bytes each, in `g_dir`. An entry is the
-- bytes from its start on.
pub mod Run
pub mod Alias
use vampire_os.Prelude.{
  ℕ, zero, suc, ◌+◌, ◌-◌, ◌*◌, ◌/◌, ◌%◌, List, [], ◌∷◌, ◌++◌, Option, none, some, Bool, true, false,
  ◌&&◌, ◌||◌, not, min, length, get_or, set, take, drop, replicate, bit_and, ltb, leb, ◌==◌,
  if◌then◌else◌,
}
use vampire_os.Prelude.Bytes.{u8}
use vampire_os.Fs.{byte, dot, rd_u16}
use vampire_os.Fs.Name.{space, name_char, fold_az, raise_az, padded}

-- `dir_ents`, where `g_dir` holds `g_dir_bytes`.
abbrev pub dir_ents : ℕ → ℕ
dir_ents dir_bytes = dir_bytes / 32

abbrev pub entry : List ℕ → ℕ → List ℕ
entry dir i = drop (i * 32) dir

abbrev pub is_free : ℕ → Bool
is_free c = (c == 0) || (c == 0xe5)

abbrev pub free_at : List ℕ → ℕ → Bool
free_at dir i = is_free (byte dir (i * 32))

-- The loop of `dir_find_run`, by the entries that are left. The result is the number of the first entry of
-- a run of `need` free ones; in the source it is the offset, 32 times that.
unfoldable pub run_from : ℕ → ℕ → ℕ → ℕ → ℕ → List ℕ → Option ℕ
run_from zero i need run start dir = none
run_from (suc left) i need run start dir =
    let begin = if run == 0 then i else start in
    let next = run_from left (i + 1) need (run + 1) begin dir in
    let again = run_from left (i + 1) need 0 start dir in
    if free_at dir i then (if leb need (run + 1) then some begin else next) else again

unfoldable pub dir_find_run : ℕ → ℕ → List ℕ → Option ℕ
dir_find_run need dir_bytes dir =
    if need == 0 then none else run_from (dir_ents dir_bytes) 0 need 0 0 dir

-- The entries in front that belong to the one that goes: `while (off >= 32)`, by the entries in front.
unfoldable pub wipe_back : ℕ → List ℕ → List ℕ
wipe_back zero dir = dir
wipe_back (suc i) dir =
    let rest = wipe_back i (set dir (i * 32) 0xe5) in
    if free_at dir i || not (byte dir (i * 32 + 11) == 0x0f) then dir else rest

-- `off` is 32 times the number of an entry.
unfoldable pub dir_wipe : ℕ → List ℕ → List ℕ
dir_wipe i dir = wipe_back i (set dir (i * 32) 0xe5)

-- The entry is none of a name: wiped, of a long name, or the volume's label.
abbrev pub is_skipped : List ℕ → Bool
is_skipped ent =
    (byte ent 0 == 0xe5) || (byte ent 11 == 0x0f) || not (bit_and (byte ent 11) 0x08 == 0)

-- `while (k < 11 && ent[k] == n83[k])` to the end.
unfoldable pub same_bytes : ℕ → List ℕ → List ℕ → Bool
same_bytes zero a b = true
same_bytes (suc n) a b = (byte a 0 == byte b 0) && same_bytes n (drop 1 a) (drop 1 b)

-- The loop of `alias_used`, by the entries that are left.
unfoldable pub used_from : ℕ → ℕ → List ℕ → List ℕ → Bool
used_from zero i n83 dir = false
used_from (suc left) i n83 dir =
    let ent = entry dir i in
    let rest = used_from left (i + 1) n83 dir in
    if byte ent 0 == 0
    then false
    else if is_skipped ent
    then rest
    else if same_bytes 11 ent n83
    then true
    else rest

unfoldable pub alias_used : List ℕ → ℕ → List ℕ → Bool
alias_used n83 dir_bytes dir = used_from (dir_ents dir_bytes) 0 n83 dir

-- What stands in front of the last dot and behind it, where there is one.
unfoldable pub last_dot : List ℕ → Option (List ℕ × List ℕ)
last_dot [] = none
last_dot (c ∷ s) = elim (last_dot s) [
  | some (stem, ext) ↦ some (c ∷ stem, ext)
  | none ↦ if c == dot then some ([], s) else none
]

-- The bytes of a name that a short one may have, n at most.
unfoldable pub alias_bytes : ℕ → List ℕ → List ℕ
alias_bytes n [] = []
alias_bytes zero (c ∷ s) = []
alias_bytes (suc n) (c ∷ s) =
    let kept = alias_bytes n s in
    let skipped = alias_bytes (suc n) s in
    if name_char (fold_az c) then raise_az (fold_az c) ∷ kept else skipped

abbrev pub alias_parts : List ℕ → List ℕ × List ℕ
alias_parts name = elim (last_dot name) [
  | none ↦ (alias_bytes 8 name, [])
  | some (stem, ext) ↦ (alias_bytes 8 stem, alias_bytes 3 ext)
]

-- The alias with a tilde and a digit behind six bytes at most.
unfoldable pub numbered : List ℕ → List ℕ → ℕ → List ℕ
numbered base ext gen =
    padded 8 (take (min (length base) 6) base ++ (126 ∷ u8 (48 + gen) ∷ [])) ++ padded 3 ext

-- `for (gen = 1; gen <= 9; gen++)`, by the rounds that are left.
unfoldable pub first_unused : ℕ → ℕ → List ℕ → List ℕ → ℕ → List ℕ → Option (List ℕ)
first_unused zero gen base ext dir_bytes dir = none
first_unused (suc left) gen base ext dir_bytes dir =
    let rest = first_unused left (gen + 1) base ext dir_bytes dir in
    let out = numbered base ext gen in if alias_used out dir_bytes dir then rest else some out

unfoldable pub make_alias : List ℕ → ℕ → List ℕ → Option (List ℕ)
make_alias name dir_bytes dir =
    let (base, ext) = alias_parts name in
    if length base == 0 then none else first_unused 9 1 base ext dir_bytes dir

-- The entry counts as a link: a plain file's, not the one at `skip`, with the cluster.
abbrev pub is_link_to : ℕ → ℕ → ℕ → List ℕ → Bool
is_link_to cl skip i ent =
    let attr = byte ent 11 in
    not (i == skip)
    && not (byte ent 0 == 0xe5)
    && not (byte ent 0 == dot)
    && not (attr == 0x0f)
    && (bit_and attr 0x08 == 0)
    && (bit_and attr 0x10 == 0)
    && (rd_u16 ent 26 == cl)

unfoldable pub links_from : ℕ → ℕ → ℕ → ℕ → List ℕ → ℕ
links_from zero i cl skip dir = 0
links_from (suc left) i cl skip dir =
    let ent = entry dir i in
    let rest = links_from left (i + 1) cl skip dir in
    if byte ent 0 == 0 then 0 else if is_link_to cl skip i ent then rest + 1 else rest

-- `skip_off` is 32 times `skip`.
unfoldable pub other_links : ℕ → ℕ → ℕ → List ℕ → ℕ
other_links cl skip dir_bytes dir =
    if ltb cl 2 then 0 else links_from (dir_ents dir_bytes) 0 cl skip dir
