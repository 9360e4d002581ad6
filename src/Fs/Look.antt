-- ===== src/Fs/Look.antt =====
-- kernel/fs.c: the calls that read: lookup, stat, the listing; and sync, copy, rename, and the mount.
use vampire_os.Prelude.{
  ℕ, ◌+◌, ◌-◌, ◌*◌, ◌/◌, List, [], ◌∷◌, ◌++◌, Option, none, some, Bool, true, false, not, ◌&&◌,
  ◌||◌, length, take, drop, ltb, ◌==◌, if◌then◌else◌,
}
use vampire_os.Prelude.{replicate}
use vampire_os.Prelude.Int.{ℤ, index?}
use vampire_os.Fs.{sec, byte, slash, rd_u16, rd_u32}
use vampire_os.Fs.Name.{to_83}
use vampire_os.Fs.Path.{path_reset}
use vampire_os.Fs.Dir.{dir_wipe}
use vampire_os.Fs.Dirs.{put_dir, bread_act, fat_flush, dir_load, dir_store, dir_slots}
use vampire_os.Fs.Scan.{file_max, find_file, load_act, scan_dir}
use vampire_os.Fs.Walk.{file_at}
use vampire_os.Fs.Create.{in_parent}
use vampire_os.Fs.Edit.{page_of, set_file, no_page, fs_write}
use vampire_os.Fs.Action.{
  File, Volume, Machine, Act, ⊤, pure, gets, from_option, modify, fail_if, call, ◌>>=◌, ◌>>◌,
}

abbrev pub fat12_max : ℕ
fat12_max = 4084

-- What `fs_stat` gives.
pub record Stat : Type 0 where
  pub size : ℕ
  pub cluster : ℕ
  pub is_dir : Bool

-- The name with what stands around it: a space between two, a slash behind a directory's.
abbrev pub shown_name : Bool → File → List ℕ
shown_name first f =
    (if first then [] else 32 ∷ []) ++ f.name ++ (if f.is_dir then slash ∷ [] else [])

-- The loop of `fs_readdir`, which ends in front of the first name that does not fit.
unfoldable pub list_files : ℕ → List File → List ℕ → List ℕ
list_files max [] dst = dst
list_files max (f ∷ files) dst =
    let text = shown_name (length dst == 0) f in
    let rest = list_files max files (dst ++ text) in
    if (length text == 0) || ltb max (length dst + length text) then dst else rest

unfoldable pub fs_readdir : ℕ → Volume → List ℕ
fs_readdir max v = if max == 0 then [] else list_files max v.files []

-- The sizes in the first sector of the volume, where they are those of a FAT12 volume of this kind.
pub record Layout : Type 0 where
  pub rsvd : ℕ
  pub fatsz : ℕ
  pub root_ent : ℕ
  pub clusters : ℕ
  pub first_root : ℕ
  pub first_data : ℕ

abbrev pub total_of : List ℕ → ℕ
total_of bpb = if rd_u16 bpb 19 == 0 then rd_u32 bpb 32 else rd_u16 bpb 19

unfoldable pub layout : List ℕ → Option Layout
layout bpb =
    let rsvd = rd_u16 bpb 14 in
    let nfats = byte bpb 16 in
    let root_ent = rd_u16 bpb 17 in
    let fatsz = rd_u16 bpb 22 in
    let tot = total_of bpb in
    let root_secs = (root_ent * 32 + (sec - 1)) / sec in
    let first_root = rsvd + nfats * fatsz in
    let clusters = tot - rsvd - nfats * fatsz - root_secs in
    if not (rd_u16 bpb 11 == sec)
      || not (byte bpb 13 == 1)
      || (rsvd == 0)
      || (nfats == 0)
      || (fatsz == 0)
      || ltb 4 fatsz
      || (root_ent == 0)
      || (tot == 0)
      || ltb tot (first_root + root_secs)
      || ltb clusters 2
      || ltb fat12_max clusters
    then none
    else some (record {
      rsvd = rsvd;
      fatsz = fatsz;
      root_ent = root_ent;
      clusters = clusters;
      first_root = first_root;
      first_data = first_root + root_secs;
    })

-- A volume of that layout, with nothing read yet.
abbrev pub laid_out : Layout → Volume → Volume
laid_out l v = record v {
  rsvd = l.rsvd;
  root_ent = l.root_ent;
  first_root = l.first_root;
  first_data = l.first_data;
  cwd = 0;
  table = record v.table { fatsz = l.fatsz; clusters = l.clusters };
}

-- The statics that `fs_init` resets.
abbrev pub unmounted : Volume → Volume
unmounted v = record v {
  files = [];
  has_fat = false;
  has_dir = false;
  dir_bytes = 0;
  has_view = false;
  cwd = 0;
  saved_cwd = 0;
  path = path_reset;
  table = record v.table { fatsz = 0 };
}

-- `g_dir` on a page of 4096 bytes, which the allocator gives with any contents: those of the
-- list, made up to the size.
abbrev pub given_dir : Volume → Volume
given_dir v = record v { has_dir = true; dir = take 4096 (v.dir ++ replicate 4096 0) }

-- The entry of a name, its directory, and whether it is one itself.
pub record Moved : Type 0 where
  pub ent : List ℕ
  pub parent : ℕ
  pub dir_moves : Bool

module _ {ℓ} {M : Type ℓ} (k : Machine M) where
  -- The page that a file of another directory is shown in.
  unfoldable pub need_view : Act M ⊤
  need_view = do
    v ← gets (λ v. v)
    ok ← (if v.has_view then pure true else call k.page_buf)
    modify (λ v. record v { has_view = ok })
    fail_if (not ok)

  unfoldable pub read_file : ℕ → Act M (List ℕ)
  read_file i = do
    v ← gets (λ v. v)
    let f = file_at v i
    fail_if (ltb file_max f.len)
    (ok, bytes) ← (if f.len == 0 then pure (true, []) else load_act k f.cluster f.len)
    modify (set_file i (λ f. record f { page = some (bytes ++ drop (length bytes) (page_of f)) }))
    fail_if (not ok)
    if v.cwd == v.saved_cwd then pure tt else need_view
    pure bytes

  unfoldable pub lookup_leaf : List ℕ → Act M (List ℕ)
  lookup_leaf leaf = do
    v ← gets (λ v. v)
    i ← from_option (find_file leaf v)
    let f = file_at v i
    fail_if (f.is_dir || not v.has_dir || no_page f)
    dir_load k
    modify (λ v. set_file i (λ f. record f { len = rd_u32 v.dir (f.slot * 32 + 28) }) v)
    read_file i

  -- The bytes of the file.
  unfoldable pub fs_lookup : List ℕ → Act M (List ℕ)
  fs_lookup path = in_parent k path lookup_leaf

  unfoldable pub stat_leaf : List ℕ → Act M Stat
  stat_leaf leaf = do
    v ← gets (λ v. v)
    i ← from_option (find_file leaf v)
    fail_if (not v.has_dir)
    dir_load k
    gets (λ v. record {
      size = rd_u32 v.dir ((file_at v i).slot * 32 + 28);
      cluster = rd_u16 v.dir ((file_at v i).slot * 32 + 26);
      is_dir = (file_at v i).is_dir;
    })

  unfoldable pub fs_stat : List ℕ → Act M Stat
  fs_stat path = in_parent k path stat_leaf

  unfoldable pub fs_sync : Act M ⊤
  fs_sync = do
    v ← gets (λ v. v)
    fail_if (not v.has_fat || not v.has_dir)
    fat_flush k
    dir_store k
    ok ← call k.disk.bflush
    fail_if (not ok)

  unfoldable pub fs_copy : List ℕ → List ℕ → Act M ⊤
  fs_copy src dst = do bytes ← fs_lookup src; need_view; fs_write k dst bytes

  unfoldable pub source_of : List ℕ → Act M Moved
  source_of leaf = do
    v ← gets (λ v. v)
    i ← from_option (find_file leaf v)
    fail_if (not v.has_dir)
    dir_load k
    gets (λ v. record {
      ent = take 32 (drop ((file_at v i).slot * 32) v.dir);
      parent = v.cwd;
      dir_moves = (file_at v i).is_dir;
    })

  -- A new short name over the old one.
  unfoldable pub rename_here : List ℕ → List ℕ → Act M ⊤
  rename_here src_leaf n83 = do
    v ← gets (λ v. v)
    i ← from_option (find_file src_leaf v)
    fail_if (not v.has_dir)
    dir_load k
    modify (λ v. put_dir ((file_at v i).slot * 32) n83 v)
    dir_store k
    scan_dir k

  unfoldable pub entry_here : List ℕ → List ℕ → Act M ⊤
  entry_here ent n83 = do
    i ← dir_slots k 1
    modify (put_dir (i * 32) ent)
    modify (put_dir (i * 32) n83)
    dir_store k

  -- True where the name was changed in its directory, false where a new entry was made.
  unfoldable pub target_leaf : Moved → List ℕ → List ℕ → Act M Bool
  target_leaf m src_leaf leaf = do
    v ← gets (λ v. v)
    let taken : Bool = elim (find_file leaf v) [ some _ ↦ true | none ↦ false ]
    fail_if taken
    n83 ← from_option (to_83 leaf)
    fail_if (m.dir_moves && not (v.cwd == m.parent))
    let here = rename_here src_leaf n83 >> pure true
    let there = entry_here m.ent n83 >> pure false
    if v.cwd == m.parent then here else there

  unfoldable pub wipe_leaf : List ℕ → Act M ⊤
  wipe_leaf leaf = do
    v ← gets (λ v. v)
    i ← from_option (find_file leaf v)
    fail_if (not v.has_dir)
    dir_load k
    modify (λ v. record v { dir = dir_wipe (file_at v i).slot v.dir })
    dir_store k
    scan_dir k

  unfoldable pub fs_rename : List ℕ → List ℕ → Act M ⊤
  fs_rename src dst = do
    (m, src_leaf) ← in_parent k src (λ leaf. source_of leaf >>= λ m. pure (m, leaf))
    done ← in_parent k dst (target_leaf m src_leaf)
    if done then pure tt else in_parent k src wipe_leaf

  unfoldable pub mount : Act M ⊤
  mount = do
    scratch ← call k.page_buf
    fail_if (not scratch)
    modify (λ v. record v { has_fat = true })
    page ← call k.page_buf
    fail_if (not page)
    modify given_dir
    bpb ← bread_act k 0 1
    l ← from_option (layout bpb)
    modify (laid_out l)
    fat ← bread_act k l.rsvd l.fatsz
    modify (λ v. record v { table = record v.table { bytes = fat } })
    scan_dir k
    v ← gets (λ v. v)
    fail_if (length v.files == 0)

  -- -1 stands for the text "fat fail".
  unfoldable pub fs_init : Act M ⊤
  fs_init = modify unmounted >> mount

-- The getters of one file; none is the null pointer.
abbrev pub fs_count : Volume → ℕ
fs_count v = length v.files

unfoldable pub fs_name : ℤ → Volume → Option (List ℕ)
fs_name i v = elim (index? i (fs_count v)) [ none ↦ none | some j ↦ some (file_at v j).name ]

unfoldable pub fs_isdir : ℤ → Volume → Bool
fs_isdir i v = elim (index? i (fs_count v)) [ none ↦ false | some j ↦ (file_at v j).is_dir ]

abbrev pub fs_cwd : Volume → ℕ
fs_cwd v = v.cwd

abbrev pub fs_pwd : Volume → List ℕ
fs_pwd v = v.path
