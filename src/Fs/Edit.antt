-- ===== src/Fs/Edit.antt =====
-- kernel/fs.c: a file's bytes and its names: write, truncate, remove, rmdir, link.
use vampire_os.Prelude.{
  ℕ, zero, suc, ◌+◌, ◌-◌, ◌*◌, ◌/◌, List, [], ◌++◌, Option, none, some, Bool, true, false, not,
  ◌||◌, length, set, take, drop, replicate, ltb, leb, ◌==◌, if◌then◌else◌,
}
use vampire_os.Fs.{sec, chain_max, byte, dot, wr_u16, wr_u32}
use vampire_os.Fs.Name.{to_83}
use vampire_os.Fs.Fat.{fat12_ent, is_link, fat_free_chain, fat_resize}
use vampire_os.Fs.File.{store_chain}
use vampire_os.Fs.Dir.{dir_wipe, other_links}
use vampire_os.Fs.Dirs.{put_dir, set_table, bread_act, fat_flush, dir_load, dir_store, dir_slots}
use vampire_os.Fs.Scan.{fs_max, file_max, find_file, scan_dir}
use vampire_os.Fs.Walk.{file_at}
use vampire_os.Fs.Create.{drop_act, fs_create, in_parent}
use vampire_os.Fs.Action.{
  File, Volume, Machine, Act, ⊤, pure, maybe, gets, from_option, attempt, modify, fail_if, ◌>>=◌,
  ◌>>◌,
}

abbrev pub set_file : ℕ → (File → File) → Volume → Volume
set_file i f v = record v { files = set v.files i (f (file_at v i)) }

-- The size and the first cluster in the entry of a file.
abbrev pub put_size : ℕ → ℕ → ℕ → Volume → Volume
put_size slot len cluster v =
    put_dir (slot * 32 + 26) (wr_u16 cluster) (put_dir (slot * 32 + 28) (wr_u32 len) v)

abbrev pub sectors_of : ℕ → ℕ
sectors_of len = (len + sec - 1) / sec

-- The bytes of the page with zeros from the old length on.
unfoldable pub zero_tail : ℕ → ℕ → List ℕ → List ℕ
zero_tail old len page = take old (page ++ replicate old 0) ++ replicate (len - old) 0

abbrev pub page_of : File → List ℕ
page_of f = elim f.page [ none ↦ [] | some bytes ↦ bytes ]

abbrev pub no_page : File → Bool
no_page f = elim f.page [ none ↦ true | some _ ↦ false ]

-- The last file takes the place of the one that goes.
abbrev pub take_out : ℕ → Volume → Volume
take_out i v =
    let last = length v.files - 1 in
    record v { files = take last (if i == last then v.files else set v.files i (file_at v last)) }

-- What the first sector's entries of a directory say: that it ends there, that it has a name, or neither.
unfoldable pub sector_empty : ℕ → List ℕ → Option Bool
sector_empty zero bytes = none
sector_empty (suc left) bytes =
    let c = byte bytes 0 in
    let next = sector_empty left (drop 32 bytes) in
    if c == 0 then some true else if (c == 0xe5) || (c == dot) then next else some false

abbrev pub free_chain_of : ℕ → Volume → Volume
free_chain_of i v = set_table (fat_free_chain (file_at v i).cluster v.table) v

abbrev pub wipe_entry : ℕ → Volume → Volume
wipe_entry i v = record v { dir = dir_wipe (file_at v i).slot v.dir }

module _ {ℓ} {M : Type ℓ} (k : Machine M) where
  unfoldable pub resize_act : ℕ → ℕ → Act M ⊤
  resize_act i need s =
      let r = fat_resize (file_at s.vol i).cluster need s.vol.table in
      (
        if r.ok then some tt else none,
        record s {
          vol = set_file i (λ f. record f { cluster = r.start }) (set_table r.table s.vol);
        },
      )

  abbrev pub store_act : ℕ → List ℕ → Act M ⊤
  store_act i src s =
      let (ok, m) =
        store_chain k.disk s.vol.table s.vol.first_data (file_at s.vol i).cluster src s.rest in
      (if ok then some tt else none, record s { rest = m })

  -- The size in the directory, with the first cluster that the file has by then.
  unfoldable pub store_size : ℕ → ℕ → Act M ⊤
  store_size i len = do
    dir_load k
    modify (λ v. put_size (file_at v i).slot len (file_at v i).cluster v)
    dir_store k

  unfoldable pub write_file : ℕ → List ℕ → Act M ⊤
  write_file i src = do
    v ← gets (λ v. v)
    let len = length src
    fail_if (ltb file_max len || not v.has_dir)
    resize_act i (sectors_of len)
    fat_flush k
    store_act i src
    store_size i len
    modify (set_file i (λ f. record f { page = some src; len = len }))

  -- The file of that name, made where there is none.
  unfoldable pub open_leaf : List ℕ → Act M ℕ
  open_leaf leaf = do
    v ← gets (λ v. v)
    let old = λ (i : ℕ). fail_if (file_at v i).is_dir >> pure i
    maybe (find_file leaf v) old (fs_create k leaf)

  unfoldable pub fs_write : List ℕ → List ℕ → Act M ⊤
  fs_write path src =
      in_parent k path
        (λ leaf. do i ← open_leaf leaf; if length src == 0 then pure tt else write_file i src)

  unfoldable pub empty_file : ℕ → Act M ⊤
  empty_file i = do
    modify (free_chain_of i)
    modify (set_file i (λ f. record f { cluster = 0 }))
    fat_flush k
    store_size i 0
    modify (set_file i (λ f. record f { len = 0 }))

  unfoldable pub zero_rest : ℕ → ℕ → ℕ → Act M ⊤
  zero_rest i old len = do
    modify (set_file i (λ f. record f { page = some (zero_tail old len (page_of f)) }))
    v ← gets (λ v. v)
    store_act i (page_of (file_at v i))

  unfoldable pub change_length : ℕ → ℕ → ℕ → Act M ⊤
  change_length i old len = do
    resize_act i (sectors_of len)
    fat_flush k
    if ltb old len then zero_rest i old len else pure tt
    store_size i len
    modify (set_file i (λ f. record f { len = len }))

  unfoldable pub truncate_leaf : ℕ → List ℕ → Act M ⊤
  truncate_leaf len leaf = do
    v ← gets (λ v. v)
    i ← from_option (find_file leaf v)
    let f = file_at v i
    fail_if (f.is_dir || no_page f || not v.has_dir || not v.has_fat)
    let change = if len == 0 then empty_file i else change_length i f.len len
    if len == f.len then pure tt else change

  unfoldable pub fs_truncate : List ℕ → ℕ → Act M ⊤
  fs_truncate path len = fail_if (ltb file_max len) >> in_parent k path (truncate_leaf len)

  -- The last name of a chain frees it.
  unfoldable pub free_last : ℕ → Act M ⊤
  free_last i = do
    v ← gets (λ v. v)
    let f = file_at v i
    let free_ : Act M ⊤ = modify (free_chain_of i) >> fat_flush k
    if other_links f.cluster f.slot v.dir_bytes v.dir == 0 then free_ else pure tt

  unfoldable pub remove_leaf : List ℕ → Act M ⊤
  remove_leaf leaf = do
    v ← gets (λ v. v)
    i ← from_option (find_file leaf v)
    let f = file_at v i
    fail_if (f.is_dir || not v.has_dir || not v.has_fat)
    dir_load k
    free_last i
    modify (wipe_entry i)
    dir_store k
    modify (take_out i)
    if no_page f then pure tt else drop_act k

  unfoldable pub fs_remove : List ℕ → Act M ⊤
  fs_remove path = in_parent k path remove_leaf

  -- The loop of `dir_empty`, by the hops that are left; a sector that cannot be read counts as a name.
  unfoldable pub empty_hops : ℕ → ℕ → Act M Bool
  empty_hops zero cl = pure true
  empty_hops (suc n) cl =
      let step : Act M Bool = do
        v ← gets (λ v. v)
        got ← attempt (bread_act k (v.first_data + (cl - 2)) 1)
        let next = empty_hops n (fat12_ent v.table cl)
        maybe got (λ bytes. maybe (sector_empty 16 bytes) pure next) (pure false)
      in if is_link cl then step else pure true

  abbrev pub dir_empty : ℕ → Act M Bool
  dir_empty cl = if ltb cl 2 then pure false else empty_hops chain_max cl

  unfoldable pub rmdir_leaf : List ℕ → Act M ⊤
  rmdir_leaf leaf = do
    v ← gets (λ v. v)
    i ← from_option (find_file leaf v)
    let f = file_at v i
    fail_if (not f.is_dir || not v.has_dir || not v.has_fat || (f.cluster == v.saved_cwd))
    empty ← dir_empty f.cluster
    fail_if (not empty)
    modify (free_chain_of i)
    fat_flush k
    dir_load k
    modify (wipe_entry i)
    dir_store k
    modify (take_out i)

  unfoldable pub fs_rmdir : List ℕ → Act M ⊤
  fs_rmdir path = in_parent k path rmdir_leaf

  -- The entry of a plain file, as it is in the directory.
  unfoldable pub entry_of_file : List ℕ → Act M (List ℕ)
  entry_of_file leaf = do
    v ← gets (λ v. v)
    i ← from_option (find_file leaf v)
    fail_if ((file_at v i).is_dir || not v.has_dir)
    dir_load k
    gets (λ v. take 32 (drop ((file_at v i).slot * 32) v.dir))

  unfoldable pub link_leaf : List ℕ → List ℕ → Act M ⊤
  link_leaf ent leaf = do
    v ← gets (λ v. v)
    let taken : Bool = elim (find_file leaf v) [ some _ ↦ true | none ↦ false ]
    fail_if taken
    n83 ← from_option (to_83 leaf)
    fail_if (leb fs_max (length v.files))
    i ← dir_slots k 1
    modify (put_dir (i * 32) ent)
    modify (put_dir (i * 32) n83)
    dir_store k
    scan_dir k

  unfoldable pub fs_link : List ℕ → List ℕ → Act M ⊤
  fs_link src dst = do ent ← in_parent k src entry_of_file; in_parent k dst (link_leaf ent)
