-- ===== src/Fs/Create.antt =====
-- kernel/fs.c: new names: fs_create and fs_mkdir.
use vampire_os.Prelude.{
  ℕ, ◌+◌, ◌-◌, ◌*◌, ◌/◌, List, [], ◌∷◌, ◌++◌, none, some, Bool, true, false, not, ◌||◌, length, set,
  overlay, replicate, ltb, leb, ◌==◌, if◌then◌else◌,
}
use vampire_os.Fs.{sec, wr_u16, dot}
use vampire_os.Fs.Name.{space, to_83, fat_name, lfn_ok}
use vampire_os.Fs.Lfn.{lfn_chars_max, lfn_max, lfn_cksum, lfn_entries}
use vampire_os.Fs.Dir.{make_alias}
use vampire_os.Fs.Dirs.{
  put_at, put_dir, set_entry, bwrite_act, fat_flush, fat_alloc_act, dir_load, dir_store, dir_slots,
}
use vampire_os.Fs.Scan.{fs_max, find_file, add_file, scan_dir}
use vampire_os.Fs.Walk.{enter_parent, leave_parent}
use vampire_os.Fs.Action.{
  Machine, Act, ⊤, pure, maybe, gets, from_option, attempt, modify, fail_if, call, ◌>>=◌, ◌>>◌,
  or_undo,
}

-- An entry with a short name, its attributes and its first cluster.
unfoldable pub entry_bytes : List ℕ → ℕ → ℕ → List ℕ
entry_bytes n83 attr cl = put_at 26 (wr_u16 cl) (set (overlay (replicate 32 0) n83) 11 attr)

-- The first sector of a new directory: itself and its parent.
unfoldable pub dot_entries : ℕ → ℕ → List ℕ
dot_entries cl parent =
    entry_bytes (dot ∷ replicate 10 space) 0x10 cl
    ++ entry_bytes (dot ∷ dot ∷ replicate 9 space) 0x10 parent
    ++ replicate (sec - 64) 0

abbrev pub long_count : List ℕ → ℕ
long_count name = (length name + (lfn_chars_max - 1)) / lfn_chars_max

module _ {ℓ} {M : Type ℓ} (k : Machine M) where
  abbrev pub drop_act : Act M ⊤
  drop_act s = (some tt, record s { rest = k.drop_page s.rest })

  -- The short name, and the entries of the long one in front of it.
  unfoldable pub alias_act : List ℕ → Act M (List ℕ × ℕ)
  alias_act name = do
    dir_load k
    fail_if (not (lfn_ok name))
    v ← gets (λ v. v)
    n83 ← from_option (make_alias name v.dir_bytes v.dir)
    fail_if ((long_count name == 0) || ltb lfn_max (long_count name))
    pure (n83, long_count name)

  unfoldable pub short_name : List ℕ → Act M (List ℕ × ℕ)
  short_name name = maybe (to_83 name) (λ n83. pure (n83, 0)) (alias_act name)

  -- What is put back where the directory cannot be written.
  abbrev pub free_again : ℕ → Act M ⊤
  free_again cl = do modify (set_entry cl 0); attempt (fat_flush k); pure tt

  -- The value is the place of the new file in `files`.
  unfoldable pub fs_create : List ℕ → Act M ℕ
  fs_create name = do
    v ← gets (λ v. v)
    fail_if (leb fs_max (length v.files) || not v.has_fat)
    (n83, lfn_n) ← short_name name
    page ← call k.page_buf
    fail_if (not page)
    cl ← or_undo (fat_alloc_act k) drop_act
    or_undo (fat_flush k) (modify (set_entry cl 0) >> drop_act)
    i ← or_undo (dir_slots k (lfn_n + 1)) (free_again cl >> drop_act)
    let ent = entry_bytes n83 0x20 cl
    modify (put_dir (i * 32) (lfn_entries lfn_n lfn_n (lfn_cksum n83) name))
    modify (put_dir ((i + lfn_n) * 32) ent)
    or_undo (dir_store k) (free_again cl >> drop_act)
    modify (
        add_file (record {
          name = if lfn_n == 0 then fat_name ent else name;
          page = some [];
          len = 0;
          cluster = cl;
          slot = i + lfn_n;
          is_dir = false;
        }))
    gets (λ v. length v.files - 1)

  -- The call inside the parent of a path, which is left whatever comes of it.
  unfoldable pub in_parent {κ} : {A : Type κ} → List ℕ → (List ℕ → Act M A) → Act M A
  in_parent path body = do
    leaf ← enter_parent k path
    r ← attempt (body leaf)
    leave_parent k
    from_option r

  -- Where a step fails: the cluster is free again.
  unfoldable pub mkdir_at : ℕ → List ℕ → Act M ⊤
  mkdir_at cl n83 = do
    v ← gets (λ v. v)
    let parent = if ltb v.cwd 2 then 0 else v.cwd
    or_undo (bwrite_act k (v.first_data + (cl - 2)) 1 (dot_entries cl parent)) (free_again cl)
    i ← or_undo (dir_slots k 1) (free_again cl)
    modify (put_dir (i * 32) (entry_bytes n83 0x10 cl))
    or_undo (dir_store k) (free_again cl)
    scan_dir k

  unfoldable pub mkdir_leaf : List ℕ → Act M ⊤
  mkdir_leaf leaf = do
    n83 ← from_option (to_83 leaf)
    v ← gets (λ v. v)
    let taken : Bool = elim (find_file leaf v) [ some _ ↦ true | none ↦ false ]
    fail_if (taken || leb fs_max (length v.files) || not v.has_fat || not v.has_dir)
    cl ← fat_alloc_act k
    or_undo (fat_flush k) (modify (set_entry cl 0))
    mkdir_at cl n83

  unfoldable pub fs_mkdir : List ℕ → Act M ⊤
  fs_mkdir path = in_parent path mkdir_leaf
