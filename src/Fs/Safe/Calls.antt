-- ===== src/Fs/Safe/Calls.antt =====
-- kernel/fs.c: every call keeps to the buffers.
use vampire_os.Prelude.{
  ℕ, ◌-◌, take, length-take_le, Option-cases, inl, inr, ◌*◌, ◌+◌, ◌<◌, not, List, [], ◌∷◌, none,
  some, true, false, length, arith, ◌==◌, refl,
}
use vampire_os.Fs.{path_max, copy_str, rd_u32}
use vampire_os.Fs.Dir.{dir_wipe}
use vampire_os.Fs.Dirs.{put_dir, dir_load, dir_store}
use vampire_os.Fs.Scan.{find_file, load_act, scan_dir}
use vampire_os.Fs.Walk.{file_at, set_path, go_to, apply_act, back_to, fs_chdir, fs_setpwd}
use vampire_os.Fs.Name.{to_83}
use vampire_os.Prelude.{drop, ◌++◌}
use vampire_os.Fs.Edit.{page_of, set_file}
use vampire_os.Fs.Look.{
  Moved, need_view, read_file, lookup_leaf, fs_lookup, stat_leaf, fs_stat, fs_sync, fs_copy,
  source_of, rename_here, entry_here, target_leaf, wipe_leaf, fs_rename,
}
use vampire_os.Fs.Action.{File, Volume, Machine, gets, from_option, modify, fail_if, ◌>>=◌}
use vampire_os.Fs.Safe.{
  Post, Any, Keeps, pure-Post, gets-Post, any-Keeps, from_option-Keeps, attempt-Keeps, or_undo-Post,
  fail-Post, outside-Keeps, modify-Keeps, fail_if-Post, bind-Post, if-Post,
}
use vampire_os.Fs.Safe.Dirs.{
  same-IsSafe, get-IsSafe, fat_flush-Keeps, dir_load-Keeps, dir_store-Keeps, dir_slots-Keeps,
}
use vampire_os.Fs.Safe.Walk.{call-Keeps, go_to-Keeps, walk_all-Keeps, scan_dir-Keeps}
use vampire_os.Fs.Safe.Path.{path_apply-fits, copy_str-Fits}
use vampire_os.Fs.Safe.Edit.{set_file-IsSafe, in_parent-Keeps, fs_write-Keeps}

module _ {ℓ} {M : Type ℓ} (k : Machine M) where
  update-Keeps :
      (i : ℕ) (f : Volume → File → File) → Keeps {M = M} 48 (modify (λ v. set_file i (f v) v))
  update-Keeps i f = modify-Keeps _ λ v h. set_file-IsSafe i (f v) v h

  edit-Keeps : (f : Volume → List ℕ) → Keeps {M = M} 48 (modify (λ v. record v { dir = f v }))
  edit-Keeps f = modify-Keeps _ λ v h. same-IsSafe 48 v _ refl refl refl refl h

  need_view-Keeps : Keeps 48 (need_view k)
  unfolding need_view
  need_view-Keeps = bind-Post (get-IsSafe 48 k) λ v _.
      bind-Post {P = Any} (if-Post v.has_view (pure-Post Any true tt) (call-Keeps k 48 k.page_buf))
        λ ok _.
          bind-Post
            (modify-Keeps (λ v. record v { has_view = ok })
              (λ v. same-IsSafe 48 v _ refl refl refl refl))
            λ _ _. any-Keeps (fail_if-Post _)

  pub fs_sync-Keeps : Keeps 48 (fs_sync k)
  unfolding fs_sync
  fs_sync-Keeps = bind-Post (get-IsSafe 48 k) λ v _. bind-Post (fail_if-Post _) λ _ _.
      bind-Post (fat_flush-Keeps 48 k) λ _ _.
        bind-Post (dir_store-Keeps 48 k)
          λ _ _. bind-Post (call-Keeps k 48 k.disk.bflush) λ ok _. any-Keeps (fail_if-Post _)

  pub fs_stat-Keeps : (path : List ℕ) → Keeps 48 (fs_stat k path)
  unfolding fs_stat stat_leaf
  fs_stat-Keeps path = in_parent-Keeps k path _ λ leaf. bind-Post (get-IsSafe 48 k) λ v _.
      bind-Post {P = Any} (from_option-Keeps (find_file leaf v)) λ i _.
        bind-Post (fail_if-Post _)
          λ _ _. bind-Post (dir_load-Keeps 48 k) λ _ _. gets-Post Any _ (λ v h. tt)

  read_file-Keeps : (i : ℕ) → Keeps 48 (read_file k i)
  unfolding read_file
  read_file-Keeps i = bind-Post (get-IsSafe 48 k) λ v _. bind-Post (fail_if-Post _) λ _ _.
      bind-Post {P = Any}
        (if-Post ((file_at v i).len == 0) (pure-Post Any (true, []) tt)
          (outside-Keeps (load_act k _ _) (λ s. refl)))
        λ (ok, bytes) _.
          bind-Post
            (update-Keeps i
              (λ _ f. record f { page = some (bytes ++ drop (length bytes) (page_of f)) }))
            λ _ _. bind-Post (fail_if-Post (not ok)) λ _ _.
              bind-Post {P = Any}
                (if-Post (v.cwd == v.saved_cwd) (pure-Post Any tt tt) need_view-Keeps)
                λ _ _. pure-Post Any bytes tt

  pub fs_lookup-Keeps : (path : List ℕ) → Keeps 48 (fs_lookup k path)
  unfolding fs_lookup lookup_leaf
  fs_lookup-Keeps path = in_parent-Keeps k path _ λ leaf. bind-Post (get-IsSafe 48 k) λ v _.
      bind-Post {P = Any} (from_option-Keeps (find_file leaf v)) λ i _.
        bind-Post (fail_if-Post _) λ _ _. bind-Post (dir_load-Keeps 48 k) λ _ _.
          bind-Post (update-Keeps i (λ v f. record f { len = rd_u32 v.dir (f.slot * 32 + 28) }))
            λ _ _. read_file-Keeps i

  pub fs_copy-Keeps : (src dst : List ℕ) → Keeps 48 (fs_copy k src dst)
  unfolding fs_copy
  fs_copy-Keeps src dst =
      bind-Post (fs_lookup-Keeps src)
        λ bytes _. bind-Post need_view-Keeps λ _ _. fs_write-Keeps k dst bytes

  source_of-Keeps : (leaf : List ℕ) → Keeps 48 (source_of k leaf)
  unfolding source_of
  source_of-Keeps leaf = bind-Post (get-IsSafe 48 k) λ v _.
      bind-Post {P = Any} (from_option-Keeps (find_file leaf v)) λ i _.
        bind-Post (fail_if-Post _)
          λ _ _. bind-Post (dir_load-Keeps 48 k) λ _ _. gets-Post Any _ (λ v h. tt)

  -- The directory's entry of a name is changed in place, and the directory read again.
  changed-Keeps :
      (leaf : List ℕ) (f : ℕ → Volume → List ℕ)
      → Keeps 48 (
          gets (λ v. v) >>= λ v. from_option (find_file leaf v) >>= λ i.
          fail_if (not v.has_dir) >>= λ _. dir_load k >>= λ _.
          modify (λ v. record v { dir = f i v }) >>= λ _. dir_store k >>= λ _. scan_dir k)
  changed-Keeps leaf f = bind-Post (get-IsSafe 48 k) λ v _.
      bind-Post {P = Any} (from_option-Keeps (find_file leaf v)) λ i _.
        bind-Post (fail_if-Post _) λ _ _. bind-Post (dir_load-Keeps 48 k) λ _ _.
          bind-Post (edit-Keeps (f i))
            λ _ _. bind-Post (dir_store-Keeps 48 k) λ _ _. scan_dir-Keeps k

  rename_here-Keeps : (leaf n83 : List ℕ) → Keeps 48 (rename_here k leaf n83)
  unfolding rename_here
  rename_here-Keeps leaf n83 =
      changed-Keeps leaf (λ i v. (put_dir ((file_at v i).slot * 32) n83 v).dir)

  wipe_leaf-Keeps : (leaf : List ℕ) → Keeps 48 (wipe_leaf k leaf)
  unfolding wipe_leaf
  wipe_leaf-Keeps leaf = changed-Keeps leaf (λ i v. dir_wipe (file_at v i).slot v.dir)

  entry_here-Keeps : (ent n83 : List ℕ) → Keeps 48 (entry_here k ent n83)
  unfolding entry_here
  entry_here-Keeps ent n83 = bind-Post (dir_slots-Keeps 48 k 1) λ i _.
      bind-Post (edit-Keeps (λ v. (put_dir (i * 32) ent v).dir)) λ _ _.
        bind-Post (edit-Keeps (λ v. (put_dir (i * 32) n83 v).dir)) λ _ _. dir_store-Keeps 48 k

  target_leaf-Keeps :
      (m : Moved) (src_leaf leaf : List ℕ) → Keeps 48 (target_leaf k m src_leaf leaf)
  unfolding target_leaf
  target_leaf-Keeps m src_leaf leaf = bind-Post (get-IsSafe 48 k) λ v _.
      bind-Post (fail_if-Post _) λ _ _.
        bind-Post {P = Any} (from_option-Keeps (to_83 leaf)) λ n83 _.
          bind-Post (fail_if-Post _) λ _ _.
            if-Post (v.cwd == m.parent)
              (bind-Post (rename_here-Keeps src_leaf n83) λ _ _. pure-Post Any true tt)
              (bind-Post (entry_here-Keeps m.ent n83) λ _ _. pure-Post Any false tt)

  pub fs_rename-Keeps : (src dst : List ℕ) → Keeps 48 (fs_rename k src dst)
  unfolding fs_rename
  fs_rename-Keeps src dst =
      bind-Post {P = Any}
        (in_parent-Keeps k src _
          λ leaf. bind-Post (source_of-Keeps leaf) λ m _. pure-Post Any (m, leaf) tt)
        λ (m, src_leaf) _.
          bind-Post (in_parent-Keeps k dst _ λ leaf. target_leaf-Keeps m src_leaf leaf)
            λ done _. if-Post done (pure-Post Any tt tt) (in_parent-Keeps k src _ wipe_leaf-Keeps)

  set_path-Keeps : (p : List ℕ) → length p < path_max → Keeps {M = M} 48 (modify (set_path p))
  set_path-Keeps p fits = modify-Keeps _ λ v h. record {
    files_fit = h.files_fit;
    dir_fits = h.dir_fits;
    path_fits = fits;
    table_fits = h.table_fits;
  }

  apply-Keeps : (path : List ℕ) → Keeps 48 (apply_act k path)
  unfolding apply_act
  apply-Keeps path = record {
    keeps = λ s h. record {
      files_fit = h.files_fit;
      dir_fits = h.dir_fits;
      path_fits = path_apply-fits path s.vol.path h.path_fits;
      table_fits = h.table_fits;
    };
    gives = λ s a h e. tt;
  }

  -- A path that has been copied into the buffer fits.
  copied-Post :
      (s : List ℕ)
      → Post {M = M} 48 (λ p. length p < path_max) (from_option (copy_str 0 path_max s))
  copied-Post s = record {
    keeps = λ st h. h;
    gives = λ st p h e. copy_str-Fits path_max s p (omega arith) e;
  }

  back_to-Keeps : (cwd : ℕ) (path : List ℕ) → length path < path_max → Keeps 48 (back_to k cwd path)
  unfolding back_to
  back_to-Keeps cwd path fits = bind-Post (get-IsSafe 48 k) λ v _.
      bind-Post {P = Any}
        (if-Post (v.cwd == cwd) (pure-Post Any none tt)
          (attempt-Keeps Any (go_to k cwd) (go_to-Keeps k cwd)))
        λ _ _. set_path-Keeps path fits

  pub fs_chdir-Keeps : (name : List ℕ) → Keeps 48 (fs_chdir k name)
  unfolding fs_chdir
  fs_chdir-Keeps [] = fail-Post Any
  fs_chdir-Keeps (c ∷ name) = bind-Post (get-IsSafe 48 k) λ v _.
      bind-Post (copied-Post v.path) λ saved fits.
        bind-Post (apply-Keeps (c ∷ name))
          λ _ _. or_undo-Post Any _ _ (walk_all-Keeps k (c ∷ name)) (back_to-Keeps v.cwd saved fits)

  pub fs_setpwd-Keeps : (path : List ℕ) → Keeps 48 (fs_setpwd k path)
  unfolding fs_setpwd
  fs_setpwd-Keeps [] = fail-Post Any
  fs_setpwd-Keeps (c ∷ path) = elim (Option-cases (copy_str 0 path_max (c ∷ path))) [
    | inl long ↦ rw (long) (
        bind-Post
          (set_path-Keeps (take (path_max - 1) (c ∷ path))
            (omega (arith, length-take_le (path_max - 1) (c ∷ path))))
          λ _ _. fail-Post Any)
    | inr (p, fits) ↦
        rw (fits) (set_path-Keeps p (copy_str-Fits path_max (c ∷ path) p (omega arith) fits))
  ]
