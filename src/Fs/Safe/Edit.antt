-- ===== src/Fs/Safe/Edit.antt =====
-- kernel/fs.c: creating, writing and removing keep to the buffers.
use vampire_os.Prelude.{
  ℕ, zero, suc, ◌-◌, ◌≡◌, inl, inr, refl, subst, sym, List, Option, some, Bool, true, false, not,
  ◌||◌, length, length-set, length-take_shorter, set, arith,
}
use vampire_os.Prelude.{ltb, leb, ◌==◌, Bool-cases}
use vampire_os.Fs.Fat.{fat_resize}
use vampire_os.Fs.Dir.{other_links}
use vampire_os.Fs.Dirs.{put_dir, fat_flush}
use vampire_os.Fs.Scan.{fs_max, find_file}
use vampire_os.Fs.Walk.{file_at}
use vampire_os.Fs.Name.{to_83}
use vampire_os.Fs.Create.{
  drop_act, alias_act, short_name, free_again, fs_create, in_parent, mkdir_at, mkdir_leaf, fs_mkdir,
}
use vampire_os.Fs.Edit.{
  set_file, no_page, take_out, sector_empty, resize_act, store_act, store_size, write_file,
  open_leaf, fs_write, free_chain_of, empty_file, zero_tail, page_of, zero_rest, change_length,
  truncate_leaf, fs_truncate, free_last, wipe_entry, remove_leaf, fs_remove, empty_hops, rmdir_leaf,
  fs_rmdir, entry_of_file, link_leaf, fs_link,
}
use vampire_os.Fs.Action.{File, Volume, State, Machine, Act, gets, modify, fail_if, ◌>>=◌}
use vampire_os.Fs.Safe.{
  IsSafe, Any, Keeps, Ends, pure-Post, gets-Post, maybe-Post, from_option-Keeps, attempt-Keeps,
  outside-Keeps, or_undo-Post, modify-Keeps, fail_if-Post, bind-Post, if-Post, bind-Ends, then-Ends,
}
use vampire_os.Fs.Safe.Table.{fatsz-fat_free_chain, fatsz-fat_resize}
use vampire_os.Fs.Safe.Dirs.{
  set_table-IsSafe, same-IsSafe, get-IsSafe, bread-Keeps, bwrite-Keeps, fat_flush-Keeps,
  fat_alloc-Keeps, dir_load-Keeps, dir_store-Keeps, dir_slots-Keeps, set_entry-Keeps,
}
use vampire_os.Fs.Safe.Walk.{
  add_file-Ends, call-Keeps, one_less, scan_dir-Keeps, leave_parent-Keeps, enter_parent-Keeps,
}

pub set_file-IsSafe :
    (i : ℕ) (f : File → File) (v : Volume) → IsSafe 48 v → IsSafe 48 (set_file i f v)
set_file-IsSafe i f v h = record {
  files_fit = omega (arith, length-set v.files i (f (file_at v i)), h.files_fit);
  dir_fits = h.dir_fits;
  path_fits = h.path_fits;
  table_fits = h.table_fits;
}

take_out-IsSafe : (i : ℕ) (v : Volume) → IsSafe 48 v → IsSafe 48 (take_out i v)
take_out-IsSafe i v h = record {
  files_fit = elim (Bool-cases (i == length v.files - 1)) [
    | inl e ↦ rw (e) (omega (arith, length-take_shorter (length v.files - 1) v.files, h.files_fit))
    | inr e ↦
        let last = file_at v (length v.files - 1) in
        rw (e) (
          omega (
            arith,
            length-take_shorter (length v.files - 1) (set v.files i last),
            length-set v.files i last,
            h.files_fit,
          ))
  ];
  dir_fits = h.dir_fits;
  path_fits = h.path_fits;
  table_fits = h.table_fits;
}

free_chain_of-IsSafe : (i : ℕ) (v : Volume) → IsSafe 48 v → IsSafe 48 (free_chain_of i v)
free_chain_of-IsSafe i v h =
    set_table-IsSafe 48 _ v (fatsz-fat_free_chain (file_at v i).cluster v.table) h

module _ {ℓ} {M : Type ℓ} (k : Machine M) where
  drop-Keeps : (n : ℕ) → Keeps n (drop_act k)
  drop-Keeps n = outside-Keeps (drop_act k) (λ s. refl)

  free_again-Keeps : (n cl : ℕ) → Keeps n (free_again k cl)
  free_again-Keeps n cl = bind-Post (set_entry-Keeps n k cl 0) λ _ _.
      bind-Post (attempt-Keeps Any (fat_flush k) (fat_flush-Keeps n k)) λ _ _. pure-Post Any tt tt

  short_name-Keeps : (n : ℕ) (name : List ℕ) → Keeps n (short_name k name)
  unfolding short_name alias_act
  short_name-Keeps n name =
      maybe-Post (to_83 name) (λ n83. pure-Post Any _ tt)
        (bind-Post (dir_load-Keeps n k) λ _ _. bind-Post (fail_if-Post _) λ _ _.
          bind-Post (get-IsSafe n k) λ v _.
            bind-Post {P = Any} (from_option-Keeps _)
              λ n83 _. bind-Post (fail_if-Post _) λ _ _. pure-Post Any _ tt)

  put-Keeps : (n off : ℕ) (bytes : List ℕ) → Keeps {M = M} n (modify (put_dir off bytes))
  put-Keeps n off bytes = modify-Keeps _ (λ v. same-IsSafe n v _ refl refl refl refl)

  -- With room for one file more, as the test at the start says.
  room-Keeps :
      {A : Type 0} (other : Volume → Bool) (rest : Volume → Act M A)
      → ((v : Volume) → Ends 47 48 (rest v))
      → Keeps 48
          (gets (λ v. v) >>= λ v. fail_if (leb fs_max (length v.files) || other v) >>= λ _. rest v)
  unfolding ◌>>=◌
  room-Keeps {A = A} other rest p = record {
    keeps = λ s h. elim (Bool-cases (leb fs_max (length s.vol.files) || other s.vol)) [
      | inl full ↦ rw (full) h
      | inr room ↦
          let act : Act M A = gets (λ v. v) >>= λ v.
          fail_if (leb fs_max (length v.files) || other v) >>= λ _. rest v in
          let step : act s ≡ rest s.vol s = rw (room) refl in
          subst (λ (r : Option A × State M). IsSafe 48 r.1.vol) (sym step)
            ((p s.vol).ends s (one_less k s.vol (ground (arith, room)) h))
    ];
    gives = λ s a h e. tt;
  }

  pub fs_create-Keeps : (name : List ℕ) → Keeps 48 (fs_create k name)
  unfolding fs_create
  fs_create-Keeps name =
      room-Keeps (λ v. not v.has_fat) _
        λ v. bind-Ends (omega arith) (short_name-Keeps 47 name) λ (n83, lfn_n) _.
          bind-Ends (omega arith) (call-Keeps k 47 k.page_buf) λ page _.
            bind-Ends (omega arith) (fail_if-Post (not page)) λ _ _.
              bind-Ends (omega arith) (or_undo-Post Any _ _ (fat_alloc-Keeps 47 k) (drop-Keeps 47))
                λ cl _.
                  let put_back = bind-Post (set_entry-Keeps 47 k cl 0) (λ _ _. drop-Keeps 47) in
                  let undo = bind-Post (free_again-Keeps 47 cl) (λ _ _. drop-Keeps 47) in
                  bind-Ends (omega arith) (or_undo-Post Any _ _ (fat_flush-Keeps 47 k) put_back)
                    λ _ _.
                      bind-Ends (omega arith) (or_undo-Post Any _ _ (dir_slots-Keeps 47 k _) undo)
                        λ i _. bind-Ends (omega arith) (put-Keeps 47 _ _) λ _ _.
                          bind-Ends (omega arith) (put-Keeps 47 _ _) λ _ _.
                            bind-Ends (omega arith)
                              (or_undo-Post Any _ _ (dir_store-Keeps 47 k) undo)
                              λ _ _.
                                then-Ends (add_file-Ends k 47 _) λ _. gets-Post Any _ (λ v h. tt)

  pub in_parent-Keeps :
      {A : Type 0} (path : List ℕ) (body : List ℕ → Act M A)
      → ((leaf : List ℕ) → Keeps 48 (body leaf))
      → Keeps 48 (in_parent k path body)
  unfolding in_parent
  in_parent-Keeps path body p = bind-Post (enter_parent-Keeps k path) λ leaf _.
      bind-Post (attempt-Keeps Any (body leaf) (p leaf))
        λ r _. bind-Post (leave_parent-Keeps k) λ _ _. from_option-Keeps r

  pub fs_mkdir-Keeps : (path : List ℕ) → Keeps 48 (fs_mkdir k path)
  unfolding fs_mkdir mkdir_leaf mkdir_at
  fs_mkdir-Keeps path = in_parent-Keeps path (mkdir_leaf k) λ leaf.
      bind-Post {P = Any} (from_option-Keeps (to_83 leaf)) λ n83 _.
        bind-Post (get-IsSafe 48 k) λ v _. bind-Post (fail_if-Post _) λ _ _.
          bind-Post (fat_alloc-Keeps 48 k) λ cl _.
            bind-Post (or_undo-Post Any _ _ (fat_flush-Keeps 48 k) (set_entry-Keeps 48 k cl 0))
              λ _ _. bind-Post (get-IsSafe 48 k) λ v' _.
                bind-Post (or_undo-Post Any _ _ (bwrite-Keeps 48 k _ 1 _) (free_again-Keeps 48 cl))
                  λ _ _.
                    bind-Post
                      (or_undo-Post Any _ _ (dir_slots-Keeps 48 k 1) (free_again-Keeps 48 cl))
                      λ i _. bind-Post (put-Keeps 48 _ _) λ _ _.
                        bind-Post
                          (or_undo-Post Any _ _ (dir_store-Keeps 48 k) (free_again-Keeps 48 cl))
                          λ _ _. scan_dir-Keeps k

  set_file-Keeps : (i : ℕ) (f : File → File) → Keeps {M = M} 48 (modify (set_file i f))
  set_file-Keeps i f = modify-Keeps _ λ v h. set_file-IsSafe i f v h

  resize-Keeps : (i need : ℕ) → Keeps 48 (resize_act k i need)
  unfolding resize_act
  resize-Keeps i need = record {
    keeps = λ s h.
        let start = (fat_resize (file_at s.vol i).cluster need s.vol.table).start in
        set_file-IsSafe i (λ f. record f { cluster = start }) _
          (set_table-IsSafe 48 _ s.vol (fatsz-fat_resize (file_at s.vol i).cluster need s.vol.table)
            h);
    gives = λ s a h e. tt;
  }

  store-Keeps : (i : ℕ) (src : List ℕ) → Keeps 48 (store_act k i src)
  store-Keeps i src = outside-Keeps (store_act k i src) (λ s. refl)

  store_size-Keeps : (i len : ℕ) → Keeps 48 (store_size k i len)
  unfolding store_size
  store_size-Keeps i len = bind-Post (dir_load-Keeps 48 k) λ _ _.
      bind-Post (modify-Keeps _ (λ v. same-IsSafe 48 v _ refl refl refl refl))
        λ _ _. dir_store-Keeps 48 k

  write_file-Keeps : (i : ℕ) (src : List ℕ) → Keeps 48 (write_file k i src)
  unfolding write_file
  write_file-Keeps i src = bind-Post (get-IsSafe 48 k) λ v _. bind-Post (fail_if-Post _) λ _ _.
      bind-Post (resize-Keeps i _) λ _ _. bind-Post (fat_flush-Keeps 48 k) λ _ _.
        bind-Post (store-Keeps i src) λ _ _.
          bind-Post (store_size-Keeps i _)
            λ _ _. set_file-Keeps i (λ f. record f { page = some src; len = length src })

  pub fs_write-Keeps : (path src : List ℕ) → Keeps 48 (fs_write k path src)
  unfolding fs_write open_leaf
  fs_write-Keeps path src = in_parent-Keeps path _ λ leaf.
      bind-Post {P = Any}
        (bind-Post (get-IsSafe 48 k) λ v _.
          maybe-Post (find_file leaf v) (λ i. bind-Post (fail_if-Post _) λ _ _. pure-Post Any i tt)
            (fs_create-Keeps leaf))
        λ i _. if-Post (length src == 0) (pure-Post Any tt tt) (write_file-Keeps i src)

  empty_file-Keeps : (i : ℕ) → Keeps 48 (empty_file k i)
  unfolding empty_file
  empty_file-Keeps i = bind-Post (modify-Keeps _ (free_chain_of-IsSafe i)) λ _ _.
      bind-Post (set_file-Keeps i (λ f. record f { cluster = 0 })) λ _ _.
        bind-Post (fat_flush-Keeps 48 k) λ _ _.
          bind-Post (store_size-Keeps i 0) λ _ _. set_file-Keeps i (λ f. record f { len = 0 })

  zero_rest-Keeps : (i old len : ℕ) → Keeps 48 (zero_rest k i old len)
  unfolding zero_rest
  zero_rest-Keeps i old len =
      bind-Post (set_file-Keeps i (λ f. record f { page = some (zero_tail old len (page_of f)) }))
        λ _ _. bind-Post (get-IsSafe 48 k) λ v _. store-Keeps i (page_of (file_at v i))

  change_length-Keeps : (i old len : ℕ) → Keeps 48 (change_length k i old len)
  unfolding change_length
  change_length-Keeps i old len = bind-Post (resize-Keeps i _) λ _ _.
      bind-Post (fat_flush-Keeps 48 k) λ _ _.
        bind-Post {P = Any}
          (if-Post (ltb old len) (zero_rest-Keeps i old len) (pure-Post Any tt tt))
          λ _ _.
            bind-Post (store_size-Keeps i len) λ _ _. set_file-Keeps i (λ f. record f { len = len })

  pub fs_truncate-Keeps : (path : List ℕ) (len : ℕ) → Keeps 48 (fs_truncate k path len)
  unfolding fs_truncate truncate_leaf
  fs_truncate-Keeps path len = bind-Post (fail_if-Post _) λ _ _. in_parent-Keeps path _ λ leaf.
      bind-Post (get-IsSafe 48 k) λ v _.
        bind-Post {P = Any} (from_option-Keeps (find_file leaf v)) λ i _.
          bind-Post (fail_if-Post _) λ _ _.
            if-Post (len == (file_at v i).len) (pure-Post Any tt tt)
              (if-Post (len == 0) (empty_file-Keeps i) (change_length-Keeps i _ len))

  wipe-Keeps : (i : ℕ) → Keeps {M = M} 48 (modify (wipe_entry i))
  wipe-Keeps i = modify-Keeps _ (λ v. same-IsSafe 48 v _ refl refl refl refl)

  pub fs_remove-Keeps : (path : List ℕ) → Keeps 48 (fs_remove k path)
  unfolding fs_remove remove_leaf free_last
  fs_remove-Keeps path = in_parent-Keeps path _ λ leaf. bind-Post (get-IsSafe 48 k) λ v _.
      bind-Post {P = Any} (from_option-Keeps (find_file leaf v)) λ i _.
        bind-Post (fail_if-Post _) λ _ _. bind-Post (dir_load-Keeps 48 k) λ _ _.
          bind-Post {P = Any}
            (bind-Post (get-IsSafe 48 k) λ v' _.
              if-Post
                (other_links (file_at v' i).cluster (file_at v' i).slot v'.dir_bytes v'.dir == 0)
                (bind-Post (modify-Keeps _ (free_chain_of-IsSafe i)) λ _ _. fat_flush-Keeps 48 k)
                (pure-Post Any tt tt))
            λ _ _. bind-Post (wipe-Keeps i) λ _ _. bind-Post (dir_store-Keeps 48 k) λ _ _.
              bind-Post (modify-Keeps _ (take_out-IsSafe i))
                λ _ _. if-Post (no_page (file_at v i)) (pure-Post Any tt tt) (drop-Keeps 48)

  empty_hops-Keeps : (n cl : ℕ) → Keeps 48 (empty_hops k n cl)
  unfolding empty_hops
  empty_hops-Keeps zero cl = pure-Post Any true tt
  empty_hops-Keeps (suc n) cl =
      if-Post _
        (bind-Post (get-IsSafe 48 k) λ v _.
          bind-Post (attempt-Keeps Any _ (bread-Keeps 48 k _ 1)) λ got _.
            maybe-Post got
              (λ bytes.
                maybe-Post (sector_empty 16 bytes) (λ r. pure-Post Any r tt) (empty_hops-Keeps n _))
              (pure-Post Any false tt))
        (pure-Post Any true tt)

  pub fs_rmdir-Keeps : (path : List ℕ) → Keeps 48 (fs_rmdir k path)
  unfolding fs_rmdir rmdir_leaf
  fs_rmdir-Keeps path = in_parent-Keeps path _ λ leaf. bind-Post (get-IsSafe 48 k) λ v _.
      bind-Post {P = Any} (from_option-Keeps (find_file leaf v)) λ i _.
        bind-Post (fail_if-Post _) λ _ _.
          bind-Post {P = Any} (if-Post _ (pure-Post Any false tt) (empty_hops-Keeps _ _)) λ empty _.
            bind-Post (fail_if-Post _) λ _ _.
              bind-Post (modify-Keeps _ (free_chain_of-IsSafe i)) λ _ _.
                bind-Post (fat_flush-Keeps 48 k) λ _ _. bind-Post (dir_load-Keeps 48 k) λ _ _.
                  bind-Post (wipe-Keeps i) λ _ _.
                    bind-Post (dir_store-Keeps 48 k) λ _ _. modify-Keeps _ (take_out-IsSafe i)

  pub fs_link-Keeps : (src dst : List ℕ) → Keeps 48 (fs_link k src dst)
  unfolding fs_link entry_of_file link_leaf
  fs_link-Keeps src dst =
      bind-Post {P = Any}
        (in_parent-Keeps src _ λ leaf. bind-Post (get-IsSafe 48 k) λ v _.
          bind-Post {P = Any} (from_option-Keeps (find_file leaf v)) λ i _.
            bind-Post (fail_if-Post _)
              λ _ _. bind-Post (dir_load-Keeps 48 k) λ _ _. gets-Post Any _ (λ v h. tt))
        λ ent _. in_parent-Keeps dst _ λ leaf. bind-Post (get-IsSafe 48 k) λ v _.
          bind-Post (fail_if-Post _) λ _ _.
            bind-Post {P = Any} (from_option-Keeps (to_83 leaf)) λ n83 _.
              bind-Post (fail_if-Post _) λ _ _. bind-Post (dir_slots-Keeps 48 k 1) λ i _.
                bind-Post (put-Keeps 48 _ ent) λ _ _.
                  bind-Post (put-Keeps 48 _ n83)
                    λ _ _. bind-Post (dir_store-Keeps 48 k) λ _ _. scan_dir-Keeps k
