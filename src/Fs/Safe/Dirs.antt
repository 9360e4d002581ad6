-- ===== src/Fs/Safe/Dirs.antt =====
-- kernel/fs.c: what reads, writes and lengthens the directory keeps to the buffers.
use vampire_os.Prelude.{ℕ, zero, suc, ◌+◌, ◌*◌, ◌≤◌, ◌≡◌, inl, inr, refl, List, ◌&&◌, arith}
use vampire_os.Prelude.{ltb, Bool-cases}
use vampire_os.Fs.{sec, chain_max}
use vampire_os.Fs.Fat.{Fat, fat12_set, fat_alloc, is_link}
use vampire_os.Fs.Dir.{dir_find_run}
use vampire_os.Fs.Dirs.{
  set_table, set_entry, bread_act, bwrite_act, fat_flush, fat_alloc_act, load_from, dir_load,
  store_from, dir_store, dir_grow, dir_slots,
}
use vampire_os.Fs.Action.{Volume, Machine, gets, modify}
use vampire_os.Fs.Safe.Table.{fatsz-fat12_set, fatsz-alloc_down}
use vampire_os.Fs.Safe.{
  IsSafe, Post, Any, Keeps, pure-Post, gets-Post, from_option-Keeps, outside-Keeps, or_undo-Post,
  modify-Keeps, any-Keeps, maybe-Post, fail_if-Post, bind-Post, if-Post,
}

pub set_table-IsSafe :
    (n : ℕ) (t : Fat) (v : Volume) → t.fatsz ≡ v.table.fatsz → IsSafe n v → IsSafe n (set_table t v)
set_table-IsSafe n t v e h = record {
  files_fit = h.files_fit;
  dir_fits = h.dir_fits;
  path_fits = h.path_fits;
  table_fits = omega (arith, e, h.table_fits);
}

pub set_entry-IsSafe : (n cl val : ℕ) (v : Volume) → IsSafe n v → IsSafe n (set_entry cl val v)
set_entry-IsSafe n cl val v h =
    set_table-IsSafe n (fat12_set v.table cl val) v (fatsz-fat12_set v.table cl val) h

-- A change that leaves what IsSafe speaks of.
pub same-IsSafe :
    (n : ℕ) (v v' : Volume)
    → v'.files ≡ v.files
    → v'.dir_bytes ≡ v.dir_bytes
    → v'.path ≡ v.path
    → v'.table ≡ v.table
    → IsSafe n v
    → IsSafe n v'
same-IsSafe n v v' f d p t h = record {
  files_fit = rw (f) h.files_fit;
  dir_fits = rw (d) h.dir_fits;
  path_fits = rw (p) h.path_fits;
  table_fits = rw (t) h.table_fits;
}

module _ {ℓ} {M : Type ℓ} (n : ℕ) (k : Machine M) where
  pub get-IsSafe : Post {M = M} n (IsSafe n) (gets (λ v. v))
  get-IsSafe = gets-Post (IsSafe n) (λ v. v) (λ v h. h)

  pub bread-Keeps : (lba count : ℕ) → Keeps n (bread_act k lba count)
  bread-Keeps lba count = outside-Keeps (bread_act k lba count) (λ s. refl)

  pub bwrite-Keeps : (lba count : ℕ) (src : List ℕ) → Keeps n (bwrite_act k lba count src)
  bwrite-Keeps lba count src = outside-Keeps (bwrite_act k lba count src) (λ s. refl)

  pub fat_flush-Keeps : Keeps n (fat_flush k)
  unfolding fat_flush
  fat_flush-Keeps = bind-Post get-IsSafe λ v h.
      bind-Post (fail_if-Post _) λ _ _. bind-Post (bwrite-Keeps _ _ _) λ _ _. bwrite-Keeps _ _ _

  pub fat_alloc-Keeps : Keeps n (fat_alloc_act k)
  unfolding fat_alloc_act fat_alloc
  fat_alloc-Keeps = record {
    keeps = λ s h.
        set_table-IsSafe n _ s.vol (fatsz-alloc_down (s.vol.table.clusters + 1) s.vol.table) h;
    gives = λ s a h e. tt;
  }

  load_from-Post :
      (hops cl off : ℕ)
      → off + hops * sec ≤ chain_max * sec
      → Post n (λ r. r ≤ chain_max * sec) (load_from k hops cl off)
  unfolding load_from
  load_from-Post zero cl off h = pure-Post _ off (omega arith)
  load_from-Post (suc hops) cl off h =
      if-Post (is_link cl)
        (bind-Post get-IsSafe λ v _. bind-Post (bread-Keeps _ _) λ bytes _.
          bind-Post (modify-Keeps _ (λ v. same-IsSafe n v _ refl refl refl refl))
            λ _ _. load_from-Post hops _ (off + sec) (omega arith))
        (pure-Post _ off (omega arith))

  set_bytes-Keeps :
      (off : ℕ)
      → off ≤ chain_max * sec
      → Keeps {M = M} n (modify (λ v. record v { dir_bytes = off }))
  set_bytes-Keeps off p = modify-Keeps _ λ v h. record {
    files_fit = h.files_fit;
    dir_fits = p;
    path_fits = h.path_fits;
    table_fits = h.table_fits;
  }

  pub dir_load-Keeps : Keeps n (dir_load k)
  unfolding dir_load
  dir_load-Keeps = bind-Post get-IsSafe λ v h. bind-Post (fail_if-Post _) λ _ _.
      if-Post (ltb v.cwd 2)
        (bind-Post (bread-Keeps _ _) λ _ _.
          bind-Post (modify-Keeps _ (λ v. same-IsSafe n v _ refl refl refl refl))
            λ _ _. bind-Post (load_from-Post 7 _ sec (omega arith)) λ off p. set_bytes-Keeps off p)
        (bind-Post (load_from-Post chain_max v.cwd 0 (omega arith))
          λ off p. bind-Post (set_bytes-Keeps off p) λ _ _. any-Keeps (fail_if-Post _))

  store_from-Keeps : (hops cl off : ℕ) → Keeps n (store_from k hops cl off)
  unfolding store_from
  store_from-Keeps zero cl off = record { keeps = λ s h. h; gives = λ s a h e. tt }
  store_from-Keeps (suc hops) cl off = record {
    keeps = λ s h. elim (Bool-cases (ltb off s.vol.dir_bytes && is_link cl)) [
      | inr stop ↦ rw (stop) h
      | inl on_ ↦
          rw (on_, store_from)
            ((bind-Post {P = Any} {Q = Any} (bwrite-Keeps _ 1 _)
                (λ _ _. store_from-Keeps hops _ (off + sec))).keeps
              s h)
    ];
    gives = λ s a h e. tt;
  }

  pub dir_store-Keeps : Keeps n (dir_store k)
  unfolding dir_store
  dir_store-Keeps = bind-Post get-IsSafe λ v h. bind-Post (fail_if-Post _) λ _ _.
      bind-Post {P = Any}
        (if-Post (ltb v.cwd 2) (bind-Post (bwrite-Keeps _ 1 _) λ _ _. store_from-Keeps 7 _ sec)
          (store_from-Keeps chain_max v.cwd 0))
        λ off _. any-Keeps (fail_if-Post _)

  pub set_entry-Keeps : (cl val : ℕ) → Keeps {M = M} n (modify (set_entry cl val))
  set_entry-Keeps cl val = modify-Keeps _ (set_entry-IsSafe n cl val)

  dir_grow-Keeps : Keeps n (dir_grow k)
  unfolding dir_grow
  dir_grow-Keeps = bind-Post get-IsSafe λ v h. bind-Post (fail_if-Post _) λ _ room.
      bind-Post fat_alloc-Keeps λ next _. bind-Post (set_entry-Keeps _ next) λ _ _.
        bind-Post
          (or_undo-Post Any _ _ fat_flush-Keeps (
            bind-Post (set_entry-Keeps _ _)
              λ _ _. bind-Post (set_entry-Keeps next 0) λ _ _. fat_flush-Keeps))
          λ _ _.
            bind-Post (modify-Keeps _ (λ v. same-IsSafe n v _ refl refl refl refl))
              λ _ _. set_bytes-Keeps (v.dir_bytes + sec) (ground (arith, room))

  pub dir_slots-Keeps : (need : ℕ) → Keeps n (dir_slots k need)
  unfolding dir_slots
  dir_slots-Keeps need = bind-Post dir_load-Keeps λ _ _. bind-Post get-IsSafe λ v _.
      maybe-Post (dir_find_run need v.dir_bytes v.dir) (λ i. pure-Post Any i tt)
        (bind-Post dir_grow-Keeps λ _ _. bind-Post get-IsSafe λ v' _. from_option-Keeps _)
