-- ===== src/Fs/Safe/Reach.antt =====
-- kernel/fs.c: the calls that change the volume, and what stays true from the mount on.
use vampire_os.Prelude.{ℕ, ◌≤◌, ◌≡◌, refl, List, [], ◌∷◌, some, not, arith}
use vampire_os.Fs.Walk.{fs_chdir, fs_setcwd, fs_setpwd}
use vampire_os.Fs.Create.{fs_mkdir}
use vampire_os.Fs.Edit.{fs_write, fs_truncate, fs_remove, fs_rmdir, fs_link}
use vampire_os.Fs.Look.{
  Layout, layout, laid_out, unmounted, mount, fs_init, fs_lookup, fs_stat, fs_sync, fs_copy,
  fs_rename,
}
use vampire_os.Fs.Action.{Volume, State, Machine, modify, ◌>>=◌}
use vampire_os.Fs.Safe.{IsSafe, Keeps, modify-Keeps, fail_if-Post, any-Keeps, bind-Post}
use vampire_os.Fs.Safe.Dirs.{same-IsSafe, get-IsSafe, bread-Keeps}
use vampire_os.Fs.Safe.Walk.{call-Keeps, go_to-Keeps, scan_dir-Keeps}
use vampire_os.Fs.Safe.Edit.{
  fs_write-Keeps, fs_mkdir-Keeps, fs_truncate-Keeps, fs_remove-Keeps, fs_rmdir-Keeps, fs_link-Keeps,
}
use vampire_os.Fs.Safe.Calls.{
  fs_lookup-Keeps, fs_stat-Keeps, fs_sync-Keeps, fs_copy-Keeps, fs_rename-Keeps, fs_chdir-Keeps,
  fs_setpwd-Keeps,
}

-- A call of fs.h with its arguments.
pub data Call : Type 0 where
  lookup : (path : List ℕ) → Call
  stat : (path : List ℕ) → Call
  write : (path src : List ℕ) → Call
  truncate : (path : List ℕ) (len : ℕ) → Call
  remove : (path : List ℕ) → Call
  rename : (src dst : List ℕ) → Call
  copy : (src dst : List ℕ) → Call
  link : (src dst : List ℕ) → Call
  mkdir : (path : List ℕ) → Call
  rmdir : (path : List ℕ) → Call
  chdir : (name : List ℕ) → Call
  setcwd : (cl : ℕ) → Call
  setpwd : (path : List ℕ) → Call
  sync : Call

-- A layout that is taken has a table of four sectors at most.
layout-fits : (bpb : List ℕ) (l : Layout) → layout bpb ≡ some l → l.fatsz ≤ 4
unfolding layout
layout-fits bpb l e = ground (arith, e)

unmounted-IsSafe : (v : Volume) → IsSafe 48 (unmounted v)
unmounted-IsSafe v = record {
  files_fit = omega arith;
  dir_fits = omega arith;
  path_fits = omega arith;
  table_fits = omega arith;
}

module _ {ℓ} {M : Type ℓ} (k : Machine M) where
  -- The state that a call leaves, whatever it returns.
  unfoldable pub run : Call → State M → State M
  run (lookup path) s = (fs_lookup k path s).1
  run (stat path) s = (fs_stat k path s).1
  run (write path src) s = (fs_write k path src s).1
  run (truncate path len) s = (fs_truncate k path len s).1
  run (remove path) s = (fs_remove k path s).1
  run (rename src dst) s = (fs_rename k src dst s).1
  run (copy src dst) s = (fs_copy k src dst s).1
  run (link src dst) s = (fs_link k src dst s).1
  run (mkdir path) s = (fs_mkdir k path s).1
  run (rmdir path) s = (fs_rmdir k path s).1
  run (chdir name) s = (fs_chdir k name s).1
  run (setcwd cl) s = (fs_setcwd k cl s).1
  run (setpwd path) s = (fs_setpwd k path s).1
  run sync s = (fs_sync k s).1

  unfoldable pub run_all : List Call → State M → State M
  run_all [] s = s
  run_all (c ∷ calls) s = run_all calls (run c s)

  run-IsSafe : (c : Call) (s : State M) → IsSafe 48 s.vol → IsSafe 48 (run c s).vol
  unfolding run fs_setcwd
  run-IsSafe (lookup path) = (fs_lookup-Keeps k path).keeps
  run-IsSafe (stat path) = (fs_stat-Keeps k path).keeps
  run-IsSafe (write path src) = (fs_write-Keeps k path src).keeps
  run-IsSafe (truncate path len) = (fs_truncate-Keeps k path len).keeps
  run-IsSafe (remove path) = (fs_remove-Keeps k path).keeps
  run-IsSafe (rename src dst) = (fs_rename-Keeps k src dst).keeps
  run-IsSafe (copy src dst) = (fs_copy-Keeps k src dst).keeps
  run-IsSafe (link src dst) = (fs_link-Keeps k src dst).keeps
  run-IsSafe (mkdir path) = (fs_mkdir-Keeps k path).keeps
  run-IsSafe (rmdir path) = (fs_rmdir-Keeps k path).keeps
  run-IsSafe (chdir name) = (fs_chdir-Keeps k name).keeps
  run-IsSafe (setcwd cl) = (go_to-Keeps k cl).keeps
  run-IsSafe (setpwd path) = (fs_setpwd-Keeps k path).keeps
  run-IsSafe sync = (fs_sync-Keeps k).keeps

  mount-Keeps : Keeps 48 (mount k)
  unfolding mount
  mount-Keeps = bind-Post (call-Keeps k 48 k.page_buf) λ scratch _.
      bind-Post (fail_if-Post (not scratch)) λ _ _.
        bind-Post (modify-Keeps _ (λ v. same-IsSafe 48 v _ refl refl refl refl)) λ _ _.
          bind-Post (call-Keeps k 48 k.page_buf) λ page _.
            bind-Post (fail_if-Post (not page)) λ _ _.
              bind-Post (modify-Keeps _ (λ v. same-IsSafe 48 v _ refl refl refl refl)) λ _ _.
                bind-Post (bread-Keeps 48 k 0 1) λ bpb _.
                  bind-Post {P = λ l. l.fatsz ≤ 4}
                    (record { keeps = λ s h. h; gives = λ s l h e. layout-fits bpb l e })
                    λ l fits. bind-Post (laid_out-Keeps l fits) λ _ _.
                      bind-Post (bread-Keeps 48 k _ _) λ fat _. bind-Post (table-Keeps fat) λ _ _.
                        bind-Post (scan_dir-Keeps k)
                          λ _ _. bind-Post (get-IsSafe 48 k) λ v _. any-Keeps (fail_if-Post _)
    where
      laid_out-Keeps : (l : Layout) → l.fatsz ≤ 4 → Keeps {M = M} 48 (modify (laid_out l))
      laid_out-Keeps l fits = modify-Keeps _ λ v h. record {
        files_fit = h.files_fit;
        dir_fits = h.dir_fits;
        path_fits = h.path_fits;
        table_fits = fits;
      }

      table-Keeps :
          (fat : List ℕ)
          → Keeps {M = M} 48 (modify (λ v. record v { table = record v.table { bytes = fat } }))
      table-Keeps fat = modify-Keeps _ λ v h. record {
        files_fit = h.files_fit;
        dir_fits = h.dir_fits;
        path_fits = h.path_fits;
        table_fits = h.table_fits;
      }

  run_all-keeps :
      (calls : List Call) (s : State M) → IsSafe 48 s.vol → IsSafe 48 (run_all calls s).vol
  unfolding run_all
  run_all-keeps [] s h = h
  run_all-keeps (c ∷ calls) s h = run_all-keeps calls (run c s) (run-IsSafe c s h)

  -- After `fs_init`, whether it mounts or fails, and after every sequence of calls of fs.h that may
  -- change the volume, with any arguments, any disk and failures in any place, there are at most 48
  -- files, the directory's bytes lie in the page of `g_dir`, the working directory's text and its
  -- NUL in the 80 bytes of `g_path`, and the sectors of the allocation table in front of `g_sec`.
  pub run_all-IsSafe :
      (calls : List Call) (s : State M) → IsSafe 48 (run_all calls (fs_init k s).1).vol
  unfolding fs_init ◌>>=◌
  run_all-IsSafe calls s = run_all-keeps calls _ ((mount-Keeps).keeps _ (unmounted-IsSafe s.vol))
