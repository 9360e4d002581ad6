-- ===== src/Fs/Walk.antt =====
-- kernel/fs.c: going from one directory to another.
use vampire_os.Prelude.{
  ℕ, zero, suc, ◌-◌, take, List, [], ◌∷◌, Option, none, some, false, not, length, get_or, ltb, leb,
  ◌==◌, if◌then◌else◌,
}
use vampire_os.Fs.{path_max, slash, names_eq, copy_str, rd_u16}
use vampire_os.Fs.Path.{Split, too_long, no_more, part, one_dot, two_dots, split_next, path_apply}
use vampire_os.Fs.Dirs.{dir_lba, bread_act}
use vampire_os.Fs.Scan.{find_file, scan_dir}
use vampire_os.Fs.Action.{
  File, Volume, Machine, Act, ⊤, pure, fail, maybe, gets, from_option, attempt, modify, fail_if,
  ◌>>=◌, ◌>>◌, or_undo,
}

abbrev pub no_file : File
no_file = record { name = []; page = none; len = 0; cluster = 0; slot = 0; is_dir = false }

-- `files[i]`
abbrev pub file_at : Volume → ℕ → File
file_at v i = get_or v.files i no_file

abbrev pub set_cwd : ℕ → Volume → Volume
set_cwd cl v = record v { cwd = cl }

abbrev pub set_path : List ℕ → Volume → Volume
set_path p v = record v { path = p }

-- On what `split_next` returns: -1 where that is -1.
abbrev pub by_part {ℓ κ} :
    {M : Type ℓ} {A : Type κ} → Split → Act M A → (List ℕ → List ℕ → Act M A) → Act M A
by_part too_long end_ next = fail
by_part no_more end_ next = end_
by_part (part name rest) end_ next = next name rest

module _ {ℓ} {M : Type ℓ} (k : Machine M) where
  abbrev pub go_to : ℕ → Act M ⊤
  go_to cl = modify (set_cwd cl) >> scan_dir k

  unfoldable pub chdir_up : Act M ⊤
  chdir_up = do
    v ← gets (λ v. v)
    let step : Act M ⊤ = do bytes ← bread_act k (dir_lba v) 1; go_to (rd_u16 bytes 58)
    if ltb v.cwd 2 then pure tt else step

  unfoldable pub chdir_down : List ℕ → Act M ⊤
  chdir_down name = do
    v ← gets (λ v. v)
    i ← from_option (find_file name v)
    fail_if (not (file_at v i).is_dir)
    go_to (file_at v i).cluster

  unfoldable pub chdir_one : List ℕ → Act M ⊤
  chdir_one [] = fail
  chdir_one (c ∷ name) =
      if names_eq (c ∷ name) one_dot
      then pure tt
      else if names_eq (c ∷ name) two_dots
      then chdir_up
      else chdir_down (c ∷ name)

  -- An absolute path starts at the root directory.
  unfoldable pub to_root : Act M ⊤
  to_root = do v ← gets (λ v. v); if leb 2 v.cwd then go_to 0 else pure tt

  -- The loop of `walk_all`, which each name makes shorter.
  unfoldable pub walk_names : ℕ → List ℕ → Act M ⊤
  walk_names zero s = fail
  walk_names (suc fuel) s =
      by_part (split_next s) (pure tt) (λ name rest. chdir_one name >> walk_names fuel rest)

  unfoldable pub walk_all : List ℕ → Act M ⊤
  walk_all [] = walk_names 1 []
  walk_all (c ∷ s) =
      let below = to_root >> walk_names (suc (length s)) s in
      if c == slash then below else walk_names (suc (suc (length s))) (c ∷ s)

  -- The loop of `enter_parent` behind the name `comp`, the same way; the value is the last name.
  unfoldable pub enter_names : ℕ → List ℕ → List ℕ → Act M (List ℕ)
  enter_names zero comp s = fail
  enter_names (suc fuel) comp s =
      by_part (split_next s) (pure comp) (λ more rest. chdir_one comp >> enter_names fuel more rest)

  unfoldable pub enter_from : List ℕ → Act M (List ℕ)
  enter_from s =
      by_part (split_next s) fail (λ comp rest. enter_names (suc (length rest)) comp rest)

  unfoldable pub enter_path : List ℕ → Act M (List ℕ)
  enter_path [] = fail
  enter_path (c ∷ s) =
      let below = to_root >> enter_from s in if c == slash then below else enter_from (c ∷ s)

  -- The directory that was left, scanned again where it is another.
  unfoldable pub leave_parent : Act M ⊤
  leave_parent = do v ← gets (λ v. v); if v.cwd == v.saved_cwd then pure tt else go_to v.saved_cwd

  unfoldable pub enter_parent : List ℕ → Act M (List ℕ)
  enter_parent path = do
    modify (λ v. record v { saved_cwd = v.cwd })
    or_undo (enter_path path) leave_parent

  -- `a path was applied` or -1, with the text put back by path_apply itself.
  unfoldable pub apply_act : List ℕ → Act M ⊤
  apply_act path s =
      let (ok, p) = path_apply path s.vol.path in
      (if ok then some tt else none, record s { vol = set_path p s.vol })

  -- What `fs_chdir` puts back where the walk fails.
  unfoldable pub back_to : ℕ → List ℕ → Act M ⊤
  back_to cwd path = do
    v ← gets (λ v. v)
    let rescan : Act M (Option ⊤) = attempt (go_to cwd)
    let same : Act M (Option ⊤) = pure none
    if v.cwd == cwd then same else rescan
    modify (set_path path)

  unfoldable pub fs_chdir : List ℕ → Act M ⊤
  fs_chdir [] = fail
  fs_chdir (c ∷ name) = do
    v ← gets (λ v. v)
    path_saved ← from_option (copy_str 0 path_max v.path)
    apply_act (c ∷ name)
    or_undo (walk_all (c ∷ name)) (back_to v.cwd path_saved)

  unfoldable pub fs_setcwd : ℕ → Act M ⊤
  fs_setcwd cl = go_to cl

  -- A path that does not fit leaves its first bytes there; the last byte of `g_path` is never written but by 0.
  unfoldable pub fs_setpwd : List ℕ → Act M ⊤
  fs_setpwd [] = fail
  fs_setpwd (c ∷ path) =
      let cut : Act M ⊤ = modify (set_path (take (path_max - 1) (c ∷ path))) in
      maybe (copy_str 0 path_max (c ∷ path)) (λ p. modify (set_path p)) (cut >> fail)
