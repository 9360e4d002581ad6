-- ===== src/Fs/Safe/Walk.antt =====
-- kernel/fs.c: scanning a directory and going to another keep to the buffers.
use vampire_os.Prelude.{
  ℕ, zero, suc, ◌≡◌, inl, inr, refl, List, [], ◌∷◌, Option, none, some, Bool, true, false, not,
  ◌||◌, length, length-append, bit_and, arith,
}
use vampire_os.Prelude.{ltb, leb, ◌==◌, if◌then◌else◌, Bool-cases}
use vampire_os.Fs.{byte, slash, names_eq}
use vampire_os.Fs.Path.{Split, too_long, no_more, part, split_next, one_dot, two_dots}
use vampire_os.Fs.Dir.{entry, dir_ents}
use vampire_os.Fs.Scan.{
  fs_max, file_max, LongName, more_name, is_no_file, add_file, find_file, load_act, scan_file,
  scan_entry, scan_from, drop_files, scan_dir,
}
use vampire_os.Fs.Walk.{
  set_cwd, by_part, go_to, chdir_up, chdir_down, chdir_one, to_root, walk_names, walk_all,
  enter_names, enter_from, enter_path, leave_parent, enter_parent,
}
use vampire_os.Fs.Action.{File, Volume, State, Machine, Act, ⊤, modify, call, ◌>>◌}
use vampire_os.Fs.Safe.{
  IsSafe, Any, Keeps, Ends, pure-Post, fail-Post, from_option-Keeps, outside-Keeps, or_undo-Post,
  modify-Keeps, fail_if-Post, bind-Post, if-Post, bind-Ends, then-Ends, IsSafe-mono,
}
use vampire_os.Fs.Safe.Dirs.{same-IsSafe, get-IsSafe, bread-Keeps, dir_load-Keeps}

-- One file more.
pub add_file-IsSafe : (n : ℕ) (f : File) (v : Volume) → IsSafe n v → IsSafe (suc n) (add_file f v)
add_file-IsSafe n f v h = record {
  files_fit = omega (arith, length-append v.files (f ∷ []), h.files_fit);
  dir_fits = h.dir_fits;
  path_fits = h.path_fits;
  table_fits = h.table_fits;
}

module _ {ℓ} {M : Type ℓ} (k : Machine M) where
  pub add_file-Ends : (n : ℕ) (f : File) → Ends {M = M} n (suc n) (modify (add_file f))
  add_file-Ends n f = record { ends = λ s h. add_file-IsSafe n f s.vol h }

  pub call-Keeps : (n : ℕ) (f : M → Bool × M) → Keeps n (call f)
  call-Keeps n f = outside-Keeps (call f) (λ s. refl)

  scan_file-Ends :
      (n i : ℕ) (name : List ℕ) (cl size : ℕ) → Ends n (suc n) (scan_file k i name cl size)
  unfolding scan_file
  scan_file-Ends n i name cl size = elim (Bool-cases (ltb file_max size)) [
    | inl big ↦ rw (big) (record { ends = λ s h. IsSafe-mono n (suc n) s.vol (omega arith) h })
    | inr fits ↦ rw (fits) (
        bind-Ends (omega arith) (call-Keeps n k.page_buf) λ page _.
          bind-Ends (omega arith) (fail_if-Post (not page)) λ _ _.
            bind-Ends (omega arith) (outside-Keeps (load_act k cl size) (λ s. refl))
              λ (ok, bytes) _. add_file-Ends n _)
  ]

  scan_entry-Ends : (n i : ℕ) (lfn : LongName) → Ends n (suc n) (scan_entry k i lfn)
  unfolding scan_entry
  scan_entry-Ends n i lfn = bind-Ends {P = IsSafe n} (omega arith) (get-IsSafe n k) λ v _.
      elim (Bool-cases (bit_and (byte (entry v.dir i) 11) 0x10 == 0)) [
        | inl plain ↦ rw (plain) (scan_file-Ends n i _ _ _)
        | inr dir ↦ rw (dir) (add_file-Ends n _)
      ]

  pub one_less : (v : Volume) → leb fs_max (length v.files) ≡ false → IsSafe 48 v → IsSafe 47 v
  one_less v room h = record {
    files_fit = ground (arith, room);
    dir_fits = h.dir_fits;
    path_fits = h.path_fits;
    table_fits = h.table_fits;
  }

  -- One of the branches that go on or stop.
  scan_step :
      (full none_ plain name label : Bool) (s : State M) (stop next next' end_ : Option ⊤ × State M)
      → IsSafe 48 stop.1.vol
      → IsSafe 48 next.1.vol
      → IsSafe 48 next'.1.vol
      → (full ≡ false → IsSafe 48 end_.1.vol)
      → IsSafe 48
          (if full || none_
            then stop
            else if plain
            then next
            else if name
            then next'
            else if label
            then next
            else end_).1.vol
  scan_step true none_ plain name label s stop next next' end_ a b c d = a
  scan_step false true plain name label s stop next next' end_ a b c d = a
  scan_step false false true name label s stop next next' end_ a b c d = b
  scan_step false false false true label s stop next next' end_ a b c d = c
  scan_step false false false false true s stop next next' end_ a b c d = b
  scan_step false false false false false s stop next next' end_ a b c d = d refl

  scan_from-Keeps : (left i : ℕ) (lfn : LongName) → Keeps 48 (scan_from k left i lfn)
  unfolding scan_from
  scan_from-Keeps zero i lfn = record { keeps = λ s h. h; gives = λ s a h e. tt }
  scan_from-Keeps (suc left) i lfn = record {
    keeps = λ s h.
        let ent = entry s.vol.dir i in
        let c = byte ent 0 in
        let attr = byte ent 11 in
        let name = more_name i ent lfn in
        let next = λ (l : LongName). (scan_from-Keeps left (suc i) l).keeps s h in
        scan_step (leb fs_max (length s.vol.files)) (c == 0) (is_no_file c) (attr == 0x0f)
          (not (bit_and attr 0x08 == 0)) s (some tt, s) (scan_from k left (suc i) none s)
          (scan_from k left (suc i) name s)
          ((scan_entry k i lfn >> scan_from k left (suc i) none) s) h (next none) (next name)
          (λ room.
            (then-Ends {n = 47} {n' = 48} (scan_entry-Ends 47 i lfn)
                (λ _. scan_from-Keeps left (suc i) none)).ends
              s (one_less s.vol room h));
    gives = λ s a h e. tt;
  }

  pub scan_dir-Keeps : Keeps 48 (scan_dir k)
  unfolding scan_dir
  scan_dir-Keeps = bind-Post {P = Any} drop_files-Keeps λ _ _.
      bind-Post (dir_load-Keeps 48 k)
        λ _ _. bind-Post (get-IsSafe 48 k) λ v _. scan_from-Keeps (dir_ents v.dir_bytes) 0 none
    where
      drop_files-Keeps : Keeps 48 (drop_files k)
      drop_files-Keeps = record {
        keeps = λ s h. record {
          files_fit = omega arith;
          dir_fits = h.dir_fits;
          path_fits = h.path_fits;
          table_fits = h.table_fits;
        };
        gives = λ s a h e. tt;
      }

  pub go_to-Keeps : (cl : ℕ) → Keeps 48 (go_to k cl)
  go_to-Keeps cl =
      bind-Post (modify-Keeps (set_cwd cl) (λ v. same-IsSafe 48 v _ refl refl refl refl))
        λ _ _. scan_dir-Keeps

  chdir_one-Keeps : (name : List ℕ) → Keeps 48 (chdir_one k name)
  unfolding chdir_one chdir_up chdir_down
  chdir_one-Keeps [] = fail-Post Any
  chdir_one-Keeps (c ∷ name) = if-Post (names_eq (c ∷ name) one_dot) (pure-Post Any tt tt) (
      if-Post (names_eq (c ∷ name) two_dots)
        (bind-Post (get-IsSafe 48 k) λ v _.
          if-Post (ltb v.cwd 2) (pure-Post Any tt tt)
            (bind-Post (bread-Keeps 48 k _ _) λ bytes _. go_to-Keeps _))
        (bind-Post (get-IsSafe 48 k) λ v _.
          bind-Post {P = Any} (from_option-Keeps (find_file (c ∷ name) v))
            λ i _. bind-Post (fail_if-Post _) λ _ _. go_to-Keeps _))

  by_part-Post :
      {A : Type 0} (r : Split) {end_ : Act M A} {next : List ℕ → List ℕ → Act M A}
      → Keeps 48 end_
      → ((name rest : List ℕ) → Keeps 48 (next name rest))
      → Keeps 48 (by_part r end_ next)
  by_part-Post too_long p q = fail-Post Any
  by_part-Post no_more p q = p
  by_part-Post (part name rest) p q = q name rest

  to_root-Keeps : Keeps 48 (to_root k)
  unfolding to_root
  to_root-Keeps =
      bind-Post (get-IsSafe 48 k) λ v _. if-Post (leb 2 v.cwd) (go_to-Keeps 0) (pure-Post Any tt tt)

  walk_names-Keeps : (fuel : ℕ) (s : List ℕ) → Keeps 48 (walk_names k fuel s)
  unfolding walk_names
  walk_names-Keeps zero s = fail-Post Any
  walk_names-Keeps (suc fuel) s =
      by_part-Post (split_next s) (pure-Post Any tt tt)
        λ name rest. bind-Post (chdir_one-Keeps name) λ _ _. walk_names-Keeps fuel rest

  pub walk_all-Keeps : (path : List ℕ) → Keeps 48 (walk_all k path)
  unfolding walk_all
  walk_all-Keeps [] = walk_names-Keeps 1 []
  walk_all-Keeps (c ∷ s) =
      if-Post (c == slash) (bind-Post to_root-Keeps λ _ _. walk_names-Keeps _ s)
        (walk_names-Keeps _ (c ∷ s))

  enter_names-Keeps : (fuel : ℕ) (comp s : List ℕ) → Keeps 48 (enter_names k fuel comp s)
  unfolding enter_names
  enter_names-Keeps zero comp s = fail-Post Any
  enter_names-Keeps (suc fuel) comp s =
      by_part-Post (split_next s) (pure-Post Any comp tt)
        λ more rest. bind-Post (chdir_one-Keeps comp) λ _ _. enter_names-Keeps fuel more rest

  enter_from-Keeps : (s : List ℕ) → Keeps 48 (enter_from k s)
  unfolding enter_from
  enter_from-Keeps s =
      by_part-Post (split_next s) (fail-Post Any) λ comp rest. enter_names-Keeps _ comp rest

  pub leave_parent-Keeps : Keeps 48 (leave_parent k)
  unfolding leave_parent
  leave_parent-Keeps =
      bind-Post (get-IsSafe 48 k)
        λ v _. if-Post (v.cwd == v.saved_cwd) (pure-Post Any tt tt) (go_to-Keeps v.saved_cwd)

  enter_path-Keeps : (path : List ℕ) → Keeps 48 (enter_path k path)
  unfolding enter_path
  enter_path-Keeps [] = fail-Post Any
  enter_path-Keeps (c ∷ s) =
      if-Post (c == slash) (bind-Post to_root-Keeps λ _ _. enter_from-Keeps s)
        (enter_from-Keeps (c ∷ s))

  pub enter_parent-Keeps : (path : List ℕ) → Keeps 48 (enter_parent k path)
  unfolding enter_parent
  enter_parent-Keeps path =
      bind-Post (modify-Keeps _ (λ v. same-IsSafe 48 v _ refl refl refl refl))
        λ _ _. or_undo-Post Any _ _ (enter_path-Keeps path) leave_parent-Keeps
