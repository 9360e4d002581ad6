-- ===== src/Fs/Tests/Names.antt =====
-- Tests of the model of names and paths in kernel/fs.c.
use vampire_os.Prelude.{
  ℕ, zero, suc, ◌≤◌, ◌≡◌, refl, true, false, List, [], ◌∷◌, ◌++◌, some, map, replicate, arith, ◌==◌,
}
use vampire_os.Fs.{byte}
use vampire_os.Fs.Path.{path_apply}
use vampire_os.Fs.Path.Parts.{words, no_slash}
use vampire_os.Fs.Path.Stack.{show, text_of, AreNames}
use vampire_os.Fs.Path.Apply.{IsStack, walk, origin, answer, path_apply-walk}
use vampire_os.Fs.Name.{
  stem_bytes, ext_bytes, padded, raise_az, name_char, lfn_bytes_ok, fold_az, to_83, fat_name,
  lfn_ok,
}
use vampire_os.Fs.Name.RoundTrip.{fat_name-to_83}
use vampire_os.Fs.Lfn.{lfn_cksum, lfn_entries, lfn_build}
use vampire_os.Fs.Lfn.RoundTrip.{lfn_count, lfn_build-lfn_entries}
use vampire_os.Fs.Dir.{
  last_dot, alias_bytes, first_unused, alias_used, used_from, same_bytes, numbered, make_alias,
  entry,
}
use vampire_os.Fs.Dir.Alias.{Names, make_alias-unused}

-- The directory /bin, and the path ../a from there.
abbrev bin : List (List ℕ)
bin = (98 ∷ 105 ∷ 110 ∷ []) ∷ []

abbrev up_to_a : List ℕ
up_to_a = 46 ∷ 46 ∷ 47 ∷ 97 ∷ []

bin-IsStack : IsStack bin
unfolding AreNames no_slash text_of
bin-IsStack = record {
  names = (record { inner = refl; some_byte = omega arith }, tt);
  fits = omega arith;
}

path_apply-walk_example :
    path_apply up_to_a (show bin) ≡ answer bin (walk (words up_to_a []) (origin up_to_a bin))
path_apply-walk_example = path_apply-walk up_to_a bin bin-IsStack

-- The name "A.txt" and its short form.
abbrev a_txt : List ℕ
a_txt = 65 ∷ 46 ∷ 116 ∷ 120 ∷ 116 ∷ []

abbrev a_txt83 : List ℕ
a_txt83 = (65 ∷ []) ++ replicate 7 32 ++ (84 ∷ 88 ∷ 84 ∷ [])

a_txt-to_83 : to_83 a_txt ≡ some a_txt83
unfolding to_83 stem_bytes name_char fold_az ext_bytes padded raise_az
a_txt-to_83 = refl

fat_name-to_83_example : fat_name a_txt83 ≡ map fold_az a_txt
fat_name-to_83_example = fat_name-to_83 a_txt a_txt83 a_txt-to_83

-- A name of 15 bytes takes two entries.
abbrev long_name : List ℕ
long_name = replicate 15 120

long_name-ok : lfn_ok long_name ≡ true
unfolding lfn_ok lfn_bytes_ok name_char fold_az
long_name-ok = refl

lfn_build-lfn_entries_example :
    lfn_build
      (lfn_entries (lfn_count long_name) (lfn_count long_name) (lfn_cksum a_txt83) long_name ++ [])
      (lfn_count long_name)
      a_txt83
    ≡ some long_name
lfn_build-lfn_entries_example = lfn_build-lfn_entries long_name a_txt83 [] long_name-ok

-- A directory of one sector with the name X~1.
abbrev one_name : List ℕ
one_name = (88 ∷ 126 ∷ 49 ∷ []) ++ replicate 8 32 ++ replicate 501 0

abbrev x2 : List ℕ
x2 = (88 ∷ 126 ∷ 50 ∷ []) ++ replicate 8 32

x2-alias : make_alias (120 ∷ []) 512 one_name ≡ some x2
unfolding make_alias last_dot alias_bytes name_char fold_az first_unused alias_used used_from
    same_bytes numbered padded raise_az
x2-alias = refl

first_used : (k : ℕ) → k ≤ 0 → (byte (entry one_name k) 0 == 0) ≡ false
first_used zero h = refl
first_used (suc k) h = absurd (omega (arith, h))

make_alias-unused_example : ¬ Names one_name x2 0
make_alias-unused_example =
    make_alias-unused (120 ∷ []) 512 one_name x2 0 x2-alias (omega arith) first_used (omega arith)
