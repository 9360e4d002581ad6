-- ===== src/Fs/Name/RoundTrip.antt =====
-- kernel/fs.c: a short name read back is the name that it was made of, in small letters.
use mathlib.Core.List.{append-nil}
use vampire_os.Prelude.{
  ℕ, zero, suc, ◌≤◌, ◌≡◌, inl, inr, refl, sym, ap, ap₂, ◌∙◌, List, [], ◌∷◌, ◌++◌, map, Option, none,
  some, Bool, true, false, ◌&&◌, not, length, drop, arith,
}
use vampire_os.Prelude.{◌==◌, if◌then◌else◌, Bool-cases}
use vampire_os.Fs.{dot, byte}
use vampire_os.Fs.Name.{
  space, name_char, fold_az, raise_az, cons_byte, stem_bytes, ext_bytes, padded, with_ext,
  with_stem, to_83, name_run, fat_name,
}

-- A byte of a short name: not a space, and its small letter is the name's.
raised :
    (c : ℕ)
    → name_char (fold_az c) ≡ true
    → (fold_az (raise_az (fold_az c)) ≡ fold_az c) × ((raise_az (fold_az c) == space) ≡ false)
unfolding name_char fold_az raise_az
raised c h = ground (arith, h)

unfoldable pub no_space : List ℕ → Bool
no_space [] = true
no_space (c ∷ s) = not (c == space) && no_space s

-- What a field holds of the name.
record Held (n : ℕ) (s out rest : List ℕ) : Type 0 where
  text : map fold_az out ++ map fold_az rest ≡ map fold_az s
  dense : no_space out ≡ true
  fits : length out ≤ n

cons_byte-Held :
    (n : ℕ) (c : ℕ) (s : List ℕ) (r : Option (List ℕ × List ℕ)) (out rest : List ℕ)
    → name_char (fold_az c) ≡ true
    → ((o : List ℕ) (t : List ℕ) → r ≡ some (o, t) → Held n s o t)
    → cons_byte (raise_az (fold_az c)) r ≡ some (out, rest)
    → Held (suc n) (c ∷ s) out rest
unfolding no_space
cons_byte-Held n c s none out rest k f h = absurd (ground (arith, h))
cons_byte-Held n c s (some (o, t)) out rest k f h =
    let x = f o t refl in
    let e0 : raise_az (fold_az c) ∷ o ≡ out = ground (arith, h) in
    let e1 : t ≡ rest = ground (arith, h) in
    let y : Held (suc n) (c ∷ s) (raise_az (fold_az c) ∷ o) t = record {
      text = ap₂ (λ a r. a ∷ r) (raised c k).0 x.text;
      dense = ground (arith, x.dense, (raised c k).1);
      fits = omega (arith, x.fits);
    } in
    rw (← e0, ← e1) y

nothing-Held :
    (n : ℕ) (s out rest : List ℕ)
    → ◌≡◌ {A = Option (List ℕ × List ℕ)} (some ([], s)) (some (out, rest))
    → Held n s out rest
unfolding no_space
nothing-Held n s out rest h =
    let e0 : [] ≡ out = ground (arith, h) in
    let e1 : s ≡ rest = ground (arith, h) in
    rw (← e0, ← e1) (record { text = refl; dense = refl; fits = omega arith })

stem_bytes-Held :
    (n : ℕ) (s out rest : List ℕ) → stem_bytes n s ≡ some (out, rest) → Held n s out rest
unfolding stem_bytes no_space
stem_bytes-Held n [] out rest h = nothing-Held n [] out rest h
stem_bytes-Held zero (c ∷ s) out rest h = nothing-Held zero (c ∷ s) out rest h
stem_bytes-Held (suc n) (c ∷ s) out rest h = elim (Bool-cases (c == dot)) [
  | inl e ↦ nothing-Held (suc n) (c ∷ s) out rest (rw (e, stem_bytes) at h)
  | inr ne ↦ elim (Bool-cases (name_char (fold_az c))) [
    | inl k ↦
        cons_byte-Held n c s (stem_bytes n s) out rest k (stem_bytes-Held n s)
          (rw (ne, k, stem_bytes) at h)
    | inr bad ↦ absurd (ground (arith, rw (ne, bad, stem_bytes) at h))
  ]
]

ext_bytes-Held :
    (n : ℕ) (s out rest : List ℕ) → ext_bytes n s ≡ some (out, rest) → Held n s out rest
unfolding ext_bytes
ext_bytes-Held n [] out rest h = nothing-Held n [] out rest h
ext_bytes-Held zero (c ∷ s) out rest h = nothing-Held zero (c ∷ s) out rest h
ext_bytes-Held (suc n) (c ∷ s) out rest h = elim (Bool-cases (name_char (fold_az c))) [
  | inl k ↦
      cons_byte-Held n c s (ext_bytes n s) out rest k (ext_bytes-Held n s) (rw (k, ext_bytes) at h)
  | inr bad ↦ absurd (ground (arith, rw (bad, ext_bytes) at h))
]

name_run-padded :
    (n : ℕ) (s ys : List ℕ)
    → no_space s ≡ true
    → length s ≤ n
    → name_run n (padded n s ++ ys) ≡ map fold_az s
unfolding name_run padded no_space
name_run-padded zero [] ys d h = refl
name_run-padded zero (c ∷ s) ys d h = absurd (omega arith)
name_run-padded (suc n) [] ys d h = refl
name_run-padded (suc n) (c ∷ s) ys d h =
    let plain : (c == space) ≡ false = ground (arith, d) in
    rw (plain, name_run, name_run-padded n s ys (ground (arith, d)) (omega arith)) refl

drop-padded : (n : ℕ) (s ys : List ℕ) → drop n (padded n s ++ ys) ≡ ys
unfolding padded
drop-padded zero s ys = refl
drop-padded (suc n) [] ys = drop-padded n [] ys
drop-padded (suc n) (c ∷ s) ys = drop-padded n s ys

byte-padded : (n : ℕ) (s ys : List ℕ) → byte (padded n s ++ ys) n ≡ byte ys 0
unfolding padded
byte-padded zero s ys = refl
byte-padded (suc n) [] ys = byte-padded n [] ys
byte-padded (suc n) (c ∷ s) ys = byte-padded n s ys

-- A field of three behind the stem.
fat_name-fields :
    (stem ext : List ℕ)
    → no_space stem ≡ true
    → length stem ≤ 8
    → no_space ext ≡ true
    → length ext ≤ 3
    → fat_name (padded 8 stem ++ padded 3 ext)
      ≡ map fold_az stem ++ (if byte (padded 3 ext) 0 == space then [] else dot ∷ map fold_az ext)
unfolding fat_name
fat_name-fields stem ext d h d' h' =
    let tail : name_run 3 (padded 3 ext) ≡ map fold_az ext =
      ap (name_run 3) (sym (append-nil (padded 3 ext))) ∙ name_run-padded 3 ext [] d' h' in
    rw
      (
        name_run-padded 8 stem (padded 3 ext) d h,
        byte-padded 8 stem (padded 3 ext),
        drop-padded 8 stem (padded 3 ext),
        tail,
      )
      refl

with_ext-name :
    (stem rest ent : List ℕ) (r : Option (List ℕ × List ℕ))
    → no_space stem ≡ true
    → length stem ≤ 8
    → ((o : List ℕ) (t : List ℕ) → r ≡ some (o, t) → Held 3 rest o t)
    → with_ext stem r ≡ some ent
    → fat_name ent ≡ map fold_az stem ++ (dot ∷ map fold_az rest)
unfolding no_space padded
with_ext-name stem rest ent none d h f e = absurd (ground (arith, e))
with_ext-name stem rest ent (some ([], t)) d h f e = absurd (ground (arith, e))
with_ext-name stem rest ent (some (b ∷ ext, _ ∷ _)) d h f e = absurd (ground (arith, e))
with_ext-name stem rest ent (some (b ∷ ext, [])) d h f e =
    let x = f (b ∷ ext) [] refl in
    let made : padded 8 stem ++ padded 3 (b ∷ ext) ≡ ent = ground (arith, e) in
    let plain : (b == space) ≡ false = ground (arith, x.dense) in
    let same : map fold_az (b ∷ ext) ≡ map fold_az rest = sym (append-nil _) ∙ x.text in
    rw (← made, fat_name-fields stem (b ∷ ext) d h x.dense x.fits, plain, same) refl

dot_fold : (c : ℕ) → (c == dot) ≡ true → fold_az c ≡ dot
unfolding fold_az
dot_fold c e = ground (arith, e)

with_stem-name :
    (name ent : List ℕ) (r : Option (List ℕ × List ℕ))
    → ((o : List ℕ) (t : List ℕ) → r ≡ some (o, t) → Held 8 name o t)
    → with_stem r ≡ some ent
    → fat_name ent ≡ map fold_az name
unfolding no_space padded
with_stem-name name ent none f e = absurd (ground (arith, e))
with_stem-name name ent (some ([], t)) f e = absurd (ground (arith, e))
with_stem-name name ent (some (b ∷ stem, [])) f e =
    let x = f (b ∷ stem) [] refl in
    let made : padded 8 (b ∷ stem) ++ padded 3 [] ≡ ent = ground (arith, e) in
    rw (← made, fat_name-fields (b ∷ stem) [] x.dense x.fits refl (omega arith)) x.text
with_stem-name name ent (some (b ∷ stem, c ∷ rest)) f e = elim (Bool-cases (c == dot)) [
  | inr ne ↦ absurd (ground (arith, rw (ne) at e))
  | inl same ↦
      let x = f (b ∷ stem) (c ∷ rest) refl in
      let is_dot : fold_az c ≡ dot = dot_fold c same in
      let r : fat_name ent ≡ map fold_az (b ∷ stem) ++ (dot ∷ map fold_az rest) =
        with_ext-name (b ∷ stem) rest ent (ext_bytes 3 rest) x.dense x.fits (ext_bytes-Held 3 rest)
          (rw (same) at e) in
      r ∙ rw (← is_dot) x.text
]

-- Where `to_83` makes a short name of a name, `fat_name` reads it back as the same name in small
-- letters.
pub fat_name-to_83 : (name ent : List ℕ) → to_83 name ≡ some ent → fat_name ent ≡ map fold_az name
unfolding to_83
fat_name-to_83 name ent e = with_stem-name name ent (stem_bytes 8 name) (stem_bytes-Held 8 name) e
