-- ===== src/Fs/Lfn/RoundTrip.antt =====
-- kernel/fs.c: a long name is read back from the entries that fs_create makes of it.
use mathlib.Core.List.{append_assoc, append-nil}
use vampire_os.Prelude.{
  ℕ, zero, suc, ◌+◌, ◌-◌, ◌/◌, ◌<◌, ◌≤◌, ◌≡◌, inl, inr, refl, ap, ◌∙◌, List, [], ◌∷◌, ◌++◌, some,
  Bool, true, false, length, length-set, take, drop, take_of_ge, take-append_drop,
  length-take_of_le, length-drop, arith,
}
use vampire_os.Prelude.{◌==◌, lt-or-le}
use vampire_os.Prelude.Bytes.{u8}
use vampire_os.Fs.{name_max, byte}
use vampire_os.Fs.Name.{name_char, fold_az, lfn_bytes_ok, lfn_ok}
use vampire_os.Fs.Lfn.{
  lfn_chars_max, lfn_slot, lfn_cksum, put_chars, get_chars, blank_entry, lfn_store, lfn_entries,
  lfn_chars, entries_fit, join_chars, not_empty, lfn_build,
}
use vampire_os.Fs.Lfn.Chars.{
  touches, apart_slots, printable, clear_slots, put_chars-ne, get_chars-put_chars,
}

length-put_chars :
    (slots : List ℕ) (done : Bool) (name ent : List ℕ)
    → length (put_chars slots done name ent) ≡ length ent
unfolding put_chars
length-put_chars [] done name ent = refl
length-put_chars (s ∷ slots) true name ent =
    length-put_chars slots true name _ ∙ length-set _ (s + 1) 0xff ∙ length-set ent s 0xff
length-put_chars (s ∷ slots) false [] ent = length-put_chars slots true [] ent
length-put_chars (s ∷ slots) false (c ∷ name) ent =
    length-put_chars slots false name _ ∙ length-set ent s (u8 c)

byte-append : (xs ys : List ℕ) (j : ℕ) → j < length xs → byte (xs ++ ys) j ≡ byte xs j
byte-append [] ys j h = absurd (omega arith)
byte-append (x ∷ xs) ys zero h = refl
byte-append (x ∷ xs) ys (suc j) h = byte-append xs ys j (omega arith)

drop-append : (n : ℕ) (xs ys : List ℕ) → length xs ≡ n → drop n (xs ++ ys) ≡ ys
drop-append zero [] ys h = refl
drop-append zero (x ∷ xs) ys h = absurd (omega arith)
drop-append (suc n) [] ys h = absurd (omega arith)
drop-append (suc n) (x ∷ xs) ys h = drop-append n xs ys (omega arith)

-- An entry is read the same with others behind it.
get_chars-append :
    (slots ent more out : List ℕ)
    → apart_slots (length ent) slots ≡ true
    → get_chars slots (ent ++ more) out ≡ get_chars slots ent out
unfolding get_chars apart_slots
get_chars-append [] ent more out a = refl
get_chars-append (s ∷ slots) ent more out a =
    let lo : byte (ent ++ more) s ≡ byte ent s = byte-append ent more s (ground (arith, a)) in
    let hi : byte (ent ++ more) (s + 1) ≡ byte ent (s + 1) =
      byte-append ent more (s + 1) (ground (arith, a)) in
    rw (lo, hi, get_chars-append slots ent more (out ++ (byte ent s ∷ [])) (ground (arith, a))) refl

lfn_chars-append :
    (ent more out : List ℕ) → length ent ≡ 32 → lfn_chars (ent ++ more) out ≡ lfn_chars ent out
unfolding lfn_chars apart_slots touches
lfn_chars-append ent more out h =
    rw
      (
        byte-append ent more 11 (omega (arith, h)),
        byte-append ent more 12 (omega (arith, h)),
        get_chars-append lfn_slot ent more out (rw (h) refl),
      )
      refl

module _ (seq sum : ℕ) (name : List ℕ) (start : ℕ) where
  -- What the entry has besides the characters.
  lfn_store-marks :
      (byte (lfn_store seq sum name start) 0 ≡ seq)
      × (byte (lfn_store seq sum name start) 13 ≡ sum)
      × (byte (lfn_store seq sum name start) 11 ≡ 0x0f)
      × (byte (lfn_store seq sum name start) 12 ≡ 0)
  unfolding lfn_store touches
  lfn_store-marks =
      let e = λ (j : ℕ) (h : touches j lfn_slot ≡ false).
        put_chars-ne lfn_slot false (drop start name) (blank_entry seq sum) j h in
      (e 0 refl, e 13 refl, e 11 refl, e 12 refl)

  -- Its characters behind what the name has so far.
  lfn_chars-lfn_store :
      (out : List ℕ)
      → printable (drop start name) ≡ true
      → length out + length (drop start name) < name_max
      → lfn_chars (lfn_store seq sum name start) out ≡ some (out ++ take 13 (drop start name))
  unfolding lfn_chars lfn_store apart_slots clear_slots touches
  lfn_chars-lfn_store out p r =
      let (_, _, kind, zero_) = lfn_store-marks in
      rw (kind, zero_, lfn_chars)
        (get_chars-put_chars lfn_slot (drop start name) (blank_entry seq sum) out refl refl p r)

  length-lfn_store : length (lfn_store seq sum name start) ≡ 32
  unfolding lfn_store
  length-lfn_store = length-put_chars lfn_slot false (drop start name) (blank_entry seq sum)

lfn_bytes_ok-printable :
    (n : ℕ) (s : List ℕ)
    → lfn_bytes_ok n s ≡ true
    → n < name_max
    → (printable s ≡ true) × (n + length s < name_max)
unfolding lfn_bytes_ok printable name_char fold_az
lfn_bytes_ok-printable n [] h p = (refl, omega (arith, p))
lfn_bytes_ok-printable n (c ∷ s) h p =
    let (q, r) = lfn_bytes_ok-printable (n + 1) s (ground (arith, h)) (ground (arith, h)) in
    (ground (arith, h, q), omega (arith, r))

-- What `lfn_ok` lets through.
lfn_ok-printable :
    (name : List ℕ)
    → lfn_ok name ≡ true
    → (0 < length name) × (length name < name_max) × (printable name ≡ true)
unfolding lfn_ok
lfn_ok-printable [] h = absurd (ground (arith, h))
lfn_ok-printable (c ∷ s) h =
    let (q, r) = lfn_bytes_ok-printable 0 (c ∷ s) h (omega arith) in
    (omega arith, omega (arith, r), q)

drop-printable : (n : ℕ) (s : List ℕ) → printable s ≡ true → printable (drop n s) ≡ true
unfolding printable
drop-printable zero s h = h
drop-printable (suc n) [] h = h
drop-printable (suc n) (c ∷ s) h = drop-printable n s (ground (arith, h))

not_empty-name : (name : List ℕ) → 0 < length name → not_empty (some name) ≡ some name
not_empty-name [] h = absurd (omega arith)
not_empty-name (c ∷ s) h = refl

-- The entries that a long name takes, by its length.
abbrev pub lfn_count : List ℕ → ℕ
lfn_count name = (length name + (lfn_chars_max - 1)) / lfn_chars_max

-- The checks of `lfn_build` passed, for one entry and for two.
lfn_build-one :
    (first n83 name : List ℕ)
    → byte first 0 ≡ 0x41
    → byte first 13 ≡ lfn_cksum n83
    → lfn_chars first [] ≡ some name
    → 0 < length name
    → lfn_build first 1 n83 ≡ some name
unfolding lfn_build entries_fit join_chars
lfn_build-one first n83 name a b c n =
    let same : (lfn_cksum n83 == lfn_cksum n83) ≡ true = ground arith in
    rw (a, b, same, c, lfn_build, entries_fit, join_chars) (not_empty-name name n)

lfn_build-two :
    (first n83 part name : List ℕ)
    → byte first 0 ≡ 0x42
    → byte first 13 ≡ lfn_cksum n83
    → byte (drop 32 first) 0 ≡ 1
    → byte (drop 32 first) 13 ≡ lfn_cksum n83
    → lfn_chars (drop 32 first) [] ≡ some part
    → lfn_chars first part ≡ some name
    → 0 < length name
    → lfn_build first 2 n83 ≡ some name
unfolding lfn_build entries_fit join_chars
lfn_build-two first n83 part name a b a' b' c' c n =
    let same : (lfn_cksum n83 == lfn_cksum n83) ≡ true = ground arith in
    rw (a, b, a', b', same, c', c, lfn_build, entries_fit, join_chars) (not_empty-name name n)

-- An entry at the front of a directory's bytes.
module _ (seq sum : ℕ) (name : List ℕ) (start : ℕ) (more : List ℕ) where
  front-byte :
      (j : ℕ)
      → j < 32
      → byte (lfn_store seq sum name start ++ more) j ≡ byte (lfn_store seq sum name start) j
  front-byte j h =
      byte-append (lfn_store seq sum name start) more j
        (omega (arith, length-lfn_store seq sum name start))

  front-chars :
      (out : List ℕ)
      → printable name ≡ true
      → length out + length (drop start name) < name_max
      → lfn_chars (lfn_store seq sum name start ++ more) out
        ≡ some (out ++ take 13 (drop start name))
  front-chars out p r =
      lfn_chars-append (lfn_store seq sum name start) more out (length-lfn_store seq sum name start)
      ∙ lfn_chars-lfn_store seq sum name start out (drop-printable start name p) r

module _ (name n83 more : List ℕ) (n : 0 < length name) (fits : length name < name_max)
    (p : printable name ≡ true) where
  build_one :
      length name ≤ 13 → lfn_build (lfn_entries 1 1 (lfn_cksum n83) name ++ more) 1 n83 ≡ some name
  unfolding lfn_entries
  build_one short =
      let sum = lfn_cksum n83 in
      let m = lfn_store-marks 0x41 sum name 0 in
      rw (append-nil (lfn_store 0x41 sum name 0)) (
        lfn_build-one (lfn_store 0x41 sum name 0 ++ more) n83 name
          (front-byte 0x41 sum name 0 more 0 (omega arith) ∙ m.0)
          (front-byte 0x41 sum name 0 more 13 (omega arith) ∙ m.1)
          (front-chars 0x41 sum name 0 more [] p (omega (arith, fits))
            ∙ ap some (take_of_ge 13 name short))
          n)

  build_two :
      13 < length name → lfn_build (lfn_entries 2 2 (lfn_cksum n83) name ++ more) 2 n83 ≡ some name
  unfolding lfn_entries
  build_two long =
      let sum = lfn_cksum n83 in
      let e2 = lfn_store 0x42 sum name 13 in
      let e1 = lfn_store 1 sum name 0 in
      let m2 = lfn_store-marks 0x42 sum name 13 in
      let m1 = lfn_store-marks 1 sum name 0 in
      let next : drop 32 (e2 ++ (e1 ++ more)) ≡ e1 ++ more =
        drop-append 32 e2 (e1 ++ more) (length-lfn_store 0x42 sum name 13) in
      let whole : take 13 name ++ take 13 (drop 13 name) ≡ name =
        rw (take_of_ge 13 (drop 13 name) (omega (arith, length-drop 13 name, fits)))
          (take-append_drop 13 name) in
      rw (append-nil e1, append_assoc e2 e1 more)
        (lfn_build-two (e2 ++ (e1 ++ more)) n83 (take 13 name) name
          (front-byte 0x42 sum name 13 (e1 ++ more) 0 (omega arith) ∙ m2.0)
          (front-byte 0x42 sum name 13 (e1 ++ more) 13 (omega arith) ∙ m2.1)
          (rw (next) (front-byte 1 sum name 0 more 0 (omega arith) ∙ m1.0))
          (rw (next) (front-byte 1 sum name 0 more 13 (omega arith) ∙ m1.1))
          (rw (next) (front-chars 1 sum name 0 more [] p (omega (arith, fits))))
          (front-chars 0x42 sum name 13 (e1 ++ more) (take 13 name) p
              (omega (arith, length-take_of_le 13 name (omega arith), length-drop 13 name, fits))
            ∙ ap some whole)
          n)

-- For a name that `lfn_ok` takes, the entries that `lfn_store` fills, with the checksum of the
-- short name and in the order of the directory, give `lfn_build` the same name again, whatever
-- entries follow.
pub lfn_build-lfn_entries :
    (name n83 more : List ℕ)
    → lfn_ok name ≡ true
    → lfn_build
        (lfn_entries (lfn_count name) (lfn_count name) (lfn_cksum n83) name ++ more)
        (lfn_count name)
        n83
      ≡ some name
lfn_build-lfn_entries name n83 more ok =
    let (n, fits, p) = lfn_ok-printable name ok in
    elim (lt-or-le 13 (length name)) [
      | inl long ↦
          let e : lfn_count name ≡ 2 = omega arith in rw (e) (build_two name n83 more n fits p long)
      | inr short ↦
          let e : lfn_count name ≡ 1 = omega arith in
          rw (e) (build_one name n83 more n fits p short)
    ]
