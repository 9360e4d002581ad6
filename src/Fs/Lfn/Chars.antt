-- ===== src/Fs/Lfn/Chars.antt =====
-- kernel/fs.c: the characters of one entry, written and read back.
use mathlib.Core.List.{append_assoc, append-nil}
use vampire_os.Prelude.{
  ℕ, ◌+◌, ◌<◌, ◌≡◌, refl, sym, ap, ◌∙◌, List, [], ◌∷◌, ◌++◌, some, Bool, true, false, not, ◌&&◌,
  ◌||◌, length, length-append, length-set, get_or-set, get_or-set_ne, get_or-set_self, set, take,
  arith,
}
use vampire_os.Prelude.{ltb, leb, ◌==◌}
use vampire_os.Prelude.Bytes.{u8}
use vampire_os.Fs.{name_max, byte}
use vampire_os.Fs.Lfn.{put_chars, get_chars}

-- The byte is one of the slots' two.
unfoldable pub touches : ℕ → List ℕ → Bool
touches j [] = false
touches j (s ∷ slots) = (j == s) || (j == s + 1) || touches j slots

-- The slots do not overlap, and lie below `size`.
unfoldable pub apart_slots : ℕ → List ℕ → Bool
apart_slots size [] = true
apart_slots size (s ∷ slots) =
    ltb (s + 1) size
    && not (touches s slots)
    && not (touches (s + 1) slots)
    && apart_slots size slots

-- The bytes that a name may have here.
unfoldable pub printable : List ℕ → Bool
printable [] = true
printable (c ∷ name) = leb 0x20 c && ltb c 256 && printable name

pub put_chars-ne :
    (slots : List ℕ) (done : Bool) (name ent : List ℕ) (j : ℕ)
    → touches j slots ≡ false
    → byte (put_chars slots done name ent) j ≡ byte ent j
unfolding put_chars touches
put_chars-ne [] done name ent j h = refl
put_chars-ne (s ∷ slots) true name ent j h = ground (
  arith,
  put_chars-ne slots true name (set (set ent s 0xff) (s + 1) 0xff) j,
  get_or-set (set ent s 0xff) (s + 1) 0xff j 0,
  get_or-set ent s 0xff j 0,
)
put_chars-ne (s ∷ slots) false [] ent j h = put_chars-ne slots true [] ent j (ground (arith, h))
put_chars-ne (s ∷ slots) false (c ∷ name) ent j h =
    ground (arith, put_chars-ne slots false name (set ent s (u8 c)) j, get_or-set ent s (u8 c) j 0)

-- What the slots are before the writes.
unfoldable pub clear_slots : List ℕ → List ℕ → Bool
clear_slots [] ent = true
clear_slots (s ∷ slots) ent = (byte ent s == 0) && (byte ent (s + 1) == 0) && clear_slots slots ent

clear_slots-set :
    (slots ent : List ℕ) (s v : ℕ)
    → touches s slots ≡ false
    → clear_slots slots ent ≡ true
    → clear_slots slots (set ent s v) ≡ true
unfolding clear_slots touches
clear_slots-set [] ent s v t h = refl
clear_slots-set (r ∷ slots) ent s v t h =
    ground
      (arith, clear_slots-set slots ent s v, get_or-set ent s v r 0, get_or-set ent s v (r + 1) 0)

-- What is read is what was written, as far as the slots go.
pub get_chars-put_chars :
    (slots name ent out : List ℕ)
    → apart_slots (length ent) slots ≡ true
    → clear_slots slots ent ≡ true
    → printable name ≡ true
    → length out + length name < name_max
    → get_chars slots (put_chars slots false name ent) out ≡ some (out ++ take (length slots) name)
unfolding get_chars put_chars apart_slots clear_slots printable
get_chars-put_chars [] name ent out a z p r = ap some (sym (append-nil out))
get_chars-put_chars (s ∷ slots) [] ent out a z p r =
    let lo : byte (put_chars slots true [] ent) s ≡ 0 =
      put_chars-ne slots true [] ent s (ground (arith, a)) ∙ ground (arith, z) in
    let hi : byte (put_chars slots true [] ent) (s + 1) ≡ 0 =
      put_chars-ne slots true [] ent (s + 1) (ground (arith, a)) ∙ ground (arith, z) in
    rw (lo, hi, append-nil out) refl
get_chars-put_chars (s ∷ slots) (c ∷ name) ent out a z p r =
    let ent' = set ent s (u8 c) in
    let lo : byte (put_chars slots false name ent') s ≡ c =
      put_chars-ne slots false name ent' s (ground (arith, a))
      ∙ get_or-set_self ent s (u8 c) 0 (ground (arith, a))
      ∙ ground (arith, p) in
    let hi : byte (put_chars slots false name ent') (s + 1) ≡ 0 =
      put_chars-ne slots false name ent' (s + 1) (ground (arith, a))
      ∙ get_or-set_ne ent s (s + 1) (u8 c) 0 (λ e. omega arith)
      ∙ ground (arith, z) in
    let same : length ent' ≡ length ent = length-set ent s (u8 c) in
    let next : get_chars slots (put_chars slots false name ent') (out ++ (c ∷ []))
        ≡ some (out ++ (c ∷ []) ++ take (length slots) name) =
      get_chars-put_chars slots name ent' (out ++ (c ∷ [])) (rw (same) (ground (arith, a)))
        (clear_slots-set slots ent s (u8 c) (ground (arith, a)) (ground (arith, z)))
        (ground (arith, p)) (omega (arith, length-append out (c ∷ []))) in
    rw (lo, hi) (ground (arith, p, next, append_assoc out (c ∷ []) (take (length slots) name)))
