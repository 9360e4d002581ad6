-- ===== src/Fs/Path/Parts.antt =====
-- kernel/fs.c: the names that split_next takes off a path, one after the other.
use mathlib.Core.List.{append_assoc, append-nil}
use vampire_os.Prelude.{
  ℕ, ◌+◌, ◌<◌, ◌≤◌, ◌≡◌, ◌⊎◌, inl, inr, refl, sym, ap, ◌∙◌, List, [], ◌∷◌, ◌++◌, Bool, true, false,
  not, ◌&&◌, length, arith,
}
use vampire_os.Prelude.{ltb, leb, ◌==◌, if◌then◌else◌, Bool-cases}
use vampire_os.Fs.{name_max, slash}
use vampire_os.Fs.Path.{too_long, no_more, part, skip_slashes, name_from, split_next}

-- The bytes up to the next `/`, and those from it on.
unfoldable pub span : List ℕ → List ℕ
span [] = []
span (c ∷ s) = if c == slash then [] else c ∷ span s

unfoldable pub after : List ℕ → List ℕ
after [] = []
after (c ∷ s) = let rest = after s in if c == slash then c ∷ s else rest

name_from-span :
    (n : ℕ) (s : List ℕ)
    → n < name_max
    → name_from n s
      ≡ (if ltb (n + length (span s)) name_max then part (span s) (after s) else too_long)
unfolding name_from span after
name_from-span n [] h = ground arith
name_from-span n (c ∷ s) h = elim (Bool-cases (c == slash)) [
  | inl e ↦ rw (e) (ground arith)
  | inr ne ↦ elim (Bool-cases (leb name_max (n + 1))) [
    | inl full ↦ rw (ne, full) (ground arith)
    | inr roomy ↦ ground (arith, name_from-span (n + 1) s, ne, roomy)
  ]
]

-- The names of a path: what stands between its slashes, without the empty ones.
abbrev pub emit : List ℕ → List (List ℕ) → List (List ℕ)
emit [] ws = ws
emit (c ∷ cur) ws = (c ∷ cur) ∷ ws

unfoldable pub words : List ℕ → List ℕ → List (List ℕ)
words [] cur = emit cur []
words (c ∷ s) cur = if c == slash then emit cur (words s []) else words s (cur ++ (c ∷ []))

unfoldable pub no_slash : List ℕ → Bool
no_slash [] = true
no_slash (c ∷ s) = not (c == slash) && no_slash s

-- A name between slashes.
pub record IsName (name : List ℕ) : Type 0 where
  pub inner : no_slash name ≡ true
  pub some_byte : 0 < length name

words-skip_slashes : (s : List ℕ) → words (skip_slashes s) [] ≡ words s []
unfolding words skip_slashes
words-skip_slashes [] = refl
words-skip_slashes (c ∷ s) = ground (arith, words-skip_slashes s)

words-span : (s cur : List ℕ) → words s cur ≡ emit (cur ++ span s) (words (after s) [])
unfolding words span after
words-span [] cur = rw (append-nil cur) refl
words-span (c ∷ s) cur = elim (Bool-cases (c == slash)) [
  | inl e ↦
      let k : (if c == slash then words s [] else words s (c ∷ [])) ≡ words s [] = rw (e) refl in
      rw (e, append-nil cur) (ap (emit cur) (sym k))
  | inr ne ↦ rw (ne, words-span s (cur ++ (c ∷ [])), append_assoc cur (c ∷ []) (span s)) refl
]

span-no_slash : (s : List ℕ) → no_slash (span s) ≡ true
unfolding span no_slash
span-no_slash [] = refl
span-no_slash (c ∷ s) = ground (arith, span-no_slash s)

length-after : (s : List ℕ) → length (after s) ≤ length s
unfolding after
length-after [] = omega arith
length-after (c ∷ s) = ground (arith, length-after s)

length-skip_slashes : (s : List ℕ) → length (skip_slashes s) ≤ length s
unfolding skip_slashes
length-skip_slashes [] = omega arith
length-skip_slashes (c ∷ s) = ground (arith, length-skip_slashes s)

-- What is skipped are all the slashes.
skipped : (s : List ℕ) (c : ℕ) (u : List ℕ) → skip_slashes s ≡ c ∷ u → (c == slash) ≡ false
unfolding skip_slashes
skipped [] c u h = ground (arith, h)
skipped (d ∷ s) c u h = ground (arith, h, skipped s c u)

-- The call that finds a name takes the first of the path's names, or refuses it for its length.
pub record Taken (s name rest : List ℕ) : Type 0 where
  pub first : words s [] ≡ name ∷ words rest []
  pub is_name : IsName name
  pub shorter : length rest < length s
  pub split : split_next s ≡ (if ltb (length name) name_max then part name rest else too_long)

result_at :
    (s u : List ℕ)
    → skip_slashes s ≡ u
    → ((words s [] ≡ []) × (split_next s ≡ no_more))
      ⊎ ((name : List ℕ) × (rest : List ℕ) × Taken s name rest)
unfolding split_next words span after
result_at s [] e =
    inl (sym (words-skip_slashes s) ∙ ap (λ u. words u []) e, rw (e, split_next) refl)
result_at s (c ∷ u) e =
    let plain : (c == slash) ≡ false = skipped s c u e in
    let whole : span (c ∷ u) ≡ c ∷ span u = rw (plain, span) refl in
    let none_yet : 0 + length (c ∷ span u) ≡ length (c ∷ span u) = omega arith in
    let tail : after (c ∷ u) ≡ after u = rw (plain, after) refl in
    inr (
      c ∷ span u,
      after u,
      record {
        first =
            sym (words-skip_slashes s)
            ∙ ap (λ v. words v []) e
            ∙ rw (plain) (words-span u (c ∷ []));
        is_name = record { inner = rw (← whole) (span-no_slash (c ∷ u)); some_byte = omega arith };
        shorter = omega (arith, length-after u, length-skip_slashes s, ap length e);
        split =
            rw (e, split_next)
              (rw (whole, tail, none_yet) at (name_from-span 0 (c ∷ u) (omega arith)));
      },
    )

pub split_next-result :
    (s : List ℕ)
    → ((words s [] ≡ []) × (split_next s ≡ no_more))
      ⊎ ((name : List ℕ) × (rest : List ℕ) × Taken s name rest)
split_next-result s = result_at s (skip_slashes s) refl
