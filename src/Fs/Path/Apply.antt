-- ===== src/Fs/Path/Apply.antt =====
-- kernel/fs.c: path_apply as a walk on the stack of names.
use vampire_os.Prelude.{
  ℕ, zero, suc, ◌+◌, ◌<◌, ◌≡◌, inl, inr, refl, ap, subst, ◌∙◌, List, [], ◌∷◌, Option, none, some,
  Bool, true, false, length, length-append, arith,
}
use vampire_os.Prelude.{ltb, ◌==◌, if◌then◌else◌, Bool-cases, Option-cases, ltb→lt}
use vampire_os.Fs.{path_max, name_max, slash, names_eq, copy_str}
use vampire_os.Fs.Path.{
  enter_name, one_dot, two_dots, apply_names, start_at, path_apply, path_reset,
}
use vampire_os.Fs.Path.Parts.{IsName, words, split_next-result}
use vampire_os.Fs.Path.Stack.{text_of, show, AreNames, tail, path_pop-show, path_push-show}

-- Where one name leads: no name of 16 bytes or more, and no text of 80.
unfoldable pub go : List ℕ → List (List ℕ) → Option (List (List ℕ))
go name up =
    if ltb (length name) name_max
    then if names_eq name one_dot
      then some up
      else if names_eq name two_dots
      then some (tail up)
      else if ltb (length (show (name ∷ up))) path_max
      then some (name ∷ up)
      else none
    else none

unfoldable pub walk : List (List ℕ) → List (List ℕ) → Option (List (List ℕ))
walk [] up = some up
walk (name ∷ names) up = elim (go name up) [ none ↦ none | some up' ↦ walk names up' ]

abbrev pub shown : Option (List (List ℕ)) → Option (List ℕ)
shown none = none
shown (some up) = some (show up)

-- A stack whose text fits.
pub record IsStack (up : List (List ℕ)) : Type 0 where
  pub names : AreNames up
  pub fits : length (show up) < path_max

tail-IsStack : (up : List (List ℕ)) → IsStack up → IsStack (tail up)
unfolding AreNames text_of
tail-IsStack [] h = h
tail-IsStack (name ∷ []) h = record { names = h.names.1; fits = omega arith }
tail-IsStack (name ∷ next ∷ up) h = record {
  names = h.names.1;
  fits = omega (arith, h.fits, length-append (text_of (next ∷ up)) (slash ∷ name));
}

go-IsStack :
    (name : List ℕ) (up up' : List (List ℕ))
    → IsName name
    → IsStack up
    → go name up ≡ some up'
    → IsStack up'
unfolding AreNames go
go-IsStack name up up' w h e = elim (Bool-cases (ltb (length name) name_max)) [
  | inr long ↦ absurd (ground (arith, e, long))
  | inl short ↦ elim (Bool-cases (names_eq name one_dot)) [
    | inl here ↦ let q : up ≡ up' = ground (arith, e, short, here) in subst IsStack q h
    | inr n1 ↦ elim (Bool-cases (names_eq name two_dots)) [
      | inl above ↦
          let q : tail up ≡ up' = ground (arith, e, short, n1, above) in
          subst IsStack q (tail-IsStack up h)
      | inr n2 ↦ elim (Bool-cases (ltb (length (show (name ∷ up))) path_max)) [
        | inr wide ↦ absurd (ground (arith, e, short, n1, n2, wide))
        | inl fits ↦
            let q : name ∷ up ≡ up' = ground (arith, e, short, n1, n2, fits) in
            subst IsStack q (record { names = (w, h.names); fits = ltb→lt _ _ fits })
      ]
    ]
  ]
]

enter_name-go :
    (name : List ℕ) (up : List (List ℕ))
    → IsName name
    → AreNames up
    → ltb (length name) name_max ≡ true
    → enter_name name (show up) ≡ shown (go name up)
unfolding go
enter_name-go name up w h short =
    ground (arith, short, path_pop-show up h, path_push-show name up w h)

go-long :
    (name : List ℕ) (up : List (List ℕ)) → ltb (length name) name_max ≡ false → go name up ≡ none
unfolding go
go-long name up long = rw (long, go) refl

apply_names-walk :
    (fuel : ℕ) (s : List ℕ) (up : List (List ℕ))
    → IsStack up
    → length s < fuel
    → apply_names fuel s (show up) ≡ shown (walk (words s []) up)
unfolding apply_names walk
apply_names-walk zero s up h p = absurd (omega arith)
apply_names-walk (suc fuel) s up h p = elim (split_next-result s) [
  | inl (e, f) ↦ rw (e, f, apply_names) refl
  | inr (name, rest, k) ↦ elim (Bool-cases (ltb (length name) name_max)) [
    | inr long ↦ rw (k.first, k.split, long, apply_names, walk, go-long name up long) refl
    | inl short ↦ elim (Option-cases (go name up)) [
      | inl stop ↦
          let e : enter_name name (show up) ≡ none =
            rw (stop) at (enter_name-go name up k.is_name h.names short) in
          rw (k.first, k.split, short, e, apply_names, walk, stop) refl
      | inr (up', on_) ↦
          let e : enter_name name (show up) ≡ some (show up') =
            rw (on_) at (enter_name-go name up k.is_name h.names short) in
          rw (k.first, k.split, short, e, apply_names, walk, on_)
            (apply_names-walk fuel rest up' (go-IsStack name up up' k.is_name h on_)
              (omega (arith, k.shorter)))
    ]
  ]
]

walk-IsStack :
    (fuel : ℕ) (s : List ℕ) (up up' : List (List ℕ))
    → IsStack up
    → length s < fuel
    → walk (words s []) up ≡ some up'
    → IsStack up'
unfolding walk
walk-IsStack zero s up up' h p e = absurd (omega arith)
walk-IsStack (suc fuel) s up up' h p e = elim (split_next-result s) [
  | inl (f, _) ↦ let q : up ≡ up' = ground (arith, rw (f, walk) at e) in subst IsStack q h
  | inr (name, rest, k) ↦ elim (Option-cases (go name up)) [
    | inl stop ↦ absurd (ground (arith, rw (k.first, walk, stop) at e))
    | inr (mid, on_) ↦
        walk-IsStack fuel rest mid up' (go-IsStack name up mid k.is_name h on_)
          (omega (arith, k.shorter)) (rw (k.first, walk, on_) at e)
  ]
]

copy_str-whole : (n max : ℕ) (s : List ℕ) → n + length s < max → copy_str n max s ≡ some s
unfolding copy_str
copy_str-whole n max [] h = refl
copy_str-whole n max (c ∷ s) h = ground (arith, copy_str-whole (n + 1) max s (omega arith))

-- An absolute path starts at the root.
abbrev pub origin : List ℕ → List (List ℕ) → List (List ℕ)
origin [] up = up
origin (c ∷ _) up = if c == slash then [] else up

abbrev pub answer : List (List ℕ) → Option (List (List ℕ)) → Bool × List ℕ
answer up none = (false, show up)
answer up (some up') = (true, show up')

root-IsStack : IsStack []
unfolding AreNames
root-IsStack = record { names = tt; fits = omega arith }

words-root : (c : ℕ) (s : List ℕ) → (c == slash) ≡ true → words (c ∷ s) [] ≡ words s []
unfolding words
words-root c s e = rw (e, words) refl

start_at-walk :
    (path : List ℕ) (up : List (List ℕ))
    → IsStack up
    → start_at path (show up) ≡ shown (walk (words path []) (origin path up))
start_at-walk [] up h = apply_names-walk 1 [] up h (omega arith)
start_at-walk (c ∷ s) up h = elim (Bool-cases (c == slash)) [
  | inl e ↦
      rw (e, words-root c s e) (apply_names-walk (suc (length s)) s [] root-IsStack (omega arith))
  | inr ne ↦ rw (ne) (apply_names-walk (suc (suc (length s))) (c ∷ s) up h (omega arith))
]

-- On the text of a stack of names that fits `g_path`, `path_apply` is the walk over the words of a
-- path on that stack: from the root for an absolute path, a dot stays, two dots go up and not above
-- the root, another word goes down; where a word has 16 bytes or more or the text no longer fits,
-- the result is -1 and the text is as before.
pub path_apply-walk :
    (path : List ℕ) (up : List (List ℕ))
    → IsStack up
    → path_apply path (show up) ≡ answer up (walk (words path []) (origin path up))
unfolding path_apply
path_apply-walk path up h = elim (Option-cases (walk (words path []) (origin path up))) [
  | inl none_ ↦
      rw
        (
          copy_str-whole 0 path_max (show up) (omega (arith, h.fits)),
          start_at-walk path up h,
          none_,
          path_apply,
        )
        refl
  | inr (up', some_) ↦
      rw
        (
          copy_str-whole 0 path_max (show up) (omega (arith, h.fits)),
          start_at-walk path up h,
          some_,
          path_apply,
        )
        refl
]

-- A text of the working directory: a stack's, with room for the NUL.
pub record IsPath (p : List ℕ) : Type 0 where
  pub up : List (List ℕ)
  pub stack : IsStack up
  pub text : p ≡ show up

pub path_reset-IsPath : IsPath path_reset
path_reset-IsPath = record { up = []; stack = root-IsStack; text = refl }

origin-IsStack : (path : List ℕ) (up : List (List ℕ)) → IsStack up → IsStack (origin path up)
origin-IsStack [] up h = h
origin-IsStack (c ∷ s) up h = elim (Bool-cases (c == slash)) [
  | inl e ↦ rw (e) root-IsStack
  | inr ne ↦ rw (ne) h
]

-- `path_apply`, with any path and whether it fails or not, keeps in `g_path` the text of a stack of
-- names that is absolute, has no empty name, and has room for its NUL.
pub path_apply-IsPath : (path p : List ℕ) → IsPath p → IsPath (path_apply path p).1
path_apply-IsPath path p k = elim (Option-cases (walk (words path []) (origin path k.up))) [
  | inl none_ ↦
      let e : path_apply path p ≡ (false, show k.up) =
        ap (path_apply path) k.text ∙ path_apply-walk path k.up k.stack ∙ ap (answer k.up) none_ in
      record { up = k.up; stack = k.stack; text = ap (λ r. r.1) e }
  | inr (up', some_) ↦
      let e : path_apply path p ≡ (true, show up') =
        ap (path_apply path) k.text ∙ path_apply-walk path k.up k.stack ∙ ap (answer k.up) some_ in
      record {
        up = up';
        stack =
            walk-IsStack (suc (length path)) path (origin path k.up) up'
              (origin-IsStack path k.up k.stack) (omega arith) some_;
        text = ap (λ r. r.1) e;
      }
]
