-- ===== src/Fs/Path/Stack.antt =====
-- kernel/fs.c: the text of the working directory as a stack of names.
use mathlib.Core.List.{append_assoc}
use vampire_os.Prelude.{
  ℕ, ◌+◌, ◌<◌, ◌≤◌, ◌≡◌, ◌≢◌, refl, ap, ◌∙◌, List, [], ◌∷◌, ◌++◌, none, some, true, false, length,
  length-append, take, arith,
}
use vampire_os.Prelude.{ltb, ◌==◌, if◌then◌else◌}
use vampire_os.Fs.{path_max, slash}
use vampire_os.Fs.Path.{last_slash, path_pop, push_bytes, is_root, path_push}
use vampire_os.Fs.Path.Parts.{no_slash, IsName}

-- The text of the names, the last one first in the list.
unfoldable pub text_of : List (List ℕ) → List ℕ
text_of [] = []
text_of (name ∷ up) = text_of up ++ (slash ∷ name)

abbrev pub show : List (List ℕ) → List ℕ
show [] = slash ∷ []
show (name ∷ up) = text_of (name ∷ up)

-- The names of a stack, each of them one.
unfoldable pub AreNames : List (List ℕ) → Type 0
AreNames [] = Unit
AreNames (name ∷ up) = IsName name × AreNames up

length-text_of : (up : List (List ℕ)) → AreNames up → up ≢ [] → 2 ≤ length (text_of up)
unfolding text_of AreNames
length-text_of [] h ne = absurd (ne refl)
length-text_of (name ∷ up) h ne =
    omega (arith, length-append (text_of up) (slash ∷ name), h.0.some_byte)

-- A name has no slash for the search to find.
last_slash-name :
    (n last : ℕ) (name : List ℕ) → no_slash name ≡ true → last_slash n last name ≡ last
unfolding last_slash no_slash
last_slash-name n last [] h = refl
last_slash-name n last (c ∷ name) h = ground (arith, last_slash-name (n + 1) last name, h)

last_slash-append :
    (n last : ℕ) (xs name : List ℕ)
    → no_slash name ≡ true
    → 0 < n + length xs
    → last_slash n last (xs ++ (slash ∷ name)) ≡ n + length xs
unfolding last_slash
last_slash-append n last [] name h p = ground (arith, last_slash-name (n + 1) n name h)
last_slash-append n last (x ∷ xs) name h p =
    last_slash-append (n + 1) _ xs name h (omega arith) ∙ omega arith

take-append : (xs ys : List ℕ) → take (length xs) (xs ++ ys) ≡ xs
take-append [] [] = refl
take-append [] (y ∷ ys) = refl
take-append (x ∷ xs) ys = ap (λ r. x ∷ r) (take-append xs ys)

-- `..` takes the last name off.
abbrev pub tail : List (List ℕ) → List (List ℕ)
tail [] = []
tail (_ ∷ up) = up

pub path_pop-show : (up : List (List ℕ)) → AreNames up → path_pop (show up) ≡ show (tail up)
unfolding path_pop text_of AreNames last_slash
path_pop-show [] h = refl
path_pop-show (name ∷ []) h =
    let z : last_slash 1 0 name ≡ 0 = last_slash-name 1 0 name h.0.inner in rw (z) refl
path_pop-show (name ∷ next ∷ up) h =
    let x = text_of (next ∷ up) in
    let long : 2 ≤ length x = length-text_of (next ∷ up) h.1 (λ e. cc) in
    let l : last_slash 0 0 (x ++ (slash ∷ name)) ≡ 0 + length x =
      last_slash-append 0 0 x name h.0.inner (omega arith) in
    let e : 0 + length x ≡ length x = omega arith in
    let inner : (length x == 0) ≡ false = ground (arith, long) in
    rw (l, e, inner) (take-append x (slash ∷ name))

push_bytes-appends :
    (p name : List ℕ)
    → 0 < length name
    → push_bytes p name ≡ (if ltb (length p + length name) path_max then some (p ++ name) else none)
unfolding push_bytes
push_bytes-appends p [] h = absurd (omega arith)
push_bytes-appends p (c ∷ []) h = ground arith
push_bytes-appends p (c ∷ d ∷ name) h = ground (
  arith,
  push_bytes-appends (p ++ (c ∷ [])) (d ∷ name),
  length-append p (c ∷ []),
  append_assoc p (c ∷ []) (d ∷ name),
)

pub path_push-show :
    (name : List ℕ) (up : List (List ℕ))
    → IsName name
    → AreNames up
    → path_push name (show up)
      ≡ (if ltb (length (show (name ∷ up))) path_max then some (show (name ∷ up)) else none)
unfolding path_push text_of
path_push-show [] up w h = absurd (omega (arith, w.some_byte))
path_push-show (c ∷ name) [] w h =
    push_bytes-appends (slash ∷ []) (c ∷ name) w.some_byte ∙ ground arith
path_push-show (c ∷ name) (d ∷ up) w h =
    let x = text_of (d ∷ up) in
    let long : 2 ≤ length x = length-text_of (d ∷ up) h (λ e. cc) in
    let below_root : is_root x ≡ false = ground (arith, long) in
    rw (below_root) (
      ground (
        arith,
        push_bytes-appends (x ++ (slash ∷ [])) (c ∷ name) w.some_byte,
        length-append x (slash ∷ []),
        length-append x (slash ∷ c ∷ name),
        append_assoc x (slash ∷ []) (c ∷ name),
      ))
