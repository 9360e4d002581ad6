-- ===== src/Fs/Path.antt =====
-- kernel/fs.c: the text of the working directory, and how a path that `cd` was given changes it.
pub mod Parts
pub mod Stack
pub mod Apply
use vampire_os.Prelude.{
  ℕ, zero, suc, ◌+◌, List, [], ◌∷◌, ◌++◌, Option, none, some, Bool, true, false, ◌&&◌, not, take,
  length, get_or, ltb, leb, ◌==◌, if◌then◌else◌,
}
use vampire_os.Fs.{path_max, name_max, slash, dot, names_eq, copy_str}

abbrev pub path_reset : List ℕ
path_reset = slash ∷ []

-- The index of the last `/` that is not the first byte, else 0.
unfoldable pub last_slash : ℕ → ℕ → List ℕ → ℕ
last_slash n last [] = last
last_slash n last (c ∷ s) = last_slash (n + 1) (if (c == slash) && ltb 0 n then n else last) s

unfoldable pub path_pop : List ℕ → List ℕ
path_pop p = let last = last_slash 0 0 p in if last == 0 then path_reset else take last p

-- The bytes of a name behind those of `p`.
unfoldable pub push_bytes : List ℕ → List ℕ → Option (List ℕ)
push_bytes p [] = some p
push_bytes p (c ∷ name) =
    let rest = push_bytes (p ++ (c ∷ [])) name in if leb path_max (length p + 1) then none else rest

abbrev pub is_root : List ℕ → Bool
is_root p = (length p == 1) && (get_or p 0 0 == slash)

unfoldable pub path_push : List ℕ → List ℕ → Option (List ℕ)
path_push [] p = none
path_push (c ∷ name) p =
    if is_root p
    then push_bytes p (c ∷ name)
    else if leb path_max (length p + 1)
    then none
    else push_bytes (p ++ (slash ∷ [])) (c ∷ name)

-- What `split_next` returns: -1, 0, or 1 with the name and the rest of the path.
pub data Split : Type 0 where
  too_long : Split
  no_more : Split
  part : List ℕ → List ℕ → Split

unfoldable pub skip_slashes : List ℕ → List ℕ
skip_slashes [] = []
skip_slashes (c ∷ s) = if c == slash then skip_slashes s else c ∷ s

abbrev pub longer : ℕ → Split → Split
longer c too_long = too_long
longer c no_more = no_more
longer c (part name rest) = part (c ∷ name) rest

-- The name from its n-th byte on.
unfoldable pub name_from : ℕ → List ℕ → Split
name_from n [] = part [] []
name_from n (c ∷ s) =
    let rest = name_from (n + 1) s in
    if c == slash then part [] (c ∷ s) else if leb name_max (n + 1) then too_long else longer c rest

abbrev pub first_part : List ℕ → Split
first_part [] = no_more
first_part (c ∷ s) = name_from 0 (c ∷ s)

unfoldable pub split_next : List ℕ → Split
split_next s = first_part (skip_slashes s)

abbrev pub one_dot : List ℕ
one_dot = dot ∷ []

abbrev pub two_dots : List ℕ
two_dots = dot ∷ dot ∷ []

-- One name of the path: `.`, `..`, or a directory to go down to.
abbrev pub enter_name : List ℕ → List ℕ → Option (List ℕ)
enter_name name p =
    if names_eq name one_dot
    then some p
    else if names_eq name two_dots
    then some (path_pop p)
    else path_push name p

-- The loop of `path_apply`, which each name makes shorter; none is `return -1`.
unfoldable pub apply_names : ℕ → List ℕ → List ℕ → Option (List ℕ)
apply_names zero s p = none
apply_names (suc fuel) s p = elim (split_next s) [
  | too_long ↦ none
  | no_more ↦ some p
  | part name rest ↦ elim (enter_name name p) [ none ↦ none | some q ↦ apply_names fuel rest q ]
]

abbrev pub start_at : List ℕ → List ℕ → Option (List ℕ)
start_at [] p = apply_names 1 [] p
start_at (c ∷ s) p =
    if c == slash
    then apply_names (suc (length s)) s path_reset
    else apply_names (suc (suc (length s))) (c ∷ s) p

-- The result is true for 0; where it is -1, the text is put back.
unfoldable pub path_apply : List ℕ → List ℕ → Bool × List ℕ
path_apply path p = elim (copy_str 0 path_max p) [
  | none ↦ (false, p)
  | some saved ↦ elim (start_at path p) [ none ↦ (false, saved) | some q ↦ (true, q) ]
]
