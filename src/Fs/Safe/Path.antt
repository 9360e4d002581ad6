-- ===== src/Fs/Safe/Path.antt =====
-- kernel/fs.c: the text of the working directory stays in its buffer, whatever path is applied to it.
use vampire_os.Prelude.{
  ℕ, zero, suc, ◌+◌, ◌<◌, ◌≤◌, ◌≡◌, ◌⊎◌, inl, inr, refl, ap, List, [], ◌∷◌, ◌++◌, some, length,
  length-append, take, arith,
}
use vampire_os.Prelude.{leb, ◌==◌, Bool-cases, Option-cases}
use vampire_os.Fs.{path_max, slash, names_eq, copy_str}
use vampire_os.Fs.Path.{
  Split, too_long, no_more, part, path_reset, last_slash, path_pop, push_bytes, is_root, path_push,
  enter_name, one_dot, two_dots, split_next, apply_names, start_at, path_apply,
}

abbrev Fits : List ℕ → Type 0
Fits p = length p < path_max

length-take : (n : ℕ) (xs : List ℕ) → length (take n xs) ≤ length xs
length-take zero xs = omega arith
length-take (suc n) [] = omega arith
length-take (suc n) (x ∷ xs) = omega (arith, length-take n xs)

path_pop-Fits : (p : List ℕ) → Fits p → Fits (path_pop p)
unfolding path_pop
path_pop-Fits p h = ground (arith, h, length-take (last_slash 0 0 p) p)

push_bytes-Fits : (p name q : List ℕ) → Fits p → push_bytes p name ≡ some q → Fits q
unfolding push_bytes
push_bytes-Fits p [] q h e = let same : p ≡ q = ground (arith, e) in rw (← same) h
push_bytes-Fits p (c ∷ name) q h e = elim (Bool-cases (leb path_max (length p + 1))) [
  | inl full ↦ absurd (ground (arith, rw (full, push_bytes) at e))
  | inr room ↦
      push_bytes-Fits (p ++ (c ∷ [])) name q (ground (arith, room, length-append p (c ∷ [])))
        (rw (room, push_bytes) at e)
]

path_push-Fits : (name p q : List ℕ) → Fits p → path_push name p ≡ some q → Fits q
unfolding path_push
path_push-Fits [] p q h e = absurd (ground (arith, e))
path_push-Fits (c ∷ name) p q h e = elim (Bool-cases (is_root p)) [
  | inl root ↦ push_bytes-Fits p (c ∷ name) q h (rw (root) at e)
  | inr below ↦ elim (Bool-cases (leb path_max (length p + 1))) [
    | inl full ↦ absurd (ground (arith, rw (below, full) at e))
    | inr room ↦
        push_bytes-Fits (p ++ (slash ∷ [])) (c ∷ name) q
          (ground (arith, room, length-append p (slash ∷ []))) (rw (below, room) at e)
  ]
]

enter_name-Fits : (name p q : List ℕ) → Fits p → enter_name name p ≡ some q → Fits q
enter_name-Fits name p q h e = elim (Bool-cases (names_eq name one_dot)) [
  | inl here ↦ let same : p ≡ q = ground (arith, rw (here) at e) in rw (← same) h
  | inr n1 ↦ elim (Bool-cases (names_eq name two_dots)) [
    | inl up ↦
        let same : path_pop p ≡ q = ground (arith, rw (n1, up) at e) in
        rw (← same) (path_pop-Fits p h)
    | inr n2 ↦ path_push-Fits name p q h (rw (n1, n2) at e)
  ]
]

Split-cases :
    (r : Split)
    → (r ≡ too_long) ⊎ ((r ≡ no_more) ⊎ ((name : List ℕ) × (rest : List ℕ) × (r ≡ part name rest)))
Split-cases too_long = inl refl
Split-cases no_more = inr (inl refl)
Split-cases (part name rest) = inr (inr (name, rest, refl))

apply_names-Fits : (fuel : ℕ) (s p q : List ℕ) → Fits p → apply_names fuel s p ≡ some q → Fits q
unfolding apply_names
apply_names-Fits zero s p q h e = absurd (ground (arith, e))
apply_names-Fits (suc fuel) s p q h e = elim (Split-cases (split_next s)) [
  | inl long ↦ absurd (ground (arith, rw (long, apply_names) at e))
  | inr (inl done) ↦ let same : p ≡ q = ground (arith, rw (done, apply_names) at e) in rw (← same) h
  | inr (inr (name, rest, more)) ↦ elim (Option-cases (enter_name name p)) [
    | inl bad ↦ absurd (ground (arith, rw (more, bad, apply_names) at e))
    | inr (m, good) ↦
        apply_names-Fits fuel rest m q (enter_name-Fits name p m h good)
          (rw (more, good, apply_names) at e)
  ]
]

start_at-Fits : (path p q : List ℕ) → Fits p → start_at path p ≡ some q → Fits q
start_at-Fits [] p q h e = apply_names-Fits 1 [] p q h e
start_at-Fits (c ∷ s) p q h e = elim (Bool-cases (c == slash)) [
  | inl root ↦ apply_names-Fits (suc (length s)) s path_reset q (omega arith) (rw (root) at e)
  | inr below ↦ apply_names-Fits (suc (suc (length s))) (c ∷ s) p q h (rw (below) at e)
]

-- A copy that fits is the whole string.
copied :
    (n max : ℕ) (s q : List ℕ)
    → n < max
    → copy_str n max s ≡ some q
    → (n + length q < max) × (s ≡ q)
unfolding copy_str
copied n max [] q h e =
    let same : [] ≡ q = ground (arith, e) in rw (← same) (omega (arith, h), refl)
copied n max (c ∷ s) q h e = elim (Bool-cases (leb max (n + 1))) [
  | inl full ↦ absurd (ground (arith, rw (full, copy_str) at e))
  | inr room ↦ elim (Option-cases (copy_str (n + 1) max s)) [
    | inl bad ↦ absurd (ground (arith, rw (room, bad, copy_str) at e))
    | inr (r, good) ↦
        let (fits, same) = copied (n + 1) max s r (ground (arith, room)) good in
        let whole : c ∷ r ≡ q = ground (arith, rw (room, good, copy_str) at e) in
        rw (← whole) (omega (arith, fits), ap (λ t. c ∷ t) same)
  ]
]

pub copy_str-Fits : (max : ℕ) (s q : List ℕ) → 0 < max → copy_str 0 max s ≡ some q → length q < max
copy_str-Fits max s q h e = omega (arith, (copied 0 max s q h e).0)

pub path_apply-fits :
    (path p : List ℕ) → length p < path_max → length (path_apply path p).1 < path_max
unfolding path_apply
path_apply-fits path p h = elim (Option-cases (copy_str 0 path_max p)) [
  | inl bad ↦ rw (bad, path_apply) h
  | inr (saved, good) ↦ elim (Option-cases (start_at path p)) [
    | inl stop ↦ rw (good, stop, path_apply) (copy_str-Fits path_max p saved (omega arith) good)
    | inr (q, on_) ↦ rw (good, on_, path_apply) (start_at-Fits path p q h on_)
  ]
]
