-- ===== src/Fs/Fat/Cut.antt =====
-- kernel/fs.c: the second loop of fat_resize, and a chain that is cut.
use vampire_os.Prelude.{
  ℕ, zero, suc, ◌+◌, ◌<◌, ◌≤◌, ◌≡◌, inl, inr, refl, ◌∙◌, ap, List, [], ◌∷◌, true, false, ◌||◌, ◌&&◌,
  length, take, drop, get_or, arith,
}
use vampire_os.Prelude.{◌==◌, if◌then◌else◌, Bool-cases}
use vampire_os.Fs.Fat.{Fat, fat_bytes, fat12_ent, fat12_set, is_link, shrink}
use vampire_os.Fs.Fat.Entry.{
  IsFat, fat12_ent-fat12_set, fat12_set-IsFat, fat_bytes-fat12_set, clusters-fat12_set,
}
use vampire_os.Fs.Fat.Chain.{mem, IsChain, inside, mem-head}
use vampire_os.Fs.Fat.Grow.{IsVolume}

pub get_or-drop : (k i : ℕ) (xs : List ℕ) → get_or (drop k xs) i 0 ≡ get_or xs (k + i) 0
get_or-drop zero i xs = ap (λ j. get_or xs j 0) (omega arith)
get_or-drop (suc k) i [] = refl
get_or-drop (suc k) i (x ∷ xs) =
    let e : suc k + i ≡ suc (k + i) = omega arith in rw (e, get_or-drop k i xs) refl

pub mem-take-suc :
    (x : ℕ) (k : ℕ) (xs : List ℕ)
    → k < length xs
    → mem x (take (suc k) xs) ≡ ((x == get_or xs k 0) || mem x (take k xs))
unfolding mem
mem-take-suc x k [] h = absurd (omega arith)
mem-take-suc x zero (y ∷ xs) h = refl
mem-take-suc x (suc k) (y ∷ xs) h = ground (arith, mem-take-suc x k xs (omega arith))

-- What the second loop frees.
pub shrink-frees :
    (extra need : ℕ) (cls : List ℕ) (t : Fat) (c : ℕ)
    → IsFat t
    → extra ≤ length (drop need cls)
    → fat12_ent (shrink extra need cls t) c
      ≡ (if mem c (take extra (drop need cls)) && inside t c then 0 else fat12_ent t c)
unfolding shrink mem
shrink-frees zero need cls t c w h = refl
shrink-frees (suc extra) need cls t c w h =
    let x = get_or cls (need + extra) 0 in
    ground (
      arith,
      shrink-frees extra need cls (fat12_set t x 0) c (fat12_set-IsFat t x 0 w) (omega arith),
      mem-take-suc c extra (drop need cls) (omega arith),
      get_or-drop need extra cls,
      fat12_ent-fat12_set t x 0 c w,
      fat_bytes-fat12_set t x 0,
    )

pub shrink-table :
    (extra need : ℕ) (cls : List ℕ) (t : Fat)
    → IsVolume t
    → IsVolume (shrink extra need cls t) × (fat_bytes (shrink extra need cls t) ≡ fat_bytes t)
unfolding shrink
shrink-table zero need cls t v = (v, refl)
shrink-table (suc extra) need cls t v =
    let x = get_or cls (need + extra) 0 in
    let (v', e) = shrink-table extra need cls (fat12_set t x 0) (record {
      table = fat12_set-IsFat t x 0 v.table;
      few = omega (arith, clusters-fat12_set t x 0, v.few);
    }) in
    (v', e ∙ fat_bytes-fat12_set t x 0)

pub mem-drop : (x k : ℕ) (xs : List ℕ) → mem x (drop k xs) ≡ true → mem x xs ≡ true
unfolding mem
mem-drop x zero xs m = m
mem-drop x (suc k) [] m = m
mem-drop x (suc k) (y ∷ xs) m = ground (arith, mem-drop x k xs m)

-- The front of a chain and the rest of it share no cluster.
pub take-drop_apart :
    (t : Fat) (cl : ℕ) (k : ℕ) (xs : List ℕ) (x : ℕ)
    → IsChain t cl xs
    → mem x (take k xs) ≡ true
    → mem x (drop k xs) ≡ false
unfolding mem IsChain
take-drop_apart t cl zero xs x h m = absurd (ground arith)
take-drop_apart t cl (suc k) [] x h m = absurd (ground arith)
take-drop_apart t cl (suc k) (y ∷ xs) x h m = elim (Bool-cases (x == y)) [
  | inl e ↦
      let no : mem x xs ≡ false = ground (arith, mem-head t cl y xs h, h.0) in
      ground (arith, mem-drop x k xs)
  | inr ne ↦ take-drop_apart t (fat12_ent t cl) k xs x h.2 (ground arith)
]

-- A chain that is cut behind a cluster.
pub IsChain-cut :
    (t t' : Fat) (cl : ℕ) (k : ℕ) (xs : List ℕ)
    → IsChain t cl xs
    → k < length xs
    → ((x : ℕ) → mem x (take k xs) ≡ true → fat12_ent t' x ≡ fat12_ent t x)
    → is_link (fat12_ent t' (get_or xs k 0)) ≡ false
    → IsChain t' cl (take (suc k) xs)
unfolding mem IsChain
IsChain-cut t t' cl k [] h n f stop = absurd (omega arith)
IsChain-cut t t' cl zero (x ∷ xs) h n f stop = (h.0, h.1, rw (← h.0) stop)
IsChain-cut t t' cl (suc k) (x ∷ xs) h n f stop =
    let e : fat12_ent t' cl ≡ fat12_ent t cl = f cl (ground (arith, h.0)) in
    (
      h.0,
      h.1,
      IsChain-cut t t' (fat12_ent t' cl) k xs (rw (e) h.2) (omega arith) (λ y m. f y (ground arith))
          stop,
    )
