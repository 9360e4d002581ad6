-- ===== src/Fs/Fat/Chain.antt =====
-- kernel/fs.c: the chain of clusters behind a first one, and what fat_free_chain leaves of it.
use vampire_os.Prelude.{
  ℕ, zero, suc, ◌+◌, ◌≤◌, ◌≡◌, inl, inr, refl, sym, ap, List, [], ◌∷◌, Bool, true, false, ◌||◌,
  ◌++◌, ◌-◌, ◌≢◌, get_or, ◌&&◌, length, arith,
}
use vampire_os.Prelude.{ltb, ◌==◌, ==_iff, if◌then◌else◌, Bool-cases}
use vampire_os.Fs.{chain_max}
use vampire_os.Fs.Fat.{
  Fat, fat_bytes, last_of, entry_at, fat12_ent, fat12_set, is_link, free_hops, fat_free_chain,
  gather,
}
use vampire_os.Fs.Fat.Entry.{IsFat, fat12_ent-fat12_set, fat12_set-IsFat, fat_bytes-fat12_set}

unfoldable pub mem : ℕ → List ℕ → Bool
mem x [] = false
mem x (y ∷ ys) = (x == y) || mem x ys

-- The clusters from `cl` on, in order, up to an entry that leads nowhere.
unfoldable pub IsChain : Fat → ℕ → List ℕ → Type 0
IsChain t cl [] = is_link cl ≡ false
IsChain t cl (c ∷ cs) = (c ≡ cl) × (is_link cl ≡ true) × IsChain t (fat12_ent t cl) cs

-- The entry is one of the table's.
abbrev pub inside : Fat → ℕ → Bool
inside t c = ltb (entry_at c + 1) (fat_bytes t)

length-chain :
    (t : Fat) (cl : ℕ) (cs ds : List ℕ) → IsChain t cl cs → IsChain t cl ds → length cs ≡ length ds
unfolding IsChain
length-chain t cl [] [] h k = refl
length-chain t cl [] (d ∷ ds) h (_, k, _) = absurd (ground arith)
length-chain t cl (c ∷ cs) [] (_, h, _) k = absurd (ground arith)
length-chain t cl (c ∷ cs) (d ∷ ds) (_, _, h) (_, _, k) =
    ap suc (length-chain t (fat12_ent t cl) cs ds h k)

-- A member of a chain has a chain of its own, no longer than that.
IsChain-at :
    (t : Fat) (cl : ℕ) (cs : List ℕ) (c : ℕ)
    → IsChain t cl cs
    → mem c cs ≡ true
    → (ds : List ℕ) × IsChain t c ds × (length ds ≤ length cs)
unfolding IsChain mem
IsChain-at t cl [] c h m = absurd (ground arith)
IsChain-at t cl (d ∷ cs) c h m = elim (Bool-cases (c == d)) [
  | inl e ↦ let same : c ≡ cl = ground (arith, h.0) in (d ∷ cs, rw (same) h, omega arith)
  | inr ne ↦
      let (ds, k, n) = IsChain-at t (fat12_ent t cl) cs c h.2 (ground arith) in (ds, k, omega arith)
]

-- A chain that ends does not come back to its first cluster.
pub mem-head : (t : Fat) (cl : ℕ) (c : ℕ) (cs : List ℕ) → IsChain t cl (c ∷ cs) → mem cl cs ≡ false
unfolding IsChain
mem-head t cl c cs h = elim (Bool-cases (mem cl cs)) [
  | inl m ↦
      let (ds, k, n) = IsChain-at t (fat12_ent t cl) cs cl h.2 m in
      absurd (omega (arith, length-chain t cl (c ∷ cs) ds h k))
  | inr m ↦ m
]

-- A chain lies in the entries of its clusters.
pub IsChain-frame :
    (t t' : Fat) (cl : ℕ) (cs : List ℕ)
    → IsChain t cl cs
    → ((c : ℕ) → mem c cs ≡ true → fat12_ent t' c ≡ fat12_ent t c)
    → IsChain t' cl cs
unfolding IsChain mem
IsChain-frame t t' cl [] h f = h
IsChain-frame t t' cl (c ∷ cs) h f =
    let e : fat12_ent t' cl ≡ fat12_ent t cl = f cl (ground (arith, h.0)) in
    (h.0, h.1, IsChain-frame t t' (fat12_ent t' cl) cs (rw (e) h.2) (λ d m. f d (ground arith)))

pub gather-chain :
    (n : ℕ) (t : Fat) (cl : ℕ) (cs : List ℕ) → IsChain t cl cs → length cs ≤ n → gather n cl t ≡ cs
unfolding IsChain gather
gather-chain zero t cl [] h k = refl
gather-chain zero t cl (c ∷ cs) h k = absurd (omega arith)
gather-chain (suc n) t cl [] h k = rw (h) refl
gather-chain (suc n) t cl (c ∷ cs) h k =
    rw (h.1, gather-chain n t (fat12_ent t cl) cs h.2 (omega arith), h.0) refl

pub apart : (x y : ℕ) (ys : List ℕ) → mem x ys ≡ true → mem y ys ≡ false → (x == y) ≡ false
apart x y ys m n = grind (arith, ==_iff x y)

free_hops-frees :
    (n : ℕ) (t : Fat) (cl : ℕ) (cs : List ℕ) (c : ℕ)
    → IsFat t
    → IsChain t cl cs
    → length cs ≤ n
    → fat12_ent (free_hops n cl t) c ≡ (if mem c cs && inside t c then 0 else fat12_ent t c)
unfolding IsChain free_hops mem
free_hops-frees zero t cl [] c w h k = refl
free_hops-frees zero t cl (d ∷ cs) c w h k = absurd (omega arith)
free_hops-frees (suc n) t cl [] c w h k = rw (h) refl
free_hops-frees (suc n) t cl (d ∷ cs) c w h k =
    let t1 = fat12_set t cl 0 in
    let reads = λ (x : ℕ). fat12_ent-fat12_set t cl 0 x w in
    let fresh : mem cl cs ≡ false = mem-head t cl d cs h in
    let tail : IsChain t1 (fat12_ent t cl) cs =
      IsChain-frame t t1 (fat12_ent t cl) cs h.2
        (λ x m. let ne : (x == cl) ≡ false = apart x cl cs m fresh in ground (arith, reads x)) in
    let r =
      free_hops-frees n t1 (fat12_ent t cl) cs c (fat12_set-IsFat t cl 0 w) tail (omega arith) in
    rw (h.1, free_hops) (ground (arith, r, reads c, h.0, fat_bytes-fat12_set t cl 0))

-- In an allocation table of bytes, where a cluster is the head of a chain of at most 8 clusters,
-- `fat_free_chain` leaves the entry of each cluster of the chain that is inside the table 0, and
-- every other entry as it was.
pub fat_free_chain-frees :
    (t : Fat) (cl : ℕ) (cs : List ℕ) (c : ℕ)
    → IsFat t
    → IsChain t cl cs
    → length cs ≤ chain_max
    → fat12_ent (fat_free_chain cl t) c ≡ (if mem c cs && inside t c then 0 else fat12_ent t c)
unfolding fat_free_chain
fat_free_chain-frees t cl cs c w h k = free_hops-frees chain_max t cl cs c w h k

pub mem-append : (x : ℕ) (xs ys : List ℕ) → mem x (xs ++ ys) ≡ (mem x xs || mem x ys)
unfolding mem
mem-append x [] ys = refl
mem-append x (y ∷ xs) ys = ground (arith, mem-append x xs ys)

-- The chain of a file: its clusters are marked as used, and their entries are in the table.
pub record IsFile (t : Fat) (start : ℕ) (cs : List ℕ) : Type 0 where
  pub chain : IsChain t start cs
  pub used : (c : ℕ) → mem c cs ≡ true → fat12_ent t c ≢ 0
  pub held : (c : ℕ) → mem c cs ≡ true → inside t c ≡ true

pub mem-last : (c : ℕ) (cs : List ℕ) → mem (last_of (c ∷ cs)) (c ∷ cs) ≡ true
unfolding mem
mem-last c [] = ground arith
mem-last c (d ∷ cs) = ground (arith, mem-last d cs)

last_of-cons : (c d : ℕ) (cs : List ℕ) → last_of (c ∷ d ∷ cs) ≡ last_of (d ∷ cs)
last_of-cons c d cs =
    let e : suc (suc (length cs)) - 1 ≡ suc (suc (length cs) - 1) = omega arith in
    ap (λ i. get_or (c ∷ d ∷ cs) i 0) e

flip_false : (x y : ℕ) → (x == y) ≡ false → (y == x) ≡ false
flip_false x y h = ground arith

-- A link from the last cluster to a new one, which ends the chain.
pub IsChain-snoc :
    (t t' : Fat) (cl : ℕ) (c : ℕ) (cs : List ℕ) (n : ℕ)
    → IsChain t cl (c ∷ cs)
    → ((x : ℕ)
        → mem x (c ∷ cs) ≡ true
        → (x == last_of (c ∷ cs)) ≡ false
        → fat12_ent t' x ≡ fat12_ent t x)
    → fat12_ent t' (last_of (c ∷ cs)) ≡ n
    → is_link n ≡ true
    → is_link (fat12_ent t' n) ≡ false
    → IsChain t' cl (c ∷ (cs ++ (n ∷ [])))
unfolding IsChain mem
IsChain-snoc t t' cl c [] n h f e l stop =
    let r : fat12_ent t' cl ≡ n = rw (← h.0) e in (h.0, h.1, (sym r, rw (r) l, rw (r) stop))
IsChain-snoc t t' cl c (d ∷ cs) n h f e l stop =
    let fresh : mem cl (d ∷ cs) ≡ false = mem-head t cl c (d ∷ cs) h in
    let ne : (cl == last_of (d ∷ cs)) ≡ false =
      flip_false (last_of (d ∷ cs)) cl (apart _ cl (d ∷ cs) (mem-last d cs) fresh) in
    let same : fat12_ent t' cl ≡ fat12_ent t cl =
      f cl (ground (arith, h.0)) (rw (last_of-cons c d cs) ne) in
    (
      h.0,
      h.1,
      IsChain-snoc t t' (fat12_ent t' cl) d cs n (rw (same) h.2)
          (λ x m q. f x (ground arith) (rw (last_of-cons c d cs) q)) (rw (last_of-cons c d cs) at e)
          l stop,
    )
