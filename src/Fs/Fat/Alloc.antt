-- ===== src/Fs/Fat/Alloc.antt =====
-- kernel/fs.c: the cluster that fat_alloc takes.
use vampire_os.Prelude.{ℕ, zero, suc, ◌+◌, ◌<◌, ◌≤◌, ◌≡◌, ◌≢◌, ◌⊎◌, inl, inr, refl, false, arith}
use native.Mathlib.Decide.{ℕ_discrete}
use vampire_os.Prelude.{ltb, ◌==◌, if◌then◌else◌, Bool-cases, lt-or-le}
use vampire_os.Fs.{fat12_eof}
use vampire_os.Fs.Fat.{Fat, fat_bytes, entry_at, fat12_ent, fat12_set, alloc_down, fat_alloc}
use vampire_os.Fs.Fat.Entry.{
  IsFat, fat12_ent-outside, fat12_ent-fat12_set, fat12_set-IsFat, fat_bytes-fat12_set,
  clusters-fat12_set,
}

-- The last free cluster up to `top`, marked as the end of a chain; no other entry changes.
pub record Took (t : Fat) (top cl : ℕ) (t' : Fat) : Type 0 where
  pub data_area : 2 ≤ cl
  pub below : cl ≤ top
  pub was_free : fat12_ent t cl ≡ 0
  pub last_free : (c : ℕ) → cl < c → c ≤ top → fat12_ent t c ≢ 0
  pub ent : (c : ℕ) → fat12_ent t' c ≡ (if c == cl then fat12_eof else fat12_ent t c)
  pub table : IsFat t'
  pub size : fat_bytes t' ≡ fat_bytes t
  pub count : t'.clusters ≡ t.clusters

-- Nothing is free.
pub record Full (t : Fat) (top cl : ℕ) (t' : Fat) : Type 0 where
  pub none_left : cl ≡ 0
  pub same : t' ≡ t
  pub in_use : (c : ℕ) → 2 ≤ c → c ≤ top → fat12_ent t c ≢ 0

pub inside_of_free : (t : Fat) (cl : ℕ) → fat12_ent t cl ≡ 0 → entry_at cl + 1 < fat_bytes t
inside_of_free t cl h = elim (lt-or-le (entry_at cl + 1) (fat_bytes t)) [
  | inl in_ ↦ in_
  | inr out ↦ absurd (omega (arith, fat12_ent-outside t cl out))
]

pub take_free :
    (t : Fat) (cl val c : ℕ)
    → IsFat t
    → fat12_ent t cl ≡ 0
    → val < 0x1000
    → fat12_ent (fat12_set t cl val) c ≡ (if c == cl then val else fat12_ent t c)
take_free t cl val c w h small =
    ground (arith, fat12_ent-fat12_set t cl val c w, inside_of_free t cl h)

-- The step over a cluster that is in use.
one_more :
    (top : ℕ) (t : Fat) (cl : ℕ) (t' : Fat)
    → (fat12_ent t (suc top) == 0) ≡ false
    → Took t top cl t' ⊎ Full t top cl t'
    → Took t (suc top) cl t' ⊎ Full t (suc top) cl t'
one_more top t cl t' used (inl k) = inl (record {
  data_area = k.data_area;
  was_free = k.was_free;
  ent = k.ent;
  table = k.table;
  size = k.size;
  count = k.count;
  below = omega (arith, k.below);
  last_free = λ c p q. elim (ℕ_discrete c (suc top)) [
    | yes e ↦ rw (e) (ground arith)
    | no ne ↦ k.last_free c p (omega arith)
  ];
})
one_more top t cl t' used (inr k) = inr (record {
  none_left = k.none_left;
  same = k.same;
  in_use = λ c p q. elim (ℕ_discrete c (suc top)) [
    | yes e ↦ rw (e) (ground arith)
    | no ne ↦ k.in_use c p (omega arith)
  ];
})

alloc_down-result :
    (top : ℕ) (t : Fat)
    → IsFat t
    → Took t top (alloc_down top t).0 (alloc_down top t).1
      ⊎ Full t top (alloc_down top t).0 (alloc_down top t).1
unfolding alloc_down
alloc_down-result zero t w =
    inr (record { none_left = refl; same = refl; in_use = λ c p q. absurd (omega arith) })
alloc_down-result (suc top) t w = elim (Bool-cases (ltb (suc top) 2)) [
  | inl low ↦
      rw (low)
        (inr (record { none_left = refl; same = refl; in_use = λ c p q. absurd (ground arith) }))
  | inr data_ ↦ elim (Bool-cases (fat12_ent t (suc top) == 0)) [
    | inl free_ ↦
        let e : fat12_ent t (suc top) ≡ 0 = ground arith in
        rw (data_, free_)
          (inl (record {
            data_area = ground arith;
            below = omega arith;
            was_free = e;
            last_free = λ c p q. absurd (omega arith);
            ent = λ c. take_free t (suc top) fat12_eof c w e (omega arith);
            table = fat12_set-IsFat t (suc top) fat12_eof w;
            size = fat_bytes-fat12_set t (suc top) fat12_eof;
            count = clusters-fat12_set t (suc top) fat12_eof;
          }))
    | inr used ↦ rw (data_, used) (one_more top t _ _ used (alloc_down-result top t w))
  ]
]

-- What a call of `fat_alloc` gives.
pub fat_alloc-result :
    (t : Fat)
    → IsFat t
    → Took t (t.clusters + 1) (fat_alloc t).0 (fat_alloc t).1
      ⊎ Full t (t.clusters + 1) (fat_alloc t).0 (fat_alloc t).1
unfolding fat_alloc
fat_alloc-result t w = alloc_down-result (t.clusters + 1) t w
