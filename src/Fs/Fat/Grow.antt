-- ===== src/Fs/Fat/Grow.antt =====
-- kernel/fs.c: the first loop of fat_resize, which adds free clusters behind a file's chain.
use mathlib.Core.List.{append_assoc, append-nil}
use vampire_os.Prelude.{
  ℕ, zero, suc, ◌+◌, ◌≤◌, ◌≡◌, ◌≢◌, ◌⊎◌, inl, inr, refl, sym, ◌∙◌, ap, List, [], ◌∷◌, ◌++◌, true,
  false, length, arith,
}
use vampire_os.Prelude.{ltb, ◌==◌, if◌then◌else◌, Bool-cases, ==_iff}
use vampire_os.Fs.{fat12_eof}
use vampire_os.Fs.Fat.{
  Fat, fat_bytes, last_of, fat12_ent, fat12_set, is_link, ResizeState, grow, fat_alloc, link_new,
}
use vampire_os.Fs.Fat.Entry.{
  IsFat, fat12_ent-fat12_set, fat12_set-IsFat, fat_bytes-fat12_set, clusters-fat12_set,
}
use vampire_os.Fs.Fat.Alloc.{Took, fat_alloc-result, inside_of_free}
use vampire_os.Fs.Fat.Chain.{
  mem, mem-append, IsChain, IsFile, inside, IsChain-snoc, mem-last, apart,
}

-- A table that is one, with no more clusters than FAT12 has.
pub record IsVolume (t : Fat) : Type 0 where
  pub table : IsFat t
  pub few : t.clusters ≤ 4084

-- A file's chain in another table, where the other entries are as they were.
pub record Extended (t : Fat) (t' : Fat) (start' : ℕ) (cls' : List ℕ) : Type 0 where
  pub volume : IsVolume t'
  pub file : IsFile t' start' cls'
  pub size : fat_bytes t' ≡ fat_bytes t
  pub rest : (c : ℕ) → mem c cls' ≡ false → fat12_ent t' c ≡ fat12_ent t c

module _ (t : Fat) (start : ℕ) (n : ℕ) (t1 : Fat) (v : IsVolume t)
    (k : Took t (t.clusters + 1) n t1) where
  n_link : is_link n ≡ true
  n_link = ground (arith, k.data_area, k.below, v.few)

  n_inside : inside t n ≡ true
  n_inside = ground (arith, inside_of_free t n k.was_free)

  first_Extended : Extended t t1 n (n ∷ [])
  unfolding mem IsChain
  first_Extended = record {
    volume = record { table = k.table; few = omega (arith, k.count, v.few) };
    file = record {
      chain = (refl, n_link, ground (arith, k.ent n));
      used = λ c m. ground (arith, k.ent c);
      held = λ c m. ground (arith, k.size, n_inside);
    };
    size = k.size;
    rest = λ c m. ground (arith, k.ent c);
  }

  module _ (c : ℕ) (cs : List ℕ) (f : IsFile t start (c ∷ cs)) where
    -- The new cluster was free, so it is not of the chain.
    n_new : mem n (c ∷ cs) ≡ false
    n_new = elim (Bool-cases (mem n (c ∷ cs))) [
      | inl m ↦ absurd (f.used n m k.was_free)
      | inr m ↦ m
    ]

    linked_ent :
        (x : ℕ)
        → fat12_ent (fat12_set t1 (last_of (c ∷ cs)) n) x
          ≡ (if x == last_of (c ∷ cs) then n else if x == n then fat12_eof else fat12_ent t x)
    linked_ent x = ground (
      arith,
      fat12_ent-fat12_set t1 (last_of (c ∷ cs)) n x k.table,
      f.held (last_of (c ∷ cs)) (mem-last c cs),
      k.size,
      k.ent x,
      k.below,
      v.few,
    )

    -- A cluster of the longer chain is the new one or of the old chain.
    of_longer : (x : ℕ) → mem x ((c ∷ cs) ++ (n ∷ [])) ≡ true → (mem x (c ∷ cs) ≡ true) ⊎ (x ≡ n)
    unfolding mem
    of_longer x m = ground (arith, mem-append x (c ∷ cs) (n ∷ []))

    next_Extended : Extended t (fat12_set t1 (last_of (c ∷ cs)) n) start ((c ∷ cs) ++ (n ∷ []))
    unfolding mem
    next_Extended =
        let t2 = fat12_set t1 (last_of (c ∷ cs)) n in
        let apart_n = λ (x : ℕ) (m : mem x (c ∷ cs) ≡ true). apart x n (c ∷ cs) m n_new in
        let size : fat_bytes t2 ≡ fat_bytes t = fat_bytes-fat12_set t1 _ n ∙ k.size in
        record {
          volume = record {
            table = fat12_set-IsFat t1 _ n k.table;
            few = omega (arith, clusters-fat12_set t1 (last_of (c ∷ cs)) n, k.count, v.few);
          };
          file = record {
            chain =
                IsChain-snoc t t2 start c cs n f.chain
                  (λ x m ne. ground (arith, linked_ent x, apart_n x m))
                  (ground (arith, linked_ent (last_of (c ∷ cs)))) n_link
                  (ground (arith, linked_ent n, apart_n (last_of (c ∷ cs)) (mem-last c cs)));
            used = λ x m. elim (of_longer x m) [
              | inl old ↦ ground (arith, linked_ent x, f.used x old, k.data_area)
              | inr new_ ↦ ground (arith, linked_ent x, k.data_area)
            ];
            held = λ x m. elim (of_longer x m) [
              | inl old ↦ ground (arith, size, f.held x old)
              | inr new_ ↦ ground (arith, size, n_inside)
            ];
          };
          size = size;
          rest = λ x m. ground (
            arith,
            linked_ent x,
            mem-append x (c ∷ cs) (n ∷ []),
            apart (last_of (c ∷ cs)) x (c ∷ cs) (mem-last c cs),
          );
        }

abbrev pub running : List ℕ → ℕ → Fat → ResizeState
running cls start t = record { ok = true; cls = cls; start = start; table = t }

-- What the first loop adds: clusters that were free.
pub record Grew (missing : ℕ) (cls : List ℕ) (t : Fat) (r : ResizeState) : Type 0 where
  pub fresh : List ℕ
  pub longer : r.cls ≡ cls ++ fresh
  pub many : length fresh ≡ missing
  pub were_free : (c : ℕ) → mem c fresh ≡ true → fat12_ent t c ≡ 0
  pub extended : Extended t r.table r.start r.cls

-- The rounds behind a first one.
Grew-after :
    (missing : ℕ) (cls : List ℕ) (t t1 : Fat) (start n : ℕ) (r : ResizeState)
    → fat12_ent t n ≡ 0
    → Extended t t1 start (cls ++ (n ∷ []))
    → Grew missing (cls ++ (n ∷ [])) t1 r
    → Grew (suc missing) cls t r
unfolding mem
Grew-after missing cls t t1 start n r free_ e g =
    let parts = λ (c : ℕ). ap (mem c) g.longer ∙ mem-append c (cls ++ (n ∷ [])) g.fresh in
    record {
      fresh = n ∷ g.fresh;
      longer = g.longer ∙ append_assoc cls (n ∷ []) g.fresh;
      many = omega (arith, g.many);
      were_free = λ c m. elim (Bool-cases (c == n)) [
        | inl same ↦ rw ((==_iff c n).0 same) free_
        | inr other ↦
            let z : fat12_ent t1 c ≡ 0 = g.were_free c (ground arith) in
            elim (Bool-cases (mem c (cls ++ (n ∷ [])))) [
              | inl m1 ↦ absurd (e.file.used c m1 z)
              | inr m0 ↦ sym (e.rest c m0) ∙ z
            ]
      ];
      extended = record {
        volume = g.extended.volume;
        file = g.extended.file;
        size = g.extended.size ∙ e.size;
        rest = λ c m. g.extended.rest c m ∙ e.rest c (ground (arith, parts c, m));
      };
    }

pub grow-Grew :
    (missing : ℕ) (cls : List ℕ) (start : ℕ) (t : Fat)
    → IsVolume t
    → IsFile t start cls
    → (grow missing (running cls start t)).ok ≡ true
    → Grew missing cls t (grow missing (running cls start t))
unfolding grow mem
grow-Grew zero cls start t v f h = record {
  fresh = [];
  longer = sym (append-nil cls);
  many = refl;
  were_free = λ c m. absurd (ground arith);
  extended = record { volume = v; file = f; size = refl; rest = λ c m. refl };
}
grow-Grew (suc missing) [] start t v f h = elim (fat_alloc-result t v.table) [
  | inl k ↦
      let n = (fat_alloc t).0 in
      let roomy : ltb n 2 ≡ false = ground (arith, k.data_area) in
      let e = first_Extended t start n (fat_alloc t).1 v k in
      rw (roomy, grow)
        (Grew-after missing [] t _ n n _ k.was_free e
          (grow-Grew missing _ _ _ e.volume e.file (rw (roomy, grow) at h)))
  | inr full ↦
      let none_ : ltb (fat_alloc t).0 2 ≡ true = ground (arith, full.none_left) in
      let stopped : false ≡ true = rw (none_, grow) at h in absurd (ground (arith, stopped))
]
grow-Grew (suc missing) (c ∷ cs) start t v f h = elim (fat_alloc-result t v.table) [
  | inl k ↦
      let n = (fat_alloc t).0 in
      let roomy : ltb n 2 ≡ false = ground (arith, k.data_area) in
      let e = next_Extended t start n (fat_alloc t).1 v k c cs f in
      rw (roomy, grow)
        (Grew-after missing (c ∷ cs) t _ start n _ k.was_free e
          (grow-Grew missing _ _ _ e.volume e.file (rw (roomy, grow) at h)))
  | inr full ↦
      let none_ : ltb (fat_alloc t).0 2 ≡ true = ground (arith, full.none_left) in
      let stopped : false ≡ true = rw (none_, grow) at h in absurd (ground (arith, stopped))
]

link_new-IsFat :
    (cls : List ℕ) (start n : ℕ) (t : Fat)
    → IsFat t
    → IsFat (link_new cls start n t).1 × ((link_new cls start n t).1.clusters ≡ t.clusters)
link_new-IsFat [] start n t w = (w, refl)
link_new-IsFat (c ∷ cs) start n t w =
    let l = last_of (c ∷ cs) in (fat12_set-IsFat t l n w, clusters-fat12_set t l n)

-- The loop gives up only where no cluster is free.
pub grow-full :
    (missing : ℕ) (cls : List ℕ) (start : ℕ) (t : Fat) (c : ℕ)
    → IsFat t
    → (grow missing (running cls start t)).ok ≡ false
    → 2 ≤ c
    → c ≤ t.clusters + 1
    → fat12_ent (grow missing (running cls start t)).table c ≢ 0
unfolding grow
grow-full zero cls start t c w h lo hi = absurd (ground (arith, h))
grow-full (suc missing) cls start t c w h lo hi = elim (fat_alloc-result t w) [
  | inl k ↦
      let (n, t1) = fat_alloc t in
      let roomy : ltb (fat_alloc t).0 2 ≡ false = ground (arith, k.data_area) in
      let (w', same) = link_new-IsFat cls start (fat_alloc t).0 (fat_alloc t).1 k.table in
      rw (roomy, grow)
        (grow-full missing _ _ _ c w' (rw (roomy, grow) at h) lo (omega (arith, same, k.count)))
  | inr full ↦
      let none_ : ltb (fat_alloc t).0 2 ≡ true = ground (arith, full.none_left) in
      rw (none_, grow, full.same) (full.in_use c lo hi)
]
