-- ===== src/Fs/Fat/Resize.antt =====
-- kernel/fs.c: the chain that fat_resize makes of a file's.
use vampire_os.Prelude.{
  ℕ, zero, suc, ◌+◌, ◌-◌, ◌<◌, ◌≤◌, ◌≡◌, ◌≢◌, inl, inr, refl, sym, subst, ◌∙◌, ap, List, [], ◌∷◌,
  ◌++◌, true, false, ◌||◌, ◌&&◌, length, length-append, length-take_of_le, length-drop, take_of_ge,
  take, drop, get_or, arith,
}
use vampire_os.Prelude.{ltb, ◌==◌, if◌then◌else◌, Bool-cases}
use vampire_os.Fs.{fat12_eof, chain_max}
use vampire_os.Fs.Fat.{
  Fat, fat_bytes, fat12_ent, fat12_set, gather, ResizeState, grow, shrink, cut_at, fat_resize,
}
use vampire_os.Fs.Fat.Entry.{
  IsFat, fat12_ent-fat12_set, fat12_set-IsFat, fat_bytes-fat12_set, clusters-fat12_set,
}
use vampire_os.Fs.Fat.Chain.{mem, IsChain, IsFile, inside, gather-chain}
use vampire_os.Fs.Fat.Grow.{IsVolume, Grew, grow-Grew, grow-full, running}
use vampire_os.Fs.Fat.Cut.{shrink-frees, shrink-table, take-drop_apart, IsChain-cut, mem-take-suc}

-- A file's chain of `need` clusters, which are the first of the old ones, then ones that were free. The
-- old ones that it leaves out are free, and every other entry is as it was.
pub record Resized (t : Fat) (cs : List ℕ) (need : ℕ) (start' : ℕ) (t' : Fat) : Type 0 where
  pub fresh : List ℕ
  pub volume : IsVolume t'
  pub file : IsFile t' start' (take need (cs ++ fresh))
  pub count : length (take need (cs ++ fresh)) ≡ need
  pub were_free : (c : ℕ) → mem c fresh ≡ true → fat12_ent t c ≡ 0
  pub freed : (c : ℕ) → mem c (drop need (cs ++ fresh)) ≡ true → fat12_ent t' c ≡ 0
  pub rest : (c : ℕ) → mem c (cs ++ fresh) ≡ false → fat12_ent t' c ≡ fat12_ent t c

-- A member of a list stands in front of a place or from there on.
mem-split : (x k : ℕ) (xs : List ℕ) → mem x xs ≡ (mem x (take k xs) || mem x (drop k xs))
unfolding mem
mem-split x zero xs = refl
mem-split x (suc k) [] = refl
mem-split x (suc k) (y ∷ xs) = ground (arith, mem-split x k xs)

mem-drop-suc :
    (x k : ℕ) (xs : List ℕ)
    → k < length xs
    → mem x (drop k xs) ≡ ((x == get_or xs k 0) || mem x (drop (suc k) xs))
unfolding mem
mem-drop-suc x k [] h = absurd (omega arith)
mem-drop-suc x zero (y ∷ xs) h = refl
mem-drop-suc x (suc k) (y ∷ xs) h = mem-drop-suc x k xs (omega arith)

-- The last cluster that is kept, and its entry among those of `cut_at`.
module _ (k : ℕ) (t : Fat) (start : ℕ) (xs : List ℕ) (v : IsVolume t) (f : IsFile t start xs)
    (h : k < length xs) where
  abbrev cut_last : ℕ
  cut_last = get_or xs k 0

  abbrev cut_table : Fat
  cut_table = fat12_set (shrink (length xs - suc k) (suc k) xs t) (get_or xs k 0) fat12_eof

  mem_last : mem (get_or xs k 0) (take (suc k) xs) ≡ true
  mem_last = ground (arith, mem-take-suc (get_or xs k 0) k xs h)

  cut_ent :
      (x : ℕ)
      → fat12_ent cut_table x ≡ (
          if x == get_or xs k 0
          then fat12_eof
          else if mem x (drop (suc k) xs)
          then 0
          else fat12_ent t x)
  cut_ent x =
      let extra = length xs - suc k in
      let s = shrink extra (suc k) xs t in
      let (v', size) = shrink-table extra (suc k) xs t v in
      let all : take extra (drop (suc k) xs) ≡ drop (suc k) xs =
        take_of_ge extra (drop (suc k) xs) (omega (arith, length-drop (suc k) xs)) in
      let freed : fat12_ent s x
          ≡ (if mem x (drop (suc k) xs) && inside t x then 0 else fat12_ent t x) =
        rw (all) at
          (shrink-frees extra (suc k) xs t x v.table (omega (arith, length-drop (suc k) xs))) in
      ground (
        arith,
        freed,
        fat12_ent-fat12_set s (get_or xs k 0) fat12_eof x v'.table,
        size,
        f.held (get_or xs k 0),
        f.held x,
        mem-split (get_or xs k 0) (suc k) xs,
        mem-split x (suc k) xs,
        mem_last,
      )

  -- What the cut leaves.
  record Cut : Type 0 where
    volume : IsVolume cut_table
    file : IsFile cut_table start (take (suc k) xs)
    freed : (c : ℕ) → mem c (drop (suc k) xs) ≡ true → fat12_ent cut_table c ≡ 0
    rest : (c : ℕ) → mem c xs ≡ false → fat12_ent cut_table c ≡ fat12_ent t c

  cut_Cut : Cut
  cut_Cut =
      let extra = length xs - suc k in
      let s = shrink extra (suc k) xs t in
      let (v', size) = shrink-table extra (suc k) xs t v in
      let l = get_or xs k 0 in
      let whole : fat_bytes cut_table ≡ fat_bytes t = fat_bytes-fat12_set s l fat12_eof ∙ size in
      let front = λ (x : ℕ) (m : mem x (take k xs) ≡ true).
        let behind : mem x (drop k xs) ≡ false = take-drop_apart t start k xs x f.chain m in
        let e : fat12_ent cut_table x ≡ fat12_ent t x =
          ground (arith, behind, mem-drop-suc x k xs h, cut_ent x) in
        e in
      record {
        volume = record {
          table = fat12_set-IsFat s l fat12_eof v'.table;
          few = omega (arith, clusters-fat12_set s l fat12_eof, v'.few);
        };
        file = record {
          chain = IsChain-cut t cut_table start k xs f.chain h front (ground (arith, cut_ent l));
          used = λ c m. ground (
            arith,
            cut_ent c,
            take-drop_apart t start (suc k) xs c f.chain m,
            f.used c,
            mem-split c (suc k) xs,
          );
          held = λ c m. ground (arith, whole, f.held c, mem-split c (suc k) xs);
        };
        freed = λ c m.
            ground (arith, cut_ent c, take-drop_apart t start (suc k) xs c f.chain, mem_last);
        rest = λ c m.
            ground (arith, cut_ent c, mem-split c (suc k) xs, mem-split l (suc k) xs, mem_last);
      }

-- The head of a chain is its first cluster.
chain-head :
    (t : Fat) (start : ℕ) (xs : List ℕ) → IsChain t start xs → 0 < length xs → get_or xs 0 0 ≡ start
unfolding IsChain
chain-head t start [] h n = absurd (omega arith)
chain-head t start (x ∷ xs) h n = h.0

cut_at-Resized :
    (k : ℕ) (t : Fat) (cs : List ℕ) (missing : ℕ) (r : ResizeState)
    → r.ok ≡ true
    → k < length r.cls
    → Grew missing cs t r
    → Resized t cs (suc k) (cut_at (suc k) r).start (cut_at (suc k) r).table
unfolding cut_at
cut_at-Resized k t cs missing r ok h g =
    let x = g.extended in
    let c = cut_Cut k r.table r.start r.cls x.volume x.file h in
    let e : suc k - 1 ≡ k = omega arith in
    let same = λ (y : ℕ). ap (mem y) g.longer in
    rw (ok, cut_at, e, chain-head r.table r.start r.cls x.file.chain (omega arith))
      (record {
        fresh = g.fresh;
        volume = c.volume;
        file = rw (← g.longer) c.file;
        count = rw (← g.longer) (length-take_of_le (suc k) r.cls h);
        were_free = g.were_free;
        freed = rw (← g.longer) c.freed;
        rest = λ y m. c.rest y (same y ∙ m) ∙ x.rest y (same y ∙ m);
      })

cut_at-ok : (need : ℕ) (r : ResizeState) → (cut_at need r).ok ≡ true → r.ok ≡ true
unfolding cut_at
cut_at-ok need r h = ground (arith, h)

-- On an allocation table of bytes with at most 4084 clusters, where a start is the head of a file's
-- chain of at most 8 clusters, in use and inside the table, a `fat_resize` that does not fail
-- leaves from the start that it stores a file's chain of exactly the number of clusters asked for:
-- the first of the old ones, then ones that were free; old ones left out are free, and every other
-- entry is as it was.
pub fat_resize-Resized :
    (t : Fat) (start : ℕ) (cs : List ℕ) (need : ℕ)
    → IsVolume t
    → IsFile t start cs
    → length cs ≤ chain_max
    → (fat_resize start need t).ok ≡ true
    → Resized t cs need (fat_resize start need t).start (fat_resize start need t).table
unfolding fat_resize
fat_resize-Resized t start cs need v f short ok =
    elim (Bool-cases ((need == 0) || ltb chain_max need)) [
      | inl bad ↦ absurd (ground (arith, rw (bad, fat_resize) at ok))
      | inr good ↦
          let cls : gather chain_max start t ≡ cs =
            gather-chain chain_max t start cs f.chain short in
          let ok' : (cut_at need (grow (need - length cs) (running cs start t))).ok ≡ true =
            rw (good, fat_resize, cls) at ok in
          let grown = cut_at-ok need (grow (need - length cs) (running cs start t)) ok' in
          let g = grow-Grew (need - length cs) cs start t v f grown in
          let k : ℕ = need - 1 in
          let e : need ≡ suc k = ground (arith, good) in
          let long : k < length (grow (need - length cs) (running cs start t)).cls =
            omega (arith, ap length g.longer, length-append cs g.fresh, g.many, e) in
          rw (good, fat_resize, cls)
            (subst
              (λ m.
                Resized t cs m (cut_at m (grow (need - length cs) (running cs start t))).start
                  (cut_at m (grow (need - length cs) (running cs start t))).table)
              (sym e) (cut_at-Resized k t cs (need - length cs) _ grown long g))
    ]

cut_at-fails :
    (need : ℕ) (r : ResizeState) → (cut_at need r).ok ≡ false → (r.ok ≡ false) × (cut_at need r ≡ r)
unfolding cut_at
cut_at-fails need r h = ground (arith, h)

-- In an allocation table of bytes, a `fat_resize` to between 1 and 8 clusters fails only on a full
-- disk: no cluster from 2 to the last one has a free entry in the table that it leaves.
pub fat_resize-full :
    (t : Fat) (start need c : ℕ)
    → IsFat t
    → 0 < need
    → need ≤ chain_max
    → (fat_resize start need t).ok ≡ false
    → 2 ≤ c
    → c ≤ t.clusters + 1
    → fat12_ent (fat_resize start need t).table c ≢ 0
unfolding fat_resize
fat_resize-full t start need c w p q bad lo hi =
    let good : ((need == 0) || ltb chain_max need) ≡ false = ground (arith, p, q) in
    let cls = gather chain_max start t in
    let r = grow (need - length cls) (running cls start t) in
    let (failed, same) = cut_at-fails need r (rw (good, fat_resize) at bad) in
    rw (good, fat_resize, same) (grow-full (need - length cls) cls start t c w failed lo hi)
