-- ===== src/Heap/Release.antt =====
-- kernel/heap.c: `kfree` of a block of the row.
use vampire_os.Prelude.{
  ℕ, zero, suc, ◌+◌, ◌-◌, ◌/◌, ◌%◌, ◌^◌, ◌<◌, ◌≤◌, ◌≡◌, ◌≢◌, ◌⊎◌, refl, inl, inr, true, false, not,
  ◌||◌, some, List, arith, ap, ◌∙◌, sym, subst,
}
use vampire_os.Prelude.{set-set, ◌==◌, ltb, leb, Bool-cases}
use vampire_os.Heap.{Block, Heap, head_at, set_head, next_block, release, kfree}
use vampire_os.Heap.Tiles.{IsLaid, IsHead, Tiled, Tiled-same, head_at-set_head}
use vampire_os.Heap.Steps.{next_block-more, next_block-last}
use vampire_os.Heap.Take.{IsLaid-set_head}
use vampire_os.Heap.Alloc.{IsHeap}

-- Whether `a` is one of the `n` blocks from `b` on.
unfoldable pub InRow : Heap → ℕ → ℕ → ℕ → Type 0
InRow h zero b a = ⊥
InRow h (suc n) b a =
    (b ≡ a) ⊎ ((b + 32 + (head_at h b).size ≤ h.stop) × InRow h n (b + 16 + (head_at h b).size) a)

-- A header written over a block's, of a size at whose end the row goes on.
record IsPut (h : Heap) (n a : ℕ) (v : Block) : Type 0 where
  marked : v.magic ≡ true
  even : v.size % 16 ≡ 0
  inside : a + 16 + v.size ≤ h.stop
  follows : (a + 16 + v.size ≡ h.stop) ⊎ ((a + 32 + v.size ≤ h.stop) × Tiled h n (a + 16 + v.size))

module _ (h : Heap) (laid : IsLaid h) (a : ℕ) (head : IsHead h a) (v : Block) where
  put_self : head_at (set_head a v h) a ≡ v
  put_self =
      head_at-set_head h a a v laid head.above head.above head.placed head.placed
        (omega (arith, head.inside))
      ∙ ground arith

  put_other :
      (c : ℕ)
      → h.base ≤ c
      → (c - h.base) % 16 ≡ 0
      → a ≢ c
      → head_at (set_head a v h) c ≡ head_at h c
  put_other c lo ec ne =
      head_at-set_head h a c v laid head.above lo head.placed ec (omega (arith, head.inside))
      ∙ ground arith

  put-Tiled : (n : ℕ) → IsPut h n a v → Tiled (set_head a v h) (suc n) a
  unfolding Tiled
  put-Tiled n p =
      let g = set_head a v h in
      let size : (head_at g a).size ≡ v.size = ap (λ (x : Block). x.size) put_self in
      let next = a + 16 + v.size in
      (
        record {
          marked = ap (λ (x : Block). x.magic) put_self ∙ p.marked;
          even = ap (λ (x : ℕ). x % 16) size ∙ p.even;
          above = head.above;
          placed = head.placed;
          inside = omega (arith, size, p.inside);
        },
        elim (p.follows) [
          | inl ends ↦ inl (omega (arith, size, ends))
          | inr (fits, more) ↦
              let at : a + 16 + (head_at g a).size ≡ next = omega (arith, size) in
              inr (
                omega (arith, size, fits),
                subst (λ x. Tiled g n x) (sym at)
                    (Tiled-same h g n next refl refl
                      (λ c l e. put_other c (omega (arith, head.above)) e (λ s. omega arith)) more),
              )
        ],
      )

-- A row has a first block.
open_row :
    (h : Heap) (n p : ℕ)
    → Tiled h n p
    → (m : ℕ) × IsHead h p
      × ((p + 16 + (head_at h p).size ≡ h.stop)
          ⊎ ((p + 32 + (head_at h p).size ≤ h.stop) × Tiled h m (p + 16 + (head_at h p).size)))
unfolding Tiled
open_row h zero p t = absurd t
open_row h (suc m) p (head, rest) = (m, head, rest)

-- What `release` writes: the header with the flag set, or that of the two blocks joined.
release-IsPut :
    (h : Heap) (n a : ℕ)
    → IsLaid h
    → Tiled h (suc n) a
    → (v : Block) × (m : ℕ) × (release a h ≡ set_head a v h) × (v.free ≡ true) × IsPut h m a v
unfolding release Tiled
release-IsPut h n a laid (head, rest) =
    let v : Block = record (head_at h a) { free = true } in
    let g = set_head a v h in
    let self = put_self h laid a head v in
    let size : (head_at g a).size ≡ (head_at h a).size = ap (λ (x : Block). x.size) self in
    let laid_g = IsLaid-set_head h a v laid in
    let put : IsPut h n a v = record {
      marked = head.marked;
      even = head.even;
      inside = head.inside;
      follows = rest;
    } in
    let here : IsHead g a = (put-Tiled h laid a head v n put).0 in
    elim rest [
      | inl ends ↦
          let e = next_block-last g laid_g a here (omega (arith, size, ends)) in
          (v, n, rw (e, release) refl, refl, put)
      | inr (fits, more) ↦
          let p = a + 16 + (head_at h a).size in
          let e : next_block a g ≡ some p =
            next_block-more g laid_g a here (omega (arith, size, fits))
            ∙ ap (λ x. some (a + 16 + x)) size in
          let kept : head_at g p ≡ head_at h p =
            put_other h laid a head v p (omega (arith, head.above))
              (omega (arith, head.placed, head.even, head.above)) (λ s. omega arith) in
          let (m, second, beyond) = open_row h n p more in
          let joined = (head_at h a).size + 16 + (head_at h p).size in
          let exact : joined % 2 ^ 64 ≡ joined = omega (arith, second.inside, laid.room) in
          elim (Bool-cases ((head_at h p).free)) [
            | inl is_free ↦ (
              record v { size = joined },
              m,
              rw (e, release, kept, second.marked, is_free, exact)
                  (ap (λ (bs : List Block). record h { heads = bs })
                    (set-set h.heads ((a - h.base) / 16) v (record v { size = joined }))),
              refl,
              record {
                marked = head.marked;
                even = omega (arith, head.even, second.even);
                inside = omega (arith, second.inside);
                follows = elim beyond [
                  | inl ends ↦ inl (omega (arith, ends))
                  | inr (fits_on, row) ↦
                      let at : a + 16 + joined ≡ p + 16 + (head_at h p).size = omega arith in
                      inr (omega (arith, fits_on), subst (λ x. Tiled h m x) (sym at) row)
                ];
              },
            )
            | inr in_use ↦ (v, n, rw (e, release, kept, second.marked, in_use) refl, refl, put)
          ]
    ]

-- The row of blocks from `b` on after block `a` of it is released.
record IsReleased (h : Heap) (b a : ℕ) : Type 0 where
  blocks : ℕ
  row : Tiled (release a h) blocks b
  laid : IsLaid (release a h)
  base : (release a h).base ≡ h.base
  stop : (release a h).stop ≡ h.stop
  open_now : (head_at (release a h) a).free ≡ true
  head : IsHead h a
  behind : b ≤ a
  before :
      (c : ℕ) → h.base ≤ c → (c - h.base) % 16 ≡ 0 → c < a → head_at (release a h) c ≡ head_at h c

release-first : (h : Heap) (n b : ℕ) → IsLaid h → Tiled h (suc n) b → IsReleased h b b
release-first h n b laid t =
    let (v, m, e, is_free, put) = release-IsPut h n b laid t in
    let head = (open_row h (suc n) b t).1 in
    record {
      blocks = suc m;
      row = rw e (put-Tiled h laid b head v m put);
      laid = rw e (IsLaid-set_head h b v laid);
      base = rw e refl;
      stop = rw e refl;
      open_now = rw e (ap (λ (x : Block). x.free) (put_self h laid b head v) ∙ is_free);
      head = head;
      behind = omega arith;
      before = λ c lo ec less. rw e (put_other h laid b head v c lo ec (λ s. omega arith));
    }

release-IsReleased :
    (h : Heap) (n b a : ℕ) → IsLaid h → Tiled h n b → InRow h n b a → IsReleased h b a
unfolding Tiled InRow
release-IsReleased h zero b a laid t at = absurd t
release-IsReleased h (suc n) b a laid t (inl same) =
    subst (IsReleased h b) same (release-first h n b laid t)
release-IsReleased h (suc n) b a laid (head, inl ends) (inr (fits, at)) =
    absurd (omega (arith, ends, fits))
release-IsReleased h (suc n) b a laid (head, inr (fits, more)) (inr (fits_on, at)) =
    let p = b + 16 + (head_at h b).size in
    let r = release-IsReleased h n p a laid more at in
    let g = release a h in
    let kept : head_at g b ≡ head_at h b =
      r.before b head.above head.placed (omega (arith, r.behind)) in
    let size : (head_at g b).size ≡ (head_at h b).size = ap (λ (x : Block). x.size) kept in
    let next : b + 16 + (head_at g b).size ≡ p = omega (arith, size) in
    record {
      blocks = suc r.blocks;
      row = (
        record {
          marked = ap (λ (x : Block). x.magic) kept ∙ head.marked;
          even = ap (λ (x : ℕ). x % 16) size ∙ head.even;
          above = omega (arith, head.above, r.base);
          placed = ap (λ (x : ℕ). (b - x) % 16) r.base ∙ head.placed;
          inside = omega (arith, head.inside, size, r.stop);
        },
        inr (omega (arith, size, fits, r.stop), subst (λ x. Tiled g r.blocks x) (sym next) r.row),
      );
      laid = r.laid;
      base = r.base;
      stop = r.stop;
      open_now = r.open_now;
      head = r.head;
      behind = omega (arith, r.behind);
      before = r.before;
    }

-- On a set-up heap that is a row of blocks from its base to its end, `kfree` of the bytes of a
-- block of that row which is in use and not empty leaves such a row, with the block marked free.
pub kfree-IsHeap :
    (h : Heap) (v : IsHeap h) (a : ℕ)
    → (h.base == 0) ≡ false
    → InRow h v.blocks h.base a
    → (head_at h a).free ≡ false
    → 0 < (head_at h a).size
    → IsHeap (kfree (a + 16) h) × ((head_at (kfree (a + 16) h) a).free ≡ true)
unfolding kfree
kfree-IsHeap h v a set_up at in_use filled =
    let r = release-IsReleased h v.blocks h.base a v.laid v.row at in
    let outer : ((a + 16 == 0) || (h.base == 0)) ≡ false = ground arith in
    let range : (ltb (a + 16) (h.base + 16) || leb h.stop (a + 16)) ≡ false =
      ground (arith, r.head.above, r.head.inside, filled) in
    let back : a + 16 - 16 ≡ a = omega arith in
    let heads : (not (head_at h a).magic || (head_at h a).free) ≡ false =
      ground (arith, r.head.marked, in_use) in
    rw (outer, range, back, heads)
      (
        record {
          laid = r.laid;
          blocks = r.blocks;
          row = subst (λ x. Tiled (release a h) r.blocks x) (sym r.base) r.row;
        },
        r.open_now,
      )
