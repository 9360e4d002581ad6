-- ===== src/Heap/Alloc.antt =====
-- kernel/heap.c: `kmalloc` on the row of blocks.
use vampire_os.Prelude.{
  ℕ, zero, suc, ◌+◌, ◌-◌, ◌/◌, ◌%◌, ◌^◌, ◌≤◌, ◌≡◌, ◌⊎◌, refl, inl, inr, false, ◌&&◌, ◌||◌, arith,
  ap, ◌∙◌, sym, subst,
}
use vampire_os.Prelude.{◌==◌, leb, Bool-cases}
use vampire_os.Heap.{Block, Heap, hit, full, lost, head_at, walk, take_block, need_of, kmalloc}
use vampire_os.Heap.Tiles.{IsLaid, IsHead, Tiled}
use vampire_os.Heap.Steps.{next_block-more, next_block-last, walk-ends}
use vampire_os.Heap.Take.{
  IsLaid-take_block, bounds, new-IsHead, tail, taken, take_block-Tiled, before,
}

lost-ne-hit : {a : ℕ} → ¬ (lost ≡ hit a)
lost-ne-hit h = cc

full-ne-hit : {a : ℕ} → ¬ (full ≡ hit a)
full-ne-hit h = cc

-- What `kmalloc` has done where its walk ends at block `a`: the row from `b` on is a row again, and the
-- block is in use and large enough.
record IsTaken (h : Heap) (need b a : ℕ) : Type 0 where
  blocks : ℕ
  row : Tiled (take_block need a h) blocks b
  head : IsHead (take_block need a h) a
  closed : (head_at (take_block need a h) a).free ≡ false
  large : need ≤ (head_at (take_block need a h) a).size
  behind : b ≤ a
  inside : IsHead h a
  fitted : need ≤ (head_at h a).size
  base : (take_block need a h).base ≡ h.base
  stop : (take_block need a h).stop ≡ h.stop

module _ (h : Heap) (laid : IsLaid h) (need : ℕ) (even : need % 16 ≡ 0) where
  walk-IsTaken : (steps n b a : ℕ) → Tiled h n b → walk steps need b h ≡ hit a → IsTaken h need b a
  unfolding walk Tiled
  walk-IsTaken zero n b a t e = absurd (lost-ne-hit e)
  walk-IsTaken (suc steps) zero b a t e = absurd t
  walk-IsTaken (suc steps) (suc n) b a (head, rest) e =
      elim (Bool-cases ((head_at h b).free && leb need (head_at h b).size)) [
        | inl fits ↦
            let here : hit b ≡ hit a = rw (head.marked, walk, fits) at e in
            let same : b ≡ a = cc in
            let large : need ≤ (head_at h b).size = ground arith in
            let r = take_block-Tiled h laid need b head even large n (elim rest [
              | inl ends ↦ inl ends
              | inr (fits_on, more) ↦ inr (omega (arith, fits_on), more)
            ]) in
            subst (λ x. IsTaken h need b x) same
              (record {
                blocks = r.0;
                row = r.1;
                head = r.2;
                closed = (taken h laid need b head even large).0;
                large = (taken h laid need b head even large).1;
                behind = omega arith;
                inside = head;
                fitted = large;
                base = (bounds h laid need b head even large).0;
                stop = (bounds h laid need b head even large).1;
              })
        | inr passed ↦ elim rest [
          | inl ends ↦
              let f : full ≡ hit a =
                rw (head.marked, walk, passed, next_block-last h laid b head ends) at e in
              absurd (full-ne-hit f)
          | inr (fits, more) ↦
              let p = b + 16 + (head_at h b).size in
              let f : walk steps need p h ≡ hit a =
                rw (head.marked, walk, passed, next_block-more h laid b head fits) at e in
              let r = walk-IsTaken steps n p a more f in
              let g = take_block need a h in
              let kept : head_at g b ≡ head_at h b =
                before h laid need a r.inside even r.fitted b head.above head.placed
                  (omega (arith, r.behind)) in
              let size = ap (λ (x : Block). x.size) kept in
              record {
                blocks = suc r.blocks;
                row = (
                  new-IsHead h laid need a r.inside even r.fitted b (head_at h b).size g r.base
                      r.stop (ap (λ (x : Block). x.magic) kept ∙ head.marked) size head.even
                      head.above head.placed head.inside,
                  tail h laid need a r.inside even r.fitted g b r.blocks p (omega (arith, size))
                      (inr (omega (arith, r.stop, fits), r.row)),
                );
                head = r.head;
                closed = r.closed;
                large = r.large;
                behind = omega (arith, r.behind);
                inside = r.inside;
                fitted = r.fitted;
                base = r.base;
                stop = r.stop;
              }
        ]
      ]

-- The heap: laid out, and a row of blocks from its base.
pub record IsHeap (h : Heap) : Type 0 where
  pub laid : IsLaid h
  pub blocks : ℕ
  pub row : Tiled h blocks h.base

-- On a heap that is a row of blocks from its base to its end, `kmalloc` of at most 2 ^ 64 - 16
-- bytes leaves such a row, and returns 0 or the bytes behind the header of a block inside the heap
-- that is in use and has at least the size asked for.
pub kmalloc-IsHeap :
    (size : ℕ) (h : Heap)
    → IsHeap h
    → size ≤ 2 ^ 64 - 16
    → IsHeap (kmalloc size h).1
      × (((kmalloc size h).0 ≡ 0)
          ⊎ ((b : ℕ) × ((kmalloc size h).0 ≡ b + 16)
              × IsHead (kmalloc size h).1 b
              × ((head_at (kmalloc size h).1 b).free ≡ false)
              × (size ≤ (head_at (kmalloc size h).1 b).size)))
unfolding kmalloc
kmalloc-IsHeap size h v small =
    let need = need_of size in
    let steps = (h.stop - h.base) / 16 + 1 in
    elim (Bool-cases ((h.base == 0) || (size == 0))) [
      | inl refused ↦ rw refused (v, inl refl)
      | inr asked ↦
          elim (walk-ends h v.laid steps need v.blocks h.base v.row (omega (arith, v.laid.cells))) [
            | inl none_fits ↦ rw (asked, none_fits) (v, inl refl)
            | inr (a, found, above, is_free, large) ↦
                let r =
                  walk-IsTaken h v.laid need (omega arith) steps v.blocks h.base a v.row found in
                rw (asked, found)
                  (
                    record {
                      laid = IsLaid-take_block h need a v.laid;
                      blocks = r.blocks;
                      row = subst (λ x. Tiled (take_block need a h) r.blocks x) (sym r.base) r.row;
                    },
                    inr (a, refl, r.head, r.closed, omega (arith, r.large, small)),
                  )
          ]
    ]
