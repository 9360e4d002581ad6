-- ===== src/Heap/Steps.antt =====
-- kernel/heap.c: the walk of `kmalloc` along the row of blocks.
use vampire_os.Prelude.{
  ℕ, zero, suc, ◌+◌, ◌*◌, ◌%◌, ◌^◌, ◌<◌, ◌≤◌, ◌≡◌, ◌⊎◌, refl, inl, inr, true, false, ◌&&◌, ◌||◌,
  none, some, arith,
}
use vampire_os.Prelude.{ltb, leb, Bool-cases}
use vampire_os.Heap.{Heap, hit, full, head_at, next_block, walk}
use vampire_os.Heap.Tiles.{IsLaid, IsHead, Tiled}

module _ (h : Heap) (laid : IsLaid h) where
  -- The next block's address, where the tiling goes on.
  pub next_block-more :
      (b : ℕ)
      → IsHead h b
      → b + 32 + (head_at h b).size ≤ h.stop
      → next_block b h ≡ some (b + 16 + (head_at h b).size)
  unfolding next_block
  next_block-more b head fits =
      let p = b + 16 + (head_at h b).size in
      let exact : p % 2 ^ 64 ≡ p = omega (arith, laid.room) in
      let low : (b + 16) % 2 ^ 64 ≡ b + 16 = omega (arith, laid.room) in
      let high : (p + 16) % 2 ^ 64 ≡ p + 16 = omega (arith, laid.room) in
      let test : (ltb p (b + 16) || ltb h.stop (p + 16)) ≡ false = ground arith in
      rw (exact, low, high, test) refl

  pub next_block-last :
      (b : ℕ) → IsHead h b → b + 16 + (head_at h b).size ≡ h.stop → next_block b h ≡ none
  unfolding next_block
  next_block-last b head ends =
      let p = b + 16 + (head_at h b).size in
      let exact : p % 2 ^ 64 ≡ p = omega (arith, laid.room) in
      let low : (b + 16) % 2 ^ 64 ≡ b + 16 = omega (arith, laid.room) in
      let high : (p + 16) % 2 ^ 64 ≡ p + 16 = omega (arith, laid.room) in
      let test : (ltb p (b + 16) || ltb h.stop (p + 16)) ≡ true = ground arith in
      rw (exact, low, high, test) refl

  -- The walk over a row of blocks comes to a free block that is large enough, or to the end, within
  -- the steps that `kmalloc` gives it.
  pub walk-ends :
      (steps need n b : ℕ)
      → Tiled h n b
      → h.stop < b + 16 * steps
      → (walk steps need b h ≡ full)
        ⊎ ((a : ℕ) × (walk steps need b h ≡ hit a)
            × (b ≤ a)
            × ((head_at h a).free ≡ true)
            × (need ≤ (head_at h a).size))
  unfolding walk Tiled
  walk-ends zero need zero b t short = absurd t
  walk-ends zero need (suc n) b (head, rest) short = absurd (omega (arith, head.inside))
  walk-ends (suc steps) need zero b t short = absurd t
  walk-ends (suc steps) need (suc n) b (head, rest) short =
      elim (Bool-cases ((head_at h b).free && leb need (head_at h b).size)) [
        | inl fits ↦ inr (b, rw (head.marked, fits) refl, omega arith, ground arith, ground arith)
        | inr passed ↦ elim rest [
          | inl ends ↦ inl (rw (head.marked, passed, next_block-last b head ends) refl)
          | inr (fits, more) ↦
              let p = b + 16 + (head_at h b).size in
              let e = next_block-more b head fits in
              elim (walk-ends steps need n p more (omega arith)) [
                | inl f ↦ inl (rw (head.marked, passed, e) f)
                | inr (a, found, above, is_free, large) ↦
                    inr (a, rw (head.marked, passed, e) found, omega arith, is_free, large)
              ]
        ]
      ]
