-- ===== src/Heap/Tiles.antt =====
-- kernel/heap.c: the heap as a row of blocks from its base to its end.
use vampire_os.Prelude.{
  ℕ, zero, suc, ◌+◌, ◌-◌, ◌*◌, ◌/◌, ◌%◌, ◌^◌, ◌<◌, ◌≤◌, ◌≡◌, ◌⊎◌, inl, inr, true, arith, ap, ◌∙◌,
  sym, subst,
}
use vampire_os.Prelude.{length, get_or-set, ◌==◌, if◌then◌else◌}
use vampire_os.Heap.{Block, Heap, head_at, set_head, no_block}

-- The addresses do not wrap, and the memory has a place for every 16 bytes.
pub record IsLaid (h : Heap) : Type 0 where
  pub room : h.stop < 2 ^ 64 - 32
  pub cells : h.base + 16 * length h.heads ≡ h.stop

-- A header that lies, with its bytes, inside the heap.
pub record IsHead (h : Heap) (b : ℕ) : Type 0 where
  pub marked : (head_at h b).magic ≡ true
  pub even : (head_at h b).size % 16 ≡ 0
  pub above : h.base ≤ b
  pub placed : (b - h.base) % 16 ≡ 0
  pub inside : b + 16 + (head_at h b).size ≤ h.stop

-- From `b` on, `n` blocks follow one another up to the end.
unfoldable pub Tiled : Heap → ℕ → ℕ → Type 0
Tiled h zero b = ⊥
Tiled h (suc n) b =
    IsHead h b
    × (((b + 16 + (head_at h b).size ≡ h.stop))
        ⊎ ((b + 32 + (head_at h b).size ≤ h.stop) × Tiled h n (b + 16 + (head_at h b).size)))

-- What stands at one place after a write at another.
pub head_at-set_head :
    (h : Heap) (a b : ℕ) (v : Block)
    → IsLaid h
    → h.base ≤ a
    → h.base ≤ b
    → (a - h.base) % 16 ≡ 0
    → (b - h.base) % 16 ≡ 0
    → a + 16 ≤ h.stop
    → head_at (set_head a v h) b ≡ (if a == b then v else head_at h b)
head_at-set_head h a b v laid la lb ea eb inside =
    ground
      (arith, get_or-set h.heads ((a - h.base) / 16) v ((b - h.base) / 16) no_block, laid.cells)

-- Blocks whose headers read the same in two memories of the same bounds.
pub Tiled-same :
    (h h' : Heap) (n b : ℕ)
    → h'.base ≡ h.base
    → h'.stop ≡ h.stop
    → ((a : ℕ) → b ≤ a → (a - h.base) % 16 ≡ 0 → head_at h' a ≡ head_at h a)
    → Tiled h n b
    → Tiled h' n b
unfolding Tiled
Tiled-same h h' zero b eb es same t = t
Tiled-same h h' (suc n) b eb es same (head, rest) =
    let e : head_at h' b ≡ head_at h b = same b (omega arith) head.placed in
    let size : (head_at h' b).size ≡ (head_at h b).size = ap (λ (x : Block). x.size) e in
    let next = b + 16 + (head_at h b).size in
    let at : b + 16 + (head_at h' b).size ≡ next = omega (arith, size) in
    (
      record {
        marked = ap (λ (x : Block). x.magic) e ∙ head.marked;
        even = ap (λ (n : ℕ). n % 16) size ∙ head.even;
        above = omega (arith, head.above);
        placed = ap (λ (x : ℕ). (b - x) % 16) eb ∙ head.placed;
        inside = omega (arith, head.inside, size);
      },
      elim rest [
        | inl ends ↦ inl (omega (arith, ends, size))
        | inr (fits, more) ↦ inr (
          omega (arith, fits, size),
          subst (λ (x : ℕ). Tiled h' n x) (sym at)
              (Tiled-same h h' n next eb es (λ a l p. same a (omega arith) p) more),
        )
      ],
    )
