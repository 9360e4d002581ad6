-- ===== src/Heap/Take.antt =====
-- kernel/heap.c: the row of blocks after `kmalloc` has taken one of them.
use vampire_os.Prelude.{
  ℕ, suc, ◌+◌, ◌-◌, ◌/◌, ◌%◌, ◌<◌, ◌≤◌, ◌≡◌, ◌⊎◌, refl, inl, inr, true, false, arith, ap, ◌∙◌, sym,
  subst,
}
use vampire_os.Prelude.{length-set, ◌==◌, leb, if◌then◌else◌, Bool-cases}
use vampire_os.Heap.{Block, Heap, head_at, set_head, take_block}
use vampire_os.Heap.Tiles.{IsLaid, IsHead, Tiled, Tiled-same, head_at-set_head}

pub IsLaid-set_head : (h : Heap) (a : ℕ) (v : Block) → IsLaid h → IsLaid (set_head a v h)
IsLaid-set_head h a v laid = record {
  room = laid.room;
  cells = omega (arith, laid.cells, length-set h.heads ((a - h.base) / 16) v);
}

pub IsLaid-take_block : (h : Heap) (need b : ℕ) → IsLaid h → IsLaid (take_block need b h)
unfolding take_block
IsLaid-take_block h need b laid =
    let head = head_at h b in
    let left = head.size - need in
    let rest : Block = record { magic = true; free = true; size = left - 16 } in
    elim (Bool-cases (leb 32 left)) [
      | inl wide ↦ rw wide (
          IsLaid-set_head _ b (record head { free = false; size = need })
            (IsLaid-set_head h (b + 16 + need) rest laid))
      | inr tight ↦ rw tight (IsLaid-set_head h b (record head { free = false }) laid)
    ]

-- What `take_block` leaves: the block itself, its new neighbour where there is one, and the rest.
module _ (h : Heap) (laid : IsLaid h) (need b : ℕ) (head : IsHead h b) (even : need % 16 ≡ 0)
    (large : need ≤ (head_at h b).size) where
  abbrev pub old : Block
  old = head_at h b

  abbrev pub rest_block : Block
  rest_block = record { magic = true; free = true; size = old.size - need - 16 }

  abbrev pub q : ℕ
  q = b + 16 + need

  q-even : (q - h.base) % 16 ≡ 0
  q-even = omega (arith, even, head.placed, head.above)

  head_at-split :
      leb 32 (old.size - need) ≡ true
      → (c : ℕ) → h.base ≤ c
      → (c - h.base) % 16 ≡ 0
      → head_at (take_block need b h) c ≡ (
          if b == c
          then record old { free = false; size = need }
          else if q == c
          then rest_block
          else head_at h c)
  unfolding take_block
  head_at-split wide c lo ec =
      let s1 = set_head q rest_block h in
      let v : Block = record old { free = false; size = need } in
      rw wide (
        ground (
          arith,
          head_at-set_head s1 b c v (IsLaid-set_head h q rest_block laid) head.above lo head.placed
              ec (omega (arith, head.inside)),
          head_at-set_head h q c rest_block laid (omega (arith, head.above)) lo q-even ec
              (ground (arith, head.inside, large)),
        ))

  head_at-whole :
      leb 32 (old.size - need) ≡ false
      → (c : ℕ) → h.base ≤ c
      → (c - h.base) % 16 ≡ 0
      → head_at (take_block need b h) c
        ≡ (if b == c then record old { free = false } else head_at h c)
  unfolding take_block
  head_at-whole tight c lo ec = rw tight (
      head_at-set_head h b c (record old { free = false }) laid head.above lo head.placed ec
        (omega (arith, head.inside)))

  pub bounds : ((take_block need b h).base ≡ h.base) × ((take_block need b h).stop ≡ h.stop)
  unfolding take_block
  bounds = elim (Bool-cases (leb 32 (old.size - need))) [
    | inl wide ↦ rw wide (refl, refl)
    | inr tight ↦ rw tight (refl, refl)
  ]

  -- What follows the block in the row.
  abbrev pub Follows : Heap → ℕ → ℕ → Type 0
  Follows g n p = (p ≡ g.stop) ⊎ ((p + 16 ≤ g.stop) × Tiled g n p)

  abbrev pub after : ℕ
  after = b + 16 + old.size

  -- The blocks behind are not touched.
  follows : (n : ℕ) → Follows h n after → Follows (take_block need b h) n after
  follows n (inl ends) = inl (ends ∙ sym bounds.1)
  follows n (inr (fits, more)) = inr (
    omega (arith, bounds.1, fits),
    Tiled-same h (take_block need b h) n after bounds.0 bounds.1
        (λ c lo ec. elim (Bool-cases (leb 32 (old.size - need))) [
          | inl wide ↦
              head_at-split wide c (omega (arith, lo, head.above)) ec ∙ ground (arith, lo, large)
          | inr tight ↦
              head_at-whole tight c (omega (arith, lo, head.above)) ec ∙ ground (arith, lo)
        ])
        more,
  )

  -- A header with a given size, read in the new memory.
  pub new-IsHead :
      (c size : ℕ) (g : Heap)
      → g.base ≡ h.base
      → g.stop ≡ h.stop
      → (head_at g c).magic ≡ true
      → (head_at g c).size ≡ size
      → size % 16 ≡ 0
      → h.base ≤ c
      → (c - h.base) % 16 ≡ 0
      → c + 16 + size ≤ h.stop
      → IsHead g c
  new-IsHead c size g eb es magic es_size even_size lo ec inside = record {
    marked = magic;
    even = ap (λ (x : ℕ). x % 16) es_size ∙ even_size;
    above = omega (arith, lo, eb);
    placed = ap (λ (x : ℕ). (c - x) % 16) eb ∙ ec;
    inside = omega (arith, inside, es_size, es);
  }

  -- What follows a header, as `Tiled` has it.
  pub tail :
      (g : Heap) (c n p : ℕ)
      → c + 16 + (head_at g c).size ≡ p
      → Follows g n p
      → (c + 16 + (head_at g c).size ≡ g.stop)
        ⊎ ((c + 32 + (head_at g c).size ≤ g.stop) × Tiled g n (c + 16 + (head_at g c).size))
  tail g c n p at (inl ends) = inl (at ∙ ends)
  tail g c n p at (inr (fits, more)) =
      inr (omega (arith, at, fits), subst (λ x. Tiled g n x) (sym at) more)

  take_block-whole :
      leb 32 (old.size - need) ≡ false
      → (n : ℕ) → Follows h n after
      → Tiled (take_block need b h) (suc n) b
  unfolding Tiled
  take_block-whole tight n rest =
      let g = take_block need b h in
      let e : head_at g b ≡ record old { free = false } =
        head_at-whole tight b head.above head.placed ∙ ground arith in
      let size : (head_at g b).size ≡ old.size = ap (λ (x : Block). x.size) e in
      (
        new-IsHead b old.size g bounds.0 bounds.1 (ap (λ (x : Block). x.magic) e ∙ head.marked) size
            head.even head.above head.placed head.inside,
        tail g b n after (omega (arith, size)) (follows n rest),
      )

  take_block-split :
      leb 32 (old.size - need) ≡ true
      → (n : ℕ) → Follows h n after
      → Tiled (take_block need b h) (suc (suc n)) b
  unfolding Tiled
  take_block-split wide n rest =
      let g = take_block need b h in
      let room : need + 32 ≤ old.size = ground (arith, wide, large) in
      let q_lo : h.base ≤ q = omega (arith, head.above) in
      let e : head_at g b ≡ record old { free = false; size = need } =
        head_at-split wide b head.above head.placed ∙ ground arith in
      let f : head_at g q ≡ rest_block = head_at-split wide q q_lo q-even ∙ ground arith in
      let size_b : (head_at g b).size ≡ need = ap (λ (x : Block). x.size) e in
      let size_q : (head_at g q).size ≡ old.size - need - 16 = ap (λ (x : Block). x.size) f in
      let second : Tiled g (suc n) q = (
        new-IsHead q (old.size - need - 16) g bounds.0 bounds.1 (ap (λ (x : Block). x.magic) f)
            size_q (omega (arith, head.even, even, room)) q_lo q-even
            (omega (arith, head.inside, room)),
        tail g q n after (omega (arith, size_q, room)) (follows n rest),
      ) in
      (
        new-IsHead b need g bounds.0 bounds.1 (ap (λ (x : Block). x.magic) e ∙ head.marked) size_b
            even head.above head.placed (omega (arith, head.inside, large)),
        tail g b (suc n) q (omega (arith, size_b))
            (inr (omega (arith, bounds.1, head.inside, room), second)),
      )

  -- The block is in use and large enough.
  pub taken :
      ((head_at (take_block need b h) b).free ≡ false)
      × (need ≤ (head_at (take_block need b h) b).size)
  taken = elim (Bool-cases (leb 32 (old.size - need))) [
    | inl wide ↦
        let e : head_at (take_block need b h) b ≡ record old { free = false; size = need } =
          head_at-split wide b head.above head.placed ∙ ground arith in
        (ap (λ (x : Block). x.free) e, omega (arith, ap (λ (x : Block). x.size) e))
    | inr tight ↦
        let e : head_at (take_block need b h) b ≡ record old { free = false } =
          head_at-whole tight b head.above head.placed ∙ ground arith in
        (ap (λ (x : Block). x.free) e, omega (arith, ap (λ (x : Block). x.size) e, large))
  ]

  -- The row after the block is taken, from the block on.
  pub take_block-Tiled :
      (n : ℕ)
      → Follows h n after
      → (m : ℕ) × Tiled (take_block need b h) m b × IsHead (take_block need b h) b
  unfolding Tiled
  take_block-Tiled n rest = elim (Bool-cases (leb 32 (old.size - need))) [
    | inl wide ↦ (suc (suc n), take_block-split wide n rest, (take_block-split wide n rest).0)
    | inr tight ↦ (suc n, take_block-whole tight n rest, (take_block-whole tight n rest).0)
  ]

  -- The headers before the block are as they were.
  pub before :
      (c : ℕ)
      → h.base ≤ c
      → (c - h.base) % 16 ≡ 0
      → c < b
      → head_at (take_block need b h) c ≡ head_at h c
  before c lo ec less = elim (Bool-cases (leb 32 (old.size - need))) [
    | inl wide ↦ head_at-split wide c lo ec ∙ ground arith
    | inr tight ↦ head_at-whole tight c lo ec ∙ ground arith
  ]
