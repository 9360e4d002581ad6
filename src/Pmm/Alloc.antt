-- ===== src/Pmm/Alloc.antt =====
-- kernel/pmm.c: `pmm_alloc_frame` and `pmm_free`, frames handed out and taken back.
use vampire_os.Prelude.{
  ℕ, zero, suc, ◌+◌, ◌-◌, ◌*◌, ◌/◌, ◌%◌, ◌^◌, ◌<◌, ◌≤◌, ◌≡◌, ◌≢◌, refl, inl, inr, Bool, true, false,
  not, ◌||◌, List, [], ◌∷◌, arith, ap, ◌∙◌, sym,
}
use vampire_os.Prelude.{get_or, set, ◌==◌, ltb, leb, Bool-cases, Option-cases, get_or-set, set-set}
use vampire_os.Prelude.Search.{first_from, first_from-IsFirst}
use vampire_os.Pmm.{Pmm, used_at, mark_used, mark_free, page_size, alloc_frame, pmm_free}
use vampire_os.Pmm.Count.{clear-le, IsCounted, clear-set}

set-get_or : (bs : List Bool) (f : ℕ) → get_or bs f true ≡ false → set bs f false ≡ bs
set-get_or [] f h = refl
set-get_or (b ∷ bs) zero h = ap (λ (c : Bool). c ∷ bs) (sym h)
set-get_or (b ∷ bs) (suc f) h = ap (λ (r : List Bool). b ∷ r) (set-get_or bs f h)

reserved-mark_used : (f : ℕ) (s : Pmm) → (mark_used f s).reserved_end ≡ s.reserved_end
unfolding mark_used
reserved-mark_used f s = elim (Bool-cases (leb s.frame_count f || (s.bitmap_phys == 0))) [
  | inl out ↦ rw out refl
  | inr inside ↦ elim (Bool-cases (used_at s f)) [
    | inl used ↦ rw (inside, used) refl
    | inr free ↦ rw (inside, free) refl
  ]
]

-- A clear bit set and cleared again.
mark_free-mark_used :
    (f : ℕ) (s : Pmm)
    → IsCounted s
    → f < s.frame_count
    → used_at s f ≡ false
    → (s.bitmap_phys == 0) ≡ false
    → mark_free f (mark_used f s) ≡ s
unfolding mark_used mark_free
mark_free-mark_used f s v below free ready =
    let inside : (leb s.frame_count f || (s.bitmap_phys == 0)) ≡ false = ground arith in
    let set_now : get_or (set s.bits f true) f true ≡ true =
      ground (arith, get_or-set s.bits f true f true) in
    let bits_back : set (set s.bits f true) f false ≡ s.bits =
      set-set s.bits f true false ∙ set-get_or s.bits f free in
    let c = clear-set s.frame_count f s.bits true below (omega (arith, v.covered)) in
    let count_back : ((s.free_count + (2 ^ 64 - 1)) % 2 ^ 64 + 1) % 2 ^ 64 ≡ s.free_count =
      ground (arith, c, free, v.counted, v.small, clear-le s.frame_count s.bits) in
    rw (inside, free, inside, set_now, bits_back, count_back) refl

module _ (s : Pmm) (v : IsCounted s) where
  pub alloc_frame-takes :
      (start : ℕ)
      → (alloc_frame start s).0 ≢ 0
      → (f : ℕ) × (alloc_frame start s ≡ (f * page_size, mark_used f s))
        × (start ≤ f)
        × (f < s.frame_count)
        × (used_at s f ≡ false)
        × ((s.bitmap_phys == 0) ≡ false)
        × ((g : ℕ) → start ≤ g → g < f → used_at s g ≡ true)
  unfolding alloc_frame
  alloc_frame-takes start ne = elim (Bool-cases (s.bitmap_phys == 0)) [
    | inl unset ↦ absurd (ne (rw unset refl))
    | inr ready ↦
        let free = λ (f : ℕ). not (used_at s f) in
        elim (Option-cases (first_from (s.frame_count - start) start free)) [
          | inl full ↦ absurd (ne (rw (ready, full) refl))
          | inr (f, found) ↦
              let r = first_from-IsFirst (s.frame_count - start) start free found in
              let below : f < s.frame_count = omega (arith, r.from, r.below) in
              let exact : f * page_size % 2 ^ 64 ≡ f * page_size = omega (arith, below, v.small) in
              (
                f,
                rw (ready, found, exact) refl,
                r.from,
                below,
                ground (arith, r.passes),
                ready,
                λ g a b. ground (arith, r.before g a b),
              )
        ]
  ]

  -- In a state whose free count is right, a frame that an allocation returns (not 0, and not below
  -- the reserved end) can be freed again with the allocator's state back as it was before.
  pub pmm_free-alloc_frame :
      (start : ℕ)
      → (alloc_frame start s).0 ≢ 0
      → s.reserved_end ≤ (alloc_frame start s).0
      → pmm_free (alloc_frame start s).0 (alloc_frame start s).1 ≡ s
  unfolding pmm_free
  pmm_free-alloc_frame start ne above =
      let (f, e, lo, below, free, ready, first) = alloc_frame-takes start ne in
      let above' : s.reserved_end ≤ f * page_size = rw e at above in
      rw e (back f below free ready above')
    where
      back :
          (f : ℕ)
          → f < s.frame_count
          → used_at s f ≡ false
          → (s.bitmap_phys == 0) ≡ false
          → s.reserved_end ≤ f * page_size
          → pmm_free (f * page_size) (mark_used f s) ≡ s
      back f below free ready above =
          let kept = reserved-mark_used f s in
          let page : f * page_size / page_size ≡ f = omega arith in
          let aligned : (ltb (f * page_size) (mark_used f s).reserved_end
                || not (f * page_size % page_size == 0))
              ≡ false =
            ground (arith, kept) in
          rw (aligned, page) (mark_free-mark_used f s v below free ready)
