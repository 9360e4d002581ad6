-- ===== src/Pmm/Span.antt =====
-- kernel/pmm.c: `pmm_alloc_span`, runs of frames.
use vampire_os.Prelude.{
  ℕ, ◌+◌, ◌-◌, ◌*◌, ◌/◌, ◌%◌, ◌^◌, ◌<◌, ◌≤◌, ◌≡◌, ◌≢◌, refl, inl, inr, true, false, ◌&&◌, ◌||◌,
  arith, ap, ◌∙◌, sym, subst,
}
use vampire_os.Prelude.{length, ◌==◌, ltb, leb, if◌then◌else◌, Bool-cases, Option-cases, get_or-set}
use vampire_os.Prelude.Search.{first_from, first_from-IsFirst, first_from-none}
use vampire_os.Prelude.Loop.{for_each, for_each_inv_at}
use native.Mathlib.Decide.{ℕ_discrete}
use vampire_os.Pmm.{
  Pmm, used_at, mark_used, page_size, page_up, run_free, pmm_alloc_span, identity_end,
}
use vampire_os.Pmm.Count.{IsCounted, mark_used-IsCounted}

-- What `pmm_mark_used` leaves at each frame.
used_at-mark_used :
    (f : ℕ) (s : Pmm) (g : ℕ)
    → f < s.frame_count
    → s.frame_count ≤ length s.bits
    → (s.bitmap_phys == 0) ≡ false
    → (used_at (mark_used f s) g ≡ (if f == g then true else used_at s g))
      × ((mark_used f s).frame_count ≡ s.frame_count)
      × ((mark_used f s).bitmap_phys ≡ s.bitmap_phys)
unfolding mark_used
used_at-mark_used f s g below covered ready =
    let inside : (leb s.frame_count f || (s.bitmap_phys == 0)) ≡ false = ground arith in
    elim (Bool-cases (used_at s f)) [
      | inl used ↦
          rw (inside, used)
            (elim (ℕ_discrete f g) [
              | yes e ↦ (
                subst (λ x. used_at s x ≡ (if f == x then true else used_at s x)) e
                    (ground (arith, used)),
                refl,
                refl,
              )
              | no ne ↦ (ground arith, refl, refl)
            ])
      | inr free ↦ rw (inside, free) (ground (arith, get_or-set s.bits f true g true), refl, refl)
    ]

module _ (s : Pmm) (v : IsCounted s) (f : ℕ) (ready : (s.bitmap_phys == 0) ≡ false) where
  -- The state after the frames from `f` up to `j` are marked.
  record Marked (j : ℕ) (t : Pmm) : Type 0 where
    from : f ≤ j
    count : t.frame_count ≡ s.frame_count
    map : t.bitmap_phys ≡ s.bitmap_phys
    sound : IsCounted t
    bits : (g : ℕ) → used_at t g ≡ (if leb f g && ltb g j then true else used_at s g)

  mark_run :
      (pages : ℕ) → f + pages ≤ s.frame_count → Marked (f + pages) (for_each pages f mark_used s)
  mark_run pages h =
      for_each_inv_at Marked (f + pages) mark_used
        (λ j t l m.
          let r = λ (g : ℕ).
            used_at-mark_used j t g (omega (arith, m.count)) (m.sound.covered)
              (ap (λ (a : ℕ). a == 0) m.map ∙ ready) in
          record {
            from = omega (arith, m.from);
            count = (r 0).1 ∙ m.count;
            map = (r 0).2 ∙ m.map;
            sound = mark_used-IsCounted j t m.sound;
            bits = λ g. ground (arith, (r g).0, m.bits g, m.from);
          })
        pages f s refl
        (record {
          from = omega arith;
          count = refl;
          map = refl;
          sound = v;
          bits = λ g. ground arith;
        })

true-ne-false : ¬ (true ≡ false)
true-ne-false h = cc

run_free-all :
    (s : Pmm) (pages f : ℕ)
    → run_free pages f s ≡ true
    → (g : ℕ) → f ≤ g
    → g < f + pages
    → used_at s g ≡ false
unfolding run_free
run_free-all s pages f h g a b = elim (Option-cases (first_from pages f (used_at s))) [
  | inl clean ↦ first_from-none pages f (used_at s) clean g a b
  | inr (i, hit) ↦ absurd (true-ne-false (sym (rw (hit, run_free) at h)))
]

-- In a state whose free count is right, a span that is not 0 starts at 2 MiB or above and lies
-- below the number of frames; each of its frames was free and is in use afterwards, every other
-- frame is as it was, and the free count is right.
pub pmm_alloc_span-takes :
    (s : Pmm) (pages : ℕ)
    → IsCounted s
    → (pmm_alloc_span pages s).0 ≢ 0
    → (f : ℕ) × ((pmm_alloc_span pages s).0 ≡ f * page_size)
      × (identity_end ≤ f * page_size)
      × (f + pages ≤ s.frame_count)
      × ((g : ℕ) → f ≤ g → g < f + pages → used_at s g ≡ false)
      × ((g : ℕ)
          → used_at (pmm_alloc_span pages s).1 g
            ≡ (if leb f g && ltb g (f + pages) then true else used_at s g))
      × IsCounted (pmm_alloc_span pages s).1
unfolding pmm_alloc_span run_free
pmm_alloc_span-takes s pages v ne =
    let start = page_up identity_end / page_size in
    let last = s.frame_count - pages + 1 - start in
    elim (Bool-cases ((s.bitmap_phys == 0) || (pages == 0) || ltb s.frame_count pages)) [
      | inl refused ↦ absurd (ne (rw refused refl))
      | inr fine ↦ elim (Bool-cases (leb s.frame_count start)) [
        | inl low ↦ absurd (ne (rw (fine, low) refl))
        | inr room ↦ elim (Option-cases (first_from last start (λ f. run_free pages f s))) [
          | inl full ↦ absurd (ne (rw (fine, room, full) refl))
          | inr (f, found) ↦
              let r = first_from-IsFirst last start (λ g. run_free pages g s) found in
              let fits : f + pages ≤ s.frame_count = omega (arith, r.from, r.below) in
              let m = mark_run s v f (ground arith) pages fits in
              let exact : f * page_size % 2 ^ 64 ≡ f * page_size = omega (arith, fits, v.small) in
              rw (fine, room, found, exact)
                (
                  f,
                  refl,
                  omega (arith, r.from),
                  fits,
                  run_free-all s pages f r.passes,
                  m.bits,
                  m.sound,
                )
        ]
      ]
    ]
