-- ===== src/Pmm/Tests.antt =====
-- Tests of the model of kernel/pmm.c, at a map of 4 MiB and at small bitmaps.
use vampire_os.Prelude.{
  ℕ, ◌+◌, ◌*◌, ◌<◌, ◌≤◌, ◌≡◌, ◌≢◌, refl, true, false, ◌&&◌, List, [], ◌∷◌, arith,
}
use vampire_os.Prelude.{replicate, ◌++◌, if◌then◌else◌, ltb, leb}
use vampire_os.Prelude.Search.{first_from}
use vampire_os.Pmm.{
  Entry, Pmm, used_at, pmm_init, alloc_frame, pmm_free, run_free, pmm_alloc_span, page_size,
  identity_end, bitmap_at,
}
use vampire_os.Pmm.Count.{IsCounted, clear}
use vampire_os.Pmm.Alloc.{pmm_free-alloc_frame}
use vampire_os.Pmm.Span.{pmm_alloc_span-takes}
use vampire_os.Pmm.Init.{pmm_init-IsCounted}

abbrev map4 : List Entry
map4 = record { base = 0; span = 0x400000; usable = true } ∷ []

-- Three frames, the first two in use.
abbrev few : Pmm
few = record {
  bitmap_phys = bitmap_at;
  frame_count = 3;
  free_count = 1;
  reserved_end = 0x1000;
  bits = true ∷ true ∷ false ∷ true ∷ true ∷ true ∷ true ∷ true ∷ [];
}

few-IsCounted : IsCounted few
unfolding clear
few-IsCounted = record { counted = refl; covered = omega arith; small = omega arith }

-- Two free frames at 2 MiB.
abbrev wide : Pmm
wide = record {
  bitmap_phys = bitmap_at;
  frame_count = 514;
  free_count = 2;
  reserved_end = 0x1000;
  bits = replicate 512 true ++ (false ∷ false ∷ true ∷ true ∷ true ∷ true ∷ true ∷ true ∷ []);
}

wide-IsCounted : IsCounted wide
unfolding clear
wide-IsCounted = record { counted = refl; covered = omega arith; small = omega arith }

pmm_init-IsCounted_example : IsCounted (pmm_init map4)
pmm_init-IsCounted_example = pmm_init-IsCounted map4

few_alloc : (alloc_frame 0 few).0 ≢ 0
unfolding alloc_frame first_from
few_alloc h = omega arith

few_above : few.reserved_end ≤ (alloc_frame 0 few).0
unfolding alloc_frame first_from
few_above = omega arith

pmm_free-alloc_frame_example : pmm_free (alloc_frame 0 few).0 (alloc_frame 0 few).1 ≡ few
pmm_free-alloc_frame_example = pmm_free-alloc_frame few few-IsCounted 0 few_alloc few_above

wide_span : (pmm_alloc_span 2 wide).0 ≡ 0x200000
unfolding pmm_alloc_span run_free first_from
wide_span = refl

wide_found : (pmm_alloc_span 2 wide).0 ≢ 0
wide_found h = omega (arith, wide_span)

pmm_alloc_span-takes_example :
    (f : ℕ) × ((pmm_alloc_span 2 wide).0 ≡ f * page_size)
    × (identity_end ≤ f * page_size)
    × (f + 2 ≤ 514)
    × ((g : ℕ) → f ≤ g → g < f + 2 → used_at wide g ≡ false)
    × ((g : ℕ)
        → used_at (pmm_alloc_span 2 wide).1 g
          ≡ (if leb f g && ltb g (f + 2) then true else used_at wide g))
    × IsCounted (pmm_alloc_span 2 wide).1
pmm_alloc_span-takes_example = pmm_alloc_span-takes wide 2 wide-IsCounted wide_found
