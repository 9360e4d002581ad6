-- ===== src/Pmm/Init.antt =====
-- kernel/pmm.c: `pmm_init` and the regions that it frees.
use vampire_os.Prelude.{
  ℕ, zero, suc, ◌+◌, ◌-◌, ◌*◌, ◌/◌, ◌%◌, ◌^◌, ◌≤◌, ◌≡◌, refl, inl, inr, true, ◌||◌, List, [], ◌∷◌,
  arith, sym,
}
use vampire_os.Prelude.{
  replicate, take, ◌==◌, ltb, leb, if◌then◌else◌, Bool-cases, length-replicate, get_or-replicate,
}
use vampire_os.Prelude.Loop.{for_each_inv}
use vampire_os.Pmm.{
  Pmm, Entry, mark_used, mark_free, mark_region_free, free_regions, max_phys, pmm_init, room_frames,
  all_used, page_size, page_up, page_down, e820_max, bitmap_at, identity_end,
}
use vampire_os.Pmm.Count.{clear, IsCounted, mark_used-IsCounted, mark_free-IsCounted}

mark_region_free-IsCounted :
    (base span : ℕ) (s : Pmm) → IsCounted s → IsCounted (mark_region_free base span s)
unfolding mark_region_free
mark_region_free-IsCounted base span s v =
    let stop = (base + span) % 2 ^ 64 in
    let from = page_up base / page_size in
    let n = page_down stop / page_size - from in
    elim (Bool-cases ((span == 0) || ltb stop base)) [
      | inl empty ↦ rw empty v
      | inr some_bytes ↦ rw some_bytes (
          for_each_inv IsCounted (from + n) mark_free (λ i t h w. mark_free-IsCounted i t w) n from
            s (omega arith) v)
    ]

free_regions-IsCounted : (es : List Entry) (s : Pmm) → IsCounted s → IsCounted (free_regions es s)
unfolding free_regions
free_regions-IsCounted [] s v = v
free_regions-IsCounted (e ∷ es) s v = free_regions-IsCounted es _ (elim (Bool-cases e.usable) [
  | inl usable ↦ rw usable (mark_region_free-IsCounted e.base e.span s v)
  | inr other ↦ rw other v
])

clear-replicate : (n m : ℕ) → clear n (replicate m true) ≡ 0
unfolding clear
clear-replicate zero m = refl
clear-replicate (suc n) m = ground (arith, clear-replicate n m, get_or-replicate m true n)

all_used-IsCounted : (n : ℕ) → n ≤ room_frames → IsCounted (all_used n)
all_used-IsCounted n h = record {
  counted = sym (clear-replicate n ((n + 7) / 8 * 8));
  covered = omega (arith, length-replicate ((n + 7) / 8 * 8) true);
  small = h;
}

-- For every memory map, `pmm_init` leaves a free count that is the number of clear bits, with a bit
-- for every frame, and no more frames than the room below the identity map's end holds bits for.
pub pmm_init-IsCounted : (entries : List Entry) → IsCounted (pmm_init entries)
unfolding pmm_init clear
pmm_init-IsCounted entries =
    let es = take e820_max entries in
    let frames = max_phys es 0 / page_size in
    let n = (if ltb room_frames frames then room_frames else frames) in
    let bytes = (n + 7) / 8 in
    let stop = page_up (bitmap_at + bytes) in
    elim (Bool-cases
      (leb identity_end bitmap_at || (n == 0) || ltb identity_end (bitmap_at + bytes))) [
        | inl small ↦
            rw small (record { counted = refl; covered = omega arith; small = omega arith })
        | inr fine ↦
            let w = free_regions-IsCounted es (all_used n) (all_used-IsCounted n (ground arith)) in
            rw fine (
              for_each_inv IsCounted (stop / page_size) mark_used
                (λ i t h u. mark_used-IsCounted i t u) (stop / page_size) 0 _ (omega arith)
                (record { counted = w.counted; covered = w.covered; small = w.small }))
      ]
