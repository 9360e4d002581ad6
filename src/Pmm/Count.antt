-- ===== src/Pmm/Count.antt =====
-- kernel/pmm.c: `free_count` against the clear bits, through `pmm_mark_used` and `pmm_mark_free`.
use vampire_os.Prelude.{
  ℕ, zero, suc, ◌+◌, ◌<◌, ◌≤◌, ◌≡◌, refl, inl, inr, Bool, true, false, ◌||◌, List, arith,
}
use vampire_os.Prelude.{
  get_or, set, length, ◌==◌, leb, if◌then◌else◌, Bool-cases, get_or-set, length-set,
}
use vampire_os.Pmm.{Pmm, used_at, mark_used, mark_free, room_frames}

-- The clear bits among the first `n`.
unfoldable pub clear : ℕ → List Bool → ℕ
clear zero bs = 0
clear (suc n) bs = clear n bs + (if get_or bs n true then 0 else 1)

pub clear-le : (n : ℕ) (bs : List Bool) → clear n bs ≤ n
unfolding clear
clear-le zero bs = omega arith
clear-le (suc n) bs = ground (arith, clear-le n bs)

-- A write outside the range.
clear-set_out : (n f : ℕ) (bs : List Bool) (v : Bool) → n ≤ f → clear n (set bs f v) ≡ clear n bs
unfolding clear
clear-set_out zero f bs v h = refl
clear-set_out (suc n) f bs v h = ground (arith, clear-set_out n f bs v, get_or-set bs f v n true)

pub clear-set :
    (n f : ℕ) (bs : List Bool) (v : Bool)
    → f < n
    → f < length bs
    → clear n (set bs f v) + (if get_or bs f true then 0 else 1) ≡ clear n bs + (if v then 0 else 1)
unfolding clear
clear-set zero f bs v h l = absurd (omega arith)
clear-set (suc n) f bs v h l =
    ground (arith, clear-set n f bs v, clear-set_out n f bs v, get_or-set bs f v n true)

-- The invariant: the count is right, no 64-bit sum wraps, and the bitmap covers every frame.
pub record IsCounted (s : Pmm) : Type 0 where
  pub counted : s.free_count ≡ clear s.frame_count s.bits
  pub covered : s.frame_count ≤ length s.bits
  pub small : s.frame_count ≤ room_frames

pub mark_used-IsCounted : (f : ℕ) (s : Pmm) → IsCounted s → IsCounted (mark_used f s)
unfolding mark_used
mark_used-IsCounted f s v = elim (Bool-cases (leb s.frame_count f || (s.bitmap_phys == 0))) [
  | inl out ↦ rw out v
  | inr inside ↦ elim (Bool-cases (used_at s f)) [
    | inl used ↦ rw (inside, used) v
    | inr free ↦
        let below : f < s.frame_count = ground arith in
        let c = clear-set s.frame_count f s.bits true below (omega (arith, v.covered)) in
        rw (inside, free)
          (record {
            counted = ground (arith, c, free, v.counted, v.small, clear-le s.frame_count s.bits);
            covered = omega (arith, length-set s.bits f true, v.covered);
            small = v.small;
          })
  ]
]

pub mark_free-IsCounted : (f : ℕ) (s : Pmm) → IsCounted s → IsCounted (mark_free f s)
unfolding mark_free
mark_free-IsCounted f s v = elim (Bool-cases (leb s.frame_count f || (s.bitmap_phys == 0))) [
  | inl out ↦ rw out v
  | inr inside ↦ elim (Bool-cases (used_at s f)) [
    | inr free ↦ rw (inside, free) v
    | inl used ↦
        let below : f < s.frame_count = ground arith in
        let c = clear-set s.frame_count f s.bits false below (omega (arith, v.covered)) in
        rw (inside, used)
          (record {
            counted = ground (
              arith,
              c,
              used,
              v.counted,
              v.small,
              clear-le s.frame_count s.bits,
              clear-le s.frame_count (set s.bits f false),
            );
            covered = omega (arith, length-set s.bits f false, v.covered);
            small = v.small;
          })
  ]
]
