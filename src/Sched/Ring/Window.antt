-- ===== src/Sched/Ring/Window.antt =====
-- kernel/sched.c: the bytes that a ring holds, as a stretch that goes round the page, and the two copy
-- loops on it.
use vampire_os.Prelude.{
  ℕ, zero, suc, ◌+◌, ◌-◌, ◌%◌, ◌<◌, ◌≤◌, ◌≡◌, refl, List, [], ◌∷◌, ◌++◌, arith, ap, ap₂, ◌∙◌,
}
use vampire_os.Prelude.{length, get_or, set, take, drop, length-set, get_or-set_self, get_or-set_ne}
use vampire_os.Sched.Types.{pipe_cap}
use vampire_os.Sched.Ring.{read_ring, write_ring}

-- Only the index modulo the page matters.
pub read_ring-mod :
    (b : List ℕ) (n h g : ℕ) → h % pipe_cap ≡ g % pipe_cap → read_ring b h n ≡ read_ring b g n
unfolding read_ring
read_ring-mod b zero h g e = refl
read_ring-mod b (suc n) h g e =
    ap₂ ◌∷◌ (ap (λ i. get_or b i 0) e) (read_ring-mod b n (h + 1) (g + 1) (omega arith))

pub write_ring-mod :
    (xs b : List ℕ) (t u : ℕ) → t % pipe_cap ≡ u % pipe_cap → write_ring b t xs ≡ write_ring b u xs
unfolding write_ring
write_ring-mod [] b t u e = refl
write_ring-mod (x ∷ xs) b t u e =
    rw e (write_ring-mod xs (set b (u % pipe_cap) x) (t + 1) (u + 1) (omega arith))

pub length-read_ring : (b : List ℕ) (n h : ℕ) → length (read_ring b h n) ≡ n
unfolding read_ring
length-read_ring b zero h = refl
length-read_ring b (suc n) h = ap suc (length-read_ring b n (h + 1))

pub length-write_ring : (xs b : List ℕ) (t : ℕ) → length (write_ring b t xs) ≡ length b
unfolding write_ring
length-write_ring [] b t = refl
length-write_ring (x ∷ xs) b t =
    length-write_ring xs (set b (t % pipe_cap) x) (t + 1) ∙ length-set b (t % pipe_cap) x

pub take-read_ring : (b : List ℕ) (m n h : ℕ) → m ≤ n → take m (read_ring b h n) ≡ read_ring b h m
unfolding read_ring
take-read_ring b zero n h l = refl
take-read_ring b (suc m) zero h l = absurd (omega arith)
take-read_ring b (suc m) (suc n) h l =
    ap (λ (r : List ℕ). get_or b (h % pipe_cap) 0 ∷ r) (take-read_ring b m n (h + 1) (omega arith))

pub drop-read_ring :
    (b : List ℕ) (m n h : ℕ) → m ≤ n → drop m (read_ring b h n) ≡ read_ring b (h + m) (n - m)
unfolding read_ring
drop-read_ring b zero n h l = ap₂ (read_ring b) (omega arith) (omega arith)
drop-read_ring b (suc m) zero h l = absurd (omega arith)
drop-read_ring b (suc m) (suc n) h l =
    drop-read_ring b m n (h + 1) (omega arith) ∙ ap₂ (read_ring b) (omega arith) (omega arith)

-- A write outside the stretch does not show in it.
pub read_ring-set :
    (b : List ℕ) (x n h t : ℕ)
    → h + n ≤ t
    → t < h + pipe_cap
    → read_ring (set b (t % pipe_cap) x) h n ≡ read_ring b h n
unfolding read_ring
read_ring-set b x zero h t l u = refl
read_ring-set b x (suc n) h t l u =
    ap₂ ◌∷◌ (get_or-set_ne b (t % pipe_cap) (h % pipe_cap) x 0 (λ e. omega arith))
      (read_ring-set b x n (h + 1) t (omega arith) (omega arith))

pub read_ring-write_ring_before :
    (xs b : List ℕ) (n h t : ℕ)
    → h + n ≤ t
    → t + length xs ≤ h + pipe_cap
    → read_ring (write_ring b t xs) h n ≡ read_ring b h n
unfolding write_ring
read_ring-write_ring_before [] b n h t l u = refl
read_ring-write_ring_before (x ∷ xs) b n h t l u =
    read_ring-write_ring_before xs (set b (t % pipe_cap) x) n h (t + 1) (omega arith) (omega arith)
    ∙ read_ring-set b x n h t l (omega arith)

-- The stretch that a write fills holds what was written.
pub read_ring-write_ring :
    (xs b : List ℕ) (t : ℕ)
    → length b ≡ pipe_cap
    → length xs ≤ pipe_cap
    → read_ring (write_ring b t xs) t (length xs) ≡ xs
unfolding write_ring read_ring
read_ring-write_ring [] b t lb lx = refl
read_ring-write_ring (x ∷ xs) b t lb lx =
    ap₂ ◌∷◌
      (ap (λ (r : List ℕ). get_or r 0 0)
          (read_ring-write_ring_before xs (set b (t % pipe_cap) x) 1 t (t + 1) (omega arith)
            (omega arith))
        ∙ get_or-set_self b (t % pipe_cap) x 0 (omega arith))
      (read_ring-write_ring xs (set b (t % pipe_cap) x) (t + 1) (length-set b (t % pipe_cap) x ∙ lb)
        (omega arith))

pub read_ring-append :
    (b : List ℕ) (m n h : ℕ) → read_ring b h (m + n) ≡ read_ring b h m ++ read_ring b (h + m) n
unfolding read_ring
read_ring-append b zero n h = ap₂ (read_ring b) (omega arith) (omega arith)
read_ring-append b (suc m) n h =
    let e : suc m + n ≡ suc (m + n) = omega arith in
    rw e (
      ap (λ (r : List ℕ). get_or b (h % pipe_cap) 0 ∷ r)
        (read_ring-append b m n (h + 1)
          ∙ ap (λ (g : ℕ). read_ring b (h + 1) m ++ read_ring b g n) (omega arith)))
