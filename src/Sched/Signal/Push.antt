-- ===== src/Sched/Signal/Push.antt =====
-- kernel/sched.c: what push_user_u64 leaves in memory.
use vampire_os.Prelude.{
  ℕ, zero, suc, ◌+◌, ◌-◌, ◌*◌, ◌/◌, ◌%◌, ◌^◌, ◌<◌, ◌≤◌, ◌≡◌, ◌≢◌, refl, true, false, ◌&&◌, ◌||◌,
  some, arith, ap, sym, ◌∙◌, if◌then◌else◌, ltb, leb, ◌==◌,
}
use vampire_os.Prelude.Loop.{for_each}
use vampire_os.Sched.Types.{page_4k}
use vampire_os.Sched.Kernel.{Kernel}
use vampire_os.Sched.Signal.{store_u64, push_user_u64}
use native.Mathlib.Decide.{ℕ_discrete}

-- Physical memory whose bytes are what was stored last.
pub record IsMemory {M : Type 0} (k : Kernel M) : Type 0 where
  pub load : M → ℕ → ℕ
  pub stored : (a b : ℕ) (m : M) → load (k.store_byte a b m) a ≡ b
  pub kept : (a b x : ℕ) (m : M) → a ≢ x → load (k.store_byte a b m) x ≡ load m x

-- Eight bytes from an address on as a number, the low one first.
pub word : (ℕ → ℕ) → ℕ → ℕ
word at_ a =
    at_ a
    + 2 ^ 8 * at_ (a + 1)
    + 2 ^ 16 * at_ (a + 2)
    + 2 ^ 24 * at_ (a + 3)
    + 2 ^ 32 * at_ (a + 4)
    + 2 ^ 40 * at_ (a + 5)
    + 2 ^ 48 * at_ (a + 6)
    + 2 ^ 56 * at_ (a + 7)

module _ {M : Type 0} (k : Kernel M) (w : IsMemory k) (base : ℕ) (g : ℕ → ℕ) (spot : ℕ → ℕ)
    (here : (j : ℕ) → j < 8 → spot j ≡ base + j) where
  -- The bytes that a loop over eight neighbouring spots has still to write.
  loop-bytes :
      (n i : ℕ) (m : M) (x : ℕ)
      → i + n ≤ 8
      → w.load (for_each n i (λ j. k.store_byte (spot j) (g j)) m) x
        ≡ (if leb (base + i) x && ltb x (base + (i + n)) then g (x - base) else w.load m x)
  unfolding for_each
  loop-bytes zero i m x h = ground arith
  loop-bytes (suc n) i m x h =
      let m1 = k.store_byte (spot i) (g i) m in
      let r = loop-bytes n (i + 1) m1 x (omega (arith, h)) in
      let e = here i (omega (arith, h)) in
      elim (ℕ_discrete x (base + i)) [
        | yes same ↦
            let new : w.load m1 x ≡ g i =
              ap (w.load m1) (same ∙ sym e) ∙ w.stored (spot i) (g i) m in
            let at_ : g (x - base) ≡ g i = let d : x - base ≡ i = omega (arith, same) in ap g d in
            let late : leb (base + (i + 1)) x ≡ false = ground (arith, same) in
            let first : (leb (base + i) x && ltb x (base + (i + suc n))) ≡ true =
              ground (arith, same) in
            rw (late) at r ∙ new ∙ sym (rw (first) at_)
        | no ne ↦
            let old : w.load m1 x ≡ w.load m x =
              w.kept (spot i) (g i) x m (λ q. ne (omega (arith, q, e))) in
            let test : (leb (base + (i + 1)) x && ltb x (base + (i + 1 + n)))
                ≡ (leb (base + i) x && ltb x (base + (i + suc n))) =
              ground (arith, ne) in
            rw (test, old) at r
      ]

digits-word :
    (value : ℕ)
    → value < 2 ^ 64
    → (at_ : ℕ → ℕ) (a : ℕ) → ((j : ℕ) → j < 8 → at_ (a + j) ≡ value / 2 ^ (8 * j) % 256)
    → word at_ a ≡ value
unfolding word
digits-word value small at_ a each =
    let front : a + 0 ≡ a = omega arith in
    let zero_ : at_ a ≡ value % 256 = sym (ap at_ front) ∙ each 0 (omega arith) ∙ omega arith in
    omega (
      arith,
      small,
      zero_,
      each 1 (omega arith),
      each 2 (omega arith),
      each 3 (omega arith),
      each 4 (omega arith),
      each 5 (omega arith),
      each 6 (omega arith),
      each 7 (omega arith),
    )

-- Where the eight bytes of a virtual address go, by the physical address that it is mapped to.
abbrev pub stack_at : ℕ → ℕ → ℕ
stack_at va phys = phys - phys % page_4k + va % page_4k

in_word :
    (a j value other : ℕ)
    → j < 8
    → (if leb a (a + j) && ltb (a + j) (a + 8) then value / 2 ^ (8 * (a + j - a)) % 256 else other)
      ≡ value / 2 ^ (8 * j) % 256
in_word a j value other lt =
    let test : (leb a (a + j) && ltb (a + j) (a + 8)) ≡ true = ground (arith, lt) in
    let d : a + j - a ≡ j = omega arith in rw (test, d) refl

stored_bytes :
    {M : Type 0} (k : Kernel M) (w : IsMemory k) (frame va value : ℕ) (m : M)
    → va % page_4k ≤ page_4k - 8
    → (x : ℕ)
    → w.load (store_u64 k frame va value m) x ≡ (
        if leb (frame + va % page_4k) x && ltb x (frame + va % page_4k + 8)
        then value / 2 ^ (8 * (x - (frame + va % page_4k))) % 256
        else w.load m x)
unfolding store_u64
stored_bytes k w frame va value m page x =
    let base = frame + va % page_4k in
    let front : base + 0 ≡ base = omega arith in
    (rw (front) at (
      loop-bytes k w base (λ j. value / 2 ^ (8 * j) % 256) (λ j. frame + (va + j) % page_4k)
        (λ j lt. omega (arith, page, lt)) 8 0 m x (omega arith)))

-- In a memory whose bytes are what was stored last, at an address of a task with a page table,
-- eight bytes or more in front of the end of its page, which is writable and mapped,
-- `push_user_u64` succeeds for a value of 64 bits: the eight bytes at the mapped address, the low
-- one first, are the value, and every other byte is as the making of a private page has left it.
pub push_user_u64-stored :
    {M : Type 0} (k : Kernel M) (w : IsMemory k) (cr3 va value phys : ℕ) (m : M)
    → cr3 ≢ 0
    → va % page_4k ≤ page_4k - 8
    → (k.cow_break cr3 va m).0 ≡ true
    → k.translate_user cr3 va (k.cow_break cr3 va m).1 ≡ some phys
    → value < 2 ^ 64
    → let r = push_user_u64 k cr3 va value m in
      (r.0 ≡ true)
      × (word (w.load r.1) (stack_at va phys) ≡ value)
      × ((x : ℕ)
          → w.load r.1 x ≡ (
              if leb (stack_at va phys) x && ltb x (stack_at va phys + 8)
              then value / 2 ^ (8 * (x - stack_at va phys)) % 256
              else w.load (k.cow_break cr3 va m).1 x))
unfolding push_user_u64 store_u64
push_user_u64-stored k w cr3 va value phys m table page own found small =
    let good : ((cr3 == 0) || ltb (page_4k - 8) (va % page_4k)) ≡ false =
      ground (arith, table, page) in
    let m1 = (k.cow_break cr3 va m).1 in
    let bytes = stored_bytes k w (phys - phys % page_4k) va value m1 page in
    let step : push_user_u64 k cr3 va value m
        ≡ (true, store_u64 k (phys - phys % page_4k) va value m1) =
      rw (good, push_user_u64, own, found) refl in
    let final : (x : ℕ)
        → w.load (push_user_u64 k cr3 va value m).1 x ≡ (
            if leb (stack_at va phys) x && ltb x (stack_at va phys + 8)
            then value / 2 ^ (8 * (x - stack_at va phys)) % 256
            else w.load m1 x) =
      λ x. ap (λ u. w.load u.1 x) step ∙ bytes x in
    (
      ap (λ u. u.0) step,
      digits-word value small (w.load (push_user_u64 k cr3 va value m).1) (stack_at va phys)
          (λ j lt. final (stack_at va phys + j) ∙ in_word (stack_at va phys) j value _ lt),
      final,
    )
