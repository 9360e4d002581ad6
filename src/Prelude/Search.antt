-- ===== src/Prelude/Search.antt =====
-- `for (i = start; i < start + n; i++) if (p(i)) …; break`: the first index that passes a test.
use Prim.Native.Nat.{ℕ, zero, suc, ◌+◌, ◌≤◌, ◌<◌}
use mathlib.Core.Path.{◌≡◌, sym}
use mathlib.Core.Logic.{inl, inr}
use mathlib.Core.Option.{Option, none, some}
use mathlib.Core.Bool.{Bool, true, false}
use native.Mathlib.Decide.{ℕ_discrete}
use native.Mathlib.Omega.{arith}
use vampire_os.Prelude.Tests.{Bool-cases}

pub none-ne-some : {i : ℕ} → ¬ (none ≡ some i)
none-ne-some h = cc

unfoldable pub first_from : (n start : ℕ) → (ℕ → Bool) → Option ℕ
first_from zero start p = none
first_from (suc n) start p = elim (p start) [
  | true ↦ some start
  | false ↦ first_from n (start + 1) p
]

-- The result passes, lies in the range, and nothing before it passes.
pub record IsFirst (start stop : ℕ) (p : ℕ → Bool) (i : ℕ) : Type 0 where
  pub from : start ≤ i
  pub below : i < stop
  pub passes : p i ≡ true
  pub before : (j : ℕ) → start ≤ j → j < i → p j ≡ false

pub first_from-IsFirst :
    (n start : ℕ) (p : ℕ → Bool) {i : ℕ}
    → first_from n start p ≡ some i
    → IsFirst start (start + n) p i
unfolding first_from
first_from-IsFirst zero start p h = absurd (none-ne-some h)
first_from-IsFirst (suc n) start p {i} h = elim (Bool-cases (p start)) [
  | inl hit ↦
      let g : some start ≡ some i = rw (hit, first_from) at h in
      let e : start ≡ i = cc in
      record {
        from = omega arith;
        below = omega arith;
        passes = rw (← e) hit;
        before = λ j a b. absurd (omega arith);
      }
  | inr miss ↦
      let r = first_from-IsFirst n (start + 1) p (rw (miss, first_from) at h) in
      record {
        from = omega (arith, r.from);
        below = omega (arith, r.below);
        passes = r.passes;
        before = λ j a b. elim (ℕ_discrete start j) [
          | yes e ↦ rw (← e) miss
          | no ne ↦ r.before j (omega arith) b
        ];
      }
]

pub first_from-none :
    (n start : ℕ) (p : ℕ → Bool)
    → first_from n start p ≡ none
    → (j : ℕ) → start ≤ j
    → j < start + n
    → p j ≡ false
unfolding first_from
first_from-none zero start p h j a b = absurd (omega arith)
first_from-none (suc n) start p h j a b = elim (Bool-cases (p start)) [
  | inl hit ↦ absurd (none-ne-some (sym (rw (hit, first_from) at h)))
  | inr miss ↦ elim (ℕ_discrete start j) [
    | yes e ↦ rw (← e) miss
    | no ne ↦
        first_from-none n (start + 1) p (rw (miss, first_from) at h) j (omega arith) (omega arith)
  ]
]
