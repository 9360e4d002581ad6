-- ===== src/Prelude/Loop.antt =====
-- `for (i = start; i < start + n; i++) s = body(i, s);`, by the rounds that are left.
use vampire_os.Prelude.{ℕ, zero, suc, ◌+◌, ◌≤◌, ◌<◌, ◌≡◌, subst, arith}

unfoldable pub for_each {ℓ} : {S : Type ℓ} → (n start : ℕ) → (ℕ → S → S) → S → S
for_each zero start body s = s
for_each (suc n) start body s = for_each n (start + 1) body (body start s)

-- What every round keeps, the loop keeps.
pub for_each_inv {ℓ κ} :
    {S : Type ℓ} (P : S → Type κ) (stop : ℕ) (body : ℕ → S → S)
    → ((i : ℕ) (s : S) → i < stop → P s → P (body i s))
    → (n start : ℕ) (s : S) → start + n ≤ stop
    → P s
    → P (for_each n start body s)
unfolding for_each
for_each_inv P stop body keep zero start s h p = p
for_each_inv P stop body keep (suc n) start s h p =
    for_each_inv P stop body keep n (start + 1) (body start s) (omega arith)
      (keep start s (omega arith) p)

-- The same with an invariant that speaks of the index.
pub for_each_inv_at {ℓ κ} :
    {S : Type ℓ} (P : ℕ → S → Type κ) (stop : ℕ) (body : ℕ → S → S)
    → ((i : ℕ) (s : S) → i < stop → P i s → P (i + 1) (body i s))
    → (n start : ℕ) (s : S) → start + n ≡ stop
    → P start s
    → P stop (for_each n start body s)
unfolding for_each
for_each_inv_at P stop body keep zero start s h p =
    let e : start ≡ stop = omega arith in subst (λ j. P j s) e p
for_each_inv_at P stop body keep (suc n) start s h p =
    for_each_inv_at P stop body keep n (start + 1) (body start s) (omega arith)
      (keep start s (omega arith) p)
