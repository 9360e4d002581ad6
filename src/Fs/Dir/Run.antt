-- ===== src/Fs/Dir/Run.antt =====
-- kernel/fs.c: the run of free entries that dir_find_run finds.
use native.Mathlib.Decide.{ℕ_discrete}
use vampire_os.Prelude.{
  ℕ, zero, suc, ◌+◌, ◌<◌, ◌≤◌, ◌≡◌, ◌≢◌, inl, inr, refl, List, some, true, arith,
}
use vampire_os.Prelude.{leb, ◌==◌, if◌then◌else◌, Bool-cases}
use vampire_os.Fs.Dir.{dir_ents, free_at, run_from, dir_find_run}

-- `need` entries from `at` on, all of them free, and below `stop`.
pub record IsRun (need stop : ℕ) (dir : List ℕ) (start : ℕ) : Type 0 where
  pub below : start + need ≤ stop
  pub all_free : (j : ℕ) → start ≤ j → j < start + need → free_at dir j ≡ true

begins : (run start i : ℕ) → (run ≢ 0 → start + run ≡ i) → (if run == 0 then i else start) + run ≡ i
begins run start i here = ground (arith, here)

run_from-IsRun :
    (left i need run start stop : ℕ) (dir : List ℕ) (found : ℕ)
    → i + left ≡ stop
    → run < need
    → (run ≢ 0 → start + run ≡ i)
    → ((j : ℕ) → i ≤ j + run → j < i → free_at dir j ≡ true)
    → run_from left i need run start dir ≡ some found
    → IsRun need stop dir found
unfolding run_from
run_from-IsRun zero i need run start stop dir found e lt here seen h = absurd (ground (arith, h))
run_from-IsRun (suc left) i need run start stop dir found e lt here seen h =
    elim (Bool-cases (free_at dir i)) [
      | inr used ↦
          run_from-IsRun left (i + 1) need 0 start stop dir found (omega (arith, e))
            (omega (arith, lt)) (λ ne. absurd (ne refl)) (λ j p q. absurd (omega arith))
            (rw (used, run_from) at h)
      | inl free_ ↦
          let b : ℕ = if run == 0 then i else start in
          let be : b + run ≡ i = begins run start i here in
          let seen' : (j : ℕ) → i + 1 ≤ j + (run + 1) → j < i + 1 → free_at dir j ≡ true = λ j p q.
            elim (ℕ_discrete j i) [
              | yes same ↦ rw (same) free_
              | no ne ↦ seen j (omega arith) (omega arith)
            ] in
          elim (Bool-cases (leb need (run + 1))) [
            | inl enough ↦
                let k : some b ≡ some found = rw (free_, enough, run_from) at h in
                let is_b : b ≡ found = ground (arith, k) in
                rw (← is_b) (record {
                  below = ground (arith, enough, be, e);
                  all_free =
                      λ j p q. seen' j (ground (arith, be, p)) (ground (arith, enough, be, lt, q));
                })
            | inr more ↦
                run_from-IsRun left (i + 1) need (run + 1) b stop dir found (omega (arith, e))
                  (ground (arith, more)) (λ ne. omega (arith, be)) seen'
                  (rw (free_, more, run_from) at h)
          ]
    ]

-- The entries that `dir_find_run` returns are as many as asked for, lie within the directory's
-- entries, and are all free.
pub dir_find_run-IsRun :
    (need dir_bytes : ℕ) (dir : List ℕ) (found : ℕ)
    → dir_find_run need dir_bytes dir ≡ some found
    → IsRun need (dir_ents dir_bytes) dir found
unfolding dir_find_run
dir_find_run-IsRun need dir_bytes dir found h = elim (Bool-cases (need == 0)) [
  | inl none_ ↦ absurd (ground (arith, rw (none_, dir_find_run) at h))
  | inr some_ ↦
      run_from-IsRun (dir_ents dir_bytes) 0 need 0 0 (dir_ents dir_bytes) dir found (omega arith)
        (ground (arith, some_)) (λ ne. absurd (ne refl)) (λ j p q. absurd (omega arith))
        (rw (some_, dir_find_run) at h)
]
