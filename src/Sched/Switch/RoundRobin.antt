-- ===== src/Sched/Switch/RoundRobin.antt =====
-- kernel/sched.c: the order in which `pick_next` goes round the slots.
use vampire_os.Prelude.{
  ℕ, ◌+◌, ◌-◌, ◌%◌, ◌<◌, ◌≤◌, ◌≡◌, ◌⊎◌, inl, inr, Bool, true, false, Option, none, some, arith, ap,
  sym, ◌∙◌,
}
use vampire_os.Prelude.{ltb, if◌then◌else◌, Option-cases, Bool-cases}
use vampire_os.Prelude.Search.{
  IsFirst, first_from, first_from-IsFirst, first_from-none, none-ne-some,
}
use native.Mathlib.Nat.{mod-eq_of_lt, mod-eq-sub-mod, mod-lt}
use vampire_os.Sched.Types.{Sched, task_at, is_ready}
use vampire_os.Sched.Switch.{pick_next}

mod_once : (a n : ℕ) → a < n + n → a % n ≡ (if ltb a n then a else a - n)
mod_once a n h = elim (Bool-cases (ltb a n)) [
  | inl low ↦ rw low (mod-eq_of_lt (ground arith))
  | inr high ↦ rw high (
      mod-eq-sub-mod {n = a} {m = n} (ground arith)
      ∙ mod-eq_of_lt {n = a - n} {m = n} (ground arith))
]

-- How many slots lie between `from` and `to`, going up and round.
unfoldable pub gap : (n from to : ℕ) → ℕ
gap n from to = if ltb from to then to - from - 1 else to + n - from - 1

nearer :
    (n from i next to : ℕ)
    → from < n
    → to < n
    → 1 ≤ i
    → i ≤ gap n from to + 1
    → next ≡ (from + i) % n
    → (next ≡ to) ⊎ (gap n next to < gap n from to)
unfolding gap
nearer n from i next to hf ht lo hi e = ground (arith, mod_once (from + i) n)

module _ {M : Type 0} (s : Sched M) (from : ℕ) where
  abbrev ready_at : ℕ → Bool
  ready_at i = is_ready (task_at s ((from + i) % s.task_count)).state

  picked :
      (j : ℕ)
      → pick_next from s ≡ some j
      → (i : ℕ) × (j ≡ (from + i) % s.task_count) × IsFirst 1 (1 + s.task_count) ready_at i
  unfolding pick_next
  picked j h = elim (Option-cases (first_from s.task_count 1 ready_at)) [
    | inl nobody ↦ absurd (none-ne-some (rw (nobody, pick_next) at h))
    | inr (i, found) ↦
        let e : ◌≡◌ {A = Option ℕ} (some ((from + i) % s.task_count)) (some j) =
          rw (found, pick_next) at h in
        let e' : j ≡ (from + i) % s.task_count = cc in
        (i, e', first_from-IsFirst s.task_count 1 ready_at found)
  ]

  pub pick_next-ready :
      (j : ℕ)
      → pick_next from s ≡ some j
      → (j < s.task_count) × (is_ready (task_at s j).state ≡ true)
  pick_next-ready j h =
      let (i, e, first) = picked j h in (rw e (mod-lt (from + i) (omega arith)), rw e first.passes)

module _ {M : Type 0} (s : Sched M) (from : ℕ) (inside : from < s.task_count) where
  -- The index at which the loop reaches a slot.
  reaches :
      (to : ℕ) → to < s.task_count → (from + (gap s.task_count from to + 1)) % s.task_count ≡ to
  unfolding gap
  reaches to h = ground (arith, mod_once (from + (gap s.task_count from to + 1)) s.task_count)

  -- From a slot in use, where `pick_next` finds no task, no slot in use is ready.
  pub pick_next-none :
      pick_next from s ≡ none → (to : ℕ) → to < s.task_count → is_ready (task_at s to).state ≡ false
  unfolding pick_next gap
  pick_next-none h to l = elim (Option-cases (first_from s.task_count 1 (ready_at s from))) [
    | inl nobody ↦
        let d = gap s.task_count from to in
        ap (λ (j : ℕ). is_ready (task_at s j).state) (sym (reaches to l))
        ∙ first_from-none s.task_count 1 (ready_at s from) nobody (d + 1) (omega arith)
            (ground arith)
    | inr (i, found) ↦ absurd (none-ne-some (sym (rw (found, pick_next) at h)))
  ]

  -- From a slot in use, where a given slot in use is ready, `pick_next` picks a task, and that is
  -- the given slot or one from which the given slot is strictly nearer round the table.
  pub pick_next-nearer :
      (to : ℕ)
      → to < s.task_count
      → is_ready (task_at s to).state ≡ true
      → (next : ℕ) × (pick_next from s ≡ some next)
        × ((next ≡ to) ⊎ (gap s.task_count next to < gap s.task_count from to))
  pick_next-nearer to h r = elim (Option-cases (pick_next from s)) [
    | inl nobody ↦ absurd (ground (arith, r, pick_next-none nobody to h))
    | inr (next, found) ↦
        let (i, e, first) = picked s from next found in
        let d = gap s.task_count from to in
        let hit : (ready_at s from) (d + 1) ≡ true =
          ap (λ (j : ℕ). is_ready (task_at s j).state) (reaches to h) ∙ r in
        let le : i ≤ d + 1 = ground (arith, first.before (d + 1), first.from, hit) in
        (next, found, nearer s.task_count from i next to inside h first.from le e)
  ]
