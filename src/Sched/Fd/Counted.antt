-- ===== src/Sched/Fd/Counted.antt =====
-- kernel/sched.c: open, close, lseek and dup2, against the invariant of the pipe table.
use vampire_os.Prelude.{
  ℕ, ◌<◌, ◌≡◌, ◌≢◌, refl, inl, inr, true, false, not, some, List, [], ◌∷◌, arith, sym, subst,
}
use vampire_os.Prelude.{if◌then◌else◌, ◌==◌, Bool-cases, Option-cases}
use vampire_os.Prelude.Int.{ℤ, index?, index?-some}
use vampire_os.Prelude.Search.{first_from, first_from-IsFirst}
use vampire_os.Sched.Types.{FdEntry, Sched, is_file, fd_at, set_fd, fd_max, task_max}
use vampire_os.Sched.Kernel.{Kernel}
use vampire_os.Sched.Pipe.{attach, drop_fd}
use vampire_os.Sched.Pipe.Refs.{IsShaped, IsCounted, held_cases}
use vampire_os.Sched.Pipe.Drop.{Keeps-IsShaped, Keeps-set_fd, drop_fd-Keeps, drop_fd-IsCounted}
use vampire_os.Sched.Pipe.Attach.{
  HoldsNone, HoldsNone-of_unused, HoldsNone-of_other, set_fd-IsCounted, attach-IsCounted,
  attach-Keeps,
}
use vampire_os.Sched.Pipe.Inherit.{used-drop_fd}
use vampire_os.Sched.Fd.{open_fd?, current_fd, fd_open, fd_lseek, fd_close, dup_at, fd_dup2}

-- The invariant that the calls keep.
pub record IsSound {M : Type 0} (s : Sched M) : Type 0 where
  pub shaped : IsShaped s
  pub counts : IsCounted s

module _ {M : Type 0} (s : Sched M) (v : IsSound s) where
  -- An entry of the current task that no pipe counts, in the place of another such.
  put-IsSound :
      (f : ℕ) (e : FdEntry)
      → f < fd_max
      → HoldsNone (current_fd s f)
      → HoldsNone e
      → IsSound (set_fd s s.current f e)
  put-IsSound f e h free new = record {
    shaped = Keeps-IsShaped (Keeps-set_fd s s.current f e) v.shaped;
    counts = set_fd-IsCounted s s.current f v.shaped v.counts v.shaped.current_in h free e new;
  }

  pub drop-IsSound :
      (i f : ℕ) → i < task_max → f < fd_max → (k : Kernel M) → IsSound (drop_fd k i f s)
  drop-IsSound i f hi hf k = record {
    shaped = Keeps-IsShaped (drop_fd-Keeps k s i f) v.shaped;
    counts = drop_fd-IsCounted k s i f v.shaped v.counts hi hf;
  }

  closed_fd :
      (f : ℕ)
      → first_from fd_max 0 (λ g. not (current_fd s g).used) ≡ some f
      → (f < fd_max) × HoldsNone (current_fd s f)
  closed_fd f h =
      let first = first_from-IsFirst fd_max 0 (λ g. not (current_fd s g).used) h in
      let u : (current_fd s f).used ≡ false = ground (arith, first.passes) in
      (omega (arith, first.below), HoldsNone-of_unused (current_fd s f) u)

  -- `sched_fd_open` keeps the invariant of the pipe table for every path.
  pub fd_open-IsSound : (path : List ℕ) → IsSound (fd_open path s).1
  unfolding fd_open
  fd_open-IsSound [] = v
  fd_open-IsSound (c ∷ path) = elim (Bool-cases (s.task_count == 0)) [
    | inl z ↦ rw z v
    | inr nz ↦ elim (Option-cases (first_from fd_max 0 (λ g. not (current_fd s g).used))) [
      | inl full ↦ rw (nz, full) v
      | inr (f, found) ↦
          let c' = closed_fd f found in
          rw (nz, found) (put-IsSound f _ c'.0 c'.1 (HoldsNone-of_other _ refl))
    ]
  ]

  open_fd?-some :
      (fd : ℤ) (f : ℕ) → open_fd? fd s ≡ some f → (f < fd_max) × ((current_fd s f).used ≡ true)
  unfolding open_fd?
  open_fd?-some fd f h = ground arith

  pub fd_lseek-IsSound : (fd : ℤ) (off : ℕ) → IsSound (fd_lseek fd off s).1
  unfolding fd_lseek
  fd_lseek-IsSound fd off = elim (Option-cases (open_fd? fd s)) [
    | inl shut ↦ rw (shut, fd_lseek) v
    | inr (f, found) ↦ elim (Bool-cases (is_file (current_fd s f).kind)) [
      | inl isfile ↦
          rw (found, fd_lseek, isfile)
            (put-IsSound f _ (open_fd?-some fd f found).0
              (λ b p. ground (arith, held_cases (current_fd s f) b p))
              (λ b p. ground (arith, held_cases (record (current_fd s f) { offset = off }) b p)))
      | inr other ↦ rw (found, fd_lseek, other) v
    ]
  ]

  -- `sched_fd_close` keeps the invariant of the pipe table for every descriptor number.
  pub fd_close-IsSound : (k : Kernel M) (fd : ℤ) → IsSound (fd_close k fd s).1
  unfolding fd_close
  fd_close-IsSound k fd = elim (Option-cases (open_fd? fd s)) [
    | inl shut ↦ rw (shut, fd_close) v
    | inr (f, found) ↦
        rw (found, fd_close)
          (drop-IsSound s.current f v.shaped.current_in (open_fd?-some fd f found).0 k)
  ]

  pub attach-IsSound :
      (f : ℕ) (e : FdEntry)
      → f < fd_max
      → HoldsNone (current_fd s f)
      → e.used ≡ true
      → IsSound (attach s.current f e s).1
  attach-IsSound f e h free u = record {
    shaped = Keeps-IsShaped (attach-Keeps s.current f e s) v.shaped;
    counts = attach-IsCounted s s.current f v.shaped v.counts v.shaped.current_in h free e u;
  }

module _ {M : Type 0} (k : Kernel M) (s : Sched M) (v : IsSound s) where
  -- `dup_at` after its guards: the old target closed if it was open, then the copy.
  dup_copy :
      (o n : ℕ)
      → o < fd_max
      → n < fd_max
      → o ≢ n
      → (current_fd s o).used ≡ true
      → let closed = (if (current_fd s n).used then drop_fd k s.current n s else s) in
        IsSound (attach s.current n (fd_at closed s.current o) closed).1
  dup_copy o n ho hn ne u = elim (Bool-cases (current_fd s n).used) [
    | inl taken ↦
        let s' = drop_fd k s.current n s in
        let v' = drop-IsSound s v s.current n v.shaped.current_in hn k in
        let same : s'.current ≡ s.current = (drop_fd-Keeps k s s.current n).slot in
        let old = used-drop_fd k s.current v.shaped.current_in s n o v.shaped hn in
        let new = used-drop_fd k s.current v.shaped.current_in s n n v.shaped hn in
        rw taken (
          subst (λ c. IsSound (attach c n (fd_at s' s.current o) s').1) same
            (attach-IsSound s' v' n (fd_at s' s.current o) hn
              (HoldsNone-of_unused (current_fd s' n)
                (subst (λ c. (fd_at s' c n).used ≡ false) (sym same) (ground (arith, new))))
              (ground (arith, old))))
    | inr free ↦
        rw free
          (attach-IsSound s v n (current_fd s o) hn (HoldsNone-of_unused (current_fd s n) free) u)
  ]

  dup_at-IsSound : (o n : ℕ) → o < fd_max → n < fd_max → IsSound (dup_at k o n s).1
  unfolding dup_at
  dup_at-IsSound o n ho hn = elim (Bool-cases (current_fd s o).used) [
    | inl u ↦ elim (Bool-cases (o == n)) [
      | inl same ↦ rw (u, same) v
      | inr ne ↦ rw (u, ne) (dup_copy o n ho hn (ground arith) u)
    ]
    | inr shut ↦ rw shut v
  ]

  -- `sched_fd_dup2` keeps the invariant of the pipe table for every two descriptor numbers, the new
  -- one open or not.
  pub fd_dup2-IsSound : (oldfd newfd : ℤ) → IsSound (fd_dup2 k oldfd newfd s).1
  unfolding fd_dup2
  fd_dup2-IsSound oldfd newfd = elim (Bool-cases (s.task_count == 0)) [
    | inl z ↦ rw z v
    | inr nz ↦ elim (Option-cases (index? oldfd fd_max)) [
      | inl bad ↦ rw (nz, bad) v
      | inr (o, ok_o) ↦ elim (Option-cases (index? newfd fd_max)) [
        | inl bad ↦ rw (nz, ok_o, bad) v
        | inr (n, ok_n) ↦
            rw (nz, ok_o, ok_n)
              (dup_at-IsSound o n (index?-some oldfd fd_max o ok_o)
                (index?-some newfd fd_max n ok_n))
      ]
    ]
  ]
