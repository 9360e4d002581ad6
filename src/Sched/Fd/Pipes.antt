-- ===== src/Sched/Fd/Pipes.antt =====
-- kernel/sched.c: `sched_pipe`, `sched_pipe_new`, `sched_pipe_unused` and `sched_fd_bind_file`,
-- against the invariant of the pipe table.
use vampire_os.Prelude.{
  ℕ, ◌+◌, ◌-◌, ◌<◌, ◌≤◌, ◌≡◌, refl, inl, inr, Bool, true, false, not, ◌&&◌, ◌||◌, Option, none,
  some, List, arith, ap₂, ◌∙◌,
}
use vampire_os.Prelude.{length, get_or, ◌==◌, Bool-cases, Option-cases}
use vampire_os.Prelude.Int.{ℤ, index?, index?-some}
use vampire_os.Prelude.Search.{first_from, first_from-IsFirst}
use vampire_os.Sched.Types.{
  Task, Sched, is_dead, no_fd, no_pipe, no_task, task_at, pipe_at, fd_at, pipe_max, fd_max,
  task_max,
}
use vampire_os.Sched.Kernel.{Kernel}
use vampire_os.Sched.Pipe.{live_pipe?, free_pipe, alloc_pipe, drop_fd}
use vampire_os.Sched.Pipe.Refs.{refs, live_pipe?-some}
use vampire_os.Sched.Pipe.Drop.{Keeps-IsShaped, Keeps-set_fd}
use vampire_os.Sched.Pipe.Attach.{
  HoldsNone, HoldsNone-of_unused, HoldsNone-of_other, set_fd-IsCounted,
}
use vampire_os.Sched.Pipe.Inherit.{used-drop_fd}
use vampire_os.Sched.Fd.{
  current_fd, free_pair, make_pipe, pipe_new, pipe_unused, vacate, fd_bind_file,
}
use vampire_os.Sched.Fd.Counted.{IsSound, drop-IsSound}
use vampire_os.Sched.Fd.Frame.{remachine-IsSound}
use vampire_os.Sched.Fd.Alloc.{replace-IsSound, open_ends-IsSound, alloc_pipe-Allocated}

none-ne-pair : {p : ℕ × ℕ} → ¬ (none ≡ some p)
none-ne-pair h = cc

module _ {M : Type 0} (s : Sched M) where
  free_at :
      (n i f : ℕ)
      → first_from n i (λ g. not (current_fd s g).used) ≡ some f
      → (i ≤ f) × (f < i + n) × ((current_fd s f).used ≡ false)
  free_at n i f h =
      let first = first_from-IsFirst n i (λ g. not (current_fd s g).used) h in
      (first.from, first.below, ground (arith, first.passes))

  free_pair-some :
      (r w : ℕ)
      → free_pair s ≡ some (r, w)
      → (r < w) × (w < fd_max) × ((current_fd s r).used ≡ false) × ((current_fd s w).used ≡ false)
  unfolding free_pair
  free_pair-some r w h =
      elim (Option-cases (first_from fd_max 0 (λ f. not (current_fd s f).used))) [
        | inl full ↦ absurd (none-ne-pair (rw (full, free_pair) at h))
        | inr (a, one) ↦
            elim (Option-cases
              (first_from (fd_max - (a + 1)) (a + 1) (λ f. not (current_fd s f).used))) [
                | inl full ↦ absurd (none-ne-pair (rw (one, free_pair, full) at h))
                | inr (b, two) ↦
                    let same : ◌≡◌ {A = Option (ℕ × ℕ)} (some (a, b)) (some (r, w)) =
                      rw (one, free_pair, two) at h in
                    ground (arith, free_at fd_max 0 a one, free_at (fd_max - (a + 1)) (a + 1) b two)
              ]
      ]

module _ {M : Type 0} (k : Kernel M) (s : Sched M) (v : IsSound s) where
  pub pipe_new-IsSound : IsSound (pipe_new k s).1
  unfolding pipe_new
  pipe_new-IsSound = (alloc_pipe-Allocated k s v).sound

  -- `sched_pipe` keeps the invariant of the pipe table, also where descriptors, pipes or memory run
  -- out.
  pub make_pipe-IsSound : IsSound (make_pipe k s).1
  unfolding make_pipe
  make_pipe-IsSound = elim (Bool-cases (s.task_count == 0)) [
    | inl z ↦ rw z v
    | inr nz ↦ elim (Option-cases (free_pair s)) [
      | inl full ↦ rw (nz, full) v
      | inr ((r, w), pair) ↦
          let a = alloc_pipe-Allocated k s v in
          elim (Option-cases (index? (alloc_pipe k s).0 pipe_max)) [
            | inl failed ↦ rw (nz, pair, failed) a.sound
            | inr (q, got) ↦
                let f = a.fresh q got in
                let p = free_pair-some s r w pair in
                let same : (x : ℕ)
                    → (current_fd (alloc_pipe k s).1 x).used ≡ (current_fd s x).used =
                  λ x.
                    ap₂
                      (λ (ts : List Task) (c : ℕ). (get_or (get_or ts c no_task).fds x no_fd).used)
                      a.tasks a.slot in
                rw (nz, pair, got)
                  (open_ends-IsSound (alloc_pipe k s).1 q r w a.sound f.0 f.2
                    (elim [ true ↦ f.3 | false ↦ f.4 ]) (omega (arith, p.0, p.1)) p.1
                    (omega (arith, p.0)) (same r ∙ p.2) (same w ∙ p.3))
          ]
    ]
  ]

  free_pipe-IsSound :
      (p : ℕ) → p < pipe_max → ((b : Bool) → refs b (pipe_at s p) ≡ 0) → IsSound (free_pipe k p s)
  unfolding free_pipe
  free_pipe-IsSound p h idle =
      replace-IsSound (record s { machine = _ }) p no_pipe h idle
        (elim [ true ↦ refl | false ↦ refl ]) (remachine-IsSound s _ v)

  -- `sched_pipe_unused` keeps the invariant of the pipe table for every pipe number.
  pub pipe_unused-IsSound : (i : ℤ) → IsSound (pipe_unused k i s)
  unfolding pipe_unused
  pipe_unused-IsSound i = elim (Option-cases (live_pipe? s i)) [
    | inl gone ↦ rw (gone, pipe_unused) v
    | inr (p, live) ↦ elim (Bool-cases (((pipe_at s p).rrefs == 0) && ((pipe_at s p).wrefs == 0))) [
      | inl idle ↦
          rw (live, pipe_unused, idle)
            (free_pipe-IsSound p (live_pipe?-some s i p live).1
              (elim [ true ↦ ground arith | false ↦ ground arith ]))
      | inr busy ↦ rw (live, pipe_unused, busy) v
    ]
  ]

  pub vacate-IsSound :
      (i f : ℕ)
      → i < task_max
      → f < fd_max
      → IsSound (vacate k i f s) × HoldsNone (fd_at (vacate k i f s) i f)
  unfolding vacate
  vacate-IsSound i f hi hf = elim (Bool-cases (fd_at s i f).used) [
    | inl taken ↦ rw taken (
      drop-IsSound s v i f hi hf k,
      HoldsNone-of_unused (fd_at (drop_fd k i f s) i f)
          (ground (arith, used-drop_fd k i hi s f f v.shaped hf)),
    )
    | inr free ↦ rw free (v, HoldsNone-of_unused (fd_at s i f) free)
  ]

  -- `sched_fd_bind_file` keeps the invariant of the pipe table for every descriptor number, path
  -- and offset.
  pub fd_bind_file-IsSound :
      (fd : ℤ) (path : List ℕ) (off : ℕ) → IsSound (fd_bind_file k fd path off s).1
  unfolding fd_bind_file
  fd_bind_file-IsSound fd path off = elim (Option-cases (index? s.last_added s.task_count)) [
    | inl bad ↦ rw (bad, fd_bind_file) v
    | inr (i, ok_i) ↦ elim (Option-cases (index? fd fd_max)) [
      | inl bad ↦ rw (ok_i, fd_bind_file, bad) v
      | inr (f, ok_f) ↦ elim (Bool-cases ((length path == 0) || is_dead (task_at s i).state)) [
        | inl refused ↦ rw (ok_i, fd_bind_file, ok_f, refused) v
        | inr fine ↦
            let hi : i < task_max =
              omega (arith, index?-some s.last_added s.task_count i ok_i, v.shaped.count_in) in
            let hf = index?-some fd fd_max f ok_f in
            let (v', free) = vacate-IsSound i f hi hf in
            rw (ok_i, fd_bind_file, ok_f, fine)
              (record {
                shaped = Keeps-IsShaped (Keeps-set_fd (vacate k i f s) i f _) v'.shaped;
                counts =
                    set_fd-IsCounted (vacate k i f s) i f v'.shaped v'.counts hi hf free _
                      (HoldsNone-of_other _ refl);
              })
      ]
    ]
  ]
