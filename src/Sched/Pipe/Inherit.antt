-- ===== src/Sched/Pipe/Inherit.antt =====
-- kernel/sched.c: the loops `inherit_fds` and `clear_fds`, against the invariant of the pipe table.
use vampire_os.Prelude.{
  ℕ, ◌+◌, ◌<◌, ◌≤◌, ◌≡◌, refl, inl, inr, false, arith, ap, sym, subst, List, ◌≢◌, ◌∙◌,
}
use vampire_os.Prelude.{length, get_or, if◌then◌else◌, ◌==◌, Bool-cases, Option-cases}
use vampire_os.Prelude.Loop.{for_each_inv_at}
use vampire_os.Sched.Types.{
  FdEntry, Task, Sched, is_pipe_r, is_pipe_end, no_fd, no_task, task_at, fd_at, set_fd, fd_max,
  task_max,
}
use vampire_os.Sched.Kernel.{Kernel}
use vampire_os.Sched.Pipe.{
  live_pipe?, attach, unbound, inherit_fd, inherit_fds, drop_fd, clear_fds, release_end,
}
use vampire_os.Sched.Pipe.Refs.{IsShaped, IsCounted}
use vampire_os.Sched.Pipe.Drop.{
  Keeps, Keeps-IsShaped, Keeps-set_fd, drop_fd-Keeps, drop_fd-IsCounted, Keeps-release_end,
  fds-release_end,
}
use vampire_os.Sched.Pipe.Attach.{
  HoldsNone, HoldsNone-of_unused, fd_at-set_fd, fd_at-set_fd_ne, attach-Keeps, attach-IsCounted,
  set_fd-IsCounted, tasks-add_ref,
}

module _ {M : Type 0} where
  -- Only the entry itself changes, in its task.
  pub fd_at-attach_ne :
      (i fd f : ℕ) (e : FdEntry) (s : Sched M)
      → i < length s.tasks
      → fd ≢ f
      → fd_at (attach i fd e s).1 i f ≡ fd_at s i f
  unfolding attach
  fd_at-attach_ne i fd f e s hi ne =
      let copied = set_fd s i fd e in
      let one = fd_at-set_fd_ne s i fd f e hi ne in
      elim (Bool-cases (is_pipe_end e.kind)) [
        | inl isend ↦ elim (Option-cases (live_pipe? s e.pipe)) [
          | inl gone ↦
              rw (isend, gone)
                (fd_at-set_fd_ne copied i fd f (unbound e)
                    (omega (arith, (Keeps-set_fd s i fd e).slots)) ne
                  ∙ one)
          | inr (q, live) ↦
              rw (isend, live)
                (ap (λ (ts : List Task). get_or (get_or ts i no_task).fds f no_fd)
                    (tasks-add_ref (is_pipe_r e.kind) q copied)
                  ∙ one)
        ]
        | inr other ↦ rw other one
      ]

module _ {M : Type 0} (dst src : ℕ) (hd : dst < task_max) where
  inherit_fd-Keeps : (fd : ℕ) (s : Sched M) → Keeps s (inherit_fd dst src fd s)
  unfolding inherit_fd
  inherit_fd-Keeps fd s = elim (Bool-cases (fd_at s src fd).used) [
    | inl u ↦ rw u (attach-Keeps dst fd (fd_at s src fd) s)
    | inr n ↦ rw n (Keeps-set_fd s dst fd (fd_at s src fd))
  ]

  -- What `inherit_fds` keeps at each round: the entries that it has still to fill hold nothing.
  abbrev Filling : ℕ → Sched M → Type 0
  Filling j s =
      IsShaped s × IsCounted s × ((f : ℕ) → j ≤ f → f < fd_max → HoldsNone (fd_at s dst f))

  inherit_fd-IsCounted :
      (fd : ℕ) (s : Sched M)
      → fd < fd_max
      → IsShaped s
      → IsCounted s
      → HoldsNone (fd_at s dst fd)
      → IsCounted (inherit_fd dst src fd s)
  unfolding inherit_fd
  inherit_fd-IsCounted fd s hf w c free = elim (Bool-cases (fd_at s src fd).used) [
    | inl u ↦ rw u (attach-IsCounted s dst fd w c hd hf free (fd_at s src fd) u)
    | inr n ↦ rw n (
        set_fd-IsCounted s dst fd w c hd hf free (fd_at s src fd)
          (HoldsNone-of_unused (fd_at s src fd) n))
  ]

  fd_at-inherit_fd_ne :
      (fd f : ℕ) (s : Sched M)
      → IsShaped s
      → fd ≢ f
      → fd_at (inherit_fd dst src fd s) dst f ≡ fd_at s dst f
  unfolding inherit_fd
  fd_at-inherit_fd_ne fd f s w ne = elim (Bool-cases (fd_at s src fd).used) [
    | inl u ↦ rw u (fd_at-attach_ne dst fd f (fd_at s src fd) s (omega (arith, w.slots)) ne)
    | inr n ↦ rw n (fd_at-set_fd_ne s dst fd f (fd_at s src fd) (omega (arith, w.slots)) ne)
  ]

  inherit_fd-Filling :
      (fd : ℕ) (s : Sched M)
      → fd < fd_max
      → Filling fd s
      → Filling (fd + 1) (inherit_fd dst src fd s)
  inherit_fd-Filling fd s hf (w, c, free) = (
    Keeps-IsShaped (inherit_fd-Keeps fd s) w,
    inherit_fd-IsCounted fd s hf w c (free fd (omega arith) hf),
    λ f l h.
        subst HoldsNone (sym (fd_at-inherit_fd_ne fd f s w (omega arith))) (free f (omega arith) h),
  )

  -- `inherit_fds` into a task whose descriptors are closed takes a reference for each end it copies.
  pub inherit_fds-IsCounted :
      (s : Sched M)
      → IsShaped s
      → IsCounted s
      → ((f : ℕ) → f < fd_max → (fd_at s dst f).used ≡ false)
      → IsShaped (inherit_fds dst src s) × IsCounted (inherit_fds dst src s)
  unfolding inherit_fds
  inherit_fds-IsCounted s w c closed =
      let r =
        for_each_inv_at Filling fd_max (inherit_fd dst src) inherit_fd-Filling fd_max 0 s refl
          (w, c, λ f l h. HoldsNone-of_unused (fd_at s dst f) (closed f h)) in
      (r.0, r.1)

module _ {M : Type 0} (k : Kernel M) (i : ℕ) (hi : i < task_max) where
  -- `fd_at-set_fd_ne` with the inequality as a test.
  fd_at-set_fd_split :
      (s : Sched M) (fd f : ℕ)
      → i < length s.tasks
      → fd_at (set_fd s i fd no_fd) i f
        ≡ (if fd == f then fd_at (set_fd s i fd no_fd) i f else fd_at s i f)
  fd_at-set_fd_split s fd f h = ground (arith, fd_at-set_fd_ne s i fd f no_fd h)

  pub used-drop_fd :
      (s : Sched M) (fd f : ℕ)
      → IsShaped s
      → fd < fd_max
      → (fd_at (drop_fd k i fd s) i f).used ≡ (if fd == f then false else (fd_at s i f).used)
  unfolding drop_fd
  used-drop_fd s fd f w hf = elim (Bool-cases (fd_at s i fd).used) [
    | inl u ↦
        let e = fd_at s i fd in
        let s' = release_end k e s in
        let kept = Keeps-release_end k e s in
        let hi' : i < length s'.tasks = omega (arith, kept.slots, w.slots) in
        let hf' : fd < length (task_at s' i).fds = omega (arith, kept.entries i, w.entries i hi) in
        rw u (
          ground (
            arith,
            ap (λ (x : FdEntry). x.used) (fd_at-set_fd s' i fd no_fd hi' hf'),
            ap (λ (x : FdEntry). x.used) (fd_at-set_fd_split s' fd f hi'),
            ap (λ (es : List FdEntry). (get_or es f no_fd).used) (fds-release_end k e s i),
          ))
    | inr n ↦ rw n (ground arith)
  ]

  abbrev Closing : ℕ → Sched M → Type 0
  Closing j s = IsShaped s × IsCounted s × ((f : ℕ) → f < j → (fd_at s i f).used ≡ false)

  drop_fd-Closing :
      (fd : ℕ) (s : Sched M) → fd < fd_max → Closing fd s → Closing (fd + 1) (drop_fd k i fd s)
  drop_fd-Closing fd s hf (w, c, closed) = (
    Keeps-IsShaped (drop_fd-Keeps k s i fd) w,
    drop_fd-IsCounted k s i fd w c hi hf,
    λ f l. ground (arith, used-drop_fd s fd f w hf, closed f),
  )

  -- `clear_fds` closes every descriptor of the task and gives back each reference that it held.
  pub clear_fds-IsCounted :
      (s : Sched M)
      → IsShaped s
      → IsCounted s
      → IsShaped (clear_fds k i s)
        × IsCounted (clear_fds k i s)
        × ((f : ℕ) → f < fd_max → (fd_at (clear_fds k i s) i f).used ≡ false)
  unfolding clear_fds
  clear_fds-IsCounted s w c =
      for_each_inv_at Closing fd_max (drop_fd k i) drop_fd-Closing fd_max 0 s refl
        (w, c, λ f l. absurd (omega arith))
