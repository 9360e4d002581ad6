-- ===== src/Sched/Pipe/Rest.antt =====
-- kernel/sched.c: the parts of a task that do not depend on its descriptors, nor on whether it waits
-- for a pipe, through the writes to descriptors.
use vampire_os.Prelude.{ℕ, ◌≡◌, refl, inl, inr, Bool, ◌&&◌, arith, List, ◌∙◌}
use vampire_os.Prelude.{set, ◌==◌, Bool-cases, Option-cases, get_or-set, get_or-map_below}
use vampire_os.Prelude.Loop.{for_each_inv}
use vampire_os.Sched.Types.{
  FdEntry, Task, Sched, is_pipe_r, is_pipe_end, no_fd, no_task, task_at, pipe_at, set_pipe, fd_at,
  set_fd, fd_max,
}
use vampire_os.Sched.Kernel.{Kernel}
use vampire_os.Sched.Pipe.{
  ref_down, live_pipe?, add_ref, attach, unbound, inherit_fd, inherit_fds, free_pipe, drop_ref,
  release_end, drop_fd, clear_fds, wake_waiter, wake_pipe_waiters,
}

module _ {M : Type 0} {A : Type 0} (part : Task → A)
    (at_fds : (t : Task) (es : List FdEntry) → part (record t { fds = es }) ≡ part t)
    (at_wake : (p : ℕ) (t : Task) → part (wake_waiter p t) ≡ part t) where
  part-set_fd :
      (s : Sched M) (i fd : ℕ) (e : FdEntry) (j : ℕ)
      → part (task_at (set_fd s i fd e) j) ≡ part (task_at s j)
  part-set_fd s i fd e j =
      let es = set (task_at s i).fds fd e in
      let t : Task = record (task_at s i) { fds = es } in
      ground (arith, get_or-set s.tasks i t j no_task, at_fds (task_at s i) es)

  part-wake_pipe_waiters :
      (s : Sched M) (p j : ℕ) → part (task_at (wake_pipe_waiters p s) j) ≡ part (task_at s j)
  unfolding wake_pipe_waiters
  part-wake_pipe_waiters s p j = ground (
    arith,
    get_or-map_below s.task_count (wake_waiter p) s.tasks j no_task,
    at_wake p (task_at s j),
  )

  part-attach :
      (i fd : ℕ) (e : FdEntry) (s : Sched M) (j : ℕ)
      → part (task_at (attach i fd e s).1 j) ≡ part (task_at s j)
  unfolding attach add_ref
  part-attach i fd e s j =
      let copied = set_fd s i fd e in
      elim (Bool-cases (is_pipe_end e.kind)) [
        | inl isend ↦ elim (Option-cases (live_pipe? s e.pipe)) [
          | inl gone ↦
              rw (isend, gone) (part-set_fd copied i fd (unbound e) j ∙ part-set_fd s i fd e j)
          | inr (q, live) ↦ rw (isend, live) (part-set_fd s i fd e j)
        ]
        | inr other ↦ rw other (part-set_fd s i fd e j)
      ]

  part-inherit_fd :
      (dst src fd : ℕ) (s : Sched M) (j : ℕ)
      → part (task_at (inherit_fd dst src fd s) j) ≡ part (task_at s j)
  unfolding inherit_fd
  part-inherit_fd dst src fd s j = elim (Bool-cases (fd_at s src fd).used) [
    | inl u ↦ rw u (part-attach dst fd (fd_at s src fd) s j)
    | inr n ↦ rw n (part-set_fd s dst fd (fd_at s src fd) j)
  ]

  pub part-inherit_fds :
      (dst src : ℕ) (s : Sched M) (j : ℕ)
      → part (task_at (inherit_fds dst src s) j) ≡ part (task_at s j)
  unfolding inherit_fds
  part-inherit_fds dst src s j =
      for_each_inv (λ (t : Sched M). part (task_at t j) ≡ part (task_at s j)) fd_max
        (inherit_fd dst src) (λ fd t h kept. part-inherit_fd dst src fd t j ∙ kept) fd_max 0 s
        (omega arith) refl

  module _ (k : Kernel M) where
    part-drop_ref :
        (r : Bool) (q : ℕ) (s : Sched M) (j : ℕ)
        → part (task_at (drop_ref k r q s) j) ≡ part (task_at s j)
    unfolding drop_ref free_pipe
    part-drop_ref r q s j =
        let v = ref_down r (pipe_at s q) in
        let woken = part-wake_pipe_waiters (set_pipe s q v) q j in
        elim (Bool-cases ((v.rrefs == 0) && (v.wrefs == 0))) [
          | inl last ↦ rw last woken
          | inr more ↦ rw more woken
        ]

    part-release_end :
        (e : FdEntry) (s : Sched M) (j : ℕ)
        → part (task_at (release_end k e s) j) ≡ part (task_at s j)
    unfolding release_end
    part-release_end e s j = elim (Bool-cases (is_pipe_end e.kind)) [
      | inl isend ↦ elim (Option-cases (live_pipe? s e.pipe)) [
        | inl gone ↦ rw (isend, gone) refl
        | inr (q, live) ↦ rw (isend, live) (part-drop_ref (is_pipe_r e.kind) q s j)
      ]
      | inr other ↦ rw other refl
    ]

    pub part-drop_fd :
        (i fd : ℕ) (s : Sched M) (j : ℕ) → part (task_at (drop_fd k i fd s) j) ≡ part (task_at s j)
    unfolding drop_fd
    part-drop_fd i fd s j =
        let e = fd_at s i fd in
        elim (Bool-cases e.used) [
          | inl u ↦ rw u (part-set_fd (release_end k e s) i fd no_fd j ∙ part-release_end e s j)
          | inr n ↦ rw n refl
        ]

    pub part-clear_fds :
        (i : ℕ) (s : Sched M) (j : ℕ) → part (task_at (clear_fds k i s) j) ≡ part (task_at s j)
    unfolding clear_fds
    part-clear_fds i s j =
        for_each_inv (λ (t : Sched M). part (task_at t j) ≡ part (task_at s j)) fd_max (drop_fd k i)
          (λ fd t h kept. part-drop_fd i fd t j ∙ kept) fd_max 0 s (omega arith) refl
