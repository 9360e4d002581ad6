-- ===== src/Sched/Ring/Wake.antt =====
-- kernel/sched.c: who waits for a pipe after a write or a close.
use vampire_os.Prelude.{
  ℕ, ◌-◌, ◌<◌, ◌≤◌, ◌≡◌, ◌≢◌, refl, inl, inr, Bool, true, false, ◌&&◌, some, List, arith,
}
use vampire_os.Prelude.{
  length, set, take, if◌then◌else◌, ◌==◌, leb, ltb, Bool-cases, get_or-map_below, get_or-set,
}
use vampire_os.Prelude.Int.{pos, minus_one, minus_two, ◌==ℤ◌}
use vampire_os.Sched.Types.{
  Task, Sched, is_on_pipe, is_pipe_r, is_pipe_end, no_fd, no_task, task_at, pipe_at, set_pipe,
  fd_at, pipe_cap,
}
use vampire_os.Sched.Kernel.{Kernel}
use vampire_os.Sched.Pipe.{
  wake_waiter, wake_pipe_waiters, ref_down, free_pipe, drop_ref, release_end, drop_fd, live_pipe?,
}
use vampire_os.Sched.Ring.{filled, put_bytes}

-- Whether the task waits for pipe `p`.
abbrev pub waits_on : ℕ → Task → Bool
waits_on p t = is_on_pipe t.state && (t.pipe_wait ==ℤ pos p)

waits_on-wake_waiter : (p : ℕ) (t : Task) → waits_on p (wake_waiter p t) ≡ false
unfolding wake_waiter
waits_on-wake_waiter p t = ground arith

module _ {M : Type 0} where
  -- No slot in use waits for pipe `p`.
  abbrev pub Unawaited : ℕ → Sched M → Type 0
  Unawaited p s = (j : ℕ) → j < s.task_count → waits_on p (task_at s j) ≡ false

  wake_pipe_waiters-Unawaited :
      (p : ℕ) (s : Sched M) → s.task_count ≤ length s.tasks → Unawaited p (wake_pipe_waiters p s)
  unfolding wake_pipe_waiters
  wake_pipe_waiters-Unawaited p s fits j h = ground (
    arith,
    get_or-map_below s.task_count (wake_waiter p) s.tasks j no_task,
    waits_on-wake_waiter p (task_at s j),
  )

  -- With no more slots in use than the array has, a write to a pipe that returns neither -1 nor -2
  -- leaves no slot in use waiting for that pipe.
  pub put_bytes-Unawaited :
      (p : ℕ) (b src : List ℕ) (s : Sched M)
      → s.task_count ≤ length s.tasks
      → ((put_bytes p b src s).0 ≢ minus_one)
      → ((put_bytes p b src s).0 ≢ minus_two)
      → Unawaited p (put_bytes p b src s).1
  unfolding put_bytes
  put_bytes-Unawaited p b src s fits done room =
      let q = pipe_at s p in
      elim (Bool-cases (q.rrefs == 0)) [
        | inl nobody ↦ absurd (done (rw nobody refl))
        | inr reader ↦ elim (Bool-cases (leb pipe_cap q.len)) [
          | inl full ↦ absurd (room (rw (reader, full) refl))
          | inr some_room ↦
              let left = pipe_cap - q.len in
              let got = (if ltb left (length src) then left else length src) in
              rw (reader, some_room)
                (wake_pipe_waiters-Unawaited p (set_pipe s p (filled b (take got src) q)) fits)
        ]
      ]

module _ {M : Type 0} (k : Kernel M) where
  drop_ref-Unawaited :
      (r : Bool) (p : ℕ) (s : Sched M)
      → s.task_count ≤ length s.tasks
      → Unawaited p (drop_ref k r p s)
  unfolding drop_ref free_pipe
  drop_ref-Unawaited r p s fits =
      let q = ref_down r (pipe_at s p) in
      let woken = wake_pipe_waiters-Unawaited p (set_pipe s p q) fits in
      elim (Bool-cases ((q.rrefs == 0) && (q.wrefs == 0))) [
        | inl last ↦ rw last woken
        | inr more ↦ rw more woken
      ]

  -- With no more slots in use than the array has, closing an open descriptor that is an end of a
  -- used pipe leaves no slot in use waiting for that pipe.
  pub drop_fd-Unawaited :
      (i f p : ℕ) (s : Sched M)
      → s.task_count ≤ length s.tasks
      → (fd_at s i f).used ≡ true
      → is_pipe_end (fd_at s i f).kind ≡ true
      → live_pipe? s (fd_at s i f).pipe ≡ some p
      → Unawaited p (drop_fd k i f s)
  unfolding drop_fd release_end
  drop_fd-Unawaited i f p s fits used isend live =
      let r = is_pipe_r (fd_at s i f).kind in
      let s' = drop_ref k r p s in
      let u = drop_ref-Unawaited r p s fits in
      rw (used, isend, live)
        (λ j h.
          let w : Task = record (task_at s' i) { fds = set (task_at s' i).fds f no_fd } in
          ground (arith, get_or-set s'.tasks i w j no_task, u j h))
