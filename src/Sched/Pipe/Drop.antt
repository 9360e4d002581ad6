-- ===== src/Sched/Pipe/Drop.antt =====
-- kernel/sched.c: `drop_fd`, against the invariant of the pipe table.
use vampire_os.Prelude.{ℕ, ◌<◌, ◌≤◌, ◌≡◌, refl, inl, inr, Bool, true, arith, ap, ◌∙◌}
use vampire_os.Prelude.{
  length, get_or, set, Bool-cases, Option-cases, length-set, length-map_below, get_or-set,
  get_or-map_below,
}
use vampire_os.Sched.Types.{
  FdEntry, Task, Sched, is_pipe_r, is_pipe_end, no_fd, no_pipe, no_task, task_at, pipe_at, fd_at,
  set_fd, fd_max, task_max,
}
use vampire_os.Sched.Kernel.{Kernel}
use vampire_os.Sched.Pipe.{
  ref_down, live_pipe?, free_pipe, drop_ref, release_end, drop_fd, wake_waiter, wake_pipe_waiters,
}
use vampire_os.Sched.Pipe.Count.{held, task_refs, task_refs-set_fd, fds-wake_waiter}
use vampire_os.Sched.Pipe.Refs.{refs, IsShaped, IsCounted, released, task_refs-drop_ref, held-no_fd}

module _ {M : Type 0} where
  -- A step that moves no array and no slot.
  pub record Keeps (s s' : Sched M) : Type 0 where
    pub slots : length s'.tasks ≡ length s.tasks
    pub table : length s'.pipes ≡ length s.pipes
    pub entries : (i : ℕ) → length (task_at s' i).fds ≡ length (task_at s i).fds
    pub count : s'.task_count ≡ s.task_count
    pub slot : s'.current ≡ s.current

  pub Keeps-refl : (s : Sched M) → Keeps s s
  Keeps-refl s = record {
    slots = refl;
    table = refl;
    entries = λ i. refl;
    count = refl;
    slot = refl;
  }

  pub Keeps-trans : {s t u : Sched M} → Keeps s t → Keeps t u → Keeps s u
  Keeps-trans a b = record {
    slots = b.slots ∙ a.slots;
    table = b.table ∙ a.table;
    entries = λ i. b.entries i ∙ a.entries i;
    count = b.count ∙ a.count;
    slot = b.slot ∙ a.slot;
  }

  pub Keeps-IsShaped : {s s' : Sched M} → Keeps s s' → IsShaped s → IsShaped s'
  Keeps-IsShaped k w = record {
    slots = omega (arith, k.slots, w.slots);
    table = omega (arith, k.table, w.table);
    entries = λ i h. omega (arith, k.entries i, w.entries i h);
    count_in = omega (arith, k.count, w.count_in);
    current_in = omega (arith, k.slot, w.current_in);
  }

  pub fds-wake_pipe_waiters :
      (s : Sched M) (p i : ℕ) → (task_at (wake_pipe_waiters p s) i).fds ≡ (task_at s i).fds
  unfolding wake_pipe_waiters
  fds-wake_pipe_waiters s p i = ground (
    arith,
    get_or-map_below s.task_count (wake_waiter p) s.tasks i no_task,
    fds-wake_waiter p (task_at s i),
  )

  pub Keeps-set_fd : (s : Sched M) (i fd : ℕ) (e : FdEntry) → Keeps s (set_fd s i fd e)
  Keeps-set_fd s i fd e =
      let t : Task = record (task_at s i) { fds = set (task_at s i).fds fd e } in
      record {
        slots = length-set s.tasks i t;
        table = refl;
        entries = λ j.
            ground (arith, get_or-set s.tasks i t j no_task, length-set (task_at s i).fds fd e);
        count = refl;
        slot = refl;
      }

module _ {M : Type 0} (k : Kernel M) where
  pub tasks-drop_ref :
      (r : Bool) (s : Sched M) (q : ℕ) → (drop_ref k r q s).tasks ≡ (wake_pipe_waiters q s).tasks
  unfolding drop_ref free_pipe wake_pipe_waiters
  tasks-drop_ref r s q = ground arith

  fds-drop_ref :
      (r : Bool) (s : Sched M) (q i : ℕ) → (task_at (drop_ref k r q s) i).fds ≡ (task_at s i).fds
  fds-drop_ref r s q i = rw (tasks-drop_ref r s q) (fds-wake_pipe_waiters s q i)

  length-pipes-drop_ref :
      (r : Bool) (q : ℕ) (s : Sched M) → length (drop_ref k r q s).pipes ≡ length s.pipes
  unfolding drop_ref free_pipe wake_pipe_waiters
  length-pipes-drop_ref r q s =
      let v = ref_down r (pipe_at s q) in
      ground (arith, length-set s.pipes q v, length-set (set s.pipes q v) q no_pipe)

  slots-drop_ref :
      (r : Bool) (q : ℕ) (s : Sched M)
      → ((drop_ref k r q s).task_count ≡ s.task_count) × ((drop_ref k r q s).current ≡ s.current)
  unfolding drop_ref free_pipe wake_pipe_waiters
  slots-drop_ref r q s = ground arith

  Keeps-drop_ref : (r : Bool) (q : ℕ) (s : Sched M) → Keeps s (drop_ref k r q s)
  unfolding wake_pipe_waiters
  Keeps-drop_ref r q s = record {
    slots = ground (
      arith,
      ap (length {A = Task}) (tasks-drop_ref r s q),
      length-map_below s.task_count (wake_waiter q) s.tasks,
    );
    table = length-pipes-drop_ref r q s;
    entries = λ i. ap (length {A = FdEntry}) (fds-drop_ref r s q i);
    count = (slots-drop_ref r q s).0;
    slot = (slots-drop_ref r q s).1;
  }

  pub fds-release_end :
      (e : FdEntry) (s : Sched M) (i : ℕ) → (task_at (release_end k e s) i).fds ≡ (task_at s i).fds
  unfolding release_end
  fds-release_end e s i = elim (Bool-cases (is_pipe_end e.kind)) [
    | inl isend ↦ elim (Option-cases (live_pipe? s e.pipe)) [
      | inl gone ↦ rw (isend, gone)
      | inr (q, live) ↦ rw (isend, live) (fds-drop_ref (is_pipe_r e.kind) s q i)
    ]
    | inr other ↦ rw other
  ]

  task_refs-release_end :
      (e : FdEntry) (s : Sched M) (b : Bool) (p : ℕ)
      → task_refs b p (release_end k e s).tasks ≡ task_refs b p s.tasks
  unfolding release_end
  task_refs-release_end e s b p = elim (Bool-cases (is_pipe_end e.kind)) [
    | inl isend ↦ elim (Option-cases (live_pipe? s e.pipe)) [
      | inl gone ↦ rw (isend, gone)
      | inr (q, live) ↦ rw (isend, live) (task_refs-drop_ref k (is_pipe_r e.kind) s q b p)
    ]
    | inr other ↦ rw other
  ]

  pub Keeps-release_end : (e : FdEntry) (s : Sched M) → Keeps s (release_end k e s)
  unfolding release_end
  Keeps-release_end e s = elim (Bool-cases (is_pipe_end e.kind)) [
    | inl isend ↦ elim (Option-cases (live_pipe? s e.pipe)) [
      | inl gone ↦ rw (isend, gone) (Keeps-refl s)
      | inr (q, live) ↦ rw (isend, live) (Keeps-drop_ref (is_pipe_r e.kind) q s)
    ]
    | inr other ↦ rw other (Keeps-refl s)
  ]

  pub drop_fd-Keeps : (s : Sched M) (i fd : ℕ) → Keeps s (drop_fd k i fd s)
  unfolding drop_fd
  drop_fd-Keeps s i fd = elim (Bool-cases (fd_at s i fd).used) [
    | inl used ↦
        let e = fd_at s i fd in
        rw used (Keeps-trans (Keeps-release_end e s) (Keeps-set_fd (release_end k e s) i fd no_fd))
    | inr free ↦ rw free (Keeps-refl s)
  ]

  module _ (s : Sched M) (i fd : ℕ) (w : IsShaped s) (c : IsCounted s) (hi : i < task_max)
      (hf : fd < fd_max) where
    pub held-le-task_refs : (b : Bool) (p : ℕ) → held b p (fd_at s i fd) ≤ task_refs b p s.tasks
    held-le-task_refs b p = omega (
      arith,
      held-no_fd b p,
      task_refs-set_fd s b p i fd no_fd (omega (arith, w.slots)) (omega (arith, w.entries i hi)),
    )

    -- After the release the entry's share is the only difference, and clearing the entry takes it.
    cleared :
        (b : Bool) (p : ℕ)
        → (fd_at s i fd).used ≡ true
        → refs b (pipe_at (release_end k (fd_at s i fd) s) p)
          ≡ task_refs b p (set_fd (release_end k (fd_at s i fd) s) i fd no_fd).tasks
    cleared b p used =
        let e = fd_at s i fd in
        let s' = release_end k e s in
        let kept = Keeps-release_end e s in
        let same : fd_at s' i fd ≡ e = ap (λ es. get_or es fd no_fd) (fds-release_end e s i) in
        omega (
          arith,
          released k s w c e b p used (held-le-task_refs b p),
          task_refs-release_end e s b p,
          ap (held b p) same,
          held-no_fd b p,
          task_refs-set_fd s' b p i fd no_fd (omega (arith, kept.slots, w.slots))
              (omega (arith, kept.entries i, w.entries i hi)),
        )

    pub drop_fd-IsCounted : IsCounted (drop_fd k i fd s)
    unfolding drop_fd
    drop_fd-IsCounted = elim (Bool-cases (fd_at s i fd).used) [
      | inl used ↦ rw used (record {
        counted = λ b p. cleared b p used;
        unused = λ b p. (released k s w c (fd_at s i fd) b p used (held-le-task_refs b p)).1;
      })
      | inr free ↦ rw free c
    ]
