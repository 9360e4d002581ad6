-- ===== src/Sched/Pipe/Attach.antt =====
-- kernel/sched.c: an entry written, and the reference that a copied end takes, against the invariant
-- of the pipe table.
use vampire_os.Prelude.{ℕ, ◌<◌, ◌≡◌, refl, inl, inr, Bool, true, false, arith, ap, ◌≢◌}
use vampire_os.Prelude.{
  length, set, if◌then◌else◌, ◌==◌, Bool-cases, Option-cases, length-set, get_or-set,
}
use vampire_os.Prelude.Int.{pos}
use vampire_os.Sched.Types.{
  FdEntry, Task, Sched, is_pipe_r, is_pipe_end, no_fd, no_pipe, no_task, task_at, pipe_at, fd_at,
  set_fd, pipe_max, fd_max, task_max,
}
use vampire_os.Sched.Pipe.{ref_up, live_pipe?, add_ref, attach, unbound}
use vampire_os.Sched.Pipe.Count.{held, task_refs, task_refs-set_fd}
use vampire_os.Sched.Pipe.Refs.{IsShaped, IsCounted, live_pipe?-some, held_cases, held_of_end}
use vampire_os.Sched.Pipe.Drop.{Keeps, Keeps-trans, Keeps-set_fd}

-- No pipe counts the entry.
abbrev pub HoldsNone : FdEntry → Type 0
HoldsNone e = (b : Bool) (p : ℕ) → held b p e ≡ 0

pub HoldsNone-of_unused : (e : FdEntry) → e.used ≡ false → HoldsNone e
HoldsNone-of_unused e u b p = ground (arith, held_cases e b p)

pub HoldsNone-of_other : (e : FdEntry) → is_pipe_end e.kind ≡ false → HoldsNone e
HoldsNone-of_other e u b p = ground (arith, held_cases e b p)

module _ {M : Type 0} where
  pub fd_at-set_fd :
      (s : Sched M) (i fd : ℕ) (e : FdEntry)
      → i < length s.tasks
      → fd < length (task_at s i).fds
      → fd_at (set_fd s i fd e) i fd ≡ e
  fd_at-set_fd s i fd e hi hf =
      let t : Task = record (task_at s i) { fds = set (task_at s i).fds fd e } in
      ground (arith, get_or-set s.tasks i t i no_task, get_or-set (task_at s i).fds fd e fd no_fd)

  pub fd_at-set_fd_ne :
      (s : Sched M) (i fd f : ℕ) (e : FdEntry)
      → i < length s.tasks
      → fd ≢ f
      → fd_at (set_fd s i fd e) i f ≡ fd_at s i f
  fd_at-set_fd_ne s i fd f e hi ne =
      let t : Task = record (task_at s i) { fds = set (task_at s i).fds fd e } in
      ground (arith, get_or-set s.tasks i t i no_task, get_or-set (task_at s i).fds fd e f no_fd)

  pub Keeps-add_ref : (r : Bool) (q : ℕ) (s : Sched M) → Keeps s (add_ref r q s)
  unfolding add_ref
  Keeps-add_ref r q s = record {
    slots = refl;
    table = length-set s.pipes q (ref_up r (pipe_at s q));
    entries = λ i. refl;
    count = refl;
    slot = refl;
  }

  pub pipe_at-add_ref :
      (r : Bool) (s : Sched M) (q p : ℕ)
      → length s.pipes ≡ pipe_max
      → q < pipe_max
      → pipe_at (add_ref r q s) p ≡ (if q == p then ref_up r (pipe_at s q) else pipe_at s p)
  unfolding add_ref
  pipe_at-add_ref r s q p l h =
      ground (arith, get_or-set s.pipes q (ref_up r (pipe_at s q)) p no_pipe)

  pub tasks-add_ref : (r : Bool) (q : ℕ) (s : Sched M) → (add_ref r q s).tasks ≡ s.tasks
  unfolding add_ref
  tasks-add_ref r q s = refl

  pub attach-Keeps : (i fd : ℕ) (e : FdEntry) (s : Sched M) → Keeps s (attach i fd e s).1
  unfolding attach
  attach-Keeps i fd e s =
      let copied = set_fd s i fd e in
      let first = Keeps-set_fd s i fd e in
      elim (Bool-cases (is_pipe_end e.kind)) [
        | inl isend ↦ elim (Option-cases (live_pipe? s e.pipe)) [
          | inl gone ↦ rw (isend, gone) (Keeps-trans first (Keeps-set_fd copied i fd (unbound e)))
          | inr (q, live) ↦
              rw (isend, live) (Keeps-trans first (Keeps-add_ref (is_pipe_r e.kind) q copied))
        ]
        | inr other ↦ rw other first
      ]

module _ {M : Type 0} (s : Sched M) (i fd : ℕ) (w : IsShaped s) (c : IsCounted s)
    (hi : i < task_max) (hf : fd < fd_max) (free : HoldsNone (fd_at s i fd)) where
  -- An entry that no pipe counts, in the place of another such.
  pub set_fd-IsCounted : (e : FdEntry) → HoldsNone e → IsCounted (set_fd s i fd e)
  set_fd-IsCounted e none_held = record {
    counted = λ b p. omega (
      arith,
      c.counted b p,
      free b p,
      none_held b p,
      task_refs-set_fd s b p i fd e (omega (arith, w.slots)) (omega (arith, w.entries i hi)),
    );
    unused = λ b p. c.unused b p;
  }

  -- A new end of a live pipe, with the reference taken.
  pub bind_end-IsCounted :
      (e : FdEntry) (q : ℕ)
      → e.used ≡ true
      → is_pipe_end e.kind ≡ true
      → e.pipe ≡ pos q
      → q < pipe_max
      → (pipe_at s q).used ≡ true
      → IsCounted (add_ref (is_pipe_r e.kind) q (set_fd s i fd e))
  bind_end-IsCounted e q u isend at hq live =
      let r = is_pipe_r e.kind in
      let copied = set_fd s i fd e in
      record {
        counted = λ b p. ground (
          arith,
          pipe_at-add_ref r copied q p w.table hq,
          ap (task_refs b p) (tasks-add_ref r q copied),
          c.counted b p,
          free b p,
          held_of_end e b p q u isend at,
          task_refs-set_fd s b p i fd e (omega (arith, w.slots)) (omega (arith, w.entries i hi)),
        );
        unused = λ b p h. ground (arith, pipe_at-add_ref r copied q p w.table hq, c.unused b p);
      }

  -- The copy that `attach` makes and clears again.
  twice-IsCounted : (e : FdEntry) → IsCounted (set_fd (set_fd s i fd e) i fd (unbound e))
  twice-IsCounted e = record {
    counted = λ b p. omega (
      arith,
      c.counted b p,
      free b p,
      HoldsNone-of_unused (unbound e) refl b p,
      task_refs-set_fd s b p i fd e (omega (arith, w.slots)) (omega (arith, w.entries i hi)),
      ap (held b p)
          (fd_at-set_fd s i fd e (omega (arith, w.slots)) (omega (arith, w.entries i hi))),
      task_refs-set_fd (set_fd s i fd e) b p i fd (unbound e)
          (omega (arith, (Keeps-set_fd s i fd e).slots, w.slots))
          (omega (arith, (Keeps-set_fd s i fd e).entries i, w.entries i hi)),
    );
    unused = λ b p. c.unused b p;
  }

  -- The common tail of `inherit_fds` and `sched_fd_dup2`.
  pub attach-IsCounted : (e : FdEntry) → e.used ≡ true → IsCounted (attach i fd e s).1
  unfolding attach
  attach-IsCounted e u = elim (Bool-cases (is_pipe_end e.kind)) [
    | inl isend ↦ elim (Option-cases (live_pipe? s e.pipe)) [
      | inl gone ↦ rw (isend, gone) (twice-IsCounted e)
      | inr (q, live) ↦
          let l = live_pipe?-some s e.pipe q live in
          rw (isend, live) (bind_end-IsCounted e q u isend l.0 l.1 l.2)
    ]
    | inr other ↦ rw other (set_fd-IsCounted e (HoldsNone-of_other e other))
  ]
