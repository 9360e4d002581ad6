-- ===== src/Sched/Fd.antt =====
-- kernel/sched.c: the descriptor calls on the current task, and those that bind the last added task.
-- A path is the string up to its NUL, a null pointer the empty string.
pub mod Counted
pub mod Alloc
pub mod Pipes
pub mod Bind
pub mod Frame
use vampire_os.Prelude.{
  ℕ, zero, suc, ◌+◌, ◌-◌, ◌%◌, Bool, true, false, not, ◌&&◌, ◌||◌, Option, none, some, List, [],
  ◌∷◌,
}
use vampire_os.Prelude.{get_or, set, take, length, min, ◌==◌, ltb, leb, if◌then◌else◌}
use vampire_os.Prelude.Int.{ℤ, pos, minus_one, minus_two, index?, to_int}
use vampire_os.Prelude.Search.{first_from}
use vampire_os.Sched.Types.{
  FdKind, unset, file, pipe_r, pipe_w, is_file, is_pipe_r, is_pipe_w, is_pipe_end, is_dead, FdEntry,
  Pipe, Task, Sched, task_at, pipe_at, set_pipe, fd_at, set_fd, copy_path, fd_max, pipe_max,
  pipe_cap,
}
use vampire_os.Sched.Kernel.{Kernel}
use vampire_os.Sched.Pipe.{
  wake_pipe_waiters, live_pipe?, add_ref, attach, free_pipe, alloc_pipe, drop_fd,
}

-- The fields that `sched_pipe` writes; the path stays.
abbrev pub pipe_entry : FdKind → ℕ → FdEntry → FdEntry
pipe_entry kind p e = record e { used = true; kind = kind; pipe = pos p; offset = 0 }

module _ {M : Type 0} where
  -- The guard `task_count == 0 || fd < 0 || fd >= FD_MAX` and the test of `used` behind it: the index
  -- of an open descriptor of the current task.
  unfoldable pub open_fd? : ℤ → Sched M → Option ℕ
  open_fd? fd s = if s.task_count == 0 then none else elim (index? fd fd_max) [
    | none ↦ none
    | some f ↦ if (fd_at s s.current f).used then some f else none
  ]

  abbrev pub current_fd : Sched M → ℕ → FdEntry
  current_fd s f = fd_at s s.current f

  -- `sched_fd_open`
  unfoldable pub fd_open : List ℕ → Sched M → ℤ × Sched M
  fd_open [] s = (minus_one, s)
  fd_open (c ∷ path) s =
      if s.task_count == 0
      then (minus_one, s)
      else elim (first_from fd_max 0 (λ f. not (current_fd s f).used)) [
        | none ↦ (minus_one, s)
        | some f ↦ (
          pos f,
          set_fd s s.current f (record {
            used = true;
            kind = file;
            pipe = minus_one;
            offset = 0;
            path = copy_path (current_fd s f).path (c ∷ path);
          }),
        )
      ]

  -- `sched_fd_lseek`
  unfoldable pub fd_lseek : ℤ → ℕ → Sched M → ℤ × Sched M
  fd_lseek fd off s = elim (open_fd? fd s) [
    | none ↦ (minus_one, s)
    | some f ↦
        let e = current_fd s f in
        if is_file e.kind
        then (to_int off, set_fd s s.current f (record e { offset = off }))
        else (minus_one, s)
  ]

  -- `sched_fd_offset`
  unfoldable pub fd_offset : ℤ → Sched M → ℕ
  fd_offset fd s = elim (open_fd? fd s) [
    | none ↦ 0
    | some f ↦ if is_file (current_fd s f).kind then (current_fd s f).offset else 0
  ]

  -- `sched_fd_path`: what is copied out, or nothing with -1.
  unfoldable pub fd_path : ℤ → Sched M → Option (List ℕ)
  fd_path fd s = elim (open_fd? fd s) [
    | none ↦ none
    | some f ↦ if is_file (current_fd s f).kind then some (current_fd s f).path else none
  ]

  -- `sched_fd_kind`
  unfoldable pub fd_kind : ℤ → Sched M → FdKind
  fd_kind fd s = elim (open_fd? fd s) [ none ↦ unset | some f ↦ (current_fd s f).kind ]

  -- `sched_fd_pipe`
  unfoldable pub fd_pipe : ℤ → Sched M → ℤ
  fd_pipe fd s = elim (open_fd? fd s) [
    | none ↦ minus_one
    | some f ↦ if is_pipe_end (current_fd s f).kind then (current_fd s f).pipe else minus_one
  ]

  -- The loop of `sched_pipe`: the two lowest closed descriptors.
  unfoldable pub free_pair : Sched M → Option (ℕ × ℕ)
  free_pair s = elim (first_from fd_max 0 (λ f. not (current_fd s f).used)) [
    | none ↦ none
    | some r ↦ elim (first_from (fd_max - (r + 1)) (r + 1) (λ f. not (current_fd s f).used)) [
      | none ↦ none
      | some w ↦ some (r, w)
    ]
  ]

  -- The writes of `sched_pipe` once pipe `p` is allocated.
  unfoldable pub open_ends : (p r w : ℕ) → Sched M → Sched M
  open_ends p r w s =
      let one = set_pipe s p (record (pipe_at s p) { rrefs = 1; wrefs = 1 }) in
      let two = set_fd one s.current r (pipe_entry pipe_r p (current_fd one r)) in
      set_fd two s.current w (pipe_entry pipe_w p (current_fd two w))

module _ {M : Type 0} (k : Kernel M) where
  -- `sched_fd_close`
  unfoldable pub fd_close : ℤ → Sched M → ℤ × Sched M
  fd_close fd s = elim (open_fd? fd s) [
    | none ↦ (minus_one, s)
    | some f ↦ (pos 0, drop_fd k s.current f s)
  ]

  -- `sched_fd_dup2` behind its guards.
  unfoldable pub dup_at : (o n : ℕ) → Sched M → ℤ × Sched M
  dup_at o n s =
      if not (current_fd s o).used
      then (minus_one, s)
      else if o == n
      then (pos n, s)
      else let closed = (if (current_fd s n).used then drop_fd k s.current n s else s) in
        let (done, s') = attach s.current n (fd_at closed s.current o) closed in
        (if done then pos n else minus_one, s')

  unfoldable pub fd_dup2 : (oldfd newfd : ℤ) → Sched M → ℤ × Sched M
  fd_dup2 oldfd newfd s = if s.task_count == 0 then (minus_one, s) else elim (index? oldfd fd_max) [
    | none ↦ (minus_one, s)
    | some o ↦ elim (index? newfd fd_max) [ none ↦ (minus_one, s) | some n ↦ dup_at o n s ]
  ]

  -- `sched_pipe`: the two descriptors, or nothing with -1.
  unfoldable pub make_pipe : Sched M → Option (ℕ × ℕ) × Sched M
  make_pipe s = if s.task_count == 0 then (none, s) else elim (free_pair s) [
    | none ↦ (none, s)
    | some (r, w) ↦
        let (p, s') = alloc_pipe k s in
        elim (index? p pipe_max) [ none ↦ (none, s') | some q ↦ (some (r, w), open_ends q r w s') ]
  ]

  -- `sched_pipe_new`
  unfoldable pub pipe_new : Sched M → ℤ × Sched M
  pipe_new s = alloc_pipe k s

  -- `sched_pipe_unused`
  unfoldable pub pipe_unused : ℤ → Sched M → Sched M
  pipe_unused i s = elim (live_pipe? s i) [
    | none ↦ s
    | some p ↦
        if ((pipe_at s p).rrefs == 0) && ((pipe_at s p).wrefs == 0) then free_pipe k p s else s
  ]

  -- The entry of the last added task that a bind may take over, once it is dropped.
  unfoldable pub vacate : (i f : ℕ) → Sched M → Sched M
  vacate i f s = if (fd_at s i f).used then drop_fd k i f s else s

  -- The writes of `sched_fd_bind_pipe` behind its guards.
  unfoldable pub bind_pipe_at : (i f : ℕ) → FdKind → ℕ → Sched M → Sched M
  unfolding vacate
  bind_pipe_at i f kind p s =
      let s' = vacate i f s in
      let e : FdEntry = record {
        used = true;
        kind = kind;
        pipe = pos p;
        offset = 0;
        path = set (fd_at s' i f).path 0 0;
      } in
      add_ref (is_pipe_r kind) p (set_fd s' i f e)

  -- `sched_fd_bind_pipe`
  unfoldable pub fd_bind_pipe : ℤ → FdKind → ℤ → Sched M → ℤ × Sched M
  fd_bind_pipe fd kind pipe_id s = elim (index? s.last_added s.task_count) [
    | none ↦ (minus_one, s)
    | some i ↦ elim (index? fd fd_max) [
      | none ↦ (minus_one, s)
      | some f ↦ elim (live_pipe? s pipe_id) [
        | none ↦ (minus_one, s)
        | some p ↦
            if not (is_pipe_end kind) || is_dead (task_at s i).state
            then (minus_one, s)
            else (pos 0, bind_pipe_at i f kind p s)
      ]
    ]
  ]

  -- `sched_fd_bind_file`
  unfoldable pub fd_bind_file : ℤ → List ℕ → ℕ → Sched M → ℤ × Sched M
  unfolding vacate
  fd_bind_file fd path off s = elim (index? s.last_added s.task_count) [
    | none ↦ (minus_one, s)
    | some i ↦ elim (index? fd fd_max) [
      | none ↦ (minus_one, s)
      | some f ↦
          if (length path == 0) || is_dead (task_at s i).state
          then (minus_one, s)
          else let s' = vacate i f s in
            let e : FdEntry = record {
              used = true;
              kind = file;
              pipe = minus_one;
              offset = off;
              path = copy_path (fd_at s' i f).path path;
            } in
            (pos 0, set_fd s' i f e)
    ]
  ]
