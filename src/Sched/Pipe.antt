-- ===== src/Sched/Pipe.antt =====
-- kernel/sched.c: the pipe table, and the descriptors that hold a pipe's ends.
pub mod Count
pub mod Refs
pub mod Drop
pub mod Attach
pub mod Inherit
pub mod Rest
use vampire_os.Prelude.{
  ℕ, ◌+◌, ◌-◌, Bool, true, false, not, ◌&&◌, ◌||◌, Option, none, some, [], ◌∷◌,
}
use vampire_os.Prelude.{set, replicate, map_below, ◌==◌, if◌then◌else◌}
use vampire_os.Prelude.Int.{ℤ, pos, minus_one, ◌==ℤ◌, index?}
use vampire_os.Prelude.Loop.{for_each}
use vampire_os.Prelude.Search.{first_from}
use vampire_os.Sched.Types.{
  FdKind, unset, file, pipe_r, pipe_w, console_r, console_w, is_pipe_r, is_pipe_end, TaskState,
  ready, is_on_pipe, FdEntry, Pipe, Task, Sched, no_fd, no_pipe, task_at, set_task, pipe_at,
  set_pipe, fd_at, set_fd, fd_max, pipe_max, pipe_cap, pipe_min_phys,
}
use vampire_os.Sched.Kernel.{Kernel}

-- The test and the write of `wake_pipe_waiters` for one task.
unfoldable pub wake_waiter : ℕ → Task → Task
wake_waiter p t =
    if is_on_pipe t.state && (t.pipe_wait ==ℤ pos p)
    then record t { state = ready; pipe_wait = minus_one }
    else t

-- The fields that a failed inheritance clears; the path stays.
abbrev pub unbound : FdEntry → FdEntry
unbound e = record e { used = false; kind = unset; pipe = minus_one; offset = 0 }

-- `pipes[p]` as `alloc_pipe` sets it up on a zeroed page.
abbrev pub fresh_pipe : ℕ → Pipe
fresh_pipe frame = record {
  used = true;
  head = 0;
  len = 0;
  rrefs = 0;
  wrefs = 0;
  phys = frame;
  buf = some (replicate pipe_cap 0);
}

-- One reference more, at the reader's or the writer's side.
abbrev pub ref_up : Bool → Pipe → Pipe
ref_up true q = record q { rrefs = q.rrefs + 1 }
ref_up false q = record q { wrefs = q.wrefs + 1 }

-- One less, if there is one.
abbrev pub ref_down : Bool → Pipe → Pipe
ref_down true q = record q { rrefs = q.rrefs - 1 }
ref_down false q = record q { wrefs = q.wrefs - 1 }

module _ {M : Type 0} where
  unfoldable pub wake_pipe_waiters : ℕ → Sched M → Sched M
  wake_pipe_waiters p s = record s { tasks = map_below s.task_count (wake_waiter p) s.tasks }

  -- The guard `p >= 0 && p < PIPE_MAX && pipes[p].used != 0`.
  unfoldable pub live_pipe? : Sched M → ℤ → Option ℕ
  live_pipe? s i = elim (index? i pipe_max) [
    | none ↦ none
    | some p ↦ if (pipe_at s p).used then some p else none
  ]

  unfoldable pub add_ref : Bool → ℕ → Sched M → Sched M
  add_ref reads p s = set_pipe s p (ref_up reads (pipe_at s p))

  -- `bind_console_std`: fd 0 is the keyboard, 1 and 2 are the screen.
  unfoldable pub bind_console : ℕ → ℕ → Sched M → Sched M
  bind_console i fd s =
      let e = fd_at s i fd in
      set_fd s i fd (record {
        used = true;
        kind = (if fd == 0 then console_r else console_w);
        pipe = minus_one;
        offset = 0;
        path = set e.path 0 0;
      })

  unfoldable pub bind_console_std : ℕ → Sched M → Sched M
  bind_console_std i s = for_each 3 0 (bind_console i) s

  -- `copy_fd` of `e` into an entry, and the reference that the copy takes: the common tail of
  -- `inherit_fds` and `sched_fd_dup2`. False where the pipe is gone and the copy is cleared again.
  unfoldable pub attach : (i fd : ℕ) → FdEntry → Sched M → Bool × Sched M
  attach i fd e s =
      let copied = set_fd s i fd e in
      if is_pipe_end e.kind
      then elim (live_pipe? s e.pipe) [
        | none ↦ (false, set_fd copied i fd (unbound e))
        | some p ↦ (true, add_ref (is_pipe_r e.kind) p copied)
      ]
      else (true, copied)

  -- A round of `inherit_fds`.
  unfoldable pub inherit_fd : (dst src fd : ℕ) → Sched M → Sched M
  inherit_fd dst src fd s =
      let e = fd_at s src fd in if e.used then (attach dst fd e s).1 else set_fd s dst fd e

  unfoldable pub inherit_fds : (dst src : ℕ) → Sched M → Sched M
  inherit_fds dst src s = for_each fd_max 0 (inherit_fd dst src) s

module _ {M : Type 0} (k : Kernel M) where
  -- `free_pipe`, for an index in range: its callers' guard.
  unfoldable pub free_pipe : ℕ → Sched M → Sched M
  free_pipe p s =
      let frame = (pipe_at s p).phys in
      let m = (if frame == 0 then s.machine else k.pmm_free frame s.machine) in
      set_pipe (record s { machine = m }) p no_pipe

  -- A frame at or above 2 MiB, else any.
  unfoldable pub alloc_frame : M → ℕ × M
  alloc_frame m =
      let (a, m') = k.pmm_alloc_above pipe_min_phys m in if a == 0 then k.pmm_alloc m' else (a, m')

  unfoldable pub alloc_pipe : Sched M → ℤ × Sched M
  unfolding alloc_frame
  alloc_pipe s = elim (first_from pipe_max 0 (λ i. not (pipe_at s i).used)) [
    | none ↦ (minus_one, s)
    | some p ↦
        let (frame, m) = alloc_frame s.machine in
        if frame == 0
        then (minus_one, record s { machine = m })
        else (pos p, set_pipe (record s { machine = m }) p (fresh_pipe frame))
  ]

  -- The inner block of `drop_fd`: one reference given up, the waiters woken, the pipe freed with its
  -- last reference.
  unfoldable pub drop_ref : Bool → ℕ → Sched M → Sched M
  drop_ref reads p s =
      let q = ref_down reads (pipe_at s p) in
      let woken = wake_pipe_waiters p (set_pipe s p q) in
      if (q.rrefs == 0) && (q.wrefs == 0) then free_pipe p woken else woken

  -- The pipe part of `drop_fd`, for the entry's old value.
  unfoldable pub release_end : FdEntry → Sched M → Sched M
  release_end e s =
      if is_pipe_end e.kind
      then elim (live_pipe? s e.pipe) [ none ↦ s | some p ↦ drop_ref (is_pipe_r e.kind) p s ]
      else s

  unfoldable pub drop_fd : ℕ → ℕ → Sched M → Sched M
  drop_fd i fd s = let e = fd_at s i fd in if e.used then set_fd (release_end e s) i fd no_fd else s

  unfoldable pub clear_fds : ℕ → Sched M → Sched M
  clear_fds i s = for_each fd_max 0 (drop_fd i) s
