-- ===== src/Sched/Pipe/Count.antt =====
-- kernel/sched.c: how many descriptors hold an end of a pipe, and a write to one entry.
use vampire_os.Prelude.{ℕ, zero, suc, ◌+◌, ◌<◌, ◌≡◌, refl, Bool, ◌&&◌, List, [], ◌∷◌, arith, ap}
use vampire_os.Prelude.{length, get_or, set, map_below, if◌then◌else◌}
use vampire_os.Prelude.Int.{pos, ◌==ℤ◌}
use vampire_os.Sched.Types.{
  FdEntry, Task, is_pipe_r, is_pipe_w, no_fd, no_task, Sched, task_at, fd_at, set_fd,
}
use vampire_os.Sched.Pipe.{wake_waiter, wake_pipe_waiters}

-- Whether the entry is an end of pipe `p`: the reader's, or the writer's.
unfoldable pub held : Bool → ℕ → FdEntry → ℕ
held reads p e =
    if e.used && (if reads then is_pipe_r e.kind else is_pipe_w e.kind) && (e.pipe ==ℤ pos p)
    then 1
    else 0

unfoldable pub fd_refs : Bool → ℕ → List FdEntry → ℕ
fd_refs reads p [] = 0
fd_refs reads p (e ∷ es) = held reads p e + fd_refs reads p es

unfoldable pub task_refs : Bool → ℕ → List Task → ℕ
task_refs reads p [] = 0
task_refs reads p (t ∷ ts) = fd_refs reads p t.fds + task_refs reads p ts

module _ (reads : Bool) (p : ℕ) where
  pub fd_refs-set :
      (es : List FdEntry) (i : ℕ) (e : FdEntry)
      → i < length es
      → fd_refs reads p (set es i e) + held reads p (get_or es i no_fd)
        ≡ fd_refs reads p es + held reads p e
  unfolding fd_refs
  fd_refs-set [] i e h = absurd (omega arith)
  fd_refs-set (x ∷ es) zero e h = omega arith
  fd_refs-set (x ∷ es) (suc i) e h = omega (arith, fd_refs-set es i e (omega arith))

  pub task_refs-set :
      (ts : List Task) (i : ℕ) (t : Task)
      → i < length ts
      → task_refs reads p (set ts i t) + fd_refs reads p (get_or ts i no_task).fds
        ≡ task_refs reads p ts + fd_refs reads p t.fds
  unfolding task_refs
  task_refs-set [] i t h = absurd (omega arith)
  task_refs-set (x ∷ ts) zero t h = omega arith
  task_refs-set (x ∷ ts) (suc i) t h = omega (arith, task_refs-set ts i t (omega arith))

  -- A loop over the tasks that leaves their descriptors alone leaves the number alone.
  pub task_refs-map_below :
      (n : ℕ) (f : Task → Task) (ts : List Task)
      → ((t : Task) → (f t).fds ≡ t.fds)
      → task_refs reads p (map_below n f ts) ≡ task_refs reads p ts
  unfolding task_refs
  task_refs-map_below zero f ts h = refl
  task_refs-map_below (suc n) f [] h = refl
  task_refs-map_below (suc n) f (t ∷ ts) h =
      omega (arith, ap (fd_refs reads p) (h t), task_refs-map_below n f ts h)

pub fds-wake_waiter : (p : ℕ) (t : Task) → (wake_waiter p t).fds ≡ t.fds
unfolding wake_waiter
fds-wake_waiter p t = ground arith

module _ {M : Type 0} (s : Sched M) where
  pub task_refs-set_fd :
      (reads : Bool) (p i fd : ℕ) (e : FdEntry)
      → i < length s.tasks
      → fd < length (task_at s i).fds
      → task_refs reads p (set_fd s i fd e).tasks + held reads p (fd_at s i fd)
        ≡ task_refs reads p s.tasks + held reads p e
  task_refs-set_fd reads p i fd e hi hf = omega (
    arith,
    fd_refs-set reads p (task_at s i).fds fd e hf,
    task_refs-set reads p s.tasks i (record (task_at s i) { fds = set (task_at s i).fds fd e }) hi,
  )

  pub task_refs-wake_pipe_waiters :
      (reads : Bool) (p q : ℕ)
      → task_refs reads p (wake_pipe_waiters q s).tasks ≡ task_refs reads p s.tasks
  unfolding wake_pipe_waiters
  task_refs-wake_pipe_waiters reads p q =
      task_refs-map_below reads p s.task_count (wake_waiter q) s.tasks (fds-wake_waiter q)
