-- ===== src/Sched/Exit/Sound.antt =====
-- kernel/sched.c: the end of a task, against the invariant of the pipe table.
use vampire_os.Prelude.{
  ℕ, ◌%◌, ◌<◌, refl, inl, inr, true, not, ◌&&◌, ◌||◌, Option, none, some, arith,
}
use vampire_os.Prelude.{◌==◌, ltb, Bool-cases, Option-cases}
use vampire_os.Prelude.Int.{index?}
use vampire_os.Sched.Types.{Regs, Sched, is_dead, is_in_wait, task_at, task_max}
use vampire_os.Sched.Kernel.{Kernel}
use vampire_os.Sched.Pipe.{clear_fds}
use vampire_os.Sched.Pipe.Inherit.{clear_fds-IsCounted}
use vampire_os.Sched.Fd.Counted.{IsSound}
use vampire_os.Sched.Fd.Frame.{set_task-IsSound, statics-IsSound}
use vampire_os.Sched.Fd.Frame.{remachine-IsSound}
use vampire_os.Sched.Switch.{pick_next}
use vampire_os.Sched.Switch.Sound.{Ends, switch_in-IsSound, pick_next-in}
use vampire_os.Sched.Exit.{
  free_task_user, show_wait_status, wake_parent_waiter, give_status, kill_task, killed, end_current,
  exit_now,
}

module _ {M : Type 0} (k : Kernel M) where
  pub free_task_user-IsSound : (s : Sched M) (i : ℕ) → IsSound s → IsSound (free_task_user k i s)
  unfolding free_task_user
  free_task_user-IsSound s i v = elim (Bool-cases ((task_at s i).cr3 == 0)) [
    | inl unmapped ↦ rw unmapped v
    | inr mapped ↦ rw mapped (set_task-IsSound _ (remachine-IsSound s _ v) i _ refl)
  ]

  pub clear_fds-IsSound :
      (s : Sched M) (i : ℕ) → i < task_max → IsSound s → IsSound (clear_fds k i s)
  clear_fds-IsSound s i h v =
      let r = clear_fds-IsCounted k i h s v.shaped v.counts in record { shaped = r.0; counts = r.1 }

  pub show_wait_status-IsSound :
      (s : Sched M) (i code : ℕ) → IsSound s → IsSound (show_wait_status k i code s)
  unfolding show_wait_status
  show_wait_status-IsSound s i code v =
      elim (Bool-cases ((task_at s i).seen_status && ((task_at s i).shown_status == code))) [
        | inl shown ↦ rw shown v
        | inr new ↦ rw new (set_task-IsSound _ (remachine-IsSound s _ v) i _ refl)
      ]

  give_status-IsSound :
      (s : Sched M) (child p code : ℕ) → IsSound s → IsSound (give_status k child p code s)
  unfolding give_status
  give_status-IsSound s child p code v =
      let v1 = set_task-IsSound s v child (record (task_at s child) { reaped = true }) refl in
      show_wait_status-IsSound _ p code (set_task-IsSound _ v1 p _ refl)

  wake_parent_waiter-IsSound :
      (s : Sched M) (child code : ℕ) → IsSound s → IsSound (wake_parent_waiter k child code s)
  unfolding wake_parent_waiter
  wake_parent_waiter-IsSound s child code v =
      elim (Option-cases (index? (task_at s child).parent s.task_count)) [
        | inl orphan ↦ rw (orphan, wake_parent_waiter) v
        | inr (p, found) ↦
            let w = task_at s p in
            elim (Bool-cases (is_in_wait w.state && ((w.wait_pid == 0) || (w.wait_pid == child)))) [
              | inl waits ↦
                  rw (found, wake_parent_waiter, waits) (give_status-IsSound s child p code v)
              | inr other ↦ rw (found, wake_parent_waiter, other) v
            ]
      ]

  pub kill_task-IsSound : (s : Sched M) (i code : ℕ) → IsSound s → IsSound (kill_task k i code s)
  unfolding kill_task
  kill_task-IsSound s i code v =
      elim (Bool-cases (ltb i s.task_count && not (is_dead (task_at s i).state))) [
        | inl alive ↦
            let hi : i < task_max = ground (arith, v.shaped.count_in) in
            let s1 = clear_fds k i (free_task_user k i s) in
            let v1 = clear_fds-IsSound _ i hi (free_task_user-IsSound s i v) in
            let v2 = set_task-IsSound s1 v1 i (killed code (task_at s1 i)) refl in
            rw alive (
              wake_parent_waiter-IsSound _ i code (
                statics-IsSound _ v2 s1.machine s1.task_count s1.current s1.last_added _
                  v1.shaped.count_in v1.shaped.current_in))
        | inr gone ↦ rw gone v
      ]

  end_current-IsSound : (s : Sched M) (code : ℕ) → IsSound s → IsSound (end_current k code s)
  unfolding end_current
  end_current-IsSound s code v = elim (Bool-cases (s.task_count == 0)) [
    | inl nobody ↦ rw nobody v
    | inr some_task ↦ rw some_task (kill_task-IsSound _ s.current code (remachine-IsSound s _ v))
  ]

  -- `sched_exit`, with or without a frame, keeps the invariant of the pipe table in whichever way
  -- it ends (`rrefs` and `wrefs` of a pipe count the descriptors that hold it, an unused pipe has
  -- none, the arrays have their sizes).
  pub exit_now-IsSound :
      (s : Sched M) (frame : Option Regs) → IsSound s → Ends IsSound (exit_now k frame s)
  unfolding exit_now
  exit_now-IsSound s none v = remachine-IsSound _ _ (end_current-IsSound s 0 v)
  exit_now-IsSound s (some f) v =
      let ended = end_current k (f.rdi % 256) s in
      let v' = end_current-IsSound s (f.rdi % 256) v in
      elim (Option-cases (pick_next ended.current ended)) [
        | inl nobody ↦ rw (nobody, exit_now) (remachine-IsSound _ _ v')
        | inr (next, found) ↦
            rw (found, exit_now)
              (switch_in-IsSound k ended next (pick_next-in ended ended.current next v' found) v')
      ]
