-- ===== src/Sched/Exit/Next.antt =====
-- kernel/sched.c: what runs after `sched_exit`.
use vampire_os.Prelude.{
  ℕ, ◌%◌, ◌<◌, ◌≡◌, refl, inl, inr, true, false, ◌&&◌, ◌||◌, not, none, some, arith, ◌∙◌,
}
use vampire_os.Prelude.{◌==◌, ltb, Bool-cases, Option-cases}
use vampire_os.Prelude.Int.{index?}
use vampire_os.Prelude.Loop.{for_each_inv}
use vampire_os.Sched.Types.{
  Regs, Sched, Outcome, resume, halted, idle, is_dead, is_ready, is_in_wait, task_at, on_task,
  fd_max,
}
use vampire_os.Sched.Kernel.{Kernel}
use vampire_os.Sched.Pipe.{clear_fds, drop_fd}
use vampire_os.Sched.Pipe.Drop.{drop_fd-Keeps}
use vampire_os.Sched.Switch.{pick_next, switch_in}
use vampire_os.Sched.Switch.RoundRobin.{pick_next-ready, pick_next-none}
use vampire_os.Sched.Exit.{
  free_task_user, show_wait_status, wake_parent_waiter, give_status, reap_child, kill_task, killed,
  drop_fg, end_current, exit_now,
}

-- The slots in use and the current one are the same.
abbrev Slots : {M : Type 0} → Sched M → Sched M → Type 0
Slots s t = (t.task_count ≡ s.task_count) × (t.current ≡ s.current)

module _ {M : Type 0} (k : Kernel M) where
  clear_fds-Slots : (i : ℕ) (s : Sched M) → Slots s (clear_fds k i s)
  unfolding clear_fds
  clear_fds-Slots i s =
      for_each_inv (Slots s) fd_max (drop_fd k i)
        (λ fd t h kept. let r = drop_fd-Keeps k t i fd in (r.count ∙ kept.0, r.slot ∙ kept.1))
        fd_max 0 s (omega arith) (refl, refl)

  free_task_user-Slots : (i : ℕ) (s : Sched M) → Slots s (free_task_user k i s)
  unfolding free_task_user
  free_task_user-Slots i s = elim (Bool-cases ((task_at s i).cr3 == 0)) [
    | inl unmapped ↦ rw unmapped (refl, refl)
    | inr mapped ↦ rw mapped (refl, refl)
  ]

  show_wait_status-Slots : (i code : ℕ) (s : Sched M) → Slots s (show_wait_status k i code s)
  unfolding show_wait_status
  show_wait_status-Slots i code s =
      elim (Bool-cases ((task_at s i).seen_status && ((task_at s i).shown_status == code))) [
        | inl shown ↦ rw shown (refl, refl)
        | inr new ↦ rw new (refl, refl)
      ]

  give_status-Slots : (child p code : ℕ) (s : Sched M) → Slots s (give_status k child p code s)
  unfolding give_status reap_child
  give_status-Slots child p code s = show_wait_status-Slots p code _

  wake_parent_waiter-Slots :
      (child code : ℕ) (s : Sched M) → Slots s (wake_parent_waiter k child code s)
  unfolding wake_parent_waiter
  wake_parent_waiter-Slots child code s =
      elim (Option-cases (index? (task_at s child).parent s.task_count)) [
        | inl orphan ↦ rw (orphan, wake_parent_waiter) (refl, refl)
        | inr (p, found) ↦
            let w = task_at s p in
            elim (Bool-cases (is_in_wait w.state && ((w.wait_pid == 0) || (w.wait_pid == child)))) [
              | inl waits ↦ rw (found, wake_parent_waiter, waits) (give_status-Slots child p code s)
              | inr other ↦ rw (found, wake_parent_waiter, other) (refl, refl)
            ]
      ]

  kill_task-Slots : (i code : ℕ) (s : Sched M) → Slots s (kill_task k i code s)
  unfolding kill_task
  kill_task-Slots i code s =
      elim (Bool-cases (ltb i s.task_count && not (is_dead (task_at s i).state))) [
        | inl alive ↦
            let freed = free_task_user k i s in
            let emptied = clear_fds k i freed in
            let ended = drop_fg i (on_task i (killed code) emptied) in
            let a = free_task_user-Slots i s in
            let b = clear_fds-Slots i freed in
            let c = wake_parent_waiter-Slots i code ended in
            rw alive (c.0 ∙ b.0 ∙ a.0, c.1 ∙ b.1 ∙ a.1)
        | inr gone ↦ rw gone (refl, refl)
      ]

  end_current-Slots : (code : ℕ) (s : Sched M) → Slots s (end_current k code s)
  unfolding end_current
  end_current-Slots code s = elim (Bool-cases (s.task_count == 0)) [
    | inl nobody ↦ rw nobody (refl, refl)
    | inr some_task ↦ rw some_task (kill_task-Slots s.current code _)
  ]

-- An end that leaves a ready task current with its own registers in the frame, or a halt with no slot
-- in use ready.
abbrev pub RunsReady : {M : Type 0} → Outcome M → Type 0
RunsReady (resume none s) = ⊥
RunsReady (resume (some f) s) =
    (f ≡ (task_at s s.current).regs)
    × (s.current < s.task_count)
    × (is_ready (task_at s s.current).state ≡ true)
RunsReady (halted s) = (j : ℕ) → j < s.task_count → is_ready (task_at s j).state ≡ false
RunsReady (idle s) = ⊥

module _ {M : Type 0} (k : Kernel M) where
  -- Where the current slot is in use, `sched_exit` with a frame either returns with a ready slot in
  -- use as the current one and its registers in the frame, or halts with no slot in use ready.
  pub exit_now-RunsReady :
      (s : Sched M) (f : Regs) → s.current < s.task_count → RunsReady (exit_now k (some f) s)
  unfolding exit_now switch_in
  exit_now-RunsReady s f inside =
      let ended = end_current k (f.rdi % 256) s in
      let same = end_current-Slots k (f.rdi % 256) s in
      elim (Option-cases (pick_next ended.current ended)) [
        | inl nobody ↦
            rw (nobody, exit_now)
              (pick_next-none ended ended.current (omega (arith, same, inside)) nobody)
        | inr (next, found) ↦
            let r = pick_next-ready ended ended.current next found in
            rw (found, exit_now) (refl, r.0, r.1)
      ]
