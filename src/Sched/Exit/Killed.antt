-- ===== src/Sched/Exit/Killed.antt =====
-- kernel/sched.c: the task and its parent after `kill_task`.
use vampire_os.Prelude.{
  ℕ, ◌<◌, ◌≤◌, ◌≡◌, ◌≢◌, refl, inl, inr, Bool, true, false, ◌&&◌, ◌||◌, not, arith, ap, List, ◌∙◌,
  sym, subst,
}
use vampire_os.Prelude.{◌==◌, ltb, length, Bool-cases, get_or, get_or-set, length-set}
use vampire_os.Prelude.Int.{ℤ, pos, index?, index?-pos}
use vampire_os.Prelude.Loop.{for_each_inv}
use vampire_os.Sched.Types.{
  FdEntry, Task, ready, dead, Sched, is_dead, is_in_wait, no_task, task_at, on_task, task_max,
  fd_max, fd_at, no_fd,
}
use vampire_os.Sched.Kernel.{Kernel}
use vampire_os.Sched.Pipe.{wake_waiter, clear_fds, drop_fd}
use vampire_os.Sched.Pipe.Drop.{drop_fd-Keeps}
use vampire_os.Sched.Pipe.Inherit.{clear_fds-IsCounted}
use vampire_os.Sched.Pipe.Rest.{part-clear_fds}
use vampire_os.Sched.Fd.Counted.{IsSound}
use vampire_os.Sched.Fd.Frame.{task_at-set_task, task_at-set_task_ne}
use vampire_os.Sched.Exit.{child_of, wake_parent_waiter, kill_task, killed, drop_fg, free_task_user}
use vampire_os.Sched.Exit.Sound.{free_task_user-IsSound, clear_fds-IsSound}
use vampire_os.Sched.Exit.Status.{wake_parent_waiter-delivers, fds-wake_parent_waiter}

-- Whether a task waits, and for whom.
abbrev Waiting : Type 0
Waiting = Bool × ℕ × ℤ

abbrev waiting : Task → Waiting
waiting t = (is_in_wait t.state, t.wait_pid, t.parent)

waiting-fds : (t : Task) (es : List FdEntry) → waiting (record t { fds = es }) ≡ waiting t
waiting-fds t es = refl

waiting-wake : (p : ℕ) (t : Task) → waiting (wake_waiter p t) ≡ waiting t
unfolding wake_waiter
waiting-wake p t = ground arith

module _ {M : Type 0} (k : Kernel M) where
  count-clear_fds : (i : ℕ) (s : Sched M) → (clear_fds k i s).task_count ≡ s.task_count
  unfolding clear_fds
  count-clear_fds i s =
      for_each_inv (λ (t : Sched M). t.task_count ≡ s.task_count) fd_max (drop_fd k i)
        (λ fd t h kept. (drop_fd-Keeps k t i fd).count ∙ kept) fd_max 0 s (omega arith) refl

  waiting-free_task_user :
      (s : Sched M) (i j : ℕ) → waiting (task_at (free_task_user k i s) j) ≡ waiting (task_at s j)
  unfolding free_task_user
  waiting-free_task_user s i j =
      let t : Task = record (task_at s i) { user_base = 0; brk = 0 } in
      elim (Bool-cases ((task_at s i).cr3 == 0)) [
        | inl unmapped ↦ rw unmapped refl
        | inr mapped ↦ rw mapped (ground (arith, get_or-set s.tasks i t j no_task))
      ]

  count-free_task_user : (s : Sched M) (i : ℕ) → (free_task_user k i s).task_count ≡ s.task_count
  unfolding free_task_user
  count-free_task_user s i = elim (Bool-cases ((task_at s i).cr3 == 0)) [
    | inl unmapped ↦ rw unmapped refl
    | inr mapped ↦ rw mapped refl
  ]

module _ {M : Type 0} (k : Kernel M) (s : Sched M) (v : IsSound s) (i code : ℕ)
    (below : i < s.task_count) (alive : is_dead (task_at s i).state ≡ false) where
  -- The state in which `kill_task` looks at the parent.
  abbrev emptied : Sched M
  emptied = clear_fds k i (free_task_user k i s)

  abbrev ended : Sched M
  ended = drop_fg i (on_task i (killed code) emptied)

  hi : i < task_max
  hi = omega (arith, v.shaped.count_in)

  emptied-slots : length emptied.tasks ≡ task_max
  emptied-slots = (clear_fds-IsSound k _ i hi (free_task_user-IsSound k s i v)).shaped.slots

  count-ended : ended.task_count ≡ s.task_count
  count-ended = count-clear_fds k i (free_task_user k i s) ∙ count-free_task_user k s i

  ended-fits : ended.task_count ≤ length ended.tasks
  ended-fits = omega (
    arith,
    length-set emptied.tasks i (killed code (task_at emptied i)),
    emptied-slots,
    count-ended,
    v.shaped.count_in,
  )

  waiting-emptied : (j : ℕ) → waiting (task_at emptied j) ≡ waiting (task_at s j)
  waiting-emptied j =
      part-clear_fds waiting waiting-fds waiting-wake k i (free_task_user k i s) j
      ∙ waiting-free_task_user k s i j

  ended_self : task_at ended i ≡ killed code (task_at emptied i)
  ended_self =
      task_at-set_task emptied i (killed code (task_at emptied i))
        (omega (arith, emptied-slots, hi))

  waiting-ended : (p : ℕ) → i ≢ p → waiting (task_at ended p) ≡ waiting (task_at s p)
  waiting-ended p ne =
      ap waiting (task_at-set_task_ne emptied i p (killed code (task_at emptied i)) ne)
      ∙ waiting-emptied p

  parent-ended : (task_at ended i).parent ≡ (task_at s i).parent
  parent-ended =
      ap (λ (t : Task). t.parent) ended_self ∙ ap (λ (w : Waiting). w.2) (waiting-emptied i)

  kill_task-ended : kill_task k i code s ≡ wake_parent_waiter k i code ended
  unfolding kill_task
  kill_task-ended =
      let test : (ltb i s.task_count && not (is_dead (task_at s i).state)) ≡ true = ground arith in
      rw test refl

  -- In a state with the invariant of the pipe table, `kill_task` of a task that is not dead leaves
  -- each of its descriptors closed.
  pub kill_task-closed : (f : ℕ) → f < fd_max → (fd_at (kill_task k i code s) i f).used ≡ false
  kill_task-closed f hf =
      let u = free_task_user-IsSound k s i v in
      let closed = (clear_fds-IsCounted k i hi _ u.shaped u.counts).2 in
      let fds =
        ap (λ (t : Sched M). (task_at t i).fds) kill_task-ended
        ∙ fds-wake_parent_waiter k ended i code i
        ∙ ap (λ (t : Task). t.fds) ended_self in
      ap (λ (es : List FdEntry). (get_or es f no_fd).used) fds ∙ closed f hf

  module _ (p : ℕ) (parent : (task_at s i).parent ≡ pos p) (hp : p < s.task_count)
      (ne : i ≢ p) where
    -- In a state with the invariant of the pipe table, where the parent of a task that is not dead
    -- is another slot in use and waits for that task or for any child, `kill_task` makes the parent
    -- ready with the exit code in its rax and nothing more to wait for, and the task is dead and
    -- reaped.
    pub kill_task-wakes :
        is_in_wait (task_at s p).state ≡ true
        → (((task_at s p).wait_pid == 0) || ((task_at s p).wait_pid == i)) ≡ true
        → (let t = kill_task k i code s in
            ((task_at t p).state ≡ ready)
            × ((task_at t p).regs.rax ≡ code)
            × ((task_at t p).wait_pid ≡ 0)
            × ((task_at t i).reaped ≡ true)
            × ((task_at t i).state ≡ dead))
    kill_task-wakes waits wants =
        let w = waiting-ended p ne in
        let in_wait = ap (λ (x : Waiting). x.0) w ∙ waits in
        let pid = ap (λ (x : Waiting). x.1) w in
        let r =
          wake_parent_waiter-delivers k ended i p code ended-fits
            (omega (arith, count-ended, below)) (parent-ended ∙ parent)
            (omega (arith, count-ended, hp)) ne in_wait
            (ap (λ (n : ℕ). (n == 0) || (n == i)) pid ∙ wants) in
        subst
          (λ (t : Sched M).
            ((task_at t p).state ≡ ready)
            × ((task_at t p).regs.rax ≡ code)
            × ((task_at t p).wait_pid ≡ 0)
            × ((task_at t i).reaped ≡ true)
            × ((task_at t i).state ≡ dead))
          (sym kill_task-ended) (r.0, r.1, r.2, r.3, r.4 ∙ ap (λ (t : Task). t.state) ended_self)

    -- A parent that does not wait for the task is left alone.
    unwoken :
        (is_in_wait (task_at s p).state
            && (((task_at s p).wait_pid == 0) || ((task_at s p).wait_pid == i)))
          ≡ false
        → wake_parent_waiter k i code ended ≡ ended
    unfolding wake_parent_waiter
    unwoken busy =
        let w = waiting-ended p ne in
        let found =
          ap (λ (j : ℤ). index? j ended.task_count) (parent-ended ∙ parent)
          ∙ index?-pos p ended.task_count (omega (arith, count-ended, hp)) in
        let test = ap (λ (x : Waiting). x.0 && ((x.1 == 0) || (x.1 == i))) w ∙ busy in
        rw (found, wake_parent_waiter, test) refl

    -- In a state with the invariant of the pipe table, where the parent of a task that is not dead
    -- is another slot in use and does not wait for it, `kill_task` leaves the task as a dead child
    -- of that parent, still to be reaped, with the exit code.
    pub kill_task-zombie :
        (is_in_wait (task_at s p).state
            && (((task_at s p).wait_pid == 0) || ((task_at s p).wait_pid == i)))
          ≡ false
        → (let t = kill_task k i code s in
            (child_of p i t ≡ true)
            × (is_dead (task_at t i).state ≡ true)
            × ((task_at t i).exit_code ≡ code))
    unfolding child_of
    kill_task-zombie busy =
        subst
          (λ (t : Sched M).
            (child_of p i t ≡ true)
            × (is_dead (task_at t i).state ≡ true)
            × ((task_at t i).exit_code ≡ code))
          (sym (kill_task-ended ∙ unwoken busy))
          (
            ground (
              arith,
              count-ended,
              below,
              parent-ended ∙ parent,
              ap (λ (t : Task). t.reaped) ended_self,
            ),
            ap (λ (t : Task). is_dead t.state) ended_self,
            ap (λ (t : Task). t.exit_code) ended_self,
          )
