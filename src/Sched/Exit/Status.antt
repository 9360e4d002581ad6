-- ===== src/Sched/Exit/Status.antt =====
-- kernel/sched.c: the way of an exit status to the parent, by `wake_parent_waiter` and `find_zombie`.
use vampire_os.Prelude.{
  ℕ, ◌<◌, ◌≤◌, ◌≡◌, ◌≢◌, refl, inl, inr, Bool, true, false, ◌&&◌, ◌||◌, Option, some, arith, ap,
  ◌⊎◌, ◌∙◌, subst, sym,
}
use vampire_os.Prelude.{◌==◌, length, Bool-cases, Option-cases, get_or-set, length-set}
use vampire_os.Prelude.Int.{ℤ, pos, index?, index?-pos}
use vampire_os.Prelude.Search.{first_from-IsFirst, none-ne-some}
use vampire_os.Sched.Types.{
  Task, TaskState, ready, Sched, is_dead, is_in_wait, no_task, task_at, set_task,
}
use vampire_os.Sched.Kernel.{Kernel}
use vampire_os.Sched.Fd.Frame.{task_at-set_task, task_at-set_task_ne}
use vampire_os.Sched.Exit.{
  child_of, find_zombie, reap_child, show_wait_status, give_status, wake_parent_waiter,
}

-- The parts of a task that its status line does not write.
abbrev pub Status : Type 0
Status = TaskState × ℕ × ℕ × ℤ × ℕ × Bool

abbrev pub status_of : Task → Status
status_of t = (t.state, t.regs.rax, t.wait_pid, t.parent, t.exit_code, t.reaped)

module _ {M : Type 0} (s : Sched M) where
  pub child_of-slot :
      (parent i : ℕ)
      → child_of parent i s ≡ true
      → (i < s.task_count) × ((task_at s i).parent ≡ pos parent) × ((task_at s i).reaped ≡ false)
  unfolding child_of
  child_of-slot parent i h = ground arith

  -- A slot that `find_zombie` returns holds a dead child of the given parent that is still to be
  -- reaped, and is the one asked for unless any child was.
  pub find_zombie-child :
      (parent want i : ℕ)
      → find_zombie parent want s ≡ some i
      → (child_of parent i s ≡ true)
        × (is_dead (task_at s i).state ≡ true)
        × ((want ≡ 0) ⊎ (want ≡ i))
  unfolding find_zombie
  find_zombie-child parent want i h = elim (Bool-cases (want == 0)) [
    | inl any ↦
        let test = λ (j : ℕ). child_of parent j s && is_dead (task_at s j).state in
        let first = first_from-IsFirst s.task_count 0 test (rw any at h) in
        let passes : (child_of parent i s && is_dead (task_at s i).state) ≡ true = first.passes in
        (ground arith, ground arith, inl (ground arith))
    | inr one ↦ elim (Bool-cases (child_of parent want s && is_dead (task_at s want).state)) [
      | inl is_it ↦
          let e : ◌≡◌ {A = Option ℕ} (some want) (some i) = rw (one, is_it) at h in
          let same : want ≡ i = cc in
          let split : (x y : Bool) → (x && y) ≡ true → (x ≡ true) × (y ≡ true) =
            λ x y g. ground arith in
          let both = split (child_of parent want s) (is_dead (task_at s want).state) is_it in
          (
            subst (λ j. child_of parent j s ≡ true) same both.0,
            subst (λ j. is_dead (task_at s j).state ≡ true) same both.1,
            inr same,
          )
      | inr not_it ↦ absurd (none-ne-some (rw (one, not_it) at h))
    ]
  ]

module _ {M : Type 0} (k : Kernel M) where
  pub status_of-show_wait_status :
      (s : Sched M) (i code j : ℕ)
      → status_of (task_at (show_wait_status k i code s) j) ≡ status_of (task_at s j)
  unfolding show_wait_status
  status_of-show_wait_status s i code j =
      let t : Task = record (task_at s i) { seen_status = true; shown_status = code } in
      elim (Bool-cases ((task_at s i).seen_status && ((task_at s i).shown_status == code))) [
        | inl shown ↦ rw shown refl
        | inr new ↦ rw new (ground (arith, get_or-set s.tasks i t j no_task))
      ]

  fds-show_wait_status :
      (s : Sched M) (i code j : ℕ)
      → (task_at (show_wait_status k i code s) j).fds ≡ (task_at s j).fds
  unfolding show_wait_status
  fds-show_wait_status s i code j =
      let t : Task = record (task_at s i) { seen_status = true; shown_status = code } in
      elim (Bool-cases ((task_at s i).seen_status && ((task_at s i).shown_status == code))) [
        | inl again ↦ rw again refl
        | inr new ↦ rw new (ground (arith, get_or-set s.tasks i t j no_task))
      ]

  fds-give_status :
      (s : Sched M) (child p code j : ℕ)
      → (task_at (give_status k child p code s) j).fds ≡ (task_at s j).fds
  unfolding give_status reap_child
  fds-give_status s child p code j =
      let c = record (task_at s child) { reaped = true } in
      let s1 = set_task s child c in
      let w = task_at s1 p in
      let q = record w { state = ready; regs = record (w.regs) { rax = code }; wait_pid = 0 } in
      fds-show_wait_status (set_task s1 p q) p code j
      ∙ ground (arith, get_or-set s1.tasks p q j no_task, get_or-set s.tasks child c j no_task)

  -- A wake writes to no descriptor.
  pub fds-wake_parent_waiter :
      (s : Sched M) (child code j : ℕ)
      → (task_at (wake_parent_waiter k child code s) j).fds ≡ (task_at s j).fds
  unfolding wake_parent_waiter
  fds-wake_parent_waiter s child code j =
      elim (Option-cases (index? (task_at s child).parent s.task_count)) [
        | inl orphan ↦ rw (orphan, wake_parent_waiter) refl
        | inr (p, found) ↦
            let w = task_at s p in
            elim (Bool-cases (is_in_wait w.state && ((w.wait_pid == 0) || (w.wait_pid == child)))) [
              | inl waits ↦ rw (found, wake_parent_waiter, waits) (fds-give_status s child p code j)
              | inr other ↦ rw (found, wake_parent_waiter, other) refl
            ]
      ]

  -- A status given to a parent that waits.
  give_status-parent :
      (s : Sched M) (child p code : ℕ)
      → child < length s.tasks
      → p < length s.tasks
      → child ≢ p
      → (let t = give_status k child p code s in
          ((task_at t p).state ≡ ready)
          × ((task_at t p).regs.rax ≡ code)
          × ((task_at t p).wait_pid ≡ 0)
          × ((task_at t child).reaped ≡ true)
          × ((task_at t child).state ≡ (task_at s child).state))
  unfolding give_status reap_child
  give_status-parent s child p code hc hp ne =
      let c = record (task_at s child) { reaped = true } in
      let s1 = set_task s child c in
      let w = task_at s1 p in
      let q = record w { state = ready; regs = record (w.regs) { rax = code }; wait_pid = 0 } in
      let s2 = set_task s1 p q in
      let at_p =
        status_of-show_wait_status s2 p code p
        ∙ ap status_of (task_at-set_task s1 p q (omega (arith, length-set s.tasks child c))) in
      let at_child =
        status_of-show_wait_status s2 p code child
        ∙ ap status_of (task_at-set_task_ne s1 p child q (λ e. ne (sym e)))
        ∙ ap status_of (task_at-set_task s child c hc) in
      (
        ap (λ (x : Status). x.0) at_p,
        ap (λ (x : Status). x.1) at_p,
        ap (λ (x : Status). x.2) at_p,
        ap (λ (x : Status). x.5) at_child,
        ap (λ (x : Status). x.0) at_child,
      )

  -- The end of a task whose parent waits for it, or for any child.
  pub wake_parent_waiter-delivers :
      (s : Sched M) (child p code : ℕ)
      → s.task_count ≤ length s.tasks
      → child < s.task_count
      → (task_at s child).parent ≡ pos p
      → p < s.task_count
      → child ≢ p
      → is_in_wait (task_at s p).state ≡ true
      → (((task_at s p).wait_pid == 0) || ((task_at s p).wait_pid == child)) ≡ true
      → (let t = wake_parent_waiter k child code s in
          ((task_at t p).state ≡ ready)
          × ((task_at t p).regs.rax ≡ code)
          × ((task_at t p).wait_pid ≡ 0)
          × ((task_at t child).reaped ≡ true)
          × ((task_at t child).state ≡ (task_at s child).state))
  unfolding wake_parent_waiter
  wake_parent_waiter-delivers s child p code fits hc parent hp ne waits wants =
      let found = ap (λ (i : ℤ). index? i s.task_count) parent ∙ index?-pos p s.task_count hp in
      rw (found, wake_parent_waiter, waits, wants)
        (give_status-parent s child p code (omega arith) (omega arith) ne)
