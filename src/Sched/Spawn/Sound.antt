-- ===== src/Sched/Spawn/Sound.antt =====
-- kernel/sched.c: new tasks, against the invariant of the pipe table.
use vampire_os.Prelude.{
  ℕ, ◌+◌, ◌<◌, ◌≡◌, ◌⊎◌, ◌-◌, refl, inl, inr, true, false, ◌||◌, Option, none, some, arith, sym,
  subst,
}
use vampire_os.Prelude.{◌==◌, ltb, leb, if◌then◌else◌, set, Bool-cases, Option-cases}
use vampire_os.Prelude.Int.{ℤ, pos, minus_one}
use vampire_os.Prelude.Loop.{for_each_inv}
use vampire_os.Prelude.Search.{first_from, first_from-IsFirst, none-ne-some}
use native.Mathlib.Decide.{ℕ_discrete}
use vampire_os.Sched.Types.{
  Regs, FdEntry, Sched, console_r, console_w, is_pipe_end, is_dead, fd_at, set_fd, task_at, fd_max,
  task_max,
}
use vampire_os.Sched.Kernel.{Kernel}
use vampire_os.Sched.Pipe.{bind_console, bind_console_std}
use vampire_os.Sched.Pipe.Attach.{
  HoldsNone, HoldsNone-of_unused, HoldsNone-of_other, set_fd-IsCounted, fd_at-set_fd,
  fd_at-set_fd_ne,
}
use vampire_os.Sched.Pipe.Inherit.{clear_fds-IsCounted, inherit_fds-IsCounted}
use vampire_os.Sched.Pipe.Drop.{Keeps-IsShaped, Keeps-set_fd}
use vampire_os.Sched.Fd.Counted.{IsSound}
use vampire_os.Sched.Fd.Frame.{set_task-IsSound, statics-IsSound}
use vampire_os.Sched.Fd.Frame.{remachine-IsSound}
use vampire_os.Sched.Exit.{slot_reusable, free_task_kstack, free_task_pml4}
use vampire_os.Sched.Exit.Sound.{free_task_user-IsSound}
use vampire_os.Sched.Spawn.{free_slot, base_busy, reclaim, take_slot, add_user, fork_task}

module _ {M : Type 0} where
  -- A free slot is one that can be used again, or the first that was never used.
  pub free_slot-cases :
      (s : Sched M) (i : ℕ)
      → free_slot s ≡ some i
      → ((i < s.task_count) × (slot_reusable (task_at s i) ≡ true))
        ⊎ ((i ≡ s.task_count) × (s.task_count < task_max))
  unfolding free_slot
  free_slot-cases s i h =
      let p = λ (j : ℕ). slot_reusable (task_at s j) in
      elim (Option-cases (first_from s.task_count 0 p)) [
        | inl full ↦ elim (Bool-cases (leb task_max s.task_count)) [
          | inl over ↦ absurd (none-ne-some (rw (full, free_slot, over) at h))
          | inr room ↦
              let e : ◌≡◌ {A = Option ℕ} (some s.task_count) (some i) =
                rw (full, free_slot, room) at h in
              inr (cc, ground arith)
        ]
        | inr (j, found) ↦
            let e : ◌≡◌ {A = Option ℕ} (some j) (some i) = rw (found, free_slot) at h in
            let same : j ≡ i = cc in
            let first = first_from-IsFirst s.task_count 0 p found in
            inl (
              subst (λ x. (x < s.task_count) × (slot_reusable (task_at s x) ≡ true)) same
                (omega (arith, first.below), first.passes))
      ]

  pub free_slot-in : (s : Sched M) (i : ℕ) → IsSound s → free_slot s ≡ some i → i < task_max
  free_slot-in s i v h = omega (arith, free_slot-cases s i h, v.shaped.count_in)

module _ {M : Type 0} (k : Kernel M) where
  free_task_kstack-IsSound : (s : Sched M) (i : ℕ) → IsSound s → IsSound (free_task_kstack k i s)
  unfolding free_task_kstack
  free_task_kstack-IsSound s i v = elim (Bool-cases ((task_at s i).kstack_top == 0)) [
    | inl unset_top ↦ rw unset_top v
    | inr top ↦ elim (Bool-cases (k.virt_to_phys ((task_at s i).kstack_top - 0x1000) == 0)) [
      | inl outside ↦ rw (top, outside) (set_task-IsSound s v i _ refl)
      | inr phys ↦ rw (top, phys) (set_task-IsSound _ (remachine-IsSound s _ v) i _ refl)
    ]
  ]

  free_task_pml4-IsSound : (s : Sched M) (i : ℕ) → IsSound s → IsSound (free_task_pml4 k i s)
  unfolding free_task_pml4
  free_task_pml4-IsSound s i v = elim (Bool-cases ((task_at s i).cr3 == 0)) [
    | inl unmapped ↦ rw unmapped v
    | inr mapped ↦ elim (Bool-cases ((task_at s i).cr3 == k.boot_cr3)) [
      | inl boot ↦ rw (mapped, boot) (set_task-IsSound s v i _ refl)
      | inr own ↦ rw (mapped, own) (set_task-IsSound _ (remachine-IsSound s _ v) i _ refl)
    ]
  ]

  pub take_slot-IsSound :
      (s : Sched M) (i : ℕ) → free_slot s ≡ some i → IsSound s → IsSound (take_slot k i s)
  unfolding take_slot reclaim
  take_slot-IsSound s i h v = elim (Bool-cases (ltb i s.task_count)) [
    | inl again ↦
        rw again (
          free_task_pml4-IsSound _ i
            (free_task_kstack-IsSound _ i (free_task_user-IsSound k s i v)))
    | inr fresh ↦ rw fresh (
        statics-IsSound s v s.machine (s.task_count + 1) _ s.last_added s.fg_slot
          (ground (arith, free_slot-cases s i h)) (ground (arith, v.shaped.current_in)))
  ]

  -- A console entry in the place of one that no pipe counts: the task still holds no pipe.
  bind_console-bare :
      (i fd : ℕ) (t : Sched M)
      → i < task_max
      → fd < fd_max
      → IsSound t
      → ((f : ℕ) → f < fd_max → HoldsNone (fd_at t i f))
      → IsSound (bind_console i fd t)
        × ((f : ℕ) → f < fd_max → HoldsNone (fd_at (bind_console i fd t) i f))
  unfolding bind_console
  bind_console-bare i fd t hi h w bare =
      let e : FdEntry = record {
        used = true;
        kind = (if fd == 0 then console_r else console_w);
        pipe = minus_one;
        offset = 0;
        path = set (fd_at t i fd).path 0 0;
      } in
      let no_end : is_pipe_end e.kind ≡ false = elim (Bool-cases (fd == 0)) [
        | inl z ↦ rw z refl
        | inr n ↦ rw n refl
      ] in
      (
        record {
          shaped = Keeps-IsShaped (Keeps-set_fd t i fd e) w.shaped;
          counts =
              set_fd-IsCounted t i fd w.shaped w.counts hi h (bare fd h) e
                (HoldsNone-of_other e no_end);
        },
        λ f hf. elim (ℕ_discrete fd f) [
          | yes same ↦
              subst (λ g. HoldsNone (fd_at (set_fd t i fd e) i g)) same
                (subst HoldsNone
                  (sym (
                    fd_at-set_fd t i fd e (omega (arith, w.shaped.slots))
                      (omega (arith, w.shaped.entries i hi))))
                  (HoldsNone-of_other e no_end))
          | no other ↦
              subst HoldsNone
                (sym (fd_at-set_fd_ne t i fd f e (omega (arith, w.shaped.slots)) other)) (bare f hf)
        ],
      )

  -- The console entries hold no pipe.
  bind_console_std-IsSound :
      (s : Sched M) (i : ℕ)
      → i < task_max
      → IsSound s
      → ((f : ℕ) → f < fd_max → (fd_at s i f).used ≡ false)
      → IsSound (bind_console_std i s)
  unfolding bind_console_std
  bind_console_std-IsSound s i hi v closed =
      (for_each_inv Bare fd_max (bind_console i) round 3 0 s (omega arith)
        (v, λ f h. HoldsNone-of_unused (fd_at s i f) (closed f h))).0
    where
      Bare : Sched M → Type 0
      Bare t = IsSound t × ((f : ℕ) → f < fd_max → HoldsNone (fd_at t i f))

      round : (fd : ℕ) (t : Sched M) → fd < fd_max → Bare t → Bare (bind_console i fd t)
      round fd t h (w, bare) = bind_console-bare i fd t hi h w bare

  -- `sched_add_user` keeps the invariant of the pipe table, refused or not, in a used slot or a
  -- fresh one.
  pub add_user-IsSound :
      (rip rsp top : ℕ) (row : ℤ) (base root : ℕ) (s : Sched M)
      → IsSound s
      → IsSound (add_user k rip rsp top row base root s).1
  unfolding add_user
  add_user-IsSound rip rsp top row base root s v =
      elim (Bool-cases (
        (top == 0)
        || (base == 0)
        || (root == 0)
        || (root == k.boot_cr3)
        || base_busy base root s)) [
          | inl refused ↦ rw refused v
          | inr fine ↦ elim (Option-cases (free_slot s)) [
            | inl full ↦ rw (fine, full) v
            | inr (i, slot) ↦
                let hi = free_slot-in s i v slot in
                let v1 = take_slot-IsSound s i slot v in
                let v2 = set_task-IsSound _ v1 i _ refl in
                let r = clear_fds-IsCounted k i hi _ v2.shaped v2.counts in
                let v3 =
                  bind_console_std-IsSound _ i hi (record { shaped = r.0; counts = r.1 }) r.2 in
                rw (fine, slot)
                  (statics-IsSound _ v3 _ _ _ (pos i) _ v3.shaped.count_in v3.shaped.current_in)
          ]
        ]

  -- `sched_fork` keeps the invariant of the pipe table, refused or not: the child's copies of pipe
  -- ends are counted.
  pub fork_task-IsSound :
      (frame : Option Regs) (top root : ℕ) (s : Sched M)
      → IsSound s
      → IsSound (fork_task k frame top root s).1
  unfolding fork_task
  fork_task-IsSound none top root s v = v
  fork_task-IsSound (some f) top root s v =
      let p = task_at s s.current in
      elim (Bool-cases (
        (s.task_count == 0)
        || (top == 0)
        || (root == 0)
        || (root == k.boot_cr3)
        || is_dead p.state
        || (p.cr3 == 0)
        || (p.cr3 == root))) [
          | inl refused ↦ rw refused v
          | inr fine ↦ elim (Option-cases (free_slot s)) [
            | inl full ↦ rw (fine, full) v
            | inr (i, slot) ↦
                let hi = free_slot-in s i v slot in
                let v1 = take_slot-IsSound s i slot v in
                let v2 = set_task-IsSound _ v1 i _ refl in
                let r = clear_fds-IsCounted k i hi _ v2.shaped v2.counts in
                let c = inherit_fds-IsCounted i s.current hi _ r.0 r.1 r.2 in
                rw (fine, slot)
                  (statics-IsSound _ (record { shaped = c.0; counts = c.1 }) _ _ _ (pos i) _
                    c.0.count_in c.0.current_in)
          ]
        ]
