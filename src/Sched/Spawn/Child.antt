-- ===== src/Sched/Spawn/Child.antt =====
-- kernel/sched.c: the child that `sched_fork` makes.
use vampire_os.Prelude.{ℕ, ◌≡◌, refl, inl, inr, ◌||◌, Option, some, arith, ap, List, ◌∙◌, subst}
use vampire_os.Prelude.{◌==◌, Bool-cases, Option-cases}
use vampire_os.Prelude.Int.{ℤ, pos}
use vampire_os.Prelude.Search.{none-ne-some}
use vampire_os.Sched.Types.{FdEntry, Regs, Task, Sched, is_dead, task_at, on_task}
use vampire_os.Sched.Kernel.{Kernel}
use vampire_os.Sched.Pipe.{wake_waiter, clear_fds, inherit_fds}
use vampire_os.Sched.Pipe.Rest.{part-clear_fds, part-inherit_fds}
use vampire_os.Sched.Fd.Counted.{IsSound}
use vampire_os.Sched.Fd.Frame.{task_at-set_task}
use vampire_os.Sched.Spawn.{forked, free_slot, take_slot, fork_task}
use vampire_os.Sched.Spawn.Sound.{free_slot-in, take_slot-IsSound}

-- What the fork decides of the child, its descriptors apart.
abbrev pub identity_of : Task → Regs × ℤ × ℕ × ℕ
identity_of t = (t.regs, t.parent, t.cr3, t.kstack_top)

identity_of-fds :
    (t : Task) (es : List FdEntry) → identity_of (record t { fds = es }) ≡ identity_of t
identity_of-fds t es = refl

identity_of-wake : (p : ℕ) (t : Task) → identity_of (wake_waiter p t) ≡ identity_of t
unfolding wake_waiter
identity_of-wake p t = ground arith

module _ {M : Type 0} (k : Kernel M) where
  child :
      (f : Regs) (top root : ℕ) (s : Sched M) (i : ℕ)
      → IsSound s
      → free_slot s ≡ some i
      → (let taken = take_slot k i s in
          let made = on_task i (forked f top root s.current (task_at taken s.current)) taken in
          identity_of (task_at (inherit_fds i s.current (clear_fds k i made)) i)
          ≡ (record f { rax = 0 }, pos s.current, root, top))
  child f top root s i v slot =
      let taken = take_slot k i s in
      let t = forked f top root s.current (task_at taken s.current) (task_at taken i) in
      let made = on_task i (forked f top root s.current (task_at taken s.current)) taken in
      let w = take_slot-IsSound k s i slot v in
      let hi = free_slot-in s i v slot in
      part-inherit_fds identity_of identity_of-fds identity_of-wake i s.current (clear_fds k i made)
        i
      ∙ part-clear_fds identity_of identity_of-fds identity_of-wake k i made i
      ∙ ap identity_of (task_at-set_task taken i t (omega (arith, w.shaped.slots)))

  -- In a state with the invariant of the pipe table, where `sched_fork` returns a slot, the task
  -- there has the registers of the frame with rax 0, the caller as its parent, and the given page
  -- table and kernel stack.
  pub fork_task-child :
      (f : Regs) (top root : ℕ) (s : Sched M) (i : ℕ)
      → IsSound s
      → (fork_task k (some f) top root s).0 ≡ some i
      → identity_of (task_at (fork_task k (some f) top root s).1 i)
        ≡ (record f { rax = 0 }, pos s.current, root, top)
  unfolding fork_task
  fork_task-child f top root s i v h =
      let p = task_at s s.current in
      elim (Bool-cases (
        (s.task_count == 0)
        || (top == 0)
        || (root == 0)
        || (root == k.boot_cr3)
        || is_dead p.state
        || (p.cr3 == 0)
        || (p.cr3 == root))) [
          | inl refused ↦ absurd (none-ne-some (rw refused at h))
          | inr fine ↦ elim (Option-cases (free_slot s)) [
            | inl full ↦ absurd (none-ne-some (rw (fine, full) at h))
            | inr (j, slot) ↦
                let e : ◌≡◌ {A = Option ℕ} (some j) (some i) = rw (fine, slot) at h in
                let same : j ≡ i = cc in
                rw (fine, slot, same)
                  (child f top root s i v (subst (λ x. free_slot s ≡ some x) same slot))
          ]
        ]
