-- ===== src/Sched/Switch/Sound.antt =====
-- kernel/sched.c: switching, sleeping and waking, against the invariant of the pipe table.
use vampire_os.Prelude.{
  ℕ, ◌<◌, ◌≡◌, refl, inl, inr, not, ◌&&◌, Option, none, some, List, [], ◌∷◌, arith,
}
use vampire_os.Prelude.{◌==◌, if◌then◌else◌, Bool-cases, Option-cases}
use vampire_os.Sched.Types.{
  Regs, Sched, Outcome, resume, halted, idle, is_dead, ready, is_on_kbd, task_at, task_max,
}
use vampire_os.Sched.Kernel.{Kernel}
use vampire_os.Sched.Fd.Counted.{IsSound}
use vampire_os.Sched.Fd.Frame.{set_task-IsSound, statics-IsSound, map_below-IsSound}
use vampire_os.Sched.Fd.Frame.{remachine-IsSound}
use vampire_os.Sched.Switch.{
  from_user, wake_sleeper, pick_next, switch_in, wake_sleepers, wake_kbd, wake_blocked, unblock,
  idle_loop, idle_until_ready, run_next, switch_to_next, charge_tick, on_tick,
}
use vampire_os.Sched.Switch.RoundRobin.{pick_next-ready}

-- What holds of the state in which a call ends, however it ends.
abbrev pub Ends : {M : Type 0} → (Sched M → Type 0) → Outcome M → Type 0
Ends P (resume f s) = P s
Ends P (halted s) = P s
Ends P (idle s) = P s

-- Every interrupt that comes while the kernel idles keeps the invariant.
abbrev pub Quiet : {M : Type 0} → List (Sched M → Sched M) → Type 0
Quiet [] = Unit
Quiet {M} (irq ∷ irqs) = ((s : Sched M) → IsSound s → IsSound (irq s)) × Quiet irqs

module _ {M : Type 0} where
  pub pick_next-in :
      (s : Sched M) (from j : ℕ) → IsSound s → pick_next from s ≡ some j → j < task_max
  pick_next-in s from j v h = omega (arith, (pick_next-ready s from j h).0, v.shaped.count_in)

  pub wake_blocked-IsSound : (s : Sched M) (i : ℕ) → IsSound s → IsSound (wake_blocked i s)
  unfolding wake_blocked unblock
  wake_blocked-IsSound s i v = set_task-IsSound s v i (unblock (task_at s i)) (ground arith)

  pub wake_kbd-IsSound : (s : Sched M) → IsSound s → IsSound (wake_kbd s)
  unfolding wake_kbd
  wake_kbd-IsSound s v =
      map_below-IsSound s v s.task_count
        (λ t. if is_on_kbd t.state then record t { state = ready } else t) (λ t. ground arith)

module _ {M : Type 0} (k : Kernel M) where
  pub switch_in-IsSound :
      (s : Sched M) (i : ℕ) → i < task_max → IsSound s → Ends IsSound (switch_in k i s)
  unfolding switch_in
  switch_in-IsSound s i h v =
      statics-IsSound s v _ s.task_count i s.last_added s.fg_slot v.shaped.count_in h

  pub wake_sleepers-IsSound : (s : Sched M) → IsSound s → IsSound (wake_sleepers k s)
  unfolding wake_sleepers wake_sleeper
  wake_sleepers-IsSound s v =
      map_below-IsSound s v s.task_count (wake_sleeper (k.ticks s.machine)) (λ t. ground arith)

  idle_loop-IsSound :
      (irqs : List (Sched M → Sched M)) (s : Sched M)
      → Quiet irqs
      → IsSound s
      → Ends IsSound (idle_loop k irqs s)
  unfolding idle_loop
  idle_loop-IsSound [] s q v =
      let woken = wake_sleepers k s in
      let w = wake_sleepers-IsSound s v in
      elim (Option-cases (pick_next woken.current woken)) [
        | inl nobody ↦ rw (nobody, idle_loop) w
        | inr (next, found) ↦
            rw (found, idle_loop)
              (switch_in-IsSound woken next (pick_next-in woken woken.current next w found) w)
      ]
  idle_loop-IsSound (irq ∷ irqs) s (q, qs) v =
      let woken = wake_sleepers k s in
      let w = wake_sleepers-IsSound s v in
      elim (Option-cases (pick_next woken.current woken)) [
        | inl nobody ↦ rw (nobody, idle_loop) (idle_loop-IsSound irqs (irq woken) qs (q woken w))
        | inr (next, found) ↦
            rw (found, idle_loop)
              (switch_in-IsSound woken next (pick_next-in woken woken.current next w found) w)
      ]

  pub run_next-IsSound :
      (irqs : List (Sched M → Sched M)) (s : Sched M)
      → Quiet irqs
      → IsSound s
      → Ends IsSound (run_next k irqs s)
  unfolding run_next idle_until_ready
  run_next-IsSound irqs s q v = elim (Option-cases (pick_next s.current s)) [
    | inl nobody ↦ rw (nobody, run_next) (idle_loop-IsSound irqs _ q (remachine-IsSound s _ v))
    | inr (next, found) ↦
        rw (found, run_next) (switch_in-IsSound s next (pick_next-in s s.current next v found) v)
  ]

  pub switch_to_next-IsSound :
      (s : Sched M) (frame : Option Regs) → IsSound s → Ends IsSound (switch_to_next k frame s)
  unfolding switch_to_next
  switch_to_next-IsSound s none v = v
  switch_to_next-IsSound s (some f) v = elim (Option-cases (pick_next s.current s)) [
    | inl nobody ↦ rw (nobody, switch_to_next) v
    | inr (next, found) ↦ elim (Bool-cases (next == s.current)) [
      | inl same ↦ rw (found, switch_to_next, same) v
      | inr other ↦
          rw (found, switch_to_next, other)
            (switch_in-IsSound _ next (pick_next-in s s.current next v found)
              (set_task-IsSound s v s.current _ refl))
    ]
  ]

  charge_tick-IsSound : (s : Sched M) → IsSound s → IsSound (charge_tick s)
  unfolding charge_tick
  charge_tick-IsSound s v =
      elim (Bool-cases (not (s.task_count == 0) && not (is_dead (task_at s s.current).state))) [
        | inl runs ↦ rw runs (set_task-IsSound s v s.current _ refl)
        | inr idles ↦ rw idles v
      ]

  pub on_tick-IsSound :
      (s : Sched M) (frame : Option Regs) → IsSound s → Ends IsSound (on_tick k frame s)
  unfolding on_tick
  on_tick-IsSound s none v = wake_sleepers-IsSound _ (charge_tick-IsSound s v)
  on_tick-IsSound s (some f) v =
      let w = wake_sleepers-IsSound _ (charge_tick-IsSound s v) in
      elim (Bool-cases (from_user f)) [
        | inl user ↦ rw user (switch_to_next-IsSound _ (some f) w)
        | inr kernel ↦ rw kernel w
      ]
