-- ===== src/Sched/Block/Sound.antt =====
-- kernel/sched.c: the calls that block or wait, against the invariant of the pipe table.
use vampire_os.Prelude.{ℕ, ◌%◌, ◌^◌, ◌≡◌, refl, inl, inr, not, Option, none, some, List}
use vampire_os.Prelude.{◌==◌, Bool-cases, Option-cases}
use vampire_os.Prelude.Int.{ℤ, pos, to_int, negsuc}
use vampire_os.Sched.Types.{Regs, Task, Sched, task_at, on_task}
use vampire_os.Sched.Kernel.{Kernel}
use vampire_os.Sched.Fd.Counted.{IsSound}
use vampire_os.Sched.Fd.Frame.{set_task-IsSound}
use vampire_os.Sched.Fd.Frame.{remachine-IsSound}
use vampire_os.Sched.Switch.{save_task, yield_now}
use vampire_os.Sched.Switch.Sound.{Ends, Quiet, run_next-IsSound, switch_to_next-IsSound}
use vampire_os.Sched.Exit.{find_zombie, has_child, reap_child}
use vampire_os.Sched.Exit.Sound.{show_wait_status-IsSound}
use vampire_os.Sched.Signal.{has_pending}
use vampire_os.Sched.Block.{park, block_pipe, block_kbd, sleep_ticks, wait_child, wait_want}
use vampire_os.Sched.Signal.Sound.{deliver_pending-IsSound}

module _ {M : Type 0} (k : Kernel M) where
  park-IsSound :
      (mark unmark : Task → Task) (before : Sched M → Sched M) (irqs : List (Sched M → Sched M))
      (f : Regs) (s : Sched M)
      → ((t : Task) → (mark t).fds ≡ t.fds)
      → ((t : Task) → (unmark t).fds ≡ t.fds)
      → ((t : Sched M) → IsSound t → IsSound (before t))
      → Quiet irqs
      → IsSound s
      → Ends IsSound (park k mark unmark before irqs f s)
  unfolding park
  park-IsSound mark unmark before irqs f s keep_mark keep_unmark keep q v =
      let saved = save_task s.current f s in
      let vs = set_task-IsSound s v s.current (record (task_at s s.current) { regs = f }) refl in
      let parked = on_task s.current mark saved in
      let vp = set_task-IsSound saved vs s.current (mark (task_at saved s.current)) (keep_mark _) in
      elim (Bool-cases (has_pending parked.current parked)) [
        | inl late ↦ rw late (
            deliver_pending-IsSound k _ (some f) (
              set_task-IsSound parked vp s.current (unmark (task_at parked s.current))
                (keep_unmark _)))
        | inr quiet ↦ rw quiet (run_next-IsSound k irqs _ q (keep parked vp))
      ]

  pub block_pipe-IsSound :
      (irqs : List (Sched M → Sched M)) (s : Sched M) (frame : Option Regs) (pipe_id : ℤ)
      → Quiet irqs
      → IsSound s
      → Ends IsSound (block_pipe k irqs frame pipe_id s)
  unfolding block_pipe
  block_pipe-IsSound irqs s none pipe_id q v = v
  block_pipe-IsSound irqs s (some f) pipe_id q v = elim (Bool-cases (s.task_count == 0)) [
    | inl nobody ↦ rw nobody v
    | inr some_task ↦ elim (Bool-cases (has_pending s.current s)) [
      | inl posted ↦ rw (some_task, posted) (deliver_pending-IsSound k s (some f) v)
      | inr quiet ↦
          rw (some_task, quiet) (park-IsSound _ _ _ irqs f s (λ t. refl) (λ t. refl) (λ t w. w) q v)
    ]
  ]

  pub block_kbd-IsSound :
      (irqs : List (Sched M → Sched M)) (s : Sched M) (frame : Option Regs)
      → Quiet irqs
      → IsSound s
      → Ends IsSound (block_kbd k irqs frame s)
  unfolding block_kbd
  block_kbd-IsSound irqs s none q v = v
  block_kbd-IsSound irqs s (some f) q v = elim (Bool-cases (s.task_count == 0)) [
    | inl nobody ↦ rw nobody v
    | inr some_task ↦ elim (Bool-cases (has_pending s.current s)) [
      | inl posted ↦ rw (some_task, posted) (deliver_pending-IsSound k s (some f) v)
      | inr quiet ↦ elim (Bool-cases (k.stdin_ready s.machine)) [
        | inl typed ↦ rw (some_task, quiet, typed) v
        | inr empty ↦
            rw (some_task, quiet, empty)
              (park-IsSound _ _ _ irqs f s (λ t. refl) (λ t. refl) (λ t w. remachine-IsSound t _ w)
                q v)
      ]
    ]
  ]

  pub yield_now-IsSound :
      (s : Sched M) (frame : Option Regs) → IsSound s → Ends IsSound (yield_now k frame s)
  unfolding yield_now
  yield_now-IsSound s frame v = switch_to_next-IsSound k s frame v

  pub sleep_ticks-IsSound :
      (irqs : List (Sched M → Sched M)) (s : Sched M) (frame : Option Regs) (n : ℕ)
      → Quiet irqs
      → IsSound s
      → Ends IsSound (sleep_ticks k irqs frame n s)
  unfolding sleep_ticks
  sleep_ticks-IsSound irqs s none n q v = v
  sleep_ticks-IsSound irqs s (some f) n q v = elim (Bool-cases (has_pending s.current s)) [
    | inl posted ↦ rw posted (deliver_pending-IsSound k s (some f) v)
    | inr quiet ↦ elim (Bool-cases (n == 0)) [
      | inl none_left ↦ rw (quiet, none_left) (yield_now-IsSound s (some f) v)
      | inr some_left ↦
          rw (quiet, some_left) (park-IsSound _ _ _ irqs f s (λ t. refl) (λ t. refl) (λ t w. w) q v)
    ]
  ]

  wait_want-IsSound :
      (irqs : List (Sched M → Sched M)) (s : Sched M) (f : Regs) (want : ℤ)
      → Quiet irqs
      → IsSound s
      → Ends IsSound (wait_want k irqs f want s)
  unfolding wait_want reap_child
  wait_want-IsSound irqs s f (negsuc n) q v = v
  wait_want-IsSound irqs s f (pos want) q v = elim (Option-cases (find_zombie s.current want s)) [
    | inr (child, found) ↦
        rw (found, wait_want)
          (show_wait_status-IsSound k _ s.current (task_at s child).exit_code
            (set_task-IsSound s v child _ refl))
    | inl nobody ↦ elim (Bool-cases (not (has_child s.current want s))) [
      | inl childless ↦ rw (nobody, wait_want, childless) v
      | inr waits ↦
          rw (nobody, wait_want, waits)
            (park-IsSound _ _ _ irqs f s (λ t. refl) (λ t. refl) (λ t w. w) q v)
    ]
  ]

  pub wait_child-IsSound :
      (irqs : List (Sched M → Sched M)) (s : Sched M) (frame : Option Regs)
      → Quiet irqs
      → IsSound s
      → Ends IsSound (wait_child k irqs frame s)
  unfolding wait_child
  wait_child-IsSound irqs s none q v = v
  wait_child-IsSound irqs s (some f) q v = elim (Bool-cases (has_pending s.current s)) [
    | inl posted ↦ rw posted (deliver_pending-IsSound k s (some f) v)
    | inr quiet ↦ rw quiet (wait_want-IsSound irqs s f (to_int (f.rdi % 2 ^ 32)) q v)
  ]
