-- ===== src/Sched/Signal/Sound.antt =====
-- kernel/sched.c: signals, against the invariant of the pipe table.
use vampire_os.Prelude.{
  ℕ, ◌%◌, ◌-◌, ◌^◌, ◌<◌, ◌≡◌, refl, inl, inr, not, ◌&&◌, ◌||◌, Option, none, some, arith,
}
use vampire_os.Prelude.{◌==◌, ltb, Bool-cases, Option-cases}
use vampire_os.Prelude.Int.{ℤ, pos, index?, index?-some, to_int}
use vampire_os.Sched.Types.{
  Regs, Task, Sched, Outcome, resume, halted, idle, is_dead, is_ready, task_at, on_task, task_max,
}
use vampire_os.Sched.Kernel.{Kernel}
use vampire_os.Sched.Fd.Counted.{IsSound}
use vampire_os.Sched.Fd.Frame.{set_task-IsSound}
use vampire_os.Sched.Fd.Frame.{remachine-IsSound}
use vampire_os.Sched.Switch.{from_user}
use vampire_os.Sched.Switch.Sound.{Ends, switch_in-IsSound, wake_blocked-IsSound}
use vampire_os.Sched.Exit.Sound.{kill_task-IsSound, exit_now-IsSound}
use vampire_os.Sched.Signal.{
  Sig, sig_int, sig_term, sig_of, handler_of, set_handler, pending_sig, push_user_u64, die_pending,
  take_bit, post, run_target, mapped_user, enter_handler, deliver_pending, signal_at, sigaction,
  set_result, kill_call, start_handler,
}

module _ {M : Type 0} (k : Kernel M) where
  fds-set_handler : (g : Sig) (h : ℕ) (t : Task) → (set_handler g h t).fds ≡ t.fds
  fds-set_handler sig_int h t = refl
  fds-set_handler sig_term h t = refl

  die_pending-IsSound : (s : Sched M) (f : Regs) → IsSound s → Ends IsSound (die_pending k f s)
  unfolding die_pending
  die_pending-IsSound s f v = exit_now-IsSound k _ _ (set_task-IsSound s v s.current _ refl)

  start_handler-IsSound :
      (s : Sched M) (g : Sig) (h : ℕ) (f : Regs)
      → IsSound s
      → Ends IsSound (start_handler k g h f s)
  unfolding start_handler
  start_handler-IsSound s g h f v =
      let r = push_user_u64 k (task_at s s.current).cr3 (f.rsp - 8) f.rip s.machine in
      elim (Bool-cases (ltb f.rsp 8)) [
        | inl low ↦ rw low (die_pending-IsSound s f v)
        | inr room ↦ elim (Bool-cases (not r.0)) [
          | inl failed ↦ rw (room, failed) (die_pending-IsSound _ f (remachine-IsSound s r.1 v))
          | inr pushed ↦ rw (room, pushed) (remachine-IsSound s r.1 v)
        ]
      ]

  enter_handler-IsSound :
      (s : Sched M) (g : Sig) (h : ℕ) (f : Regs)
      → IsSound s
      → Ends IsSound (enter_handler k g h f s)
  unfolding enter_handler
  enter_handler-IsSound s g h f v =
      let t = task_at s s.current in
      start_handler-IsSound _ g h f
        (set_task-IsSound s v s.current (set_handler g 0 t) (fds-set_handler g 0 t))

  -- `sched_deliver_pending` keeps the invariant of the pipe table, whether nothing is pending, a
  -- handler is entered or the task dies.
  pub deliver_pending-IsSound :
      (s : Sched M) (frame : Option Regs) → IsSound s → Ends IsSound (deliver_pending k frame s)
  unfolding deliver_pending
  deliver_pending-IsSound s none v = v
  deliver_pending-IsSound s (some f) v =
      elim (Bool-cases ((s.task_count == 0) || not (from_user f))) [
        | inl away ↦ rw away v
        | inr user ↦ elim (Option-cases (pending_sig (task_at s s.current).pending)) [
          | inl quiet ↦ rw (user, quiet) v
          | inr (g, posted) ↦
              let s' = on_task s.current (take_bit g) s in
              let v' = set_task-IsSound s v s.current (take_bit g (task_at s s.current)) refl in
              elim (Bool-cases (handler_of g (task_at s s.current) == 0)) [
                | inl fatal ↦ rw (user, posted, fatal) (die_pending-IsSound s' f v')
                | inr caught ↦ rw (user, posted, caught) (enter_handler-IsSound s' g _ f v')
              ]
        ]
      ]

  post-IsSound : (s : Sched M) (i : ℕ) (g : Sig) (code : ℕ) → IsSound s → IsSound (post i g code s)
  unfolding post
  post-IsSound s i g code v = wake_blocked-IsSound _ i (set_task-IsSound s v i _ refl)

  run_target-IsSound :
      (s : Sched M) (i : ℕ) (frame : Option Regs)
      → i < task_max
      → IsSound s
      → Ends IsSound (run_target k i frame s)
  unfolding run_target
  run_target-IsSound s i none h v = v
  run_target-IsSound s i (some f) h v =
      elim (Bool-cases (not (i == s.current) && from_user f && is_ready (task_at s i).state)) [
        | inl switches ↦
            rw switches (switch_in-IsSound k _ i h (set_task-IsSound s v s.current _ refl))
        | inr stays ↦ rw stays v
      ]

  -- `sched_signal_at` keeps the invariant of the pipe table for every target, signal, code and
  -- frame.
  pub signal_at-IsSound :
      (s : Sched M) (pid signo : ℤ) (code : ℕ) (frame : Option Regs)
      → IsSound s
      → Ends IsSound (signal_at k pid signo code frame s).1
  unfolding signal_at
  signal_at-IsSound s pid signo code frame v = elim (Option-cases (sig_of signo)) [
    | inl unknown ↦ rw (unknown, signal_at) v
    | inr (g, known) ↦ elim (Option-cases (index? pid s.task_count)) [
      | inl nowhere ↦ rw (known, signal_at, nowhere) v
      | inr (i, found) ↦ elim (Bool-cases (is_dead (task_at s i).state)) [
        | inl gone ↦ rw (known, signal_at, found, gone) v
        | inr alive ↦
            let hi : i < task_max =
              omega (arith, index?-some pid s.task_count i found, v.shaped.count_in) in
            elim (Bool-cases ((task_at s i).cr3 == 0)) [
              | inl bare ↦
                  rw (known, signal_at, found, alive, bare) (kill_task-IsSound k s i code v)
              | inr mapped ↦
                  rw (known, signal_at, found, alive, mapped)
                    (run_target-IsSound _ i frame hi (post-IsSound s i g code v))
            ]
      ]
    ]
  ]

  pub sigaction-IsSound :
      (s : Sched M) (frame : Option Regs) → IsSound s → Ends IsSound (sigaction k frame s)
  unfolding sigaction
  sigaction-IsSound s none v = v
  sigaction-IsSound s (some f) v = elim (Bool-cases (s.task_count == 0)) [
    | inl nobody ↦ rw nobody v
    | inr some_task ↦ elim (Option-cases (sig_of (to_int (f.rdi % 2 ^ 32)))) [
      | inl unknown ↦ rw (some_task, unknown) v
      | inr (g, known) ↦ elim (Bool-cases (not (f.rsi == 0) && not (mapped_user k f.rsi s))) [
        | inl unmapped ↦ rw (some_task, known, unmapped) v
        | inr fine ↦
            rw (some_task, known, fine)
              (set_task-IsSound s v s.current (set_handler g f.rsi (task_at s s.current))
                (fds-set_handler g f.rsi (task_at s s.current)))
      ]
    ]
  ]

  set_result-IsSound :
      (v : ℕ) (out : Outcome M) → Ends IsSound out → Ends IsSound (set_result v out)
  set_result-IsSound v (resume (some f) s) h = h
  set_result-IsSound v (resume none s) h = h
  set_result-IsSound v (halted s) h = h
  set_result-IsSound v (idle s) h = h

  pub kill_call-IsSound :
      (s : Sched M) (frame : Option Regs) → IsSound s → Ends IsSound (kill_call k frame s)
  unfolding kill_call
  kill_call-IsSound s none v = v
  kill_call-IsSound s (some f) v =
      set_result-IsSound _ _
        (signal_at-IsSound s (to_int (f.rdi % 2 ^ 32)) (pos 15) (f.rsi % 256) (some f) v)
