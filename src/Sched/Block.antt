-- ===== src/Sched/Block.antt =====
-- kernel/sched.c: the calls that block or wait.
pub mod Sound
pub mod Wait
pub mod Parked
use Prim.Native.Nat.{bit_and, bit_or}
use vampire_os.Prelude.{
  ℕ, zero, suc, ◌+◌, ◌-◌, ◌%◌, ◌*◌, ◌/◌, ◌^◌, Bool, true, false, not, ◌&&◌, ◌||◌, Option, none,
  some, List, [], ◌∷◌,
}
use vampire_os.Prelude.{◌==◌, ltb, if◌then◌else◌}
use vampire_os.Prelude.Int.{ℤ, pos, negsuc, minus_one, ◌==ℤ◌, index?, to_int}
use vampire_os.Prelude.Loop.{for_each}
use vampire_os.Sched.Types.{
  ready, asleep, in_wait, on_pipe, on_kbd, is_dead, is_ready, TaskState, Regs, Task, Sched, Outcome,
  resume, halted, idle, task_at, on_task, on_machine, page_4k,
}
use vampire_os.Sched.Kernel.{Kernel}
use vampire_os.Sched.Switch.{
  add32, from_user, save_task, wake_blocked, switch_in, run_next, yield_now,
}
use vampire_os.Sched.Exit.{
  find_zombie, has_child, reap_child, show_wait_status, kill_task, exit_now,
}
use vampire_os.Sched.Signal.{has_pending, deliver_pending, with_rax, minus_one64}

module _ {M : Type 0} (k : Kernel M) where
  -- The common tail of the blocking calls: the frame saved and the task marked; a signal that has come
  -- meanwhile takes the mark back and is delivered, else the next task runs.
  unfoldable pub park :
      (mark unmark : Task → Task)
      → (Sched M → Sched M)
      → List (Sched M → Sched M)
      → Regs
      → Sched M
      → Outcome M
  park mark unmark before irqs f s =
      let parked = on_task s.current mark (save_task s.current f s) in
      if has_pending parked.current parked
      then deliver_pending k (some f) (on_task s.current unmark parked)
      else run_next k irqs (before parked)

  -- `sched_block_pipe`
  unfoldable pub block_pipe : List (Sched M → Sched M) → Option Regs → ℤ → Sched M → Outcome M
  block_pipe irqs none pipe_id s = resume none s
  block_pipe irqs (some f) pipe_id s =
      if s.task_count == 0
      then resume (some f) s
      else if has_pending s.current s
      then deliver_pending k (some f) s
      else park (λ t. record t { state = on_pipe; pipe_wait = pipe_id })
          (λ t. record t { state = ready; pipe_wait = minus_one }) (λ x. x) irqs f s

  -- `sched_block_kbd`
  unfoldable pub block_kbd : List (Sched M → Sched M) → Option Regs → Sched M → Outcome M
  block_kbd irqs none s = resume none s
  block_kbd irqs (some f) s =
      if s.task_count == 0
      then resume (some f) s
      else if has_pending s.current s
      then deliver_pending k (some f) s
      else if k.stdin_ready s.machine
      then resume (some f) s
      else park (λ t. record t { state = on_kbd; pipe_wait = minus_one })
          (λ t. record t { state = ready }) (on_machine k.stdin_prompt) irqs f s

  -- `sched_sleep`
  unfoldable pub sleep_ticks : List (Sched M → Sched M) → Option Regs → ℕ → Sched M → Outcome M
  sleep_ticks irqs none n s = resume none s
  sleep_ticks irqs (some f) n s =
      if has_pending s.current s
      then deliver_pending k (some f) s
      else if n == 0
      then yield_now k (some f) s
      else let wake = add32 (k.ticks s.machine) (n % 2 ^ 32) in
        park (λ t. record t { state = asleep; wake_tick = wake })
          (λ t. record t { state = ready; wake_tick = 0 }) (λ x. x) irqs f s

  -- The part of `sched_wait` behind its guards.
  unfoldable pub wait_want : List (Sched M → Sched M) → Regs → ℤ → Sched M → Outcome M
  wait_want irqs f (negsuc _) s = resume (some (with_rax minus_one64 f)) s
  wait_want irqs f (pos want) s = elim (find_zombie s.current want s) [
    | some child ↦
        let code = (task_at s child).exit_code in
        resume (some (with_rax code f)) (show_wait_status k s.current code (reap_child child s))
    | none ↦
        if not (has_child s.current want s)
        then resume (some (with_rax minus_one64 f)) s
        else park (λ t. record t { state = in_wait; wait_pid = want })
            (λ t. record t { state = ready; wait_pid = 0 }) (λ x. x) irqs f s
  ]

  -- `sched_wait`, with `want` read from rdi.
  unfoldable pub wait_child : List (Sched M → Sched M) → Option Regs → Sched M → Outcome M
  wait_child irqs none s = resume none s
  wait_child irqs (some f) s =
      if has_pending s.current s
      then deliver_pending k (some f) s
      else wait_want irqs f (to_int (f.rdi % 2 ^ 32)) s
