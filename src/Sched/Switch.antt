-- ===== src/Sched/Switch.antt =====
-- kernel/sched.c: the choice of the next task, the context switch, sleeping and waking.
pub mod RoundRobin
pub mod Sound
use vampire_os.Prelude.{
  ℕ, ◌+◌, ◌-◌, ◌%◌, ◌^◌, Bool, true, false, not, ◌&&◌, ◌||◌, Option, none, some, List, [], ◌∷◌,
}
use vampire_os.Prelude.{map_below, ◌==◌, leb, if◌then◌else◌}
use vampire_os.Prelude.Int.{minus_one}
use vampire_os.Prelude.Search.{first_from}
use vampire_os.Sched.Types.{
  TaskState, ready, is_dead, is_ready, is_asleep, is_in_wait, is_on_pipe, is_on_kbd, Regs, Task,
  Sched, Outcome, resume, idle, task_at, on_task, on_machine,
}
use vampire_os.Sched.Kernel.{Kernel}

-- An `unsigned` sum.
abbrev pub add32 : ℕ → ℕ → ℕ
add32 a b = (a + b) % 2 ^ 32

-- `cs & 3 == 3`: the frame is of ring 3.
abbrev pub from_user : Regs → Bool
from_user f = f.cs % 4 == 3

-- The test and the writes of `wake_blocked`.
unfoldable pub unblock : Task → Task
unblock t =
    if is_asleep t.state || is_in_wait t.state || is_on_pipe t.state || is_on_kbd t.state
    then record t { state = ready; pipe_wait = minus_one; wake_tick = 0 }
    else t

-- The test and the write of `wake_sleepers` at tick `now`.
unfoldable pub wake_sleeper : ℕ → Task → Task
wake_sleeper now t =
    if is_asleep t.state && (leb t.wake_tick now || not (t.pending == 0))
    then record t { state = ready }
    else t

module _ {M : Type 0} where
  abbrev pub save_task : ℕ → Regs → Sched M → Sched M
  save_task i f s = on_task i (λ t. record t { regs = f }) s

  -- `pick_next`: the ready task that comes first behind `from`, round the slots in use.
  unfoldable pub pick_next : ℕ → Sched M → Option ℕ
  pick_next from s =
      elim (first_from s.task_count 1
        (λ i. is_ready (task_at s ((from + i) % s.task_count)).state)) [
          | none ↦ none
          | some i ↦ some ((from + i) % s.task_count)
        ]

  -- `wake_blocked`, for an index in range: its caller's guard.
  unfoldable pub wake_blocked : ℕ → Sched M → Sched M
  wake_blocked i s = on_task i unblock s

  -- `sched_wake_kbd`
  unfoldable pub wake_kbd : Sched M → Sched M
  wake_kbd s = record s {
    tasks =
        map_below s.task_count (λ t. if is_on_kbd t.state then record t { state = ready } else t)
          s.tasks;
  }

  -- `sched_kbd_waiting`
  unfoldable pub kbd_waiting : Sched M → Bool
  kbd_waiting s = elim (first_from s.task_count 0 (λ i. is_on_kbd (task_at s i).state)) [
    | none ↦ false
    | some _ ↦ true
  ]

  -- The accounting at the head of `sched_on_tick`.
  unfoldable pub charge_tick : Sched M → Sched M
  charge_tick s =
      if not (s.task_count == 0) && not (is_dead (task_at s s.current).state)
      then on_task s.current (λ t. record t { cpu_ticks = add32 t.cpu_ticks 1 }) s
      else s

module _ {M : Type 0} (k : Kernel M) where
  abbrev pub set_current : ℕ → Sched M → Sched M
  set_current i s = on_machine (k.set_rsp0 (task_at s i).kstack_top) (record s { current = i })

  -- `set_current(next); load_task(frame, &tasks[current]);`: the frame is the task's, in its own
  -- address space.
  unfoldable pub switch_in : ℕ → Sched M → Outcome M
  switch_in i s =
      resume (some (task_at s i).regs) (on_machine (k.set_cr3 (task_at s i).cr3) (set_current i s))

  unfoldable pub wake_sleepers : Sched M → Sched M
  wake_sleepers s = record s {
    tasks = map_below s.task_count (wake_sleeper (k.ticks s.machine)) s.tasks;
  }

  -- `idle_until_ready`: an entry of the list is what an interrupt does in one `sti; hlt; cli`.
  unfoldable pub idle_loop : List (Sched M → Sched M) → Sched M → Outcome M
  idle_loop [] s =
      let woken = wake_sleepers s in
      elim (pick_next woken.current woken) [ none ↦ idle woken | some next ↦ switch_in next woken ]
  idle_loop (irq ∷ irqs) s =
      let woken = wake_sleepers s in
      elim (pick_next woken.current woken) [
        | none ↦ idle_loop irqs (irq woken)
        | some next ↦ switch_in next woken
      ]

  unfoldable pub idle_until_ready : List (Sched M → Sched M) → Sched M → Outcome M
  idle_until_ready irqs s = idle_loop irqs (on_machine (k.set_cr3 k.boot_cr3) s)

  -- The common end of the calls that block: the next ready task, or idling until there is one.
  unfoldable pub run_next : List (Sched M → Sched M) → Sched M → Outcome M
  run_next irqs s = elim (pick_next s.current s) [
    | none ↦ idle_until_ready irqs s
    | some next ↦ switch_in next s
  ]

  unfoldable pub switch_to_next : Option Regs → Sched M → Outcome M
  switch_to_next none s = resume none s
  switch_to_next (some f) s = elim (pick_next s.current s) [
    | none ↦ resume (some f) s
    | some next ↦
        if next == s.current then resume (some f) s else switch_in next (save_task s.current f s)
  ]

  -- `sched_on_tick`
  unfoldable pub on_tick : Option Regs → Sched M → Outcome M
  on_tick none s = resume none (wake_sleepers (charge_tick s))
  on_tick (some f) s =
      let woken = wake_sleepers (charge_tick s) in
      if from_user f then switch_to_next (some f) woken else resume (some f) woken

  -- `sched_yield`
  unfoldable pub yield_now : Option Regs → Sched M → Outcome M
  yield_now f s = switch_to_next f s
