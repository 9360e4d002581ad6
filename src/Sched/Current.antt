-- ===== src/Sched/Current.antt =====
-- kernel/sched.c: what user.c and the shell read and write of the current slot, the listing of the
-- slots, and the foreground task.
use vampire_os.Prelude.{ℕ, ◌||◌, Option, none, some, List, [], ◌∷◌}
use vampire_os.Prelude.{get_or, ◌==◌, if◌then◌else◌}
use vampire_os.Prelude.Int.{ℤ, pos, minus_one, index?}
use vampire_os.Sched.Types.{
  TaskState, dead, ready, asleep, in_wait, on_pipe, on_kbd, is_dead, Regs, Sched, Outcome, task_at,
  on_task, string_of, copy_name, copy_cwd_path,
}
use vampire_os.Sched.Kernel.{Kernel}
use vampire_os.Sched.Switch.{add32}
use vampire_os.Sched.Signal.{signal_at}

-- The texts of `sched_slot_state_name`.
pub data StateName : Type 0 where
  text_sleep text_wait text_run : StateName

abbrev pub name_of_state : TaskState → Option StateName
name_of_state dead = none
name_of_state asleep = some text_sleep
name_of_state in_wait = some text_wait
name_of_state on_pipe = some text_wait
name_of_state on_kbd = some text_wait
name_of_state ready = some text_run

abbrev pub root_path : List ℕ
root_path = b'/' ∷ []

module _ {M : Type 0} where
  unfoldable pub current_base : Sched M → ℕ
  current_base s = if s.task_count == 0 then 0 else (task_at s s.current).user_base

  unfoldable pub current_brk : Sched M → ℕ
  current_brk s = if s.task_count == 0 then 0 else (task_at s s.current).brk

  unfoldable pub current_cwd : Sched M → ℕ
  current_cwd s = if s.task_count == 0 then 0 else (task_at s s.current).cwd

  -- `sched_current_pwd`, the string that its pointer is to.
  unfoldable pub current_pwd : Sched M → List ℕ
  current_pwd s =
      let path = (task_at s s.current).cwd_path in
      if s.task_count == 0
      then root_path
      else if get_or path 0 0 == 0
      then root_path
      else string_of path

  unfoldable pub set_current_pwd : List ℕ → Sched M → Sched M
  set_current_pwd path s =
      if s.task_count == 0
      then s
      else on_task s.current (λ t. record t { cwd_path = copy_cwd_path t.cwd_path path }) s

  -- `sched_set_brk`, `sched_set_current_cwd` and `sched_note_write`.
  unfoldable pub set_brk : ℕ → Sched M → Sched M
  set_brk v s = if s.task_count == 0 then s else on_task s.current (λ t. record t { brk = v }) s

  unfoldable pub set_current_cwd : ℕ → Sched M → Sched M
  set_current_cwd v s =
      if s.task_count == 0 then s else on_task s.current (λ t. record t { cwd = v }) s

  unfoldable pub note_write : Sched M → ℕ × Sched M
  note_write s =
      if s.task_count == 0
      then (0, s)
      else let n = add32 (task_at s s.current).writes 1 in
        (n, on_task s.current (λ t. record t { writes = n }) s)

  unfoldable pub current_row : Sched M → ℕ
  current_row s = if s.task_count == 0 then 0 else (task_at s s.current).row

  unfoldable pub slot_state_name : ℤ → Sched M → Option StateName
  slot_state_name id s = elim (index? id s.task_count) [
    | none ↦ none
    | some i ↦ name_of_state (task_at s i).state
  ]

  -- `sched_slot_name`: 0 also for a name that was never set.
  unfoldable pub slot_name : ℤ → Sched M → Option (List ℕ)
  slot_name id s = elim (index? id s.task_count) [
    | none ↦ none
    | some i ↦
        let t = task_at s i in
        if is_dead t.state || (get_or t.name 0 0 == 0) then none else some (string_of t.name)
  ]

  unfoldable pub slot_ticks : ℤ → Sched M → ℕ
  slot_ticks id s = elim (index? id s.task_count) [
    | none ↦ 0
    | some i ↦ if is_dead (task_at s i).state then 0 else (task_at s i).cpu_ticks
  ]

  unfoldable pub note_fg : Sched M → Sched M
  note_fg s = record s { fg_slot = s.last_added }

  unfoldable pub clear_fg : Sched M → Sched M
  clear_fg s = record s { fg_slot = minus_one }

  unfoldable pub set_name : List ℕ → Sched M → Sched M
  set_name name s = elim (index? s.last_added s.task_count) [
    | none ↦ s
    | some i ↦ on_task i (λ t. record t { name = copy_name t.name name }) s
  ]

  unfoldable pub rename_current : List ℕ → Sched M → Sched M
  rename_current name s =
      if s.task_count == 0
      then s
      else on_task s.current (λ t. record t { name = copy_name t.name name }) s

module _ {M : Type 0} (k : Kernel M) where
  unfoldable pub current_cr3 : Sched M → ℕ
  current_cr3 s =
      if (s.task_count == 0) || ((task_at s s.current).cr3 == 0)
      then k.boot_cr3
      else (task_at s s.current).cr3

  unfoldable pub signal_fg : ℤ → ℕ → Option Regs → Sched M → ℤ × Outcome M
  signal_fg signo code frame s = signal_at k s.fg_slot signo code frame s

  unfoldable pub kill_at : ℤ → ℕ → Option Regs → Sched M → ℤ × Outcome M
  kill_at pid code frame s = signal_at k pid (pos 15) code frame s

  unfoldable pub kill_slot : ℤ → ℕ → Sched M → ℤ × Outcome M
  unfolding kill_at
  kill_slot pid code s = kill_at pid code none s

  unfoldable pub kill_fg : ℕ → Sched M → ℤ × Outcome M
  unfolding kill_slot
  kill_fg code s = kill_slot s.fg_slot code s
