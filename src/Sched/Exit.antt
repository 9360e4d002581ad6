-- ===== src/Sched/Exit.antt =====
-- kernel/sched.c: the end of a task, the children that wait to be reaped, and `sched_exit`.
pub mod Sound
pub mod Status
pub mod Killed
pub mod Next
use vampire_os.Prelude.{
  ℕ, ◌+◌, ◌-◌, ◌%◌, Bool, true, false, not, ◌&&◌, ◌||◌, Option, none, some, List, [], ◌∷◌,
}
use vampire_os.Prelude.{◌==◌, ltb, if◌then◌else◌}
use vampire_os.Prelude.Int.{ℤ, pos, minus_one, ◌==ℤ◌, is_neg, index?}
use vampire_os.Prelude.Search.{first_from}
use vampire_os.Sched.Types.{
  dead, ready, is_dead, is_in_wait, Regs, Task, Sched, Outcome, halted, task_at, on_task,
  on_machine, page_4k,
}
use vampire_os.Sched.Kernel.{Kernel}
use vampire_os.Sched.Pipe.{clear_fds}
use vampire_os.Sched.Switch.{pick_next, switch_in}

-- `slot_reusable`: a dead child that its parent has not waited for is kept.
abbrev pub slot_reusable : Task → Bool
slot_reusable t = is_dead t.state && (t.reaped || is_neg t.parent)

-- The fields that `kill_task` writes.
abbrev pub killed : ℕ → Task → Task
killed code t = record t {
  exit_code = code;
  reaped = false;
  pending = 0;
  handler_int = 0;
  handler_term = 0;
  state = dead;
  pipe_wait = minus_one;
}

abbrev pub text_st : List ℕ
text_st = b's' ∷ b't' ∷ b' ' ∷ b' ' ∷ b' ' ∷ b' ' ∷ []

abbrev pub text_done : List ℕ
text_done = b'd' ∷ b'o' ∷ b'n' ∷ b'e' ∷ []

module _ {M : Type 0} where
  -- `child_of`: the slot holds a child of `parent` that is still to be reaped.
  unfoldable pub child_of : ℕ → ℕ → Sched M → Bool
  child_of parent i s =
      ltb i s.task_count && ((task_at s i).parent ==ℤ pos parent) && not (task_at s i).reaped

  -- `find_zombie`: 0 wants any child.
  unfoldable pub find_zombie : (parent want : ℕ) → Sched M → Option ℕ
  find_zombie parent want s =
      if want == 0
      then first_from s.task_count 0 (λ i. child_of parent i s && is_dead (task_at s i).state)
      else if child_of parent want s && is_dead (task_at s want).state
      then some want
      else none

  -- `has_child`
  unfoldable pub has_child : (parent want : ℕ) → Sched M → Bool
  has_child parent want s =
      if want == 0
      then elim (first_from s.task_count 0 (λ i. child_of parent i s)) [
        | none ↦ false
        | some _ ↦ true
      ]
      else child_of parent want s

  -- `reap_child`, whose result is the task's `exit_code`.
  unfoldable pub reap_child : ℕ → Sched M → Sched M
  reap_child child s = on_task child (λ t. record t { reaped = true }) s

  -- A task that ends is no longer the target of Ctrl+C.
  abbrev pub drop_fg : ℕ → Sched M → Sched M
  drop_fg i s = record s { fg_slot = (if s.fg_slot ==ℤ pos i then minus_one else s.fg_slot) }

module _ {M : Type 0} (k : Kernel M) where
  unfoldable pub free_task_user : ℕ → Sched M → Sched M
  free_task_user i s =
      if (task_at s i).cr3 == 0
      then s
      else on_task i (λ t. record t { user_base = 0; brk = 0 })
          (on_machine (k.teardown_user (task_at s i).cr3) s)

  unfoldable pub free_task_kstack : ℕ → Sched M → Sched M
  free_task_kstack i s =
      let top = (task_at s i).kstack_top in
      let kphys = k.virt_to_phys (top - page_4k) in
      if top == 0
      then s
      else on_task i (λ t. record t { kstack_top = 0 })
          (if kphys == 0 then s else on_machine (k.pmm_free kphys) s)

  unfoldable pub free_task_pml4 : ℕ → Sched M → Sched M
  free_task_pml4 i s =
      let root = (task_at s i).cr3 in
      if root == 0
      then s
      else on_task i (λ t. record t { cr3 = 0 })
          (if root == k.boot_cr3 then s else on_machine (k.pmm_free root) s)

  -- `show_wait_status`: once for each distinct code.
  unfoldable pub show_wait_status : ℕ → ℕ → Sched M → Sched M
  show_wait_status i code s =
      let t = task_at s i in
      if t.seen_status && (t.shown_status == code)
      then s
      else on_task i (λ u. record u { seen_status = true; shown_status = code })
          (on_machine (λ m. k.write_dec_at t.row 15 code (k.write_at t.row 12 text_st m)) s)

  -- The writes of `wake_parent_waiter` to the child and to the parent that waits for it.
  unfoldable pub give_status : (child parent code : ℕ) → Sched M → Sched M
  unfolding reap_child show_wait_status
  give_status child parent code s = show_wait_status parent code (
      on_task parent
        (λ t. record t { state = ready; regs = record (t.regs) { rax = code }; wait_pid = 0 })
        (reap_child child s))

  -- `wake_parent_waiter`
  unfoldable pub wake_parent_waiter : (child code : ℕ) → Sched M → Sched M
  unfolding give_status
  wake_parent_waiter child code s = elim (index? (task_at s child).parent s.task_count) [
    | none ↦ s
    | some p ↦
        let w = task_at s p in
        if is_in_wait w.state && ((w.wait_pid == 0) || (w.wait_pid == child))
        then give_status child p code s
        else s
  ]

  -- `kill_task`
  unfoldable pub kill_task : ℕ → ℕ → Sched M → Sched M
  kill_task i code s =
      if ltb i s.task_count && not (is_dead (task_at s i).state)
      then wake_parent_waiter i code
          (drop_fg i (on_task i (killed code) (clear_fds k i (free_task_user i s))))
      else s

  -- The first half of `sched_exit`, with the code in the low byte of `rdi`.
  unfoldable pub end_current : ℕ → Sched M → Sched M
  end_current code s =
      if s.task_count == 0
      then s
      else kill_task s.current code
          (on_machine (k.write_at (task_at s s.current).row 2 text_done) s)

  -- `sched_exit`; with nothing left to run, or no frame, the kernel sits in `hlt`.
  unfoldable pub exit_now : Option Regs → Sched M → Outcome M
  exit_now none s = halted (on_machine (k.set_cr3 k.boot_cr3) (end_current 0 s))
  exit_now (some f) s =
      let ended = end_current (f.rdi % 256) s in
      elim (pick_next ended.current ended) [
        | none ↦ halted (on_machine (k.set_cr3 k.boot_cr3) ended)
        | some next ↦ switch_in k next ended
      ]
