-- ===== src/Sched/Spawn.antt =====
-- kernel/sched.c: `sched_add_user`, `sched_fork` and `sched_reset_current`.
pub mod Sound
pub mod Child
use vampire_os.Prelude.{
  ℕ, ◌+◌, ◌*◌, ◌%◌, ◌^◌, Bool, true, false, not, ◌&&◌, ◌||◌, Option, none, some, List, [], ◌∷◌,
}
use vampire_os.Prelude.{get_or, set, ◌==◌, ltb, leb, if◌then◌else◌}
use vampire_os.Prelude.Int.{ℤ, pos, negsuc, minus_one, index?}
use vampire_os.Prelude.Search.{first_from}
use vampire_os.Sched.Types.{
  ready, dead, is_dead, is_asleep, is_in_wait, is_on_pipe, is_on_kbd, TaskState, Regs, Task, Sched,
  Outcome, resume, task_at, on_task, on_machine, user_regs, string_of, copy_name, copy_cwd_path,
  page_4k, task_max, no_task,
}
use vampire_os.Sched.Kernel.{Kernel}
use vampire_os.Sched.Pipe.{clear_fds, bind_console_std, inherit_fds}
use vampire_os.Sched.Switch.{add32}
use vampire_os.Sched.Exit.{slot_reusable, free_task_user, free_task_kstack, free_task_pml4}

abbrev pub vga_height : ℕ
vga_height = 25

-- Rows outside the screen share the last one.
abbrev pub clip_row : ℤ → ℕ
clip_row (pos r) = if leb vga_height r then 24 else r
clip_row (negsuc _) = 24

-- The writes of `sched_add_user` to the slot, its descriptors apart.
abbrev pub new_image : (rip rsp kstack_top row user_base cr3 cwd : ℕ) → List ℕ → Task → Task
new_image rip rsp top line base root dir pwd t = record {
  regs = user_regs rip rsp;
  kstack_top = top;
  user_base = base;
  brk = (base + 2 * page_4k) % 2 ^ 64;
  cr3 = root;
  cwd = dir;
  cwd_path = copy_cwd_path t.cwd_path pwd;
  parent = minus_one;
  wait_pid = 0;
  name = set t.name 0 0;
  state = ready;
  row = line;
  writes = 0;
  wake_tick = 0;
  cpu_ticks = 0;
  exit_code = 0;
  reaped = false;
  seen_status = false;
  shown_status = 0;
  pending = 0;
  handler_int = 0;
  handler_term = 0;
  pipe_wait = minus_one;
  fds = t.fds;
}

-- The writes of `sched_fork` to the slot, its descriptors apart.
abbrev pub forked : Regs → (kstack_top cr3 : ℕ) → (parent_slot : ℕ) → Task → Task → Task
forked f top root slot p t = record {
  regs = record f { rax = 0 };
  kstack_top = top;
  user_base = p.user_base;
  brk = p.brk;
  cr3 = root;
  cwd = p.cwd;
  cwd_path = copy_cwd_path t.cwd_path (string_of p.cwd_path);
  parent = pos slot;
  wait_pid = 0;
  name = copy_name t.name (string_of p.name);
  state = ready;
  row = (if leb vga_height (p.row + 1) then p.row else p.row + 1);
  writes = 0;
  wake_tick = 0;
  cpu_ticks = 0;
  exit_code = 0;
  reaped = false;
  seen_status = false;
  shown_status = 0;
  pending = 0;
  handler_int = p.handler_int;
  handler_term = p.handler_term;
  pipe_wait = minus_one;
  fds = t.fds;
}

module _ {M : Type 0} where
  -- The slot for a new task: the first that can be used again, else a fresh one.
  unfoldable pub free_slot : Sched M → Option ℕ
  free_slot s = elim (first_from s.task_count 0 (λ i. slot_reusable (task_at s i))) [
    | some i ↦ some i
    | none ↦ if leb task_max s.task_count then none else some s.task_count
  ]

  -- `sched_base_busy`
  unfoldable pub base_busy : (user_base cr3 : ℕ) → Sched M → Bool
  base_busy base root s =
      if (base == 0) || (root == 0)
      then true
      else elim (first_from s.task_count 0 (λ i.
        not (is_dead (task_at s i).state)
        && ((task_at s i).cr3 == root)
        && ((task_at s i).user_base == base))) [ none ↦ false | some _ ↦ true ]

module _ {M : Type 0} (k : Kernel M) where
  -- What a used slot still holds goes back before it is taken again.
  unfoldable pub reclaim : ℕ → Sched M → Sched M
  reclaim i s = free_task_pml4 k i (free_task_kstack k i (free_task_user k i s))

  -- The slot taken: reclaimed, or counted in.
  unfoldable pub take_slot : ℕ → Sched M → Sched M
  unfolding reclaim
  take_slot i s = if ltb i s.task_count then reclaim i s else record s {
    task_count = s.task_count + 1;
    current = (if s.task_count == 0 then 0 else s.current);
  }

  -- `sched_add_user`: whether it returned 0, and the new state.
  unfoldable pub add_user :
      (rip rsp kstack_top : ℕ) → ℤ → (user_base cr3 : ℕ) → Sched M → Bool × Sched M
  unfolding take_slot
  add_user rip rsp top row base root s =
      if (top == 0) || (base == 0) || (root == 0) || (root == k.boot_cr3) || base_busy base root s
      then (false, s)
      else elim (free_slot s) [
        | none ↦ (false, s)
        | some i ↦
            let taken = take_slot i s in
            let m = taken.machine in
            let image = new_image rip rsp top (clip_row row) base root (k.fs_cwd m) (k.fs_pwd m) in
            let s' = bind_console_std i (clear_fds k i (on_task i image taken)) in
            (true, record s' { last_added = pos i })
      ]

  -- `sched_fork`: the child's slot, where it does not return -1, and the new state.
  unfoldable pub fork_task : Option Regs → (kstack_top cr3 : ℕ) → Sched M → Option ℕ × Sched M
  unfolding take_slot
  fork_task none top root s = (none, s)
  fork_task (some f) top root s =
      let p = task_at s s.current in
      if (s.task_count == 0)
        || (top == 0)
        || (root == 0)
        || (root == k.boot_cr3)
        || is_dead p.state
        || (p.cr3 == 0)
        || (p.cr3 == root)
      then (none, s)
      else elim (free_slot s) [
        | none ↦ (none, s)
        | some i ↦
            let taken = take_slot i s in
            let made = on_task i (forked f top root s.current (task_at taken s.current)) taken in
            let s' = inherit_fds i s.current (clear_fds k i made) in
            (some i, record s' { last_added = pos i })
      ]

  -- `sched_reset_current`
  unfoldable pub reset_current : Option Regs → (rip rsp user_base : ℕ) → Sched M → Outcome M
  reset_current none rip rsp base s = resume none s
  reset_current (some f) rip rsp base s =
      let t = task_at s s.current in
      if (s.task_count == 0)
        || (rip == 0)
        || (rsp == 0)
        || (base == 0)
        || is_dead t.state
        || (t.cr3 == 0)
        || (t.kstack_top == 0)
      then resume (some f) s
      else (let t' = record t {
        regs = user_regs rip rsp;
        user_base = base;
        brk = (base + 2 * page_4k) % 2 ^ 64;
        state = ready;
        writes = 0;
        wake_tick = 0;
        pipe_wait = minus_one;
        pending = 0;
        handler_int = 0;
        handler_term = 0;
      } in
          resume (some t'.regs) (on_machine (k.set_cr3 t'.cr3) (on_task s.current (λ _. t') s)))
