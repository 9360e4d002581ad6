-- ===== src/Sched/Signal.antt =====
-- kernel/sched.c: posting signals, and delivering them on the way back to user code.
pub mod Sound
pub mod Deliver
pub mod Push
use Prim.Native.Nat.{bit_and, bit_or}
use vampire_os.Prelude.{
  ℕ, zero, suc, ◌+◌, ◌-◌, ◌%◌, ◌*◌, ◌/◌, ◌^◌, Bool, true, false, not, ◌&&◌, ◌||◌, Option, none,
  some, List, [], ◌∷◌,
}
use vampire_os.Prelude.{◌==◌, ltb, if◌then◌else◌}
use vampire_os.Prelude.Int.{ℤ, pos, negsuc, minus_one, ◌==ℤ◌, index?, to_int}
use vampire_os.Prelude.Loop.{for_each}
use vampire_os.Sched.Types.{
  ready, asleep, in_wait, on_pipe, on_kbd, is_dead, is_ready, TaskState, Regs, Task, Sched, Outcome,
  resume, halted, idle, task_at, on_task, on_machine, page_4k,
}
use vampire_os.Sched.Kernel.{Kernel}
use vampire_os.Sched.Switch.{
  add32, from_user, save_task, wake_blocked, switch_in, run_next, yield_now,
}
use vampire_os.Sched.Exit.{
  find_zombie, has_child, reap_child, show_wait_status, kill_task, exit_now,
}

-- A signal that the kernel knows: SIGINT is 2, SIGTERM 15.
pub data Sig : Type 0 where
  sig_int sig_term : Sig

abbrev pub sig_no : Sig → ℕ
sig_no sig_int = 2
sig_no sig_term = 15

-- The test of `sig_bit` and `sig_handler_slot`.
abbrev pub sig_of : ℤ → Option Sig
sig_of n = if n ==ℤ pos 2 then some sig_int else if n ==ℤ pos 15 then some sig_term else none

-- `sig_bit`
abbrev pub sig_bit : Sig → ℕ
sig_bit sig_int = 2
sig_bit sig_term = 1

-- `*sig_handler_slot(t, signo)`, read and written.
abbrev pub handler_of : Sig → Task → ℕ
handler_of sig_int t = t.handler_int
handler_of sig_term t = t.handler_term

abbrev pub set_handler : Sig → ℕ → Task → Task
set_handler sig_int h t = record t { handler_int = h }
set_handler sig_term h t = record t { handler_term = h }

-- `pending_signo`: SIGINT goes first.
unfoldable pub pending_sig : ℕ → Option Sig
pending_sig bits =
    if not (bit_and bits 2 == 0)
    then some sig_int
    else if not (bit_and bits 1 == 0)
    then some sig_term
    else none

-- `(uint64_t)-1`
abbrev pub minus_one64 : ℕ
minus_one64 = 2 ^ 64 - 1

abbrev pub with_rax : ℕ → Regs → Regs
with_rax v f = record f { rax = v }

-- The signal's bit taken out of `pending`.
abbrev pub take_bit : Sig → Task → Task
take_bit g t = record t { pending = bit_and t.pending (255 - sig_bit g) }

module _ {M : Type 0} where
  -- `task_has_pending` of a slot in use.
  abbrev pub has_pending : ℕ → Sched M → Bool
  has_pending i s =
      ltb i s.task_count && not (is_dead (task_at s i).state) && not ((task_at s i).pending == 0)

  -- `task_fatal_pending`
  unfoldable pub fatal_pending : ℕ → Sched M → Bool
  fatal_pending i s = has_pending i s && elim (pending_sig (task_at s i).pending) [
    | none ↦ true
    | some g ↦ handler_of g (task_at s i) == 0
  ]

  -- `frame->rax = v` after a call, on the frame as the call leaves it.
  abbrev pub set_result : ℕ → Outcome M → Outcome M
  set_result v (resume (some f) s) = resume (some (with_rax v f)) s
  set_result v (resume none s) = resume none s
  set_result v (halted s) = halted s
  set_result v (idle s) = idle s

  -- The signal posted to slot `i`, with the exit code that its default action takes.
  unfoldable pub post : ℕ → Sig → ℕ → Sched M → Sched M
  post i g code s =
      wake_blocked i
        (on_task i (λ t. record t { pending = bit_or t.pending (sig_bit g); exit_code = code }) s)

module _ {M : Type 0} (k : Kernel M) where
  -- The byte loop of `push_user_u64`, within one page.
  unfoldable pub store_u64 : (frame va value : ℕ) → M → M
  store_u64 frame va value m =
      for_each 8 0 (λ i. k.store_byte (frame + (va + i) % page_4k) (value / 2 ^ (8 * i) % 256)) m

  -- `push_user_u64`: whether it returned 0, and the new state.
  unfoldable pub push_user_u64 : (cr3 va value : ℕ) → M → Bool × M
  push_user_u64 cr3 va value m =
      if (cr3 == 0) || ltb (page_4k - 8) (va % page_4k)
      then (false, m)
      else let (broken, m') = k.cow_break cr3 va m in
        if not broken then (false, m') else elim (k.translate_user cr3 va m') [
          | none ↦ (false, m')
          | some phys ↦ (true, store_u64 (phys - phys % page_4k) va value m')
        ]

  -- The default action: the task exits with the code that the poster left.
  unfoldable pub die_pending : Regs → Sched M → Outcome M
  die_pending f s =
      let code = (task_at s s.current).exit_code in
      exit_now k (some (record f { rdi = code }))
        (on_task s.current (λ t. record t { pending = 0 }) s)

  -- The handler's frame: the old `rip` pushed on the user stack.
  unfoldable pub start_handler : Sig → ℕ → Regs → Sched M → Outcome M
  start_handler g handler f s =
      let (pushed, m) = push_user_u64 (task_at s s.current).cr3 (f.rsp - 8) f.rip s.machine in
      if ltb f.rsp 8
      then die_pending f s
      else if not pushed
      then die_pending f (record s { machine = m })
      else resume (some (record f { rsp = f.rsp - 8; rip = handler; rdi = sig_no g }))
          (record s { machine = m })

  -- The handler is reset, then entered.
  unfoldable pub enter_handler : Sig → ℕ → Regs → Sched M → Outcome M
  unfolding start_handler
  enter_handler g handler f s = start_handler g handler f (on_task s.current (set_handler g 0) s)

  -- `sched_deliver_pending`
  unfoldable pub deliver_pending : Option Regs → Sched M → Outcome M
  deliver_pending none s = resume none s
  deliver_pending (some f) s =
      if (s.task_count == 0) || not (from_user f)
      then resume (some f) s
      else elim (pending_sig (task_at s s.current).pending) [
        | none ↦ resume (some f) s
        | some g ↦
            let handler = handler_of g (task_at s s.current) in
            let s' = on_task s.current (take_bit g) s in
            if handler == 0 then die_pending f s' else enter_handler g handler f s'
      ]

  -- The tail of `sched_signal_at` for slot `i`: the target runs next where the frame is of ring 3.
  unfoldable pub run_target : ℕ → Option Regs → Sched M → Outcome M
  run_target i none s = resume none s
  run_target i (some f) s =
      if not (i == s.current) && from_user f && is_ready (task_at s i).state
      then switch_in k i (save_task s.current f s)
      else resume (some f) s

  -- `sched_signal_at`: the result, the frame and the new state.
  unfoldable pub signal_at : (pid signo : ℤ) → ℕ → Option Regs → Sched M → ℤ × Outcome M
  unfolding run_target
  signal_at pid signo code frame s = elim (sig_of signo) [
    | none ↦ (minus_one, resume frame s)
    | some g ↦ elim (index? pid s.task_count) [
      | none ↦ (minus_one, resume frame s)
      | some i ↦
          if is_dead (task_at s i).state
          then (minus_one, resume frame s)
          else if (task_at s i).cr3 == 0
          then (pos 0, resume frame (kill_task k i code s))
          else (pos 0, run_target i frame (post i g code s))
    ]
  ]

  -- Whether `vmm_translate_user` returns 0 for the address in the current task.
  unfoldable pub mapped_user : ℕ → Sched M → Bool
  mapped_user va s = elim (k.translate_user (task_at s s.current).cr3 va s.machine) [
    | none ↦ false
    | some _ ↦ true
  ]

  -- `sched_sigaction`
  unfoldable pub sigaction : Option Regs → Sched M → Outcome M
  unfolding mapped_user
  sigaction none s = resume none s
  sigaction (some f) s =
      if s.task_count == 0 then resume (some f) s else elim (sig_of (to_int (f.rdi % 2 ^ 32))) [
        | none ↦ resume (some (with_rax minus_one64 f)) s
        | some g ↦
            if not (f.rsi == 0) && not (mapped_user f.rsi s)
            then resume (some (with_rax minus_one64 f)) s
            else resume (some (with_rax 0 f)) (on_task s.current (set_handler g f.rsi) s)
      ]

  -- `sched_kill`
  unfoldable pub kill_call : Option Regs → Sched M → Outcome M
  kill_call none s = resume none s
  kill_call (some f) s =
      let (r, out) = signal_at (to_int (f.rdi % 2 ^ 32)) (pos 15) (f.rsi % 256) (some f) s in
      set_result (if r ==ℤ pos 0 then 0 else minus_one64) out
