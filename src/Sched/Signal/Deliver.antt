-- ===== src/Sched/Signal/Deliver.antt =====
-- kernel/sched.c: the handler's frame, the target of a signal, and the call that posts SIGTERM.
use vampire_os.Prelude.{
  ℕ, ◌%◌, ◌^◌, ◌<◌, ◌≡◌, ◌≢◌, refl, true, false, not, ◌&&◌, some, arith, ap, bit_or, ◌∙◌, sym,
}
use vampire_os.Prelude.{◌==◌, length}
use vampire_os.Prelude.Int.{ℤ, pos, index?-pos, to_int}
use vampire_os.Sched.Types.{
  Regs, Task, Sched, resume, is_dead, is_ready, task_at, on_task, on_machine, task_max,
}
use vampire_os.Sched.Kernel.{Kernel}
use vampire_os.Sched.Fd.Counted.{IsSound}
use vampire_os.Sched.Fd.Frame.{task_at-set_task, task_at-set_task_ne, set_task-IsSound}
use vampire_os.Sched.Switch.Sound.{wake_blocked-IsSound}
use vampire_os.Sched.Switch.{from_user, save_task, wake_blocked, switch_in, unblock, set_current}
use vampire_os.Sched.Signal.{
  Sig, sig_term, sig_of, sig_bit, post, run_target, signal_at, kill_call, with_rax,
}

-- A signal makes any task ready that is not dead.
unblock-ready : (t : Task) → is_dead t.state ≡ false → is_ready (unblock t).state ≡ true
unfolding unblock
unblock-ready t h = ground arith

regs-unblock : (t : Task) → (unblock t).regs ≡ t.regs
unfolding unblock
regs-unblock t = ground arith

module _ {M : Type 0} (s : Sched M) (v : IsSound s) (i : ℕ) (h : i < task_max) where
  -- The task that a signal is posted to, with the registers that it had.
  abbrev posted : Sig → ℕ → Task
  posted g code = record (task_at s i) {
    pending = bit_or (task_at s i).pending (sig_bit g);
    exit_code = code;
  }

  slot : i < length s.tasks
  slot = omega (arith, v.shaped.slots)

  pub task_at-post : (g : Sig) (code : ℕ) → task_at (post i g code s) i ≡ unblock (posted g code)
  unfolding post wake_blocked
  task_at-post g code =
      let s1 = on_task i (λ t. posted g code) s in
      let e = task_at-set_task s i (posted g code) slot in
      task_at-set_task s1 i (unblock (task_at s1 i))
        (omega (arith, (set_task-IsSound s v i (posted g code) refl).shaped.slots))
      ∙ ap unblock e

  -- The target is ready after the post.
  pub post-ready :
      (g : Sig) (code : ℕ)
      → is_dead (task_at s i).state ≡ false
      → is_ready (task_at (post i g code s) i).state ≡ true
  post-ready g code alive =
      ap (λ (t : Task). is_ready t.state) (task_at-post g code)
      ∙ unblock-ready (posted g code) alive

  pub regs-post : (g : Sig) (code : ℕ) → (task_at (post i g code s) i).regs ≡ (task_at s i).regs
  regs-post g code = ap (λ (t : Task). t.regs) (task_at-post g code) ∙ regs-unblock (posted g code)

module _ {M : Type 0} (k : Kernel M) (s : Sched M) (v : IsSound s) (f : Regs) (i : ℕ)
    (below : i < s.task_count) (other : i ≢ s.current) (user : from_user f ≡ true)
    (alive : is_dead (task_at s i).state ≡ false) (mapped : ((task_at s i).cr3 == 0) ≡ false) where
  hi : i < task_max
  hi = omega (arith, v.shaped.count_in)

  -- The state when the target runs: the caller's frame is saved in its slot.
  abbrev switched : Sig → ℕ → Sched M
  switched g code =
      let saved = save_task s.current f (post i g code s) in
      on_machine (k.set_cr3 (task_at saved i).cr3) (set_current k i saved)

  regs-switched : (g : Sig) (code : ℕ) → (task_at (switched g code) i).regs ≡ (task_at s i).regs
  unfolding post wake_blocked
  regs-switched g code =
      let p = post i g code s in
      let c = record (task_at p s.current) { regs = f } in
      ap (λ (t : Task). t.regs) (task_at-set_task_ne p s.current i c (λ e. other (sym e)))
      ∙ regs-post s v i hi g code

  signal_at-switched :
      (signo : ℤ) (g : Sig) (code : ℕ)
      → sig_of signo ≡ some g
      → signal_at k (pos i) signo code (some f) s
        ≡ (pos 0, resume (some (task_at s i).regs) (switched g code))
  unfolding signal_at run_target switch_in post wake_blocked
  signal_at-switched signo g code known =
      let p = post i g code s in
      let ready : (not (i == s.current) && from_user f && is_ready (task_at p i).state) ≡ true =
        ground (arith, post-ready s v i hi g code alive) in
      rw
        (
          known,
          signal_at,
          index?-pos i s.task_count below,
          alive,
          mapped,
          ready,
          regs-switched g code,
        )
        refl

  saved-switched : (g : Sig) (code : ℕ) → (task_at (switched g code) s.current).regs ≡ f
  unfolding post wake_blocked
  saved-switched g code =
      let p = post i g code s in
      let c = record (task_at p s.current) { regs = f } in
      let one = record (task_at s i) {
        pending = bit_or (task_at s i).pending (sig_bit g);
        exit_code = code;
      } in
      let v1 = set_task-IsSound s v i one refl in
      let s1 = on_task i (λ t. one) s in
      let v2 = wake_blocked-IsSound s1 i v1 in
      ap (λ (t : Task). t.regs)
        (task_at-set_task p s.current c (omega (arith, v2.shaped.slots, v2.shaped.current_in)))

  -- In a state with the invariant of the pipe table, a known signal with a frame of ring 3 to
  -- another slot in use whose task is not dead and has a page table returns 0 with that task's
  -- registers in the frame and that task current, the caller's frame being saved in its slot.
  pub signal_at-switches :
      (signo : ℤ) (g : Sig) (code : ℕ)
      → sig_of signo ≡ some g
      → (t : Sched M) × (signal_at k (pos i) signo code (some f) s
          ≡ (pos 0, resume (some (task_at s i).regs) t))
        × ((task_at t s.current).regs ≡ f)
        × (t.current ≡ i)
  signal_at-switches signo g code known =
      (switched g code, signal_at-switched signo g code known, saved-switched g code, refl)

  -- Under the conditions of `signal_at-switches` for SIGTERM, with the target's number in rdi,
  -- `sched_kill` returns the target's registers with rax set to 0 and leaves the caller's saved
  -- registers as they were at the call, with no result in rax.
  pub kill_call-clobbers :
      to_int (f.rdi % 2 ^ 32) ≡ pos i
      → (t : Sched M) × (kill_call k (some f) s ≡ resume (some (with_rax 0 (task_at s i).regs)) t)
        × ((task_at t s.current).regs ≡ f)
        × (t.current ≡ i)
  unfolding kill_call
  kill_call-clobbers target =
      let code = f.rsi % 256 in
      (
        switched sig_term code,
        rw (target, kill_call, signal_at-switched (pos 15) sig_term code refl) refl,
        saved-switched sig_term code,
        refl,
      )
