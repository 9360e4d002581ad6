-- ===== src/Sched/Init.antt =====
-- kernel/sched.c: `sched_init`, against the invariant of the pipe table.
use vampire_os.Prelude.{ℕ, zero, suc, ◌≡◌, refl, Bool, true, false, arith, ap, sym, ◌∙◌}
use vampire_os.Prelude.{length, replicate, get_or-replicate}
use vampire_os.Sched.Types.{Task, no_task, no_pipe, sched_init, task_max, pipe_max}
use vampire_os.Sched.Pipe.Count.{task_refs, fd_refs, held}
use vampire_os.Sched.Pipe.Refs.{refs}
use vampire_os.Sched.Fd.Counted.{IsSound}

refs-no_pipe : (b : Bool) → refs b no_pipe ≡ 0
refs-no_pipe true = refl
refs-no_pipe false = refl

fd_refs-no_task : (b : Bool) (p : ℕ) → fd_refs b p no_task.fds ≡ 0
unfolding fd_refs held
fd_refs-no_task b p = refl

task_refs-replicate : (n : ℕ) (b : Bool) (p : ℕ) → task_refs b p (replicate n no_task) ≡ 0
unfolding task_refs
task_refs-replicate zero b p = refl
task_refs-replicate (suc n) b p = omega (arith, fd_refs-no_task b p, task_refs-replicate n b p)

-- The state that `sched_init` leaves at boot has the invariant of the pipe table.
pub sched_init-IsSound : {M : Type 0} (m : M) → IsSound (sched_init m)
unfolding sched_init
sched_init-IsSound m = record {
  shaped = record {
    slots = refl;
    table = refl;
    entries = λ i h. ap (λ (t : Task). length t.fds) (get_or-replicate task_max no_task i);
    count_in = omega arith;
    current_in = omega arith;
  };
  counts = record {
    counted = λ b p.
        ap (refs b) (get_or-replicate pipe_max no_pipe p)
        ∙ refs-no_pipe b
        ∙ sym (task_refs-replicate task_max b p);
    unused = λ b p h. ap (refs b) (get_or-replicate pipe_max no_pipe p) ∙ refs-no_pipe b;
  };
}
