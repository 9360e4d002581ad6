-- ===== src/Sched/Fd/Frame.antt =====
-- kernel/sched.c: writes that leave the descriptors alone, against the invariant of the pipe table.
use vampire_os.Prelude.{ℕ, ◌<◌, ◌≤◌, ◌≡◌, Bool, arith, ap, sym, ◌∙◌, ◌≢◌}
use vampire_os.Prelude.{
  length, map_below, get_or-set, length-set, get_or-map_below, length-map_below, set_beyond,
  get_or-set_self, get_or-set_ne,
}
use native.Mathlib.Decide.{dec_lt}
use vampire_os.Prelude.Int.{ℤ}
use vampire_os.Sched.Types.{FdEntry, Task, Sched, no_task, task_at, set_task}
use vampire_os.Sched.Pipe.Count.{task_refs, fd_refs, task_refs-set, task_refs-map_below}
use vampire_os.Sched.Fd.Counted.{IsSound}

module _ {M : Type 0} (s : Sched M) where
  pub task_at-set_task : (i : ℕ) (t : Task) → i < length s.tasks → task_at (set_task s i t) i ≡ t
  task_at-set_task i t h = get_or-set_self s.tasks i t no_task h

  pub task_at-set_task_ne : (i j : ℕ) (t : Task) → i ≢ j → task_at (set_task s i t) j ≡ task_at s j
  task_at-set_task_ne i j t ne = get_or-set_ne s.tasks i j t no_task ne

module _ {M : Type 0} (s : Sched M) (v : IsSound s) where
  task_refs-set_task :
      (i : ℕ) (t : Task)
      → t.fds ≡ (task_at s i).fds
      → (b : Bool) (p : ℕ) → task_refs b p (set_task s i t).tasks ≡ task_refs b p s.tasks
  task_refs-set_task i t same b p = elim (dec_lt i (length s.tasks)) [
    | yes h ↦ omega (arith, task_refs-set b p s.tasks i t h, ap (fd_refs b p) same)
    | no h ↦ ap (task_refs b p) (set_beyond s.tasks i t (omega arith))
  ]

  pub set_task-IsSound : (i : ℕ) (t : Task) → t.fds ≡ (task_at s i).fds → IsSound (set_task s i t)
  set_task-IsSound i t same = record {
    shaped = record {
      slots = length-set s.tasks i t ∙ v.shaped.slots;
      table = v.shaped.table;
      entries = λ j h. ground (
        arith,
        get_or-set s.tasks i t j no_task,
        v.shaped.entries j h,
        ap (length {A = FdEntry}) same,
      );
      count_in = v.shaped.count_in;
      current_in = v.shaped.current_in;
    };
    counts = record {
      counted = λ b p. v.counts.counted b p ∙ sym (task_refs-set_task i t same b p);
      unused = λ b p. v.counts.unused b p;
    };
  }

  pub map_below-IsSound :
      (n : ℕ) (f : Task → Task)
      → ((t : Task) → (f t).fds ≡ t.fds)
      → IsSound (record s { tasks = map_below n f s.tasks })
  map_below-IsSound n f same = record {
    shaped = record {
      slots = length-map_below n f s.tasks ∙ v.shaped.slots;
      table = v.shaped.table;
      entries = λ j h. ground (
        arith,
        get_or-map_below n f s.tasks j no_task,
        v.shaped.entries j h,
        ap (length {A = FdEntry}) (same (task_at s j)),
      );
      count_in = v.shaped.count_in;
      current_in = v.shaped.current_in;
    };
    counts = record {
      counted = λ b p. v.counts.counted b p ∙ sym (task_refs-map_below b p n f s.tasks same);
      unused = λ b p. v.counts.unused b p;
    };
  }

  -- The rest of the statics does not enter, but for the bounds on the slots.
  pub statics-IsSound :
      (m : M) (count slot : ℕ) (added fg : ℤ)
      → count ≤ 16
      → slot < 16
      → IsSound (record s {
        machine = m;
        task_count = count;
        current = slot;
        last_added = added;
        fg_slot = fg;
      })
  statics-IsSound m count slot added fg hc hs = record {
    shaped = record {
      slots = v.shaped.slots;
      table = v.shaped.table;
      entries = v.shaped.entries;
      count_in = hc;
      current_in = hs;
    };
    counts = record { counted = v.counts.counted; unused = v.counts.unused };
  }

module _ {M : Type 0} where
  -- The rest of the kernel does not enter the invariant.
  pub remachine-IsSound : (s : Sched M) (m : M) → IsSound s → IsSound (record s { machine = m })
  remachine-IsSound s m v = record {
    shaped = record {
      slots = v.shaped.slots;
      table = v.shaped.table;
      entries = v.shaped.entries;
      count_in = v.shaped.count_in;
      current_in = v.shaped.current_in;
    };
    counts = record { counted = v.counts.counted; unused = v.counts.unused };
  }
