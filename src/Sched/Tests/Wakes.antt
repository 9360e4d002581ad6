-- ===== src/Sched/Tests/Wakes.antt =====
-- Wake-ups and the end of a task, at the states of the shell and its child.
use vampire_os.Prelude.{◌≤◌, ◌≡◌, ◌≢◌, sym, ◌∙◌, refl, some, [], ◌∷◌, arith}
use vampire_os.Prelude.{length}
use vampire_os.Prelude.Int.{pos, minus_one, minus_two}
use vampire_os.Prelude.Search.{first_from}
use vampire_os.Prelude.Loop.{for_each}
use vampire_os.Prelude.{ℕ, ◌+◌, ◌<◌, ◌⊎◌, List, true, leb}
use vampire_os.Sched.Types.{sched_init, Task, Sched, Outcome, asleep, on_pipe, is_ready, task_at}
use vampire_os.Sched.Switch.{wake_sleepers}
use vampire_os.Sched.Block.{sleep_ticks, block_pipe}
use vampire_os.Sched.Block.Parked.{Parked, park-wakes}
use vampire_os.Sched.Pipe.{
  live_pipe?, add_ref, bind_console, bind_console_std, attach, inherit_fd, inherit_fds, alloc_frame,
  alloc_pipe, drop_fd, clear_fds,
}
use vampire_os.Sched.Fd.{make_pipe, free_pair, open_ends}
use vampire_os.Sched.Ring.{put_bytes}
use vampire_os.Sched.Ring.Wake.{Unawaited, put_bytes-Unawaited, drop_fd-Unawaited}
use vampire_os.Sched.Exit.{exit_now}
use vampire_os.Sched.Exit.Next.{RunsReady, exit_now-RunsReady}
use vampire_os.Sched.Spawn.{add_user, fork_task, take_slot, free_slot, base_busy, reclaim}
use vampire_os.Sched.Tests.Machine.{toy, frame, parent, page, ringed, piped-IsSound, parent-IsSound}

ringed_fits : ringed.task_count ≤ length ringed.tasks
ringed_fits = omega (arith, piped-IsSound.shaped.slots, piped-IsSound.shaped.count_in)

written : (put_bytes 0 page (7 ∷ []) ringed).0 ≡ pos 1
unfolding sched_init add_user take_slot free_slot base_busy reclaim first_from for_each
    bind_console_std bind_console clear_fds drop_fd make_pipe free_pair alloc_pipe alloc_frame
    open_ends fork_task inherit_fds inherit_fd attach live_pipe? add_ref put_bytes
written = refl

not_minus_one : pos 1 ≢ minus_one
not_minus_one h = cc

not_minus_two : pos 1 ≢ minus_two
not_minus_two h = cc

put_bytes-Unawaited_example : Unawaited 0 (put_bytes 0 page (7 ∷ []) ringed).1
put_bytes-Unawaited_example =
    put_bytes-Unawaited 0 page (7 ∷ []) ringed ringed_fits (λ h. not_minus_one (sym written ∙ h))
      (λ h. not_minus_two (sym written ∙ h))

parent_fits : parent.task_count ≤ length parent.tasks
parent_fits = omega (arith, parent-IsSound.shaped.slots, parent-IsSound.shaped.count_in)

drop_fd-Unawaited_example : Unawaited 0 (drop_fd toy 0 4 parent)
unfolding sched_init add_user take_slot free_slot base_busy reclaim first_from for_each
    bind_console_std bind_console clear_fds drop_fd make_pipe free_pair alloc_pipe alloc_frame
    open_ends fork_task inherit_fds inherit_fd attach live_pipe? add_ref
drop_fd-Unawaited_example = drop_fd-Unawaited toy 0 4 0 parent parent_fits refl refl refl

exit_now-RunsReady_example : RunsReady (exit_now toy (some frame) parent)
unfolding sched_init add_user take_slot free_slot base_busy reclaim first_from for_each
    bind_console_std bind_console clear_fds drop_fd make_pipe free_pair alloc_pipe alloc_frame
    open_ends fork_task inherit_fds inherit_fd attach live_pipe? add_ref
exit_now-RunsReady_example = exit_now-RunsReady toy parent frame (omega arith)

-- The parent has the processor, and its child in slot 1 is ready.
abbrev InUse : ℕ → Type 0
InUse i = i < parent.task_count

parent_in : InUse parent.current
unfolding sched_init add_user take_slot free_slot base_busy reclaim first_from for_each
    bind_console_std bind_console clear_fds drop_fd make_pipe free_pair alloc_pipe alloc_frame
    open_ends fork_task inherit_fds inherit_fd attach live_pipe? add_ref
parent_in = omega arith

child_in : InUse 1
unfolding sched_init add_user take_slot free_slot base_busy reclaim first_from for_each
    bind_console_std bind_console clear_fds drop_fd make_pipe free_pair alloc_pipe alloc_frame
    open_ends fork_task inherit_fds inherit_fd attach live_pipe? add_ref
child_in = omega arith

child_apart : 1 ≢ parent.current
unfolding sched_init add_user take_slot free_slot base_busy reclaim first_from for_each
    bind_console_std bind_console clear_fds drop_fd make_pipe free_pair alloc_pipe alloc_frame
    open_ends fork_task inherit_fds inherit_fd attach live_pipe? add_ref
child_apart e = omega (arith, e)

child_ready : is_ready (task_at parent 1).state ≡ true
unfolding sched_init add_user take_slot free_slot base_busy reclaim first_from for_each
    bind_console_std bind_console clear_fds drop_fd make_pipe free_pair alloc_pipe alloc_frame
    open_ends fork_task inherit_fds inherit_fd attach live_pipe? add_ref
child_ready = refl

parent_calm : (task_at parent parent.current).pending ≡ 0
unfolding sched_init add_user take_slot free_slot base_busy reclaim first_from for_each
    bind_console_std bind_console clear_fds drop_fd make_pipe free_pair alloc_pipe alloc_frame
    open_ends fork_task inherit_fds inherit_fd attach live_pipe? add_ref
parent_calm = refl

abbrev IsParked : Task → Outcome ℕ → Sched ℕ → Type 0
IsParked = Parked toy parent parent_fits parent_in 1 child_apart child_in child_ready

abbrev sleeper : Task
sleeper = record (task_at parent parent.current) {
  regs = frame;
  state = asleep;
  wake_tick = toy.ticks parent.machine + 5;
}

abbrev reader : Task
reader = record (task_at parent parent.current) { regs = frame; state = on_pipe; pipe_wait = pos 0 }

park-wakes_example :
    ((t : Sched ℕ) × IsParked sleeper (sleep_ticks toy [] (some frame) 5 parent) t
      × ((m : ℕ)
          → let woken = task_at (wake_sleepers toy (record t { machine = m })) parent.current in
            (is_ready woken.state ≡ leb (toy.ticks parent.machine + 5) (toy.ticks m))
            × (woken.regs ≡ frame)))
    × ((t : Sched ℕ) × IsParked reader (block_pipe toy [] (some frame) (pos 0) parent) t
        × ((b src : List ℕ) (m : ℕ)
            → let r = put_bytes 0 b src (record t { machine = m }) in
              (r.0 ≡ minus_one)
              ⊎ ((r.0 ≡ minus_two)
                  ⊎ ((is_ready (task_at r.1 parent.current).state ≡ true)
                      × ((task_at r.1 parent.current).regs ≡ frame)))))
unfolding sched_init add_user take_slot free_slot base_busy reclaim first_from for_each
    bind_console_std bind_console clear_fds drop_fd make_pipe free_pair alloc_pipe alloc_frame
    open_ends fork_task inherit_fds inherit_fd attach live_pipe? add_ref
park-wakes_example =
    park-wakes toy parent parent_fits parent_in 1 child_apart child_in child_ready [] frame 5 0
      parent_calm (omega arith) (omega arith)
