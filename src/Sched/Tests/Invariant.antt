-- ===== src/Sched/Tests/Invariant.antt =====
-- The invariant of the pipe table at the states of the shell and its child.
use vampire_os.Prelude.{ℕ, ◌≡◌, ◌≢◌, sym, ◌∙◌, subst, refl, true, none, some, [], ◌∷◌}
use vampire_os.Prelude.Int.{pos, minus_one}
use vampire_os.Prelude.Search.{first_from}
use vampire_os.Prelude.Loop.{for_each}
use vampire_os.Sched.Reach.{
  left_by, served, tick, booted, calls, adds, pipes, forks, sleeps, Reached-IsSound,
}
use vampire_os.Sched.Block.{sleep_ticks}
use vampire_os.Sched.Types.{Sched, pipe_w, fd_at, sched_init}
use vampire_os.Sched.Pipe.{
  live_pipe?, add_ref, bind_console, bind_console_std, attach, inherit_fd, inherit_fds, alloc_frame,
  alloc_pipe, drop_fd, clear_fds,
}
use vampire_os.Sched.Fd.{make_pipe, fd_bind_pipe, free_pair, open_ends}
use vampire_os.Sched.Fd.Counted.{IsSound}
use vampire_os.Sched.Fd.Bind.{fd_bind_pipe-IsSound}
use vampire_os.Sched.Switch.Sound.{Ends}
use vampire_os.Sched.Exit.{exit_now}
use vampire_os.Sched.Exit.Sound.{exit_now-IsSound}
use vampire_os.Sched.Spawn.{add_user, fork_task, take_slot, free_slot, base_busy, reclaim}
use vampire_os.Sched.Spawn.Sound.{fork_task-IsSound}
use vampire_os.Sched.Tests.Machine.{toy, frame, piped, parent, piped-IsSound, parent-IsSound}

fork_task-IsSound_example : IsSound (fork_task toy (some frame) 0xA000 0x6000 piped).1
fork_task-IsSound_example = fork_task-IsSound toy (some frame) 0xA000 0x6000 piped piped-IsSound

exit_now-IsSound_example : Ends IsSound (exit_now toy (some frame) parent)
exit_now-IsSound_example = exit_now-IsSound toy parent (some frame) parent-IsSound

-- The console entry of the child holds no pipe.
child_console :
    (i f : ℕ)
    → parent.last_added ≡ pos i
    → pos 1 ≡ pos f
    → (fd_at parent i f).used ≡ true
    → (fd_at parent i f).pipe ≢ pos 0
unfolding sched_init add_user take_slot free_slot base_busy reclaim first_from for_each
    bind_console_std bind_console clear_fds drop_fd make_pipe free_pair alloc_pipe alloc_frame
    open_ends fork_task inherit_fds inherit_fd attach live_pipe? add_ref
child_console i f at_i at_f used held =
    let last : parent.last_added ≡ pos 1 = refl in
    let console : (fd_at parent 1 1).pipe ≡ minus_one = refl in
    let ei : i ≡ 1 = cc in
    let ef : f ≡ 1 = cc in
    let same : (fd_at parent 1 1).pipe ≡ pos 0 =
      subst (λ g. (fd_at parent 1 g).pipe ≡ pos 0) ef
        (subst (λ j. (fd_at parent j f).pipe ≡ pos 0) ei held) in
    let bad : minus_one ≡ pos 0 = sym console ∙ same in cc

fd_bind_pipe-IsSound_example : IsSound (fd_bind_pipe toy (pos 1) pipe_w (pos 0) parent).1
fd_bind_pipe-IsSound_example =
    fd_bind_pipe-IsSound toy parent parent-IsSound (pos 1) pipe_w (pos 0) child_console

-- The first task, a pipe of its own, and the child that it forks.
abbrev at_boot : Sched ℕ
at_boot = sched_init 0

abbrev first_task : Sched ℕ
first_task = (add_user toy 0x400000 0x800000 0xB000 (pos 4) 0x400000 0x7000 at_boot).1

abbrev first_pipe : Sched ℕ
first_pipe = (make_pipe toy first_task).1

abbrev first_fork : Sched ℕ
first_fork = (fork_task toy (some frame) 0xA000 0x6000 first_pipe).1

Reached-IsSound_example :
    IsSound (left_by (sleep_ticks toy (served toy (tick none ∷ [])) (some frame) 5 first_fork))
Reached-IsSound_example = Reached-IsSound toy (
    calls
      (calls
        (calls (calls (booted 0) (adds at_boot 0x400000 0x800000 0xB000 (pos 4) 0x400000 0x7000))
          (pipes first_task))
        (forks first_pipe (some frame) 0xA000 0x6000))
      (sleeps first_fork (tick none ∷ []) (some frame) 5))
