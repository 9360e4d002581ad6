-- ===== src/Sched/Tests/Behaviour.antt =====
-- What the calls do, at the states of the shell and its child.
use vampire_os.Prelude.{
  ℕ, ◌<◌, ◌≤◌, ◌≡◌, ◌⊎◌, refl, true, false, not, sym, subst, ◌∙◌, none, some, List, [], ◌∷◌, arith,
}
use vampire_os.Prelude.{length, length-replicate, length-set, get_or-set_self, ◌==◌}
use vampire_os.Prelude.Int.{pos}
use vampire_os.Sched.Types.{
  ready, dead, Sched, resume, task_at, pipe_at, fd_at, pipe_cap, pipe_w, is_dead, no_pipe,
  sched_init,
}
use vampire_os.Sched.Pipe.{
  wake_waiter, wake_pipe_waiters, live_pipe?, add_ref, bind_console, bind_console_std, attach,
  inherit_fd, inherit_fds, free_pipe, alloc_frame, alloc_pipe, drop_ref, release_end, drop_fd,
  clear_fds,
}
use vampire_os.Sched.Fd.{open_fd?, fd_close, make_pipe, free_pair, open_ends, bind_pipe_at}
use vampire_os.Sched.Fd.Bind.{bind_pipe_at-last_end}
use vampire_os.Sched.Ring.{take_bytes, put_bytes}
use vampire_os.Sched.Ring.Refine.{
  IsRing, contents, queue_read, queue_write, take_bytes_refines, put_bytes_refines,
}
use vampire_os.Prelude.{inl, not, ◌&&◌, ◌==◌}
use vampire_os.Sched.Types.{is_dead}
use vampire_os.Sched.Switch.{pick_next}
use vampire_os.Sched.Switch.RoundRobin.{gap, pick_next-nearer}
use vampire_os.Sched.Exit.{kill_task, child_of, find_zombie, free_task_user, wake_parent_waiter}
use vampire_os.Sched.Exit.Killed.{kill_task-wakes, kill_task-zombie, kill_task-closed}
use vampire_os.Sched.Signal.{kill_call, signal_at, with_rax, sig_term}
use vampire_os.Sched.Block.{wait_child}
use vampire_os.Sched.Signal.Deliver.{kill_call-clobbers, signal_at-switches}
use vampire_os.Sched.Block.Wait.{wait_child-reaps}
use vampire_os.Sched.Spawn.{add_user, fork_task, take_slot, free_slot, base_busy, reclaim}
use vampire_os.Sched.Spawn.Child.{fork_task-child, identity_of}
use vampire_os.Prelude.Loop.{for_each}
use vampire_os.Prelude.Search.{first_from}
use vampire_os.Sched.Tests.Machine.{
  toy, frame, piped, parent, waiter, bereft, half, page, ring, ringed, piped-IsSound,
  parent-IsSound, waiter-IsSound, bereft-IsSound, half-IsSound,
}

-- The parent and its child, as the calls leave them.
parent_state :
    (parent.task_count ≡ 2)
    × (parent.current ≡ 0)
    × ((task_at parent 0).state ≡ ready)
    × ((task_at parent 1).state ≡ ready)
    × ((task_at parent 1).parent ≡ pos 0)
    × ((task_at parent 1).cr3 ≡ 0x6000)
    × ((task_at parent 0).pending ≡ 0)
unfolding sched_init add_user take_slot free_slot base_busy reclaim first_from for_each
    bind_console_std bind_console clear_fds drop_fd make_pipe free_pair alloc_pipe alloc_frame
    open_ends fork_task inherit_fds inherit_fd attach live_pipe? add_ref
parent_state = (refl, refl, refl, refl, refl, refl, refl)

pick_next-nearer_example :
    (next : ℕ) × (pick_next 0 parent ≡ some next)
    × ((next ≡ 1) ⊎ (gap parent.task_count next 1 < gap parent.task_count 0 1))
unfolding sched_init add_user take_slot free_slot base_busy reclaim first_from for_each
    bind_console_std bind_console clear_fds drop_fd make_pipe free_pair alloc_pipe alloc_frame
    open_ends fork_task inherit_fds inherit_fd attach live_pipe? add_ref pick_next
pick_next-nearer_example = pick_next-nearer parent 0 (omega arith) 1 (omega arith) refl

kill_task-closed_example : (fd_at (kill_task toy 1 7 parent) 1 3).used ≡ false
unfolding sched_init add_user take_slot free_slot base_busy reclaim first_from for_each
    bind_console_std bind_console clear_fds drop_fd make_pipe free_pair alloc_pipe alloc_frame
    open_ends fork_task inherit_fds inherit_fd attach live_pipe? add_ref
kill_task-closed_example =
    kill_task-closed toy parent parent-IsSound 1 7 (omega arith) refl 3 (omega arith)

kill_task-wakes_example :
    let t = kill_task toy 1 7 waiter in
    ((task_at t 0).state ≡ ready)
    × ((task_at t 0).regs.rax ≡ 7)
    × ((task_at t 0).wait_pid ≡ 0)
    × ((task_at t 1).reaped ≡ true)
    × ((task_at t 1).state ≡ dead)
unfolding sched_init add_user take_slot free_slot base_busy reclaim first_from for_each
    bind_console_std bind_console clear_fds drop_fd make_pipe free_pair alloc_pipe alloc_frame
    open_ends fork_task inherit_fds inherit_fd attach live_pipe? add_ref
kill_task-wakes_example =
    kill_task-wakes toy waiter waiter-IsSound 1 7 (omega arith) refl 0 refl (omega arith)
      (omega arith) refl refl

kill_task-zombie_example :
    let t = kill_task toy 1 7 parent in
    (child_of 0 1 t ≡ true) × (is_dead (task_at t 1).state ≡ true) × ((task_at t 1).exit_code ≡ 7)
unfolding sched_init add_user take_slot free_slot base_busy reclaim first_from for_each
    bind_console_std bind_console clear_fds drop_fd make_pipe free_pair alloc_pipe alloc_frame
    open_ends fork_task inherit_fds inherit_fd attach live_pipe? add_ref
kill_task-zombie_example =
    kill_task-zombie toy parent parent-IsSound 1 7 (omega arith) refl 0 refl (omega arith)
      (omega arith) refl

fork_task-child_example :
    identity_of (task_at (fork_task toy (some frame) 0xA000 0x6000 piped).1 1)
    ≡ (record frame { rax = 0 }, pos piped.current, 0x6000, 0xA000)
unfolding sched_init add_user take_slot free_slot base_busy reclaim first_from for_each
    bind_console_std bind_console clear_fds drop_fd make_pipe free_pair alloc_pipe alloc_frame
    open_ends fork_task inherit_fds inherit_fd attach live_pipe? add_ref
fork_task-child_example = fork_task-child toy frame 0xA000 0x6000 piped 1 piped-IsSound refl

signal_at-switches_example :
    (t : Sched ℕ) × (signal_at toy (pos 1) (pos 15) 9 (some frame) parent
      ≡ (pos 0, resume (some (task_at parent 1).regs) t))
    × ((task_at t parent.current).regs ≡ frame)
    × (t.current ≡ 1)
unfolding sched_init add_user take_slot free_slot base_busy reclaim first_from for_each
    bind_console_std bind_console clear_fds drop_fd make_pipe free_pair alloc_pipe alloc_frame
    open_ends fork_task inherit_fds inherit_fd attach live_pipe? add_ref
signal_at-switches_example =
    signal_at-switches toy parent parent-IsSound frame 1 (omega arith) (omega arith) refl refl refl
      (pos 15) sig_term 9 refl

kill_call-clobbers_example :
    (t : Sched ℕ) × (kill_call toy (some frame) parent
      ≡ resume (some (with_rax 0 (task_at parent 1).regs)) t)
    × ((task_at t parent.current).regs ≡ frame)
    × (t.current ≡ 1)
unfolding sched_init add_user take_slot free_slot base_busy reclaim first_from for_each
    bind_console_std bind_console clear_fds drop_fd make_pipe free_pair alloc_pipe alloc_frame
    open_ends fork_task inherit_fds inherit_fd attach live_pipe? add_ref
kill_call-clobbers_example =
    kill_call-clobbers toy parent parent-IsSound frame 1 (omega arith) (omega arith) refl refl refl
      refl

bereft_fits : bereft.task_count ≤ length bereft.tasks
bereft_fits = omega (arith, bereft-IsSound.shaped.slots, bereft-IsSound.shaped.count_in)

wait_child-reaps_example :
    let f = record frame { rdi = 0 } in
    (z : ℕ) × (t : Sched ℕ) × (wait_child toy [] (some f) bereft
      ≡ resume (some (with_rax (task_at bereft z).exit_code f)) t)
    × (child_of bereft.current z bereft ≡ true)
    × (is_dead (task_at bereft z).state ≡ true)
    × ((◌≡◌ {A = ℕ} 0 0) ⊎ (0 ≡ z))
    × ((parent i : ℕ) → child_of parent i t ≡ (child_of parent i bereft && not (i == z)))
unfolding sched_init add_user take_slot free_slot base_busy reclaim first_from for_each
    bind_console_std bind_console clear_fds drop_fd make_pipe free_pair alloc_pipe alloc_frame
    open_ends fork_task inherit_fds inherit_fd attach live_pipe? add_ref kill_task
    wake_parent_waiter free_task_user find_zombie child_of release_end drop_ref free_pipe
    wake_pipe_waiters wake_waiter
wait_child-reaps_example =
    wait_child-reaps toy bereft bereft_fits [] (record frame { rdi = 0 }) 0 1 refl refl refl refl
      (inl refl)

bind_pipe_at-last_end_example :
    let s' = bind_pipe_at toy 0 3 pipe_w 0 half in
    ((pipe_at s' 0).used ≡ false)
    × ((pipe_at s' 0).buf ≡ none)
    × ((fd_at s' 0 3).used ≡ true)
    × ((fd_at s' 0 3).pipe ≡ pos 0)
unfolding sched_init add_user take_slot free_slot base_busy reclaim first_from for_each
    bind_console_std bind_console clear_fds drop_fd make_pipe free_pair alloc_pipe alloc_frame
    open_ends fork_task inherit_fds inherit_fd attach live_pipe? add_ref fd_close open_fd?
    release_end drop_ref free_pipe wake_pipe_waiters wake_waiter
bind_pipe_at-last_end_example =
    bind_pipe_at-last_end toy half half-IsSound 0 3 pipe_w 0 (omega arith) (omega arith)
      (omega arith) refl refl refl refl refl

-- The ring wraps: its two bytes are the page's last and its first.
ringed-IsRing : IsRing (pipe_at ringed 0) page
ringed-IsRing =
    subst (λ q. IsRing q page)
      (sym (get_or-set_self piped.pipes 0 ring no_pipe (omega (arith, piped-IsSound.shaped.table))))
      (record {
        page = refl;
        size = length-replicate {A = ℕ} pipe_cap 0;
        head_in = omega arith;
        len_in = omega arith;
      })

ringed_table : length ringed.pipes ≡ 4
ringed_table = length-set piped.pipes 0 ring ∙ piped-IsSound.shaped.table

take_bytes_refines_example :
    let (r, out, s') = take_bytes 0 page 5 ringed in
    IsRing (pipe_at s' 0) page
    × ((r, out, contents (pipe_at s' 0) page)
        ≡ queue_read (not ((pipe_at ringed 0).wrefs == 0)) 5 (contents (pipe_at ringed 0) page))
take_bytes_refines_example =
    take_bytes_refines ringed 0 page ringed_table (omega arith) ringed-IsRing 5

put_bytes_refines_example :
    let (r, s') = put_bytes 0 page (1 ∷ 2 ∷ 3 ∷ []) ringed in
    (b : List ℕ) × IsRing (pipe_at s' 0) b
    × ((r, contents (pipe_at s' 0) b)
        ≡ queue_write
            (not ((pipe_at ringed 0).rrefs == 0))
            (1 ∷ 2 ∷ 3 ∷ [])
            (contents (pipe_at ringed 0) page))
put_bytes_refines_example =
    put_bytes_refines ringed 0 page ringed_table (omega arith) ringed-IsRing (1 ∷ 2 ∷ 3 ∷ [])
