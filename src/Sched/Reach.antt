-- ===== src/Sched/Reach.antt =====
-- kernel/sched.c: the calls as steps from one state to the next, and what every state that they reach has.
use vampire_os.Prelude.{ℕ, List, [], ◌∷◌, Option}
use vampire_os.Prelude.Int.{ℤ}
use vampire_os.Sched.Types.{Regs, Sched, Outcome, resume, halted, idle, sched_init}
use vampire_os.Sched.Kernel.{Kernel}
use vampire_os.Sched.Fd.{
  fd_open, fd_close, fd_dup2, fd_lseek, make_pipe, pipe_new, pipe_unused, fd_bind_file,
}
use vampire_os.Sched.Fd.Counted.{
  IsSound, fd_open-IsSound, fd_close-IsSound, fd_dup2-IsSound, fd_lseek-IsSound,
}
use vampire_os.Sched.Fd.Pipes.{
  make_pipe-IsSound, pipe_new-IsSound, pipe_unused-IsSound, fd_bind_file-IsSound,
}
use vampire_os.Sched.Fd.Frame.{remachine-IsSound}
use vampire_os.Sched.Switch.{wake_kbd, on_tick, yield_now}
use vampire_os.Sched.Switch.Sound.{Ends, Quiet, wake_kbd-IsSound, on_tick-IsSound}
use vampire_os.Sched.Block.{block_pipe, block_kbd, sleep_ticks, wait_child}
use vampire_os.Sched.Block.Sound.{
  yield_now-IsSound, block_pipe-IsSound, block_kbd-IsSound, sleep_ticks-IsSound, wait_child-IsSound,
}
use vampire_os.Sched.Exit.{kill_task, exit_now}
use vampire_os.Sched.Exit.Sound.{kill_task-IsSound, exit_now-IsSound}
use vampire_os.Sched.Spawn.{add_user, fork_task}
use vampire_os.Sched.Spawn.Sound.{add_user-IsSound, fork_task-IsSound}
use vampire_os.Sched.Signal.{signal_at, sigaction, kill_call, deliver_pending}
use vampire_os.Sched.Signal.Sound.{
  signal_at-IsSound, sigaction-IsSound, kill_call-IsSound, deliver_pending-IsSound,
}
use vampire_os.Sched.Init.{sched_init-IsSound}

-- The state that an outcome ends in.
abbrev pub left_by : {M : Type 0} → Outcome M → Sched M
left_by (resume f s) = s
left_by (halted s) = s
left_by (idle s) = s

-- What comes while the kernel idles: a tick, a key, or a change of the rest of the machine.
pub data Interrupt (M : Type 0) : Type 0 where
  tick : Option Regs → Interrupt M
  key : Interrupt M
  elsewhere : (M → M) → Interrupt M

unfoldable pub served : {M : Type 0} → Kernel M → List (Interrupt M) → List (Sched M → Sched M)
served k [] = []
served k (tick frame ∷ rest) = (λ s. left_by (on_tick k frame s)) ∷ served k rest
served k (key ∷ rest) = wake_kbd ∷ served k rest
served k (elsewhere move ∷ rest) = (λ s. record s { machine = move s.machine }) ∷ served k rest

-- One call, with any arguments, returned from, refused or not.
pub data Step {M : Type 0} (k : Kernel M) : Sched M → Sched M → Type 0 where
  opens : (s : Sched M) (path : List ℕ) → Step k s (fd_open path s).1
  closes : (s : Sched M) (fd : ℤ) → Step k s (fd_close k fd s).1
  seeks : (s : Sched M) (fd : ℤ) (off : ℕ) → Step k s (fd_lseek fd off s).1
  dups : (s : Sched M) (oldfd newfd : ℤ) → Step k s (fd_dup2 k oldfd newfd s).1
  pipes : (s : Sched M) → Step k s (make_pipe k s).1
  new_pipe : (s : Sched M) → Step k s (pipe_new k s).1
  drops_pipe : (s : Sched M) (i : ℤ) → Step k s (pipe_unused k i s)
  binds :
      (s : Sched M) (fd : ℤ) (path : List ℕ) (off : ℕ) → Step k s (fd_bind_file k fd path off s).1
  adds :
      (s : Sched M) (rip rsp top : ℕ) (row : ℤ) (base root : ℕ)
      → Step k s (add_user k rip rsp top row base root s).1
  forks :
      (s : Sched M) (frame : Option Regs) (top root : ℕ) → Step k s (fork_task k frame top root s).1
  kills : (s : Sched M) (i code : ℕ) → Step k s (kill_task k i code s)
  signals :
      (s : Sched M) (pid signo : ℤ) (code : ℕ) (frame : Option Regs)
      → Step k s (left_by (signal_at k pid signo code frame s).1)
  delivers : (s : Sched M) (frame : Option Regs) → Step k s (left_by (deliver_pending k frame s))
  exits : (s : Sched M) (frame : Option Regs) → Step k s (left_by (exit_now k frame s))
  handles : (s : Sched M) (frame : Option Regs) → Step k s (left_by (sigaction k frame s))
  sends : (s : Sched M) (frame : Option Regs) → Step k s (left_by (kill_call k frame s))
  types : (s : Sched M) → Step k s (wake_kbd s)
  ticks : (s : Sched M) (frame : Option Regs) → Step k s (left_by (on_tick k frame s))
  yields : (s : Sched M) (frame : Option Regs) → Step k s (left_by (yield_now k frame s))
  reads_pipe :
      (s : Sched M) (irqs : List (Interrupt M)) (frame : Option Regs) (pipe : ℤ)
      → Step k s (left_by (block_pipe k (served k irqs) frame pipe s))
  reads_kbd :
      (s : Sched M) (irqs : List (Interrupt M)) (frame : Option Regs)
      → Step k s (left_by (block_kbd k (served k irqs) frame s))
  sleeps :
      (s : Sched M) (irqs : List (Interrupt M)) (frame : Option Regs) (n : ℕ)
      → Step k s (left_by (sleep_ticks k (served k irqs) frame n s))
  waits :
      (s : Sched M) (irqs : List (Interrupt M)) (frame : Option Regs)
      → Step k s (left_by (wait_child k (served k irqs) frame s))
  moves : (s : Sched M) (m : M) → Step k s (record s { machine = m })

pub data Reached {M : Type 0} (k : Kernel M) : Sched M → Type 0 where
  booted : (m : M) → Reached k (sched_init m)
  calls : {s t : Sched M} → Reached k s → Step k s t → Reached k t

module _ {M : Type 0} where
  left_by-IsSound : (o : Outcome M) → Ends IsSound o → IsSound (left_by o)
  left_by-IsSound (resume f s) h = h
  left_by-IsSound (halted s) h = h
  left_by-IsSound (idle s) h = h

  served-Quiet : (k : Kernel M) (irqs : List (Interrupt M)) → Quiet (served k irqs)
  unfolding served
  served-Quiet k [] = tt
  served-Quiet k (tick frame ∷ rest) =
      (λ s v. left_by-IsSound _ (on_tick-IsSound k s frame v), served-Quiet k rest)
  served-Quiet k (key ∷ rest) = (wake_kbd-IsSound, served-Quiet k rest)
  served-Quiet k (elsewhere move ∷ rest) =
      (λ s v. remachine-IsSound s (move s.machine) v, served-Quiet k rest)

  Step-IsSound : (k : Kernel M) {s t : Sched M} → Step k s t → IsSound s → IsSound t
  Step-IsSound k (opens s path) v = fd_open-IsSound s v path
  Step-IsSound k (closes s fd) v = fd_close-IsSound s v k fd
  Step-IsSound k (seeks s fd off) v = fd_lseek-IsSound s v fd off
  Step-IsSound k (dups s a b) v = fd_dup2-IsSound k s v a b
  Step-IsSound k (pipes s) v = make_pipe-IsSound k s v
  Step-IsSound k (new_pipe s) v = pipe_new-IsSound k s v
  Step-IsSound k (drops_pipe s i) v = pipe_unused-IsSound k s v i
  Step-IsSound k (binds s fd path off) v = fd_bind_file-IsSound k s v fd path off
  Step-IsSound k (adds s rip rsp top row base root) v =
      add_user-IsSound k rip rsp top row base root s v
  Step-IsSound k (forks s frame top root) v = fork_task-IsSound k frame top root s v
  Step-IsSound k (kills s i code) v = kill_task-IsSound k s i code v
  Step-IsSound k (signals s pid signo code frame) v =
      left_by-IsSound _ (signal_at-IsSound k s pid signo code frame v)
  Step-IsSound k (delivers s frame) v = left_by-IsSound _ (deliver_pending-IsSound k s frame v)
  Step-IsSound k (exits s frame) v = left_by-IsSound _ (exit_now-IsSound k s frame v)
  Step-IsSound k (handles s frame) v = left_by-IsSound _ (sigaction-IsSound k s frame v)
  Step-IsSound k (sends s frame) v = left_by-IsSound _ (kill_call-IsSound k s frame v)
  Step-IsSound k (types s) v = wake_kbd-IsSound s v
  Step-IsSound k (ticks s frame) v = left_by-IsSound _ (on_tick-IsSound k s frame v)
  Step-IsSound k (yields s frame) v = left_by-IsSound _ (yield_now-IsSound k s frame v)
  Step-IsSound k (reads_pipe s irqs frame pipe) v =
      left_by-IsSound _ (block_pipe-IsSound k _ s frame pipe (served-Quiet k irqs) v)
  Step-IsSound k (reads_kbd s irqs frame) v =
      left_by-IsSound _ (block_kbd-IsSound k _ s frame (served-Quiet k irqs) v)
  Step-IsSound k (sleeps s irqs frame n) v =
      left_by-IsSound _ (sleep_ticks-IsSound k _ s frame n (served-Quiet k irqs) v)
  Step-IsSound k (waits s irqs frame) v =
      left_by-IsSound _ (wait_child-IsSound k _ s frame (served-Quiet k irqs) v)
  Step-IsSound k (moves s m) v = remachine-IsSound s m v

  -- From the state that `sched_init` leaves, every sequence of calls that open, close, seek,
  -- duplicate and bind descriptors to files, make and drop pipes, add, fork and kill tasks, post
  -- and deliver signals, set handlers, exit, wake keyboard readers, tick, yield, block on a pipe or
  -- the keyboard, sleep and wait, with any arguments, refused or not, with ticks and keys while the
  -- kernel idles and any change of the rest of the machine in between, keeps the invariant of the
  -- pipe table.
  pub Reached-IsSound : (k : Kernel M) {s : Sched M} → Reached k s → IsSound s
  Reached-IsSound k (booted m) = sched_init-IsSound m
  Reached-IsSound k (calls r step) = Step-IsSound k step (Reached-IsSound k r)
