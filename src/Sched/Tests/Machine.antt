-- ===== src/Sched/Tests/Machine.antt =====
-- A machine whose state is its tick count, and the states of a shell that forks.
use vampire_os.Prelude.{ℕ, refl, true, false, some, List, []}
use vampire_os.Prelude.{replicate}
use vampire_os.Prelude.Int.{pos}
use vampire_os.Sched.Types.{
  in_wait, Regs, Pipe, Sched, user_regs, sched_init, task_at, set_task, set_pipe, pipe_cap,
}
use vampire_os.Sched.Kernel.{Kernel}
use vampire_os.Sched.Fd.{fd_close, make_pipe}
use vampire_os.Sched.Fd.Counted.{IsSound, fd_close-IsSound}
use vampire_os.Sched.Fd.Pipes.{make_pipe-IsSound}
use vampire_os.Sched.Fd.Frame.{set_task-IsSound}
use vampire_os.Sched.Exit.{kill_task}
use vampire_os.Sched.Exit.Sound.{kill_task-IsSound}
use vampire_os.Sched.Spawn.{add_user, fork_task}
use vampire_os.Sched.Spawn.Sound.{add_user-IsSound, fork_task-IsSound}
use vampire_os.Sched.Init.{sched_init-IsSound}

abbrev pub toy : Kernel ℕ
toy = record {
  pmm_alloc_above = λ a m. (0x300000, m);
  pmm_alloc = λ m. (0x300000, m);
  pmm_free = λ a m. m;
  boot_cr3 = 0x1000;
  set_cr3 = λ a m. m;
  teardown_user = λ a m. m;
  cow_break = λ a b m. (true, m);
  translate_user = λ a b m. some b;
  virt_to_phys = λ a. a;
  store_byte = λ a b m. m;
  set_rsp0 = λ a m. m;
  ticks = λ m. m;
  write_at = λ a b c m. m;
  write_dec_at = λ a b c m. m;
  stdin_ready = λ m. false;
  stdin_prompt = λ m. m;
  fs_cwd = λ m. 0;
  fs_pwd = λ m. [];
}

-- The shell in slot 0, then with a pipe on descriptors 3 and 4, then with a child in slot 1.
abbrev pub shell : Sched ℕ
shell = (add_user toy 0x400000 0x800000 0x9000 (pos 3) 0x400000 0x5000 (sched_init 0)).1

abbrev pub piped : Sched ℕ
piped = (make_pipe toy shell).1

-- A frame of ring 3 with a pid in rdi and a pointer in rsi.
abbrev pub frame : Regs
frame = record (user_regs 0x400100 0x7F0000) { rdi = 1; rsi = 0x400200 }

abbrev pub parent : Sched ℕ
parent = (fork_task toy (some frame) 0xA000 0x6000 piped).1

pub shell-IsSound : IsSound shell
shell-IsSound =
    add_user-IsSound toy 0x400000 0x800000 0x9000 (pos 3) 0x400000 0x5000 (sched_init 0)
      (sched_init-IsSound 0)

pub piped-IsSound : IsSound piped
piped-IsSound = make_pipe-IsSound toy shell shell-IsSound

pub parent-IsSound : IsSound parent
parent-IsSound = fork_task-IsSound toy (some frame) 0xA000 0x6000 piped piped-IsSound

-- The parent waits for any child.
abbrev pub waiter : Sched ℕ
waiter = set_task parent 0 (record (task_at parent 0) { state = in_wait; wait_pid = 0 })

pub waiter-IsSound : IsSound waiter
waiter-IsSound = set_task-IsSound parent parent-IsSound 0 _ refl

-- SIGINT is pending for the parent, which catches it.
abbrev pub interrupted : Sched ℕ
interrupted = set_task parent 0 (record (task_at parent 0) { pending = 3; handler_int = 0x400300 })

pub interrupted-IsSound : IsSound interrupted
interrupted-IsSound = set_task-IsSound parent parent-IsSound 0 _ refl

-- The child is dead, with code 7.
abbrev pub bereft : Sched ℕ
bereft = kill_task toy 1 7 parent

pub bereft-IsSound : IsSound bereft
bereft-IsSound = kill_task-IsSound toy parent 1 7 parent-IsSound

-- Only the reader's end is left.
abbrev pub half : Sched ℕ
half = (fd_close toy (pos 4) piped).1

pub half-IsSound : IsSound half
half-IsSound = fd_close-IsSound piped piped-IsSound toy (pos 4)

-- A ring whose bytes lie on both sides of the page's end.
abbrev pub page : List ℕ
page = replicate pipe_cap 0

abbrev pub ring : Pipe
ring = record {
  used = true;
  head = 4095;
  len = 2;
  rrefs = 1;
  wrefs = 1;
  phys = 0x300000;
  buf = some page;
}

abbrev pub ringed : Sched ℕ
ringed = set_pipe piped 0 ring

-- Nobody is ready.
abbrev pub halted_task : Sched ℕ
halted_task = set_task shell 0 (record (task_at shell 0) { state = in_wait })
