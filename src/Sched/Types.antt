-- ===== src/Sched/Types.antt =====
-- The data of kernel/sched.c: `struct fd_entry`, `struct pipe`, `struct task` and the file's statics,
-- with `struct interrupt_frame` as far as the scheduler copies it.
use vampire_os.Prelude.{ℕ, Bool, true, false, ◌||◌, Option, none, List, [], ◌∷◌}
use vampire_os.Prelude.{get_or, set, replicate, take, overlay, ◌++◌, if◌then◌else◌, ◌==◌}
use vampire_os.Prelude.Int.{ℤ, pos, minus_one}

abbrev pub task_max : ℕ
task_max = 16

abbrev pub fd_max : ℕ
fd_max = 8

abbrev pub fd_path_max : ℕ
fd_path_max = 32

abbrev pub cwd_path_max : ℕ
cwd_path_max = 80

abbrev pub task_name_max : ℕ
task_name_max = 8

abbrev pub pipe_max : ℕ
pipe_max = 4

abbrev pub pipe_cap : ℕ
pipe_cap = 0x1000

abbrev pub pipe_min_phys : ℕ
pipe_min_phys = 0x200000

abbrev pub page_4k : ℕ
page_4k = 0x1000

-- `kind`: the `FD_KIND_` numbers of sched.h, with `unset` for 0.
pub data FdKind : Type 0 where
  unset file pipe_r pipe_w console_r console_w : FdKind

-- `state`: the `TASK_` numbers.
pub data TaskState : Type 0 where
  dead ready asleep in_wait on_pipe on_kbd : TaskState

abbrev pub is_dead : TaskState → Bool
is_dead dead = true
is_dead _ = false

abbrev pub is_ready : TaskState → Bool
is_ready ready = true
is_ready _ = false

abbrev pub is_asleep : TaskState → Bool
is_asleep asleep = true
is_asleep _ = false

abbrev pub is_in_wait : TaskState → Bool
is_in_wait in_wait = true
is_in_wait _ = false

abbrev pub is_on_pipe : TaskState → Bool
is_on_pipe on_pipe = true
is_on_pipe _ = false

abbrev pub is_on_kbd : TaskState → Bool
is_on_kbd on_kbd = true
is_on_kbd _ = false

abbrev pub is_file : FdKind → Bool
is_file file = true
is_file _ = false

abbrev pub is_pipe_r : FdKind → Bool
is_pipe_r pipe_r = true
is_pipe_r _ = false

abbrev pub is_pipe_w : FdKind → Bool
is_pipe_w pipe_w = true
is_pipe_w _ = false

abbrev pub is_pipe_end : FdKind → Bool
is_pipe_end k = is_pipe_r k || is_pipe_w k

-- `struct fd_entry`. `path` is the whole array, so the bytes behind the first NUL are kept.
pub record FdEntry : Type 0 where
  pub used : Bool
  pub kind : FdKind
  pub pipe : ℤ
  pub offset : ℕ
  pub path : List ℕ

-- `struct pipe`. `buf` is the page behind `data`, `none` where the pointer is 0. The counts are only
-- raised, or lowered behind a test for `> 0`, so they are never negative.
pub record Pipe : Type 0 where
  pub used : Bool
  pub head : ℕ
  pub len : ℕ
  pub rrefs : ℕ
  pub wrefs : ℕ
  pub phys : ℕ
  pub buf : Option (List ℕ)

-- The registers that `save_task` and `load_task` copy.
pub record Regs : Type 0 where
  pub rax : ℕ
  pub rbx : ℕ
  pub rcx : ℕ
  pub rdx : ℕ
  pub rdi : ℕ
  pub rsi : ℕ
  pub rbp : ℕ
  pub r8 : ℕ
  pub r9 : ℕ
  pub r10 : ℕ
  pub r11 : ℕ
  pub r12 : ℕ
  pub r13 : ℕ
  pub r14 : ℕ
  pub r15 : ℕ
  pub rip : ℕ
  pub cs : ℕ
  pub rflags : ℕ
  pub rsp : ℕ
  pub ss : ℕ

-- `struct task`, its registers as one field.
pub record Task : Type 0 where
  pub regs : Regs
  pub kstack_top : ℕ
  pub user_base : ℕ
  pub brk : ℕ
  pub cr3 : ℕ
  pub cwd : ℕ
  pub cwd_path : List ℕ
  pub parent : ℤ
  pub wait_pid : ℕ
  pub name : List ℕ
  pub state : TaskState
  pub row : ℕ
  pub writes : ℕ
  pub wake_tick : ℕ
  pub cpu_ticks : ℕ
  pub exit_code : ℕ
  pub reaped : Bool
  pub seen_status : Bool
  pub shown_status : ℕ
  pub pending : ℕ
  pub handler_int : ℕ
  pub handler_term : ℕ
  pub pipe_wait : ℤ
  pub fds : List FdEntry

-- The statics of sched.c beside the rest of the kernel, `machine`.
pub record Sched (M : Type 0) : Type 0 where
  pub machine : M
  pub tasks : List Task
  pub pipes : List Pipe
  pub task_count : ℕ
  pub current : ℕ
  pub last_added : ℤ
  pub fg_slot : ℤ

-- The entry that `drop_fd` leaves.
abbrev pub no_fd : FdEntry
no_fd = record {
  used = false;
  kind = unset;
  pipe = minus_one;
  offset = 0;
  path = replicate fd_path_max 0;
}

-- The pipe that `free_pipe` leaves.
abbrev pub no_pipe : Pipe
no_pipe = record { used = false; head = 0; len = 0; rrefs = 0; wrefs = 0; phys = 0; buf = none }

-- The registers of a new image: `rip` and `rsp` given, the selectors of ring 3.
abbrev pub user_regs : ℕ → ℕ → Regs
user_regs entry stack = record {
  rax = 0;
  rbx = 0;
  rcx = 0;
  rdx = 0;
  rdi = 0;
  rsi = 0;
  rbp = 0;
  r8 = 0;
  r9 = 0;
  r10 = 0;
  r11 = 0;
  r12 = 0;
  r13 = 0;
  r14 = 0;
  r15 = 0;
  rip = entry;
  cs = 0x2B;
  rflags = 0x202;
  rsp = stack;
  ss = 0x23;
}

-- What `sched_init` leaves in a slot of `tasks`, all of it zero before; it does not touch a closed
-- descriptor.
abbrev pub no_task : Task
no_task = record {
  regs = record (user_regs 0 0) { cs = 0; rflags = 0; ss = 0 };
  kstack_top = 0;
  user_base = 0;
  brk = 0;
  cr3 = 0;
  cwd = 0;
  cwd_path = b'/' ∷ replicate 79 0;
  parent = minus_one;
  wait_pid = 0;
  name = replicate 9 0;
  state = dead;
  row = 0;
  writes = 0;
  wake_tick = 0;
  cpu_ticks = 0;
  exit_code = 0;
  reaped = false;
  seen_status = false;
  shown_status = 0;
  pending = 0;
  handler_int = 0;
  handler_term = 0;
  pipe_wait = minus_one;
  fds = replicate fd_max (record no_fd { pipe = pos 0 });
}

-- A buffer read as a string: the bytes up to the first NUL.
unfoldable pub string_of : List ℕ → List ℕ
string_of [] = []
string_of (c ∷ cs) = if c == 0 then [] else c ∷ string_of cs

-- `copy_path`: at most 31 characters of the string, then a NUL; what lies behind stays.
unfoldable pub copy_path : List ℕ → List ℕ → List ℕ
copy_path dst src = overlay dst (take 31 src ++ (0 ∷ []))

-- `copy_name`
unfoldable pub copy_name : List ℕ → List ℕ → List ℕ
copy_name dst src = overlay dst (take task_name_max src ++ (0 ∷ []))

-- `copy_cwd_path`; an empty string is the root.
unfoldable pub copy_cwd_path : List ℕ → List ℕ → List ℕ
copy_cwd_path dst [] = overlay dst (b'/' ∷ 0 ∷ [])
copy_cwd_path dst (c ∷ src) = overlay dst (take 79 (c ∷ src) ++ (0 ∷ []))

-- What a call on an interrupt frame ends in: it returns, with the frame as it stands then; it sits in
-- `hlt` for good; or it is still idle when the given interrupts are used up.
pub data Outcome (M : Type 0) : Type 0 where
  resume : Option Regs → Sched M → Outcome M
  halted : Sched M → Outcome M
  idle : Sched M → Outcome M

-- `sched_init` on zeroed statics, as it runs at boot.
unfoldable pub sched_init : {M : Type 0} → M → Sched M
sched_init m = record {
  machine = m;
  tasks = replicate task_max no_task;
  pipes = replicate pipe_max no_pipe;
  task_count = 0;
  current = 0;
  last_added = minus_one;
  fg_slot = minus_one;
}

module _ {M : Type 0} where
  abbrev pub task_at : Sched M → ℕ → Task
  task_at s i = get_or s.tasks i no_task

  abbrev pub set_task : Sched M → ℕ → Task → Sched M
  set_task s i t = record s { tasks = set s.tasks i t }

  -- `tasks[i]` changed in place.
  abbrev pub on_task : ℕ → (Task → Task) → Sched M → Sched M
  on_task i f s = set_task s i (f (task_at s i))

  abbrev pub on_machine : (M → M) → Sched M → Sched M
  on_machine f s = record s { machine = f s.machine }

  abbrev pub pipe_at : Sched M → ℕ → Pipe
  pipe_at s p = get_or s.pipes p no_pipe

  abbrev pub set_pipe : Sched M → ℕ → Pipe → Sched M
  set_pipe s p v = record s { pipes = set s.pipes p v }

  abbrev pub fd_at : Sched M → ℕ → ℕ → FdEntry
  fd_at s i fd = get_or (task_at s i).fds fd no_fd

  abbrev pub set_fd : Sched M → ℕ → ℕ → FdEntry → Sched M
  set_fd s i fd e = set_task s i (record (task_at s i) { fds = set (task_at s i).fds fd e })
