-- ===== src/Sched.antt =====
-- kernel/sched.c: tasks, file descriptors, pipes, scheduling, waiting and signals.
pub mod Types
pub mod Kernel
pub mod Pipe
pub mod Fd
pub mod Ring
pub mod Switch
pub mod Exit
pub mod Signal
pub mod Block
pub mod Spawn
pub mod Current
pub mod Init
pub mod Reach
mod Tests
