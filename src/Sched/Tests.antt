-- ===== src/Sched/Tests.antt =====
-- Tests of the model of kernel/sched.c: a small machine, a shell with a pipe and its forked child.
mod Machine
mod Invariant
mod Behaviour
mod Wakes
mod Memory
