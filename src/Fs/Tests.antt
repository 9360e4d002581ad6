-- ===== src/Fs/Tests.antt =====
-- Tests of the model of kernel/fs.c at concrete volumes.
mod Table
mod Names
mod Files
