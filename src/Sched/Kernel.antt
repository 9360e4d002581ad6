-- ===== src/Sched/Kernel.antt =====
-- What sched.c calls in the rest of the kernel, as operations on its state `M`: kernel/pmm.c,
-- kernel/vmm.c, kernel/idt.c, kernel/kbd.c, kernel/vga.c and kernel/fs.c.
use vampire_os.Prelude.{ℕ, Bool, Option, List}

pub record Kernel (M : Type 0) : Type 0 where
  -- `pmm_alloc_above` and `pmm_alloc`: the address of a frame, or 0.
  pub pmm_alloc_above : ℕ → M → ℕ × M
  pub pmm_alloc : M → ℕ × M
  pub pmm_free : ℕ → M → M
  pub boot_cr3 : ℕ
  pub set_cr3 : ℕ → M → M
  pub teardown_user : ℕ → M → M
  -- `vmm_cow_break`: whether it returned 0.
  pub cow_break : ℕ → ℕ → M → Bool × M
  -- `vmm_translate_user`: the physical address, where it returns 0.
  pub translate_user : ℕ → ℕ → M → Option ℕ
  pub virt_to_phys : ℕ → ℕ
  -- A byte stored at a physical address, through the direct map.
  pub store_byte : ℕ → ℕ → M → M
  pub set_rsp0 : ℕ → M → M
  pub ticks : M → ℕ
  pub write_at : ℕ → ℕ → List ℕ → M → M
  pub write_dec_at : ℕ → ℕ → ℕ → M → M
  pub stdin_ready : M → Bool
  pub stdin_prompt : M → M
  pub fs_cwd : M → ℕ
  pub fs_pwd : M → List ℕ
