-- ===== src/Sched/Tests/Memory.antt =====
-- A push on a user stack, in a memory that is a function of the address.
use vampire_os.Prelude.{
  ℕ, ◌+◌, ◌-◌, ◌≢◌, ◌*◌, ◌/◌, ◌%◌, ◌^◌, ◌≡◌, ◌&&◌, refl, true, false, some, [], arith, leb, ltb,
  ◌==◌, if◌then◌else◌,
}
use vampire_os.Sched.Kernel.{Kernel}
use vampire_os.Sched.Signal.{push_user_u64}
use vampire_os.Sched.Signal.Push.{IsMemory, word, stack_at, push_user_u64-stored}

abbrev Memory : Type 0
Memory = ℕ → ℕ

-- Every page of a task is mapped 0x100000 above its address.
abbrev plain : Kernel Memory
plain = record {
  pmm_alloc_above = λ a m. (0x300000, m);
  pmm_alloc = λ m. (0x300000, m);
  pmm_free = λ a m. m;
  boot_cr3 = 0x1000;
  set_cr3 = λ a m. m;
  teardown_user = λ a m. m;
  cow_break = λ a b m. (true, m);
  translate_user = λ a b m. some (b + 0x100000);
  virt_to_phys = λ a. a;
  store_byte = λ a b m. λ x. if x == a then b else m x;
  set_rsp0 = λ a m. m;
  ticks = λ m. 0;
  write_at = λ a b c m. m;
  write_dec_at = λ a b c m. m;
  stdin_ready = λ m. false;
  stdin_prompt = λ m. m;
  fs_cwd = λ m. 0;
  fs_pwd = λ m. [];
}

plain-stored : (a b : ℕ) (m : Memory) → plain.store_byte a b m a ≡ b
plain-stored a b m = ground arith

plain-kept : (a b x : ℕ) (m : Memory) → a ≢ x → plain.store_byte a b m x ≡ m x
plain-kept a b x m ne = ground (arith, ne)

abbrev plain-IsMemory : IsMemory plain
plain-IsMemory = record { load = λ m x. m x; stored = plain-stored; kept = plain-kept }

abbrev clear : Memory
clear x = 0

push_user_u64-stored_example :
    let r = push_user_u64 plain 0x5000 0x7EFFF8 0x400100 clear in
    (r.0 ≡ true)
    × (word r.1 (stack_at 0x7EFFF8 0x8EFFF8) ≡ 0x400100)
    × ((x : ℕ)
        → r.1 x ≡ (
            if leb (stack_at 0x7EFFF8 0x8EFFF8) x && ltb x (stack_at 0x7EFFF8 0x8EFFF8 + 8)
            then 0x400100 / 2 ^ (8 * (x - stack_at 0x7EFFF8 0x8EFFF8)) % 256
            else 0))
push_user_u64-stored_example =
    push_user_u64-stored plain plain-IsMemory 0x5000 0x7EFFF8 0x400100 0x8EFFF8 clear
      (λ e. omega (arith, e)) (omega arith) refl refl (omega arith)
