-- ===== src/Sched/Block/Wait.antt =====
-- kernel/sched.c: `sched_wait` where there is a zombie.
use vampire_os.Prelude.{
  ℕ, ◌%◌, ◌^◌, ◌<◌, ◌≤◌, ◌≡◌, ◌⊎◌, inl, inr, refl, true, false, not, ◌&&◌, some, List, arith, ap,
  sym, ◌∙◌,
}
use vampire_os.Prelude.{length, ◌==◌, Bool-cases, Option-cases}
use vampire_os.Prelude.Int.{pos, to_int}
use vampire_os.Prelude.Search.{first_from-none}
use native.Mathlib.Decide.{ℕ_discrete}
use vampire_os.Sched.Types.{Regs, Sched, resume, is_dead, task_at}
use vampire_os.Sched.Kernel.{Kernel}
use vampire_os.Sched.Fd.Frame.{task_at-set_task, task_at-set_task_ne}
use vampire_os.Sched.Exit.{child_of, find_zombie, reap_child, show_wait_status}
use vampire_os.Sched.Exit.Status.{
  Status, status_of, status_of-show_wait_status, find_zombie-child, child_of-slot,
}
use vampire_os.Sched.Signal.{has_pending, with_rax}
use vampire_os.Sched.Block.{wait_want, wait_child}

module _ {M : Type 0} (s : Sched M) where
  -- A zombie that is wanted is found, or another one is.
  find_zombie-found :
      (parent want c : ℕ)
      → child_of parent c s ≡ true
      → is_dead (task_at s c).state ≡ true
      → (want ≡ 0) ⊎ (want ≡ c)
      → (z : ℕ) × (find_zombie parent want s ≡ some z)
  unfolding find_zombie
  find_zombie-found parent want c child dead wanted =
      elim (Option-cases (find_zombie parent want s)) [
        | inr found ↦ found
        | inl nobody ↦ elim (Bool-cases (want == 0)) [
          | inl any ↦
              let slot = child_of-slot s parent c child in
              let missed : (child_of parent c s && is_dead (task_at s c).state) ≡ false =
                first_from-none s.task_count 0
                  (λ i. child_of parent i s && is_dead (task_at s i).state) (rw (any) at nobody) c
                  (omega arith) (omega (arith, slot.0)) in
              absurd (ground (arith, missed, child, dead))
          | inr one ↦ elim wanted [
            | inl zero_ ↦ absurd (ground (arith, one, zero_))
            | inr same ↦ absurd (ground (arith, rw (one, same, child, dead) at nobody))
          ]
        ]
      ]

module _ {M : Type 0} (k : Kernel M) (s : Sched M) (fits : s.task_count ≤ length s.tasks) where
  count-show_wait_status :
      (u : Sched M) (i code : ℕ) → (show_wait_status k i code u).task_count ≡ u.task_count
  unfolding show_wait_status
  count-show_wait_status u i code =
      elim (Bool-cases ((task_at u i).seen_status && ((task_at u i).shown_status == code))) [
        | inl shown ↦ rw (shown) refl
        | inr new ↦ rw (new) refl
      ]

  -- The reaped child alone is no longer to be reaped.
  reaped-child_of :
      (parent i z code : ℕ)
      → z < s.task_count
      → child_of parent i (show_wait_status k s.current code (reap_child z s))
        ≡ (child_of parent i s && not (i == z))
  unfolding child_of reap_child
  reaped-child_of parent i z code in_ =
      let c = record (task_at s z) { reaped = true } in
      let t = show_wait_status k s.current code (reap_child z s) in
      let shown = status_of-show_wait_status k (reap_child z s) s.current code i in
      let count = count-show_wait_status (reap_child z s) s.current code in
      elim (ℕ_discrete i z) [
        | yes e ↦
            let one = task_at-set_task s z c (omega (arith, in_, fits)) in
            let st : status_of (task_at t i) ≡ status_of c =
              shown ∙ ap (λ j. status_of (task_at (reap_child z s) j)) e ∙ ap status_of one in
            let gone : (task_at t i).reaped ≡ true = ap (λ (x : Status). x.5) st in
            let same : (i == z) ≡ true = ground (arith, e) in rw (gone, same) (ground arith)
        | no ne ↦
            let other = task_at-set_task_ne s z i c (λ e. ne (sym e)) in
            let st : status_of (task_at t i) ≡ status_of (task_at s i) =
              shown ∙ ap status_of other in
            let kept : (task_at t i).reaped ≡ (task_at s i).reaped = ap (λ (x : Status). x.5) st in
            let of : (task_at t i).parent ≡ (task_at s i).parent = ap (λ (x : Status). x.3) st in
            let differs : (i == z) ≡ false = ground (arith, ne) in
            rw (count, kept, of, differs) (ground arith)
      ]

  -- With no more slots in use than the array has, no signal pending for the current task and a dead
  -- child of the wanted kind that nobody has reaped, `sched_wait` returns at once, with the exit
  -- code of such a child in rax, and what each task has left to reap is as before but for that
  -- child.
  pub wait_child-reaps :
      (irqs : List (Sched M → Sched M)) (f : Regs) (want c : ℕ)
      → has_pending s.current s ≡ false
      → to_int (f.rdi % 2 ^ 32) ≡ pos want
      → child_of s.current c s ≡ true
      → is_dead (task_at s c).state ≡ true
      → (want ≡ 0) ⊎ (want ≡ c)
      → (z : ℕ) × (t : Sched M) × (wait_child k irqs (some f) s
          ≡ resume (some (with_rax (task_at s z).exit_code f)) t)
        × (child_of s.current z s ≡ true)
        × (is_dead (task_at s z).state ≡ true)
        × ((want ≡ 0) ⊎ (want ≡ z))
        × ((parent i : ℕ) → child_of parent i t ≡ (child_of parent i s && not (i == z)))
  unfolding wait_child wait_want
  wait_child-reaps irqs f want c quiet arg child dead wanted =
      let (z, found) = find_zombie-found s s.current want c child dead wanted in
      let code = (task_at s z).exit_code in
      let (mine, gone, asked) = find_zombie-child s s.current want z found in
      let slot = child_of-slot s s.current z mine in
      (
        z,
        show_wait_status k s.current code (reap_child z s),
        rw (quiet, arg, wait_want, found) refl,
        mine,
        gone,
        asked,
        λ parent i. reaped-child_of parent i z code slot.0,
      )
