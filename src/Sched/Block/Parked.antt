-- ===== src/Sched/Block/Parked.antt =====
-- kernel/sched.c: a task that blocks lets another one run, and what wakes it again.
use vampire_os.Prelude.{
  ℕ, ◌+◌, ◌%◌, ◌^◌, ◌<◌, ◌≤◌, ◌≡◌, ◌≢◌, ◌⊎◌, inl, inr, refl, true, false, some, List, arith, ap,
  sym, subst, ◌∙◌, length, length-set,
}
use vampire_os.Prelude.{◌==◌, leb, Bool-cases, Option-cases, get_or-map_below}
use vampire_os.Prelude.Int.{pos, minus_one, minus_two}
use vampire_os.Sched.Ring.{put_bytes}
use vampire_os.Sched.Types.{
  asleep, ready, on_pipe, is_ready, Regs, Task, Sched, Outcome, resume, no_task, task_at, set_task,
}
use vampire_os.Prelude.{get_or, map_below}
use vampire_os.Sched.Types.{pipe_at, pipe_cap}
use vampire_os.Sched.Pipe.{wake_waiter, wake_pipe_waiters}
use vampire_os.Sched.Kernel.{Kernel}
use vampire_os.Sched.Fd.Frame.{task_at-set_task, task_at-set_task_ne}
use vampire_os.Sched.Switch.{add32, pick_next, wake_sleeper, wake_sleepers, run_next, switch_in}
use vampire_os.Sched.Switch.RoundRobin.{pick_next-none, pick_next-ready}
use vampire_os.Sched.Signal.{has_pending}
use vampire_os.Sched.Block.{park, sleep_ticks, block_pipe}

module _ {M : Type 0} (k : Kernel M) (s : Sched M) (fits : s.task_count ≤ length s.tasks)
    (inside : s.current < s.task_count) (j : ℕ) (other : j ≢ s.current) (there : j < s.task_count)
    (can_run : is_ready (task_at s j).state ≡ true) where
  -- The call has left the task in its slot as it is to wait, every other one as it was, and another
  -- task, which was ready, runs.
  pub record Parked (waits : Task) (o : Outcome M) (t : Sched M) : Type 0 where
    pub runs : o ≡ resume (some (task_at s t.current).regs) t
    pub was_ready : is_ready (task_at s t.current).state ≡ true
    pub another : t.current ≢ s.current
    pub held : task_at t s.current ≡ waits
    pub rest : (i : ℕ) → i ≢ s.current → task_at t i ≡ task_at s i
    pub count : t.task_count ≡ s.task_count
    pub slots : length t.tasks ≡ length s.tasks

  abbrev saved : Regs → Task
  saved f = record (task_at s s.current) { regs = f }

  marked : (Task → Task) → Regs → Sched M
  marked mark f =
      let one = set_task s s.current (saved f) in
      set_task one s.current (mark (task_at one s.current))

  marked-held : (mark : Task → Task) (f : Regs) → task_at (marked mark f) s.current ≡ mark (saved f)
  unfolding marked
  marked-held mark f =
      let one = set_task s s.current (saved f) in
      task_at-set_task one s.current (mark (task_at one s.current))
        (omega (arith, inside, fits, length-set s.tasks s.current (saved f)))
      ∙ ap mark (task_at-set_task s s.current (saved f) (omega (arith, inside, fits)))

  marked-rest :
      (mark : Task → Task) (f : Regs) (i : ℕ)
      → i ≢ s.current
      → task_at (marked mark f) i ≡ task_at s i
  unfolding marked
  marked-rest mark f i ne =
      let one = set_task s s.current (saved f) in
      task_at-set_task_ne one s.current i (mark (task_at one s.current)) (λ e. ne (sym e))
      ∙ task_at-set_task_ne s s.current i (saved f) (λ e. ne (sym e))

  length-marked : (mark : Task → Task) (f : Regs) → length (marked mark f).tasks ≡ length s.tasks
  unfolding marked
  length-marked mark f =
      let one = set_task s s.current (saved f) in
      length-set one.tasks s.current (mark (task_at one s.current))
      ∙ length-set s.tasks s.current (saved f)

  count-marked : (mark : Task → Task) (f : Regs) → (marked mark f).task_count ≡ s.task_count
  unfolding marked
  count-marked mark f = refl

  marked-quiet :
      (mark : Task → Task) (f : Regs)
      → (mark (saved f)).pending ≡ 0
      → has_pending s.current (marked mark f) ≡ false
  marked-quiet mark f calm =
      let e : (task_at (marked mark f) s.current).pending ≡ 0 =
        ap (λ (t : Task). t.pending) (marked-held mark f) ∙ calm in
      ground (arith, e)

  -- The choice of the next task finds another one.
  marked-next :
      (mark : Task → Task) (f : Regs)
      → is_ready (mark (saved f)).state ≡ false
      → (next : ℕ) × (pick_next s.current (marked mark f) ≡ some next)
        × (next ≢ s.current)
        × (is_ready (task_at s next).state ≡ true)
  marked-next mark f waits = elim (Option-cases (pick_next s.current (marked mark f))) [
    | inl nobody ↦
        let stuck : is_ready (task_at (marked mark f) j).state ≡ false =
          pick_next-none (marked mark f) s.current inside' nobody j there' in
        let same : is_ready (task_at (marked mark f) j).state ≡ is_ready (task_at s j).state =
          ap (λ (t : Task). is_ready t.state) (marked-rest mark f j other) in
        absurd (ground (arith, stuck, same, can_run))
    | inr (next, found) ↦
        let (in_, r) = pick_next-ready (marked mark f) s.current next found in
        let held : is_ready (task_at (marked mark f) s.current).state ≡ false =
          ap (λ (t : Task). is_ready t.state) (marked-held mark f) ∙ waits in
        let ne : next ≢ s.current = λ e.
          let r' : is_ready (task_at (marked mark f) s.current).state ≡ true =
            subst (λ i. is_ready (task_at (marked mark f) i).state ≡ true) e r in
          absurd (ground (arith, held, r')) in
        (
          next,
          found,
          ne,
          sym (ap (λ (t : Task). is_ready t.state) (marked-rest mark f next ne)) ∙ r,
        )
  ]
    where
      inside' : s.current < (marked mark f).task_count
      inside' = omega (arith, inside, count-marked mark f)

      there' : j < (marked mark f).task_count
      there' = omega (arith, there, count-marked mark f)

  park-Parked :
      (mark unmark : Task → Task) (irqs : List (Sched M → Sched M)) (f : Regs)
      → (mark (saved f)).pending ≡ 0
      → is_ready (mark (saved f)).state ≡ false
      → (t : Sched M) × Parked (mark (saved f)) (park k mark unmark (λ x. x) irqs f s) t
  unfolding park run_next switch_in marked
  park-Parked mark unmark irqs f calm waits =
      let p = marked mark f in
      let (next, found, ne, r) = marked-next mark f waits in
      let t : Sched M = record p {
        current = next;
        machine = k.set_cr3 (task_at p next).cr3 (k.set_rsp0 (task_at p next).kstack_top p.machine);
      } in
      let step : park k mark unmark (λ x. x) irqs f s ≡ resume (some (task_at p next).regs) t =
        rw (marked-quiet mark f calm, run_next, found) refl in
      (
        t,
        record {
          runs = step ∙ ap (λ (u : Task). resume (some u.regs) t) (marked-rest mark f next ne);
          was_ready = r;
          another = ne;
          held = marked-held mark f;
          rest = λ i o. marked-rest mark f i o;
          count = refl;
          slots = length-marked mark f;
        },
      )

  Parked-before :
      (waits : Task) (o o' : Outcome M) (t : Sched M)
      → o ≡ o'
      → Parked waits o' t
      → Parked waits o t
  Parked-before waits o o' t e p = record {
    runs = e ∙ p.runs;
    was_ready = p.was_ready;
    another = p.another;
    held = p.held;
    rest = p.rest;
    count = p.count;
    slots = p.slots;
  }

  slot-map_below :
      (n : ℕ) (g : Task → Task) (ts : List Task) (i : ℕ)
      → i < n
      → n ≤ length ts
      → get_or (map_below n g ts) i no_task ≡ g (get_or ts i no_task)
  slot-map_below n g ts i h l = ground (arith, get_or-map_below n g ts i no_task)

  calm-quiet : (task_at s s.current).pending ≡ 0 → has_pending s.current s ≡ false
  calm-quiet calm = ground (arith, calm)

  sleeper :
      (f : Regs) (n : ℕ) (calm : (task_at s s.current).pending ≡ 0)
      → (m : M) (t : Sched M) {o : Outcome M}
      → Parked (record (saved f) { state = asleep; wake_tick = k.ticks s.machine + n }) o t
      → let woken = task_at (wake_sleepers k (record t { machine = m })) s.current in
        (is_ready woken.state ≡ leb (k.ticks s.machine + n) (k.ticks m)) × (woken.regs ≡ f)
  unfolding wake_sleepers wake_sleeper
  sleeper f n calm m t p =
      let held = record (saved f) { state = asleep; wake_tick = k.ticks s.machine + n } in
      let look : task_at (wake_sleepers k (record t { machine = m })) s.current
          ≡ wake_sleeper (k.ticks m) held =
        slot-map_below t.task_count (wake_sleeper (k.ticks m)) t.tasks s.current
          (omega (arith, inside, p.count)) (omega (arith, fits, p.count, p.slots))
        ∙ ap (wake_sleeper (k.ticks m)) p.held in
      rw (look) (ground (arith, calm), ground (arith, calm))

  sleep_ticks-wakes :
      (irqs : List (Sched M → Sched M)) (f : Regs) (n : ℕ)
      → (task_at s s.current).pending ≡ 0
      → 0 < n
      → k.ticks s.machine + n < 2 ^ 32
      → (t : Sched M) × Parked
          (record (saved f) { state = asleep; wake_tick = k.ticks s.machine + n })
          (sleep_ticks k irqs (some f) n s)
          t
        × ((m : M)
            → let woken = task_at (wake_sleepers k (record t { machine = m })) s.current in
              (is_ready woken.state ≡ leb (k.ticks s.machine + n) (k.ticks m)) × (woken.regs ≡ f))
  unfolding sleep_ticks
  sleep_ticks-wakes irqs f n calm some_ room =
      let wake = k.ticks s.machine + n in
      let e : add32 (k.ticks s.machine) (n % 2 ^ 32) ≡ wake = omega (arith, room) in
      let no_ : (n == 0) ≡ false = ground (arith, some_) in
      let (t, p) =
        park-Parked (λ t. record t { state = asleep; wake_tick = wake })
          (λ t. record t { state = ready; wake_tick = 0 }) irqs f calm refl in
      let step : sleep_ticks k irqs (some f) n s
          ≡ park k (λ t. record t { state = asleep; wake_tick = wake })
              (λ t. record t { state = ready; wake_tick = 0 }) (λ x. x) irqs f s =
        rw (calm-quiet calm, no_, e) refl in
      let p' = Parked-before _ _ _ t step p in (t, p', λ m. sleeper f n calm m t p')

  writer :
      (f : Regs) (p : ℕ)
      → (b src : List ℕ) (m : M) (t : Sched M) {o : Outcome M}
      → Parked (record (saved f) { state = on_pipe; pipe_wait = pos p }) o t
      → let r = put_bytes p b src (record t { machine = m }) in
        (r.0 ≡ minus_one)
        ⊎ ((r.0 ≡ minus_two)
            ⊎ ((is_ready (task_at r.1 s.current).state ≡ true)
                × ((task_at r.1 s.current).regs ≡ f)))
  unfolding put_bytes wake_pipe_waiters wake_waiter
  writer f p b src m t q =
      let end = pipe_at t p in
      elim (Bool-cases (end.rrefs == 0)) [
        | inl nobody ↦ inl (rw (put_bytes, nobody) refl)
        | inr reader ↦ elim (Bool-cases (leb pipe_cap end.len)) [
          | inl full ↦ inr (inl (rw (put_bytes, reader, full) refl))
          | inr open_ ↦
              let held = record (saved f) { state = on_pipe; pipe_wait = pos p } in
              let look : get_or (map_below t.task_count (wake_waiter p) t.tasks) s.current no_task
                  ≡ wake_waiter p held =
                slot-map_below t.task_count (wake_waiter p) t.tasks s.current
                  (omega (arith, inside, q.count)) (omega (arith, fits, q.count, q.slots))
                ∙ ap (wake_waiter p) q.held in
              inr (
                inr (
                  rw (put_bytes, reader, open_, wake_pipe_waiters, look)
                    (ground arith, ground arith)))
        ]
      ]

  block_pipe-woken :
      (irqs : List (Sched M → Sched M)) (f : Regs) (p : ℕ)
      → (task_at s s.current).pending ≡ 0
      → (t : Sched M) × Parked
          (record (saved f) { state = on_pipe; pipe_wait = pos p })
          (block_pipe k irqs (some f) (pos p) s)
          t
        × ((b src : List ℕ) (m : M)
            → let r = put_bytes p b src (record t { machine = m }) in
              (r.0 ≡ minus_one)
              ⊎ ((r.0 ≡ minus_two)
                  ⊎ ((is_ready (task_at r.1 s.current).state ≡ true)
                      × ((task_at r.1 s.current).regs ≡ f))))
  unfolding block_pipe
  block_pipe-woken irqs f p calm =
      let some_task : (s.task_count == 0) ≡ false = ground (arith, inside) in
      let (t, q) =
        park-Parked (λ t. record t { state = on_pipe; pipe_wait = pos p })
          (λ t. record t { state = ready; pipe_wait = minus_one }) irqs f calm refl in
      let step : block_pipe k irqs (some f) (pos p) s
          ≡ park k (λ t. record t { state = on_pipe; pipe_wait = pos p })
              (λ t. record t { state = ready; pipe_wait = minus_one }) (λ x. x) irqs f s =
        rw (some_task, calm-quiet calm) refl in
      let q' = Parked-before _ _ _ t step q in (t, q', λ b src m. writer f p b src m t q')

  -- With no more slots in use than the array has, a current slot in use, another slot in use that
  -- is ready, and no signal pending for the current task: a sleep of some ticks whose end does not
  -- wrap, and `sched_block_pipe`, leave the caller with the frame as its saved registers, the one
  -- asleep with its wake tick and the other waiting for the pipe, every other task as it was, and a
  -- ready task running with its registers in the frame. Whatever the machine does then,
  -- `wake_sleepers` makes the sleeper ready from its wake tick on and not before, and a write to
  -- the pipe that returns neither -1 nor -2 makes the other one ready, both with the saved
  -- registers.
  pub park-wakes :
      (irqs : List (Sched M → Sched M)) (f : Regs) (n p : ℕ)
      → (task_at s s.current).pending ≡ 0
      → 0 < n
      → k.ticks s.machine + n < 2 ^ 32
      → ((t : Sched M) × Parked
            (record (saved f) { state = asleep; wake_tick = k.ticks s.machine + n })
            (sleep_ticks k irqs (some f) n s)
            t
          × ((m : M)
              → let woken = task_at (wake_sleepers k (record t { machine = m })) s.current in
                (is_ready woken.state ≡ leb (k.ticks s.machine + n) (k.ticks m))
                × (woken.regs ≡ f)))
        × ((t : Sched M) × Parked
              (record (saved f) { state = on_pipe; pipe_wait = pos p })
              (block_pipe k irqs (some f) (pos p) s)
              t
            × ((b src : List ℕ) (m : M)
                → let r = put_bytes p b src (record t { machine = m }) in
                  (r.0 ≡ minus_one)
                  ⊎ ((r.0 ≡ minus_two)
                      ⊎ ((is_ready (task_at r.1 s.current).state ≡ true)
                          × ((task_at r.1 s.current).regs ≡ f)))))
  park-wakes irqs f n p calm some_ room =
      (sleep_ticks-wakes irqs f n calm some_ room, block_pipe-woken irqs f p calm)
