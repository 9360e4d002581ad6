-- ===== src/Sched/Fd/Bind.antt =====
-- kernel/sched.c: `sched_fd_bind_pipe`, against the invariant of the pipe table.
use vampire_os.Prelude.{
  ℕ, ◌+◌, ◌<◌, ◌≡◌, ◌≢◌, refl, inl, inr, Bool, true, false, not, List, none, some, arith, ap, sym,
  ◌∙◌, ◌||◌,
}
use vampire_os.Prelude.{get_or, set, Bool-cases, Option-cases}
use vampire_os.Prelude.Int.{ℤ, pos, index?, index?-some, eq_of_index?}
use vampire_os.Sched.Types.{
  FdEntry, FdKind, Pipe, Task, Sched, is_pipe_r, is_pipe_end, is_dead, no_fd, no_pipe, no_task,
  task_at, pipe_at, fd_at, set_fd, pipe_max, fd_max, task_max,
}
use vampire_os.Sched.Kernel.{Kernel}
use vampire_os.Sched.Pipe.{ref_up, live_pipe?, add_ref, drop_fd, release_end}
use vampire_os.Sched.Pipe.Refs.{
  live_pipe?-some, settle, held_of_end, live_pipe?-pos, pipe_at-drop_ref,
}
use vampire_os.Sched.Pipe.Drop.{held-le-task_refs, Keeps-IsShaped, Keeps-set_fd}
use vampire_os.Sched.Pipe.Attach.{
  Keeps-add_ref, tasks-add_ref, fd_at-set_fd, pipe_at-add_ref, bind_end-IsCounted,
}
use vampire_os.Sched.Fd.{vacate, bind_pipe_at, fd_bind_pipe}
use vampire_os.Sched.Fd.Counted.{IsSound}
use vampire_os.Sched.Fd.Pipes.{vacate-IsSound}

used-ref_up : (r : Bool) (q : Pipe) → (ref_up r q).used ≡ q.used
used-ref_up r q = ground arith

buf-ref_up : (r : Bool) (q : Pipe) → (ref_up r q).buf ≡ q.buf
buf-ref_up r q = ground arith

module _ {M : Type 0} (k : Kernel M) (s : Sched M) (v : IsSound s) where
  -- Closing a descriptor leaves every pipe alone but the one whose end it was.
  pub pipe_at-vacate_ne :
      (i f p : ℕ)
      → ((fd_at s i f).used ≡ true → (fd_at s i f).pipe ≢ pos p)
      → pipe_at (vacate k i f s) p ≡ pipe_at s p
  unfolding vacate drop_fd release_end
  pipe_at-vacate_ne i f p ne = elim (Bool-cases (fd_at s i f).used) [
    | inl taken ↦ elim (Bool-cases (is_pipe_end (fd_at s i f).kind)) [
      | inl isend ↦ elim (Option-cases (live_pipe? s (fd_at s i f).pipe)) [
        | inl gone ↦ rw (taken, isend, gone)
        | inr (q, live) ↦
            let l = live_pipe?-some s (fd_at s i f).pipe q live in
            let r = is_pipe_r (fd_at s i f).kind in
            let apart = ne taken in
            rw (taken, isend, live) (ground (arith, pipe_at-drop_ref k r s q p v.shaped.table l.1))
      ]
      | inr other ↦ rw (taken, other)
    ]
    | inr free ↦ rw free
  ]

  bind_pipe_at-IsSound :
      (i f : ℕ) (kind : FdKind) (p : ℕ)
      → i < task_max
      → f < fd_max
      → is_pipe_end kind ≡ true
      → p < pipe_max
      → (pipe_at s p).used ≡ true
      → ((fd_at s i f).used ≡ true → (fd_at s i f).pipe ≢ pos p)
      → IsSound (bind_pipe_at k i f kind p s)
  unfolding bind_pipe_at
  bind_pipe_at-IsSound i f kind p hi hf isend hp live ne =
      let s' = vacate k i f s in
      let e : FdEntry = record {
        used = true;
        kind = kind;
        pipe = pos p;
        offset = 0;
        path = set (fd_at s' i f).path 0 0;
      } in
      let (v', free) = vacate-IsSound k s v i f hi hf in
      let still : (pipe_at s' p).used ≡ true =
        ap (λ (q : Pipe). q.used) (pipe_at-vacate_ne i f p ne) ∙ live in
      record {
        shaped =
            Keeps-IsShaped (Keeps-add_ref (is_pipe_r kind) p (set_fd s' i f e))
              (Keeps-IsShaped (Keeps-set_fd s' i f e) v'.shaped);
        counts =
            bind_end-IsCounted s' i f v'.shaped v'.counts hi hf free e p refl isend refl hp still;
      }

  -- `sched_fd_bind_pipe` keeps the invariant of the pipe table, refused or not, where the
  -- descriptor that it binds, if open, does not already hold the pipe.
  pub fd_bind_pipe-IsSound :
      (fd : ℤ) (kind : FdKind) (pipe_id : ℤ)
      → ((i f : ℕ)
          → s.last_added ≡ pos i
          → fd ≡ pos f
          → (fd_at s i f).used ≡ true
          → (fd_at s i f).pipe ≢ pipe_id)
      → IsSound (fd_bind_pipe k fd kind pipe_id s).1
  unfolding fd_bind_pipe
  fd_bind_pipe-IsSound fd kind pipe_id apart =
      elim (Option-cases (index? s.last_added s.task_count)) [
        | inl bad ↦ rw (bad, fd_bind_pipe) v
        | inr (i, ok_i) ↦ elim (Option-cases (index? fd fd_max)) [
          | inl bad ↦ rw (ok_i, fd_bind_pipe, bad) v
          | inr (f, ok_f) ↦ elim (Option-cases (live_pipe? s pipe_id)) [
            | inl gone ↦ rw (ok_i, fd_bind_pipe, ok_f, gone) v
            | inr (p, live) ↦
                elim (Bool-cases (not (is_pipe_end kind) || is_dead (task_at s i).state)) [
                  | inl refused ↦ rw (ok_i, fd_bind_pipe, ok_f, live, refused) v
                  | inr fine ↦
                      let l = live_pipe?-some s pipe_id p live in
                      rw (ok_i, fd_bind_pipe, ok_f, live, fine)
                        (bind_pipe_at-IsSound i f kind p
                          (omega (
                            arith,
                            index?-some s.last_added s.task_count i ok_i,
                            v.shaped.count_in,
                          ))
                          (index?-some fd fd_max f ok_f) (ground arith) l.1 l.2
                          (λ taken same.
                            apart i f (eq_of_index? s.last_added s.task_count i ok_i)
                              (eq_of_index? fd fd_max f ok_f) taken (same ∙ sym l.0)))
                ]
          ]
        ]
      ]

  -- Closing the only end of a pipe frees it.
  pub freed :
      (i f p : ℕ)
      → i < task_max
      → f < fd_max
      → p < pipe_max
      → (pipe_at s p).used ≡ true
      → (fd_at s i f).used ≡ true
      → is_pipe_end (fd_at s i f).kind ≡ true
      → (fd_at s i f).pipe ≡ pos p
      → (pipe_at s p).rrefs + (pipe_at s p).wrefs ≡ 1
      → pipe_at (vacate k i f s) p ≡ no_pipe
  unfolding vacate drop_fd release_end settle
  freed i f p hi hf hp live taken isend at single =
      let e = fd_at s i f in
      let r = is_pipe_r e.kind in
      let one = held-le-task_refs k s i f v.shaped v.counts hi hf r p in
      let found : live_pipe? s e.pipe ≡ some p = rw at (live_pipe?-pos s p hp live) in
      rw (taken, isend, found)
        (ground (
          arith,
          pipe_at-drop_ref k r s p p v.shaped.table hp,
          held_of_end e r p p taken isend at,
          v.counts.counted r p,
          one,
        ))

  -- In a state with the invariant of the pipe table, where the open descriptor to be bound is the
  -- only end of the used pipe that it is bound to, the bind leaves an open descriptor that refers
  -- to a pipe marked unused and without a page.
  pub bind_pipe_at-last_end :
      (i f : ℕ) (kind : FdKind) (p : ℕ)
      → i < task_max
      → f < fd_max
      → p < pipe_max
      → (pipe_at s p).used ≡ true
      → (fd_at s i f).used ≡ true
      → is_pipe_end (fd_at s i f).kind ≡ true
      → (fd_at s i f).pipe ≡ pos p
      → (pipe_at s p).rrefs + (pipe_at s p).wrefs ≡ 1
      → let s' = bind_pipe_at k i f kind p s in
        ((pipe_at s' p).used ≡ false)
        × ((pipe_at s' p).buf ≡ none)
        × ((fd_at s' i f).used ≡ true)
        × ((fd_at s' i f).pipe ≡ pos p)
  unfolding bind_pipe_at
  bind_pipe_at-last_end i f kind p hi hf hp live taken isend at single =
      let s' = vacate k i f s in
      let e : FdEntry = record {
        used = true;
        kind = kind;
        pipe = pos p;
        offset = 0;
        path = set (fd_at s' i f).path 0 0;
      } in
      let (v', free) = vacate-IsSound k s v i f hi hf in
      let new : pipe_at (add_ref (is_pipe_r kind) p (set_fd s' i f e)) p
          ≡ ref_up (is_pipe_r kind) no_pipe =
        ground (
          arith,
          pipe_at-add_ref (is_pipe_r kind) (set_fd s' i f e) p p v'.shaped.table hp,
          freed i f p hi hf hp live taken isend at single,
        ) in
      let entry : fd_at (add_ref (is_pipe_r kind) p (set_fd s' i f e)) i f ≡ e =
        ap (λ (ts : List Task). get_or (get_or ts i no_task).fds f no_fd)
          (tasks-add_ref (is_pipe_r kind) p (set_fd s' i f e))
        ∙ fd_at-set_fd s' i f e (omega (arith, v'.shaped.slots))
            (omega (arith, v'.shaped.entries i hi)) in
      (
        ap (λ (q : Pipe). q.used) new ∙ used-ref_up (is_pipe_r kind) no_pipe,
        ap (λ (q : Pipe). q.buf) new ∙ buf-ref_up (is_pipe_r kind) no_pipe,
        ap (λ (x : FdEntry). x.used) entry,
        ap (λ (x : FdEntry). x.pipe) entry,
      )
