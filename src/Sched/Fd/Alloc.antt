-- ===== src/Sched/Fd/Alloc.antt =====
-- kernel/sched.c: `alloc_pipe`, and the two entries that `sched_pipe` opens on its pipe.
use vampire_os.Prelude.{
  ℕ, ◌<◌, ◌≡◌, ◌≢◌, refl, inl, inr, Bool, true, false, not, some, arith, ap, subst, ◌∙◌,
}
use vampire_os.Prelude.{
  length, get_or, set, if◌then◌else◌, ◌==◌, Bool-cases, Option-cases, length-set, get_or-set,
  get_or-set_self,
}
use vampire_os.Prelude.Int.{ℤ, pos, index?}
use vampire_os.Prelude.Search.{first_from, first_from-IsFirst}
use vampire_os.Sched.Types.{
  FdEntry, Pipe, Sched, no_pipe, pipe_at, set_pipe, set_fd, pipe_max, fd_max, pipe_r, pipe_w,
}
use vampire_os.Sched.Kernel.{Kernel}
use vampire_os.Sched.Pipe.{alloc_pipe, fresh_pipe, alloc_frame}
use vampire_os.Sched.Pipe.Count.{held, task_refs-set_fd}
use vampire_os.Sched.Pipe.Refs.{refs, IsShaped}
use vampire_os.Sched.Pipe.Drop.{Keeps-IsShaped, Keeps-set_fd}
use vampire_os.Sched.Pipe.Attach.{HoldsNone-of_unused, fd_at-set_fd_ne}
use vampire_os.Sched.Fd.{current_fd, pipe_entry, open_ends}
use vampire_os.Sched.Fd.Counted.{IsSound}
use vampire_os.Sched.Fd.Frame.{remachine-IsSound}

-- The share of an end whose kind is known.
held_end :
    (b : Bool) (x p : ℕ) (e : FdEntry) (reads : Bool)
    → e.used ≡ true
    → e.kind ≡ (if reads then pipe_r else pipe_w)
    → e.pipe ≡ pos p
    → held b x e
      ≡ (if p == x then (if reads then (if b then 1 else 0) else (if b then 0 else 1)) else 0)
unfolding held
held_end b x p e reads u kd at = ground arith

module _ {M : Type 0} where
  -- A pipe that nobody counts, in the place of an unused one.
  pub replace-IsSound :
      (s : Sched M) (q : ℕ) (v : Pipe)
      → q < pipe_max
      → ((b : Bool) → refs b (pipe_at s q) ≡ 0)
      → ((b : Bool) → refs b v ≡ 0)
      → IsSound s
      → IsSound (set_pipe s q v)
  replace-IsSound s q new h old zero_refs v = record {
    shaped = record {
      slots = v.shaped.slots;
      table = length-set s.pipes q new ∙ v.shaped.table;
      entries = v.shaped.entries;
      count_in = v.shaped.count_in;
      current_in = v.shaped.current_in;
    };
    counts = record {
      counted = λ b p. ground (
        arith,
        get_or-set s.pipes q new p no_pipe,
        v.counts.counted b p,
        old b,
        zero_refs b,
        v.shaped.table,
      );
      unused = λ b p e. ground (
        arith,
        get_or-set s.pipes q new p no_pipe,
        v.counts.unused b p,
        zero_refs b,
        v.shaped.table,
      );
    };
  }

  two_ends :
      (s : Sched M) (p r w : ℕ) (er ew : FdEntry)
      → IsSound s
      → p < pipe_max
      → (pipe_at s p).used ≡ true
      → ((b : Bool) → refs b (pipe_at s p) ≡ 0)
      → r < fd_max
      → w < fd_max
      → r ≢ w
      → (current_fd s r).used ≡ false
      → (current_fd s w).used ≡ false
      → er.used ≡ true
      → er.kind ≡ pipe_r
      → er.pipe ≡ pos p
      → ew.used ≡ true
      → ew.kind ≡ pipe_w
      → ew.pipe ≡ pos p
      → IsSound (
          set_fd
            (set_fd (set_pipe s p (record (pipe_at s p) { rrefs = 1; wrefs = 1 })) s.current r er)
            s.current
            w
            ew)
  two_ends s p r w er ew v hp live none_yet hr hw ne ur uw ru rk rp wu wk wp =
      let q : Pipe = record (pipe_at s p) { rrefs = 1; wrefs = 1 } in
      let one = set_pipe s p q in
      let two = set_fd one s.current r er in
      let hc : s.current < length s.tasks = omega (arith, v.shaped.current_in, v.shaped.slots) in
      let fits = v.shaped.entries s.current v.shaped.current_in in
      let k1 = Keeps-set_fd one s.current r er in
      let k2 = Keeps-set_fd two s.current w ew in
      let shaped_one : IsShaped one = record {
        slots = v.shaped.slots;
        table = length-set s.pipes p q ∙ v.shaped.table;
        entries = v.shaped.entries;
        count_in = v.shaped.count_in;
        current_in = v.shaped.current_in;
      } in
      record {
        shaped = Keeps-IsShaped k2 (Keeps-IsShaped k1 shaped_one);
        counts = record {
          counted = λ b x. ground (
            arith,
            get_or-set s.pipes p q x no_pipe,
            v.shaped.table,
            v.counts.counted b x,
            none_yet b,
            held_end b x p er true ru rk rp,
            held_end b x p ew false wu wk wp,
            HoldsNone-of_unused (current_fd s r) ur b x,
            HoldsNone-of_unused (current_fd s w) uw b x,
            ap (held b x) (fd_at-set_fd_ne one s.current r w er hc ne),
            task_refs-set_fd one b x s.current r er hc (omega (arith, fits)),
            task_refs-set_fd two b x s.current w ew (omega (arith, hc, k1.slots))
                (omega (arith, fits, k1.entries s.current)),
          );
          unused = λ b x e.
              ground (
                arith,
                get_or-set s.pipes p q x no_pipe,
                v.counts.unused b x,
                v.shaped.table,
                live,
              );
        };
      }

  -- The two entries that `sched_pipe` fills, on a pipe without references.
  pub open_ends-IsSound :
      (s : Sched M) (p r w : ℕ)
      → IsSound s
      → p < pipe_max
      → (pipe_at s p).used ≡ true
      → ((b : Bool) → refs b (pipe_at s p) ≡ 0)
      → r < fd_max
      → w < fd_max
      → r ≢ w
      → (current_fd s r).used ≡ false
      → (current_fd s w).used ≡ false
      → IsSound (open_ends p r w s)
  unfolding open_ends
  open_ends-IsSound s p r w v hp live none_yet hr hw ne ur uw =
      let q : Pipe = record (pipe_at s p) { rrefs = 1; wrefs = 1 } in
      let one = set_pipe s p q in
      let er = pipe_entry pipe_r p (current_fd one r) in
      let ew = pipe_entry pipe_w p (current_fd (set_fd one one.current r er) w) in
      two_ends s p r w er ew v hp live none_yet hr hw ne ur uw refl refl refl refl refl refl

module _ {M : Type 0} (k : Kernel M) where
  -- What `alloc_pipe` has done when it returns `r`.
  pub record Allocated (s : Sched M) (r : ℤ × Sched M) : Type 0 where
    pub tasks : r.1.tasks ≡ s.tasks
    pub sound : IsSound r.1
    pub slot : r.1.current ≡ s.current
    pub fresh :
        (q : ℕ)
        → index? r.0 pipe_max ≡ some q
        → (q < pipe_max)
          × ((pipe_at s q).used ≡ false)
          × ((pipe_at r.1 q).used ≡ true)
          × (refs true (pipe_at r.1 q) ≡ 0)
          × (refs false (pipe_at r.1 q) ≡ 0)

  allocated :
      (s : Sched M)
      → IsSound s
      → (p : ℕ) → first_from pipe_max 0 (λ i. not (pipe_at s i).used) ≡ some p
      → Allocated s (
        pos p,
        set_pipe
            (record s { machine = (alloc_frame k s.machine).1 })
            p
            (fresh_pipe (alloc_frame k s.machine).0),
      )
  allocated s v p found =
      let first = first_from-IsFirst pipe_max 0 (λ i. not (pipe_at s i).used) found in
      let h : p < pipe_max = omega (arith, first.below) in
      let u : (pipe_at s p).used ≡ false = ground (arith, first.passes) in
      let new = fresh_pipe (alloc_frame k s.machine).0 in
      let at = get_or-set_self s.pipes p new no_pipe (omega (arith, v.shaped.table)) in
      record {
        tasks = refl;
        sound =
            replace-IsSound (record s { machine = (alloc_frame k s.machine).1 }) p new h
              (λ b. v.counts.unused b p u) (elim [ true ↦ refl | false ↦ refl ])
              (remachine-IsSound s _ v);
        slot = refl;
        fresh = λ q e.
            let same : p ≡ q = ground arith in
            subst
              (λ j.
                (j < pipe_max)
                × ((pipe_at s j).used ≡ false)
                × ((get_or (set s.pipes p new) j no_pipe).used ≡ true)
                × (refs true (get_or (set s.pipes p new) j no_pipe) ≡ 0)
                × (refs false (get_or (set s.pipes p new) j no_pipe) ≡ 0))
              same (h, u, rw at, rw at, rw at);
      }

  pub alloc_pipe-Allocated : (s : Sched M) → IsSound s → Allocated s (alloc_pipe k s)
  unfolding alloc_pipe
  alloc_pipe-Allocated s v =
      elim (Option-cases (first_from pipe_max 0 (λ i. not (pipe_at s i).used))) [
        | inl full ↦
            rw (full, alloc_pipe)
              (record {
                tasks = refl;
                sound = v;
                slot = refl;
                fresh = λ q h. absurd (ground arith);
              })
        | inr (p, found) ↦ elim (Bool-cases ((alloc_frame k s.machine).0 == 0)) [
          | inl failed ↦
              rw (found, alloc_pipe, failed)
                (record {
                  tasks = refl;
                  sound = remachine-IsSound s _ v;
                  slot = refl;
                  fresh = λ q h. absurd (ground arith);
                })
          | inr got ↦ rw (found, alloc_pipe, got) (allocated s v p found)
        ]
      ]
