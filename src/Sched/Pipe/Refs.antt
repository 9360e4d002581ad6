-- ===== src/Sched/Pipe/Refs.antt =====
-- kernel/sched.c: the invariant of the pipe table, which sets `rrefs` and `wrefs` against the
-- descriptors that hold the pipe.
use vampire_os.Prelude.{
  ℕ, zero, suc, List, [], ◌∷◌, ◌+◌, ◌<◌, ◌≤◌, ◌≡◌, refl, inl, inr, Bool, true, false, ◌&&◌, none,
  some, arith, ap, ◌⊎◌,
}
use vampire_os.Prelude.{
  length, get_or, if◌then◌else◌, ◌==◌, Bool-cases, Option-cases, length-set, get_or-set,
}
use vampire_os.Prelude.Int.{ℤ, pos}
use vampire_os.Sched.Types.{
  FdEntry, Pipe, Sched, is_pipe_r, is_pipe_end, no_fd, no_pipe, task_at, pipe_at, set_pipe,
  pipe_max, fd_max, task_max,
}
use vampire_os.Sched.Kernel.{Kernel}
use vampire_os.Sched.Pipe.{
  ref_down, live_pipe?, free_pipe, drop_ref, release_end, wake_pipe_waiters,
}
use vampire_os.Sched.Pipe.Count.{held, task_refs, task_refs-wake_pipe_waiters}

abbrev pub refs : Bool → Pipe → ℕ
refs true q = q.rrefs
refs false q = q.wrefs

module _ {M : Type 0} where
  -- The arrays have the lengths that the source declares, and the slots in use lie inside.
  pub record IsShaped (s : Sched M) : Type 0 where
    pub slots : length s.tasks ≡ task_max
    pub table : length s.pipes ≡ pipe_max
    pub entries : (i : ℕ) → i < task_max → length (task_at s i).fds ≡ fd_max
    pub count_in : s.task_count ≤ task_max
    pub current_in : s.current < task_max

  pub record IsCounted (s : Sched M) : Type 0 where
    pub counted : (b : Bool) (p : ℕ) → refs b (pipe_at s p) ≡ task_refs b p s.tasks
    pub unused : (b : Bool) (p : ℕ) → (pipe_at s p).used ≡ false → refs b (pipe_at s p) ≡ 0

  pub live_pipe?-some :
      (s : Sched M) (i : ℤ) (p : ℕ)
      → live_pipe? s i ≡ some p
      → (i ≡ pos p) × (p < pipe_max) × ((pipe_at s p).used ≡ true)
  unfolding live_pipe?
  live_pipe?-some s i p h = ground arith

  pub live_pipe?-pos :
      (s : Sched M) (p : ℕ)
      → p < pipe_max
      → (pipe_at s p).used ≡ true
      → live_pipe? s (pos p) ≡ some p
  unfolding live_pipe?
  live_pipe?-pos s p l h = ground arith

  pub live_pipe?-none :
      (s : Sched M) (p : ℕ)
      → live_pipe? s (pos p) ≡ none
      → p < pipe_max
      → (pipe_at s p).used ≡ false
  unfolding live_pipe?
  live_pipe?-none s p h l = ground arith

-- The end of `drop_ref`: a pipe with no reference left is cleared.
unfoldable pub settle : Pipe → Pipe
settle q = if (q.rrefs == 0) && (q.wrefs == 0) then no_pipe else q

module _ {M : Type 0} (k : Kernel M) where
  pub pipe_at-free_pipe :
      (s : Sched M) (q p : ℕ)
      → length s.pipes ≡ pipe_max
      → q < pipe_max
      → pipe_at (free_pipe k q s) p ≡ (if q == p then no_pipe else pipe_at s p)
  unfolding free_pipe
  pipe_at-free_pipe s q p l h = ground (arith, get_or-set s.pipes q no_pipe p no_pipe)

  pub tasks-free_pipe : (s : Sched M) (q : ℕ) → (free_pipe k q s).tasks ≡ s.tasks
  unfolding free_pipe
  tasks-free_pipe s q = refl

  -- What `drop_ref` leaves at each pipe.
  pub pipe_at-drop_ref :
      (r : Bool) (s : Sched M) (q p : ℕ)
      → length s.pipes ≡ pipe_max
      → q < pipe_max
      → pipe_at (drop_ref k r q s) p
        ≡ (if q == p then settle (ref_down r (pipe_at s q)) else pipe_at s p)
  unfolding drop_ref wake_pipe_waiters settle
  pipe_at-drop_ref r s q p l h =
      let v = ref_down r (pipe_at s q) in
      let woken = wake_pipe_waiters q (set_pipe s q v) in
      ground (
        arith,
        get_or-set s.pipes q v p no_pipe,
        length-set s.pipes q v,
        pipe_at-free_pipe woken q p,
      )

  pub task_refs-drop_ref :
      (r : Bool) (s : Sched M) (q : ℕ) (b : Bool) (p : ℕ)
      → task_refs b p (drop_ref k r q s).tasks ≡ task_refs b p s.tasks
  unfolding drop_ref
  task_refs-drop_ref r s q b p =
      let v = ref_down r (pipe_at s q) in
      let woken = wake_pipe_waiters q (set_pipe s q v) in
      ground (
        arith,
        task_refs-wake_pipe_waiters (set_pipe s q v) b p q,
        ap (task_refs b p) (tasks-free_pipe woken q),
      )

pub get_or_beyond {ℓ} :
    {A : Type ℓ} (xs : List A) (i : ℕ) (d : A) → length xs ≤ i → get_or xs i d ≡ d
get_or_beyond [] i d h = refl
get_or_beyond (x ∷ xs) zero d h = absurd (omega arith)
get_or_beyond (x ∷ xs) (suc i) d h = get_or_beyond xs i d (omega arith)

pub held-no_fd : (b : Bool) (p : ℕ) → held b p no_fd ≡ 0
unfolding held
held-no_fd b p = ground arith

pub held_cases :
    (e : FdEntry) (b : Bool) (p : ℕ)
    → (held b p e ≡ 0)
      ⊎ ((held b p e ≡ 1)
          × (e.pipe ≡ pos p)
          × (is_pipe_end e.kind ≡ true)
          × (is_pipe_r e.kind ≡ b)
          × (e.used ≡ true))
unfolding held
held_cases e b p = ground arith

pub held_of_end :
    (e : FdEntry) (b : Bool) (p q : ℕ)
    → e.used ≡ true
    → is_pipe_end e.kind ≡ true
    → e.pipe ≡ pos q
    → held b p e ≡ (
        if q == p
        then (if is_pipe_r e.kind then (if b then 1 else 0) else (if b then 0 else 1))
        else 0)
unfolding held
held_of_end e b p q u h i = ground arith

module _ {M : Type 0} (k : Kernel M) (s : Sched M) (w : IsShaped s) (c : IsCounted s) where
  -- Where the guard fails the entry is no end of any pipe.
  held_of_not_live :
      (e : FdEntry) (b : Bool) (p : ℕ)
      → live_pipe? s e.pipe ≡ none
      → held b p e ≤ task_refs b p s.tasks
      → held b p e ≡ 0
  unfolding live_pipe?
  held_of_not_live e b p h le = ground (
    arith,
    c.counted b p,
    c.unused b p,
    w.table,
    get_or_beyond s.pipes p no_pipe,
    held_cases e b p,
  )

  released_live :
      (e : FdEntry) (b : Bool) (p q : ℕ)
      → e.used ≡ true
      → is_pipe_end e.kind ≡ true
      → live_pipe? s e.pipe ≡ some q
      → held b p e ≤ task_refs b p s.tasks
      → (refs b (pipe_at (drop_ref k (is_pipe_r e.kind) q s) p) + held b p e
          ≡ task_refs b p s.tasks)
        × ((pipe_at (drop_ref k (is_pipe_r e.kind) q s) p).used ≡ false
            → refs b (pipe_at (drop_ref k (is_pipe_r e.kind) q s) p) ≡ 0)
  unfolding settle
  released_live e b p q u isend live le = ground (
    arith,
    live_pipe?-some s e.pipe q live,
    pipe_at-drop_ref k (is_pipe_r e.kind) s q p w.table,
    held_of_end e b p q u isend,
    c.counted b p,
    c.unused b p,
  )

  pub released :
      (e : FdEntry) (b : Bool) (p : ℕ)
      → e.used ≡ true
      → held b p e ≤ task_refs b p s.tasks
      → (refs b (pipe_at (release_end k e s) p) + held b p e ≡ task_refs b p s.tasks)
        × ((pipe_at (release_end k e s) p).used ≡ false
            → refs b (pipe_at (release_end k e s) p) ≡ 0)
  unfolding release_end
  released e b p u le = elim (Bool-cases (is_pipe_end e.kind)) [
    | inl isend ↦ elim (Option-cases (live_pipe? s e.pipe)) [
      | inl gone ↦
          rw (isend, gone)
            (ground (arith, held_of_not_live e b p gone le, c.counted b p, c.unused b p))
      | inr (q, live) ↦ rw (isend, live) (released_live e b p q u isend live le)
    ]
    | inr other ↦ rw other (ground (arith, held_cases e b p, c.counted b p, c.unused b p))
  ]
