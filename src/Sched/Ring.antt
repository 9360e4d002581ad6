-- ===== src/Sched/Ring.antt =====
-- kernel/sched.c: `sched_pipe_read` and `sched_pipe_write` on the one-page ring of a pipe. Behind the
-- masks an index is taken modulo `PIPE_CAP`; the sums stay far below 2 ^ 32.
pub mod Window
pub mod Refine
pub mod Wake
use vampire_os.Prelude.{
  ℕ, zero, suc, ◌+◌, ◌-◌, ◌%◌, Bool, true, false, not, ◌||◌, Option, none, some, List, [], ◌∷◌,
}
use vampire_os.Prelude.{get_or, set, take, length, ◌==◌, ltb, leb, if◌then◌else◌}
use vampire_os.Prelude.Int.{ℤ, pos, minus_one, minus_two}
use vampire_os.Sched.Types.{
  FdKind, is_pipe_r, is_pipe_w, FdEntry, Pipe, Sched, pipe_at, set_pipe, pipe_cap,
}
use vampire_os.Sched.Pipe.{wake_pipe_waiters, live_pipe?}
use vampire_os.Sched.Fd.{open_fd?, current_fd}

-- The copy loop of the read: `data[(head + i) & PIPE_MASK]` for the next `n` bytes, `h` being
-- `head + i`.
unfoldable pub read_ring : List ℕ → ℕ → ℕ → List ℕ
read_ring b h zero = []
read_ring b h (suc n) = get_or b (h % pipe_cap) 0 ∷ read_ring b (h + 1) n

-- The copy loop of the write, `t` being `tail + i`.
unfoldable pub write_ring : List ℕ → ℕ → List ℕ → List ℕ
write_ring b t [] = b
write_ring b t (x ∷ xs) = write_ring (set b (t % pipe_cap) x) (t + 1) xs

-- The pipe after `got` bytes are taken, and after `bytes` are put behind the others on its page.
abbrev pub taken : ℕ → Pipe → Pipe
taken got q = record q { head = (q.head + got) % pipe_cap; len = q.len - got }

abbrev pub filled : List ℕ → List ℕ → Pipe → Pipe
filled b bytes q = record q {
  buf = some (write_ring b ((q.head + q.len) % pipe_cap) bytes);
  len = q.len + length bytes;
}

module _ {M : Type 0} where
  -- The guards on the descriptor and its pipe: the pipe's index and page.
  unfoldable pub pipe_of : (FdKind → Bool) → ℤ → Sched M → Option (ℕ × List ℕ)
  pipe_of want fd s = elim (open_fd? fd s) [
    | none ↦ none
    | some f ↦
        if want (current_fd s f).kind
        then elim (live_pipe? s (current_fd s f).pipe) [
          | none ↦ none
          | some p ↦ elim (pipe_at s p).buf [ none ↦ none | some b ↦ some (p, b) ]
        ]
        else none
  ]

  -- The body of the read: the result, the bytes copied out, and the new state.
  unfoldable pub take_bytes : ℕ → List ℕ → ℕ → Sched M → ℤ × List ℕ × Sched M
  take_bytes p b n s =
      let q = pipe_at s p in
      if q.len == 0
      then (if q.wrefs == 0 then pos 0 else minus_two, [], s)
      else (let got = if ltb q.len n then q.len else n in
          (pos got, read_ring b q.head got, wake_pipe_waiters p (set_pipe s p (taken got q))))

  -- The body of the write: the result and the new state.
  unfoldable pub put_bytes : ℕ → List ℕ → List ℕ → Sched M → ℤ × Sched M
  put_bytes p b src s =
      let q = pipe_at s p in
      if q.rrefs == 0
      then (minus_one, s)
      else if leb pipe_cap q.len
      then (minus_two, s)
      else let room = pipe_cap - q.len in
        let got = if ltb room (length src) then room else length src in
        (pos got, wake_pipe_waiters p (set_pipe s p (filled b (take got src) q)))

  -- `sched_pipe_read`; `dst` says whether the pointer is set.
  unfoldable pub pipe_read : ℤ → Bool → ℕ → Sched M → ℤ × List ℕ × Sched M
  pipe_read fd dst n s =
      if n == 0
      then (pos 0, [], s)
      else if not dst
      then (minus_one, [], s)
      else elim (pipe_of is_pipe_r fd s) [
        | none ↦ (minus_one, [], s)
        | some (p, b) ↦ take_bytes p b n s
      ]

  -- `sched_pipe_write` of the bytes `src`, as many as `n` says.
  unfoldable pub pipe_write : ℤ → Bool → List ℕ → Sched M → ℤ × Sched M
  pipe_write fd src_set src s =
      if length src == 0
      then (pos 0, s)
      else if not src_set
      then (minus_one, s)
      else elim (pipe_of is_pipe_w fd s) [
        | none ↦ (minus_one, s)
        | some (p, b) ↦ put_bytes p b src s
      ]
