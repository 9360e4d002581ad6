-- ===== src/Sched/Ring/Refine.antt =====
-- kernel/sched.c: the read and the write of a pipe, and a bounded queue of bytes.
use vampire_os.Prelude.{
  ℕ, zero, suc, ◌+◌, ◌-◌, ◌%◌, ◌<◌, ◌≤◌, ◌≡◌, refl, inl, inr, Bool, true, false, not, some, List,
  [], ◌∷◌, ◌++◌, arith, ap, ap₂, ◌∙◌, sym,
}
use vampire_os.Prelude.{
  length, take, drop, ◌==◌, ltb, leb, if◌then◌else◌, Bool-cases, get_or-set_self, length-take_of_le,
  take_of_ge, drop_of_ge,
}
use vampire_os.Prelude.Int.{ℤ, pos, minus_one, minus_two}
use vampire_os.Sched.Types.{Pipe, Sched, pipe_at, set_pipe, no_pipe, pipe_cap, pipe_max}
use vampire_os.Sched.Pipe.{wake_pipe_waiters}
use vampire_os.Sched.Ring.{taken, filled, read_ring, write_ring, take_bytes, put_bytes}
use vampire_os.Sched.Ring.Window.{
  read_ring-mod, write_ring-mod, length-read_ring, length-write_ring, take-read_ring,
  drop-read_ring, read_ring-write_ring_before, read_ring-write_ring, read_ring-append,
}

-- A page of the full size, and indices inside it.
pub record IsRing (q : Pipe) (b : List ℕ) : Type 0 where
  pub page : q.buf ≡ some b
  pub size : length b ≡ pipe_cap
  pub head_in : q.head < pipe_cap
  pub len_in : q.len ≤ pipe_cap

-- The bytes that wait in the ring, oldest first.
abbrev pub contents : Pipe → List ℕ → List ℕ
contents q b = read_ring b q.head q.len

-- Reading at most `n` bytes from a queue: on an empty one the result says whether more may come.
unfoldable pub queue_read : (writers : Bool) → ℕ → List ℕ → ℤ × List ℕ × List ℕ
queue_read writers n [] = (if writers then minus_two else pos 0, [], [])
queue_read writers n (x ∷ c) = (pos (length (take n (x ∷ c))), take n (x ∷ c), drop n (x ∷ c))

-- Writing to a queue of at most a page: nobody reads, it is full, or as much as fits is appended.
unfoldable pub queue_write : (readers : Bool) → List ℕ → List ℕ → ℤ × List ℕ
queue_write readers src c =
    if not readers
    then (minus_one, c)
    else if leb pipe_cap (length c)
    then (minus_two, c)
    else let fits = take (pipe_cap - length c) src in (pos (length fits), c ++ fits)

-- A read from a queue that is not empty, by the bytes that it gets.
queue_read_ne :
    (writers : Bool) (n : ℕ) (c : List ℕ)
    → 0 < length c
    → let got = (if ltb (length c) n then length c else n) in
      queue_read writers n c ≡ (pos got, take got c, drop got c)
unfolding queue_read
queue_read_ne writers n [] h = absurd (omega arith)
queue_read_ne writers n (x ∷ c) h = elim (Bool-cases (ltb (length (x ∷ c)) n)) [
  | inl short ↦ rw short (
      let l : length (x ∷ c) ≤ n = ground arith in
      rw (
        take_of_ge n (x ∷ c) l,
        drop_of_ge n (x ∷ c) l,
        take_of_ge (length (x ∷ c)) (x ∷ c) (omega arith),
        drop_of_ge (length (x ∷ c)) (x ∷ c) (omega arith),
      ))
  | inr enough ↦ rw enough (rw (length-take_of_le n (x ∷ c) (ground arith)))
]

length-take-le : (n : ℕ) (xs : List ℕ) → length (take n xs) ≤ n
length-take-le zero xs = omega arith
length-take-le (suc n) [] = omega arith
length-take-le (suc n) (x ∷ xs) = omega (arith, length-take-le n xs)

-- The number of bytes that a write takes.
got_bytes :
    (room : ℕ) (src : List ℕ)
    → (take (if ltb room (length src) then room else length src) src ≡ take room src)
      × ((if ltb room (length src) then room else length src) ≡ length (take room src))
got_bytes room src = elim (Bool-cases (ltb room (length src))) [
  | inl short ↦ rw short (refl, sym (length-take_of_le room src (ground arith)))
  | inr fits ↦ rw fits (
    take_of_ge (length src) src (omega arith) ∙ sym (take_of_ge room src (ground arith)),
    ap (length {A = ℕ}) (sym (take_of_ge room src (ground arith))),
  )
]

queue_read_empty :
    (none_left : Bool) (n : ℕ)
    → ◌≡◌ {A = ℤ × List ℕ × List ℕ}
        (if none_left then pos 0 else minus_two, [], [])
        (queue_read (not none_left) n [])
unfolding queue_read
queue_read_empty none_left n = ground arith

module _ (q : Pipe) (b : List ℕ) (v : IsRing q b) where
  taken-IsRing : (got : ℕ) → got ≤ q.len → IsRing (taken got q) b
  taken-IsRing got h = record {
    page = v.page;
    size = v.size;
    head_in = omega arith;
    len_in = omega (arith, v.len_in);
  }

  contents-taken : (got : ℕ) → got ≤ q.len → contents (taken got q) b ≡ drop got (contents q b)
  contents-taken got h =
      read_ring-mod b (q.len - got) ((q.head + got) % pipe_cap) (q.head + got) (omega arith)
      ∙ sym (drop-read_ring b got q.len q.head h)

  filled-IsRing :
      (bytes : List ℕ)
      → q.len + length bytes ≤ pipe_cap
      → IsRing (filled b bytes q) (write_ring b ((q.head + q.len) % pipe_cap) bytes)
  filled-IsRing bytes h = record {
    page = refl;
    size = length-write_ring bytes b ((q.head + q.len) % pipe_cap) ∙ v.size;
    head_in = v.head_in;
    len_in = h;
  }

  contents-filled :
      (bytes : List ℕ)
      → q.len + length bytes ≤ pipe_cap
      → contents (filled b bytes q) (write_ring b ((q.head + q.len) % pipe_cap) bytes)
        ≡ contents q b ++ bytes
  contents-filled bytes h =
      let at = q.head + q.len in
      let b' = write_ring b (at % pipe_cap) bytes in
      let same : b' ≡ write_ring b at bytes =
        write_ring-mod bytes b (at % pipe_cap) at (omega arith) in
      read_ring-append b' q.len (length bytes) q.head
      ∙ rw same (
          ap₂ ◌++◌ (read_ring-write_ring_before bytes b q.len q.head at (omega arith) (omega arith))
            (read_ring-write_ring bytes b at v.size (omega arith)))

module _ {M : Type 0} (s : Sched M) (p : ℕ) (b : List ℕ) (len4 : length s.pipes ≡ pipe_max)
    (hp : p < pipe_max) (v : IsRing (pipe_at s p) b) where
  pipe_at_written : (q : Pipe) → pipe_at (wake_pipe_waiters p (set_pipe s p q)) p ≡ q
  unfolding wake_pipe_waiters
  pipe_at_written q = get_or-set_self s.pipes p q no_pipe (omega arith)

  -- The read of a pipe with bytes in it.
  take_bytes_ne :
      (n : ℕ)
      → ((pipe_at s p).len == 0) ≡ false
      → let got = (if ltb (pipe_at s p).len n then (pipe_at s p).len else n) in
        take_bytes p b n s ≡ (
          pos got,
          read_ring b (pipe_at s p).head got,
          wake_pipe_waiters p (set_pipe s p (taken got (pipe_at s p))),
        )
  unfolding take_bytes
  take_bytes_ne n e = rw e

  take_bytes_empty :
      (n : ℕ)
      → ((pipe_at s p).len == 0) ≡ true
      → take_bytes p b n s ≡ (if (pipe_at s p).wrefs == 0 then pos 0 else minus_two, [], s)
  unfolding take_bytes
  take_bytes_empty n e = rw e

  nothing : ((pipe_at s p).len == 0) ≡ true → contents (pipe_at s p) b ≡ []
  unfolding read_ring
  nothing e = let z : (pipe_at s p).len ≡ 0 = ground arith in ap (read_ring b (pipe_at s p).head) z

  -- On a ring of the full size with its indices inside, `take_bytes` is the read of a queue: the
  -- result, the bytes copied out and the bytes that still wait are those of `queue_read` (0 or -2
  -- on an empty queue by whether a writer is left, else at most `n` of the oldest bytes), and the
  -- ring is again such a ring.
  pub take_bytes_refines :
      (n : ℕ)
      → let (r, out, s') = take_bytes p b n s in
        IsRing (pipe_at s' p) b
        × ((r, out, contents (pipe_at s' p) b)
            ≡ queue_read (not ((pipe_at s p).wrefs == 0)) n (contents (pipe_at s p) b))
  take_bytes_refines n = elim (Bool-cases ((pipe_at s p).len == 0)) [
    | inl empty ↦
        let q = pipe_at s p in
        rw (take_bytes_empty n empty) (
          v,
          ap (λ (c : List ℕ). (if q.wrefs == 0 then pos 0 else minus_two, [], c)) (nothing empty)
              ∙ queue_read_empty (q.wrefs == 0) n
              ∙ ap (queue_read (not (q.wrefs == 0)) n) (sym (nothing empty)),
        )
    | inr left ↦
        let q = pipe_at s p in
        let got = (if ltb q.len n then q.len else n) in
        let le : got ≤ q.len = ground arith in
        let writers = not (q.wrefs == 0) in
        let c = contents q b in
        let spec : queue_read writers n c ≡ (pos got, take got c, drop got c) =
          rw (length-read_ring b q.len q.head) at
            (queue_read_ne writers n c (rw (length-read_ring b q.len q.head) (ground arith))) in
        rw (take_bytes_ne n left, pipe_at_written (taken got q))
          (
            taken-IsRing q b v got le,
            ap₂ (λ (t d : List ℕ). (pos got, t, d)) (sym (take-read_ring b got q.len q.head le))
                  (contents-taken q b v got le)
                ∙ sym spec,
          )
  ]

  -- On a ring of the full size with its indices inside, `put_bytes` is the write of a bounded
  -- queue: the result and the bytes that wait afterwards are those of `queue_write` (nobody reads,
  -- it is full, or as much as fits is appended), for every position of the head, and the ring is
  -- again such a ring.
  pub put_bytes_refines :
      (src : List ℕ)
      → let (r, s') = put_bytes p b src s in
        (b' : List ℕ) × IsRing (pipe_at s' p) b'
        × ((r, contents (pipe_at s' p) b')
            ≡ queue_write (not ((pipe_at s p).rrefs == 0)) src (contents (pipe_at s p) b))
  unfolding put_bytes queue_write
  put_bytes_refines src =
      let q = pipe_at s p in
      let len_c : length (contents q b) ≡ q.len = length-read_ring b q.len q.head in
      elim (Bool-cases (q.rrefs == 0)) [
        | inl nobody ↦ rw nobody (b, v, refl)
        | inr reader ↦ elim (Bool-cases (leb pipe_cap q.len)) [
          | inl full ↦ rw (reader, full, len_c, full) (b, v, refl)
          | inr room ↦
              let bytes = take (pipe_cap - q.len) src in
              let (same, count) = got_bytes (pipe_cap - q.len) src in
              let le : q.len + length bytes ≤ pipe_cap =
                omega (arith, length-take-le (pipe_cap - q.len) src, v.len_in) in
              rw (reader, room, len_c, room, same, count, pipe_at_written (filled b bytes q))
                (
                  write_ring b ((q.head + q.len) % pipe_cap) bytes,
                  filled-IsRing q b v bytes le,
                  ap (λ (c : List ℕ). (pos (length bytes), c)) (contents-filled q b v bytes le),
                )
        ]
      ]
