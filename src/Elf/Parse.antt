-- ===== src/Elf/Parse.antt =====
-- kernel/elf.c: the segments that elf_parse takes lie in the file and apart in memory.
use vampire_os.Prelude.{
  ℕ, zero, suc, ◌+◌, ◌*◌, ◌^◌, ◌≤◌, ◌<◌, ◌≡◌, ◌⊎◌, inl, inr, List, [], ◌∷◌, ◌++◌, some, true, false,
  not, ◌&&◌, ◌||◌, length, arith, subst,
}
use vampire_os.Prelude.{ltb, leb, ◌==◌, Bool-cases, Option-cases}
use vampire_os.Elf.{
  load_max, le, Phdr, phdr_at, ehdr_of, header_ok, end_of, is_bad, collect, place, back_onto,
  sort_onto, apart, hit, first_vaddr, elf_parse,
}

-- A segment of a file of `len` bytes: its bytes are in the file, and its end in memory does not wrap.
pub record IsSegment (len : ℕ) (p : Phdr) : Type 0 where
  pub some_byte : 0 < p.memsz
  pub file_fits : p.filesz ≤ p.memsz
  pub in_file : p.offset + p.filesz ≤ len
  pub no_wrap : p.vaddr + p.memsz < 2 ^ 64

unfoldable pub AreSegments : ℕ → List Phdr → Type 0
AreSegments len [] = Unit
AreSegments len (p ∷ phs) = IsSegment len p × AreSegments len phs

-- From an address on, the segments follow each other without an overlap.
unfoldable pub InOrder : ℕ → List Phdr → Type 0
InOrder low [] = Unit
InOrder low (p ∷ phs) = (low ≤ p.vaddr) × InOrder (p.vaddr + p.memsz) phs

-- The address is in one of the segments.
unfoldable pub IsHit : ℕ → List Phdr → Type 0
IsHit entry [] = entry < 0
IsHit entry (p ∷ phs) = ((p.vaddr ≤ entry) × (entry < p.vaddr + p.memsz)) ⊎ IsHit entry phs

pub record IsImage (len entry : ℕ) (phs : List Phdr) : Type 0 where
  pub segments : AreSegments len phs
  pub in_order : InOrder 0 phs
  pub entry_in : IsHit entry phs

le_lt : (raw : List ℕ) (i : ℕ) → le 8 raw i < 2 ^ 64
unfolding le
le_lt raw i = omega arith

is_bad-IsSegment :
    (raw : List ℕ) (at_ : ℕ)
    → is_bad (length raw) (phdr_at raw at_) ≡ false
    → ((phdr_at raw at_).memsz == 0) ≡ false
    → IsSegment (length raw) (phdr_at raw at_)
unfolding is_bad
is_bad-IsSegment raw at_ good some_ =
    let v = le_lt raw (at_ + 16) in
    let m = le_lt raw (at_ + 40) in
    record {
      some_byte = ground (arith, some_);
      file_fits = ground (arith, good);
      in_file = ground (arith, good);
      no_wrap = ground (arith, good, v, m);
    }

AreSegments-append :
    (len : ℕ) (phs : List Phdr) (p : Phdr)
    → AreSegments len phs
    → IsSegment len p
    → AreSegments len (phs ++ (p ∷ []))
unfolding AreSegments
AreSegments-append len [] p h s = (s, tt)
AreSegments-append len (q ∷ phs) p (t, h) s = (t, AreSegments-append len phs p h s)

collect-AreSegments :
    (raw : List ℕ) (phoff left i : ℕ) (phs found : List Phdr)
    → AreSegments (length raw) phs
    → collect raw phoff left i phs ≡ some found
    → AreSegments (length raw) found
unfolding collect
collect-AreSegments raw phoff zero i phs found h e =
    let same : phs ≡ found = ground (arith, e) in subst (AreSegments (length raw)) same h
collect-AreSegments raw phoff (suc left) i phs found h e =
    let at_ = phoff + i * 56 in
    let p = phdr_at raw at_ in
    elim (Bool-cases (not (p.kind == 1) || (p.memsz == 0))) [
      | inl skip ↦ collect-AreSegments raw phoff left (i + 1) phs found h (rw (skip, collect) at e)
      | inr taken ↦ elim (Bool-cases (leb load_max (length phs) || is_bad (length raw) p)) [
        | inl bad ↦ absurd (ground (arith, rw (taken, collect, bad) at e))
        | inr good ↦
            let s = is_bad-IsSegment raw at_ (ground (arith, good)) (ground (arith, taken)) in
            collect-AreSegments raw phoff left (i + 1) (phs ++ (p ∷ [])) found
              (AreSegments-append (length raw) phs p h s) (rw (taken, collect, good) at e)
      ]
    ]

AreSegments-place :
    (len : ℕ) (key : Phdr) (before : List Phdr)
    → IsSegment len key
    → AreSegments len before
    → AreSegments len (place key before)
unfolding AreSegments place
AreSegments-place len key [] s h = (s, tt)
AreSegments-place len key (p ∷ before) s (t, h) = elim (Bool-cases (ltb key.vaddr p.vaddr)) [
  | inl lower ↦ rw (lower) (t, AreSegments-place len key before s h)
  | inr upper ↦ rw (upper) (s, (t, h))
]

AreSegments-back_onto :
    (len : ℕ) (before phs : List Phdr)
    → AreSegments len before
    → AreSegments len phs
    → AreSegments len (back_onto before phs)
unfolding AreSegments back_onto
AreSegments-back_onto len [] phs h k = k
AreSegments-back_onto len (p ∷ before) phs (s, h) k =
    AreSegments-back_onto len before (p ∷ phs) h (s, k)

AreSegments-sort_onto :
    (len : ℕ) (before phs : List Phdr)
    → AreSegments len before
    → AreSegments len phs
    → AreSegments len (sort_onto before phs)
unfolding AreSegments sort_onto
AreSegments-sort_onto len before [] h k = AreSegments-back_onto len before [] h tt
AreSegments-sort_onto len before (key ∷ phs) h (s, k) =
    AreSegments-sort_onto len (place key before) phs (AreSegments-place len key before s h) k

end_of-exact : (len : ℕ) (p : Phdr) → IsSegment len p → end_of p ≡ p.vaddr + p.memsz
end_of-exact len p s = omega (arith, s.no_wrap)

apart-InOrder :
    (len low : ℕ) (phs : List Phdr)
    → AreSegments len phs
    → (low ≤ first_vaddr phs)
    → apart phs ≡ true
    → InOrder low phs
unfolding AreSegments apart InOrder
apart-InOrder len low [] h le e = tt
apart-InOrder len low (p ∷ []) h le e = (le, tt)
apart-InOrder len low (p ∷ q ∷ phs) (s, h) le e = elim (Bool-cases (ltb q.vaddr (end_of p))) [
  | inl under ↦ absurd (ground (arith, rw (under, apart) at e))
  | inr over ↦ (
    le,
    apart-InOrder len (p.vaddr + p.memsz) (q ∷ phs) h (ground (arith, over, end_of-exact len p s))
        (rw (over, apart) at e),
  )
]

hit-IsHit :
    (len entry : ℕ) (phs : List Phdr) → AreSegments len phs → hit entry phs ≡ true → IsHit entry phs
unfolding AreSegments hit IsHit
hit-IsHit len entry [] h e = absurd (ground (arith, e))
hit-IsHit len entry (p ∷ phs) (s, h) e =
    elim (Bool-cases (leb p.vaddr entry && ltb entry (end_of p))) [
      | inl here ↦ inl (ground (arith, here), ground (arith, here, end_of-exact len p s))
      | inr no_ ↦ inr (hit-IsHit len entry phs h (rw (no_, hit) at e))
    ]

-- The segments of a file that `elf_parse` takes have each their bytes inside the file, at most as
-- many as their size in memory, which is not 0, and an end in memory that does not wrap; they are
-- sorted by address without an overlap, and the entry lies in one of them.
pub elf_parse-IsImage :
    (raw : List ℕ) (entry : ℕ) (phs : List Phdr)
    → elf_parse raw ≡ some (entry, phs)
    → IsImage (length raw) entry phs
unfolding elf_parse AreSegments
elf_parse-IsImage raw entry phs e =
    let eh = ehdr_of raw in
    elim (Bool-cases (not (ltb (length raw) 64) && header_ok (length raw) eh)) [
      | inr bad ↦ absurd (ground (arith, rw (bad, elf_parse) at e))
      | inl good ↦ elim (Option-cases (collect raw eh.phoff eh.phnum 0 [])) [
        | inl none_ ↦ absurd (ground (arith, rw (good, none_, elf_parse) at e))
        | inr (found, some_) ↦
            let phs' = sort_onto [] found in
            elim (Bool-cases (not (length found == 0) && apart phs' && hit eh.entry phs')) [
              | inr bad ↦ absurd (ground (arith, rw (good, some_, elf_parse, bad) at e))
              | inl ok ↦
                  let r : some (eh.entry, phs') ≡ some (entry, phs) =
                    rw (good, some_, elf_parse, ok) at e in
                  let same_entry : eh.entry ≡ entry = ground (arith, r) in
                  let same : phs' ≡ phs = ground (arith, r) in
                  let found_ok = collect-AreSegments raw eh.phoff eh.phnum 0 [] found tt some_ in
                  let all = AreSegments-sort_onto (length raw) [] found tt found_ok in
                  let image : IsImage (length raw) eh.entry phs' = record {
                    segments = all;
                    in_order =
                        apart-InOrder (length raw) 0 phs' all (omega arith) (ground (arith, ok));
                    entry_in = hit-IsHit (length raw) eh.entry phs' all (ground (arith, ok));
                  } in
                  subst (λ n. IsImage (length raw) n phs) same_entry
                    (subst (IsImage (length raw) eh.entry) same image)
            ]
      ]
    ]
