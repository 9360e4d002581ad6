-- ===== src/Elf/Load.antt =====
-- kernel/elf.c: the image that elf_load writes has the size of its destination, and the entry is in it.
use vampire_os.Prelude.{
  ℕ, ◌+◌, ◌-◌, ◌%◌, ◌^◌, ◌≤◌, ◌<◌, ◌≡◌, inl, inr, ap, sym, ◌∙◌, List, [], ◌∷◌, ◌++◌, some, not,
  ◌||◌, length, take, drop, replicate, arith, length-append, length-take_le, length-drop,
  length-replicate, length-take_of_le,
}
use vampire_os.Prelude.{ltb, ◌==◌, Bool-cases, Option-cases}
use vampire_os.Elf.{Phdr, elf_parse, first_vaddr, segment, load_all, elf_load}
use vampire_os.Elf.Parse.{IsSegment, AreSegments, InOrder, IsHit, elf_parse-IsImage}

segment-fits :
    (len : ℕ) (raw : List ℕ) (p : Phdr) → IsSegment len p → length (segment raw p) ≤ p.memsz
segment-fits len raw p s = omega (
  arith,
  length-append (take (p.filesz % 2 ^ 32) (drop p.offset raw))
      (replicate (p.memsz % 2 ^ 32 - p.filesz % 2 ^ 32) 0),
  length-take_le (p.filesz % 2 ^ 32) (drop p.offset raw),
  length-replicate {A = ℕ} (p.memsz % 2 ^ 32 - p.filesz % 2 ^ 32) 0,
  s.file_fits,
)

-- Bytes that fit keep the size.
length-put :
    (rel : ℕ) (bytes out : List ℕ)
    → rel + length bytes ≤ length out
    → length (take rel out ++ bytes ++ drop (rel + length bytes) out) ≡ length out
length-put rel bytes out h = omega (
  arith,
  h,
  length-append (take rel out ++ bytes) (drop (rel + length bytes) out),
  length-append (take rel out) bytes,
  length-take_of_le rel out (omega (arith, h)),
  length-drop (rel + length bytes) out,
)

-- The segments lie in the destination, and what is written keeps its size.
record IsLoaded (dest_size vaddr : ℕ) (phs : List Phdr) (out : List ℕ) : Type 0 where
  pub size : length out ≡ dest_size
  pub entry_to : (entry : ℕ) → IsHit entry phs → entry < vaddr + dest_size

load_all-IsLoaded :
    (raw : List ℕ) (len dest_size vaddr low : ℕ) (phs : List Phdr) (from out : List ℕ)
    → vaddr ≤ low
    → AreSegments len phs
    → InOrder low phs
    → length from ≡ dest_size
    → load_all raw dest_size vaddr phs from ≡ some out
    → IsLoaded dest_size vaddr phs out
unfolding load_all AreSegments InOrder IsHit
load_all-IsLoaded raw len dest_size vaddr low [] from out v s o size e =
    let same : from ≡ out = ground (arith, e) in
    record { size = ap length (sym same) ∙ size; entry_to = λ entry h. absurd (omega (arith, h)) }
load_all-IsLoaded raw len dest_size vaddr low (p ∷ phs) from out v (s, ss) (first, o) size e =
    let rel = (p.vaddr + 2 ^ 64 - vaddr) % 2 ^ 64 in
    let exact : rel ≡ p.vaddr - vaddr = omega (arith, v, first, s.no_wrap) in
    let bytes = segment raw p in
    let next = take rel from ++ bytes ++ drop (rel + length bytes) from in
    elim (Bool-cases (ltb dest_size rel || ltb (dest_size - rel) p.memsz)) [
      | inl bad ↦ absurd (ground (arith, rw (load_all, bad) at e))
      | inr fits ↦
          let room : rel + p.memsz ≤ dest_size = ground (arith, fits) in
          let size' : length next ≡ dest_size =
            length-put rel bytes from (omega (arith, room, size, segment-fits len raw p s))
            ∙ size in
          let rest =
            load_all-IsLoaded raw len dest_size vaddr (p.vaddr + p.memsz) phs next out
              (omega (arith, v, first)) ss o size' (rw (load_all, fits) at e) in
          record {
            size = rest.size;
            entry_to = λ entry h. elim h [
              | inl (lo, hi) ↦ omega (arith, hi, room, exact, v, first)
              | inr there ↦ rest.entry_to entry there
            ];
          }
    ]

start_first : (low : ℕ) (phs : List Phdr) → InOrder low phs → InOrder (first_vaddr phs) phs
unfolding InOrder
start_first low [] o = tt
start_first low (p ∷ phs) (first, o) = (omega arith, o)

first-entry : (low entry : ℕ) (phs : List Phdr) → InOrder low phs → IsHit entry phs → low ≤ entry
unfolding InOrder IsHit
first-entry low entry [] o h = absurd (omega (arith, h))
first-entry low entry (p ∷ phs) (first, o) (inl (lo, hi)) = omega (arith, first, lo)
first-entry low entry (p ∷ phs) (first, o) (inr h) =
    omega (arith, first, first-entry (p.vaddr + p.memsz) entry phs o h)

-- Where `elf_load` succeeds, what it has written has exactly the size of the destination, and the
-- entry that it gives lies in the range of addresses that the destination stands for.
pub elf_load-fits :
    (raw : List ℕ) (dest_size vaddr : ℕ) (out : List ℕ) (entry : ℕ)
    → elf_load raw dest_size vaddr ≡ some (out, entry)
    → (length out ≡ dest_size) × (vaddr ≤ entry) × (entry < vaddr + dest_size)
unfolding elf_load
elf_load-fits raw dest_size vaddr out entry e = elim (Option-cases (elf_parse raw)) [
  | inl none_ ↦ absurd (ground (arith, rw (none_, elf_load) at e))
  | inr ((start, phs), parsed) ↦ elim (Bool-cases (not (first_vaddr phs == vaddr))) [
    | inl other ↦ absurd (ground (arith, rw (parsed, elf_load, other) at e))
    | inr same ↦ elim (Option-cases (load_all raw dest_size vaddr phs (replicate dest_size 0))) [
      | inl none_ ↦ absurd (ground (arith, rw (parsed, elf_load, same, none_) at e))
      | inr (made, some_) ↦
          let r : some (made, start) ≡ some (out, entry) =
            rw (parsed, elf_load, same, some_) at e in
          let image = elf_parse-IsImage raw start phs parsed in
          let order = start_first 0 phs image.in_order in
          let here : first_vaddr phs ≡ vaddr = ground (arith, same) in
          let loaded =
            load_all-IsLoaded raw (length raw) dest_size vaddr (first_vaddr phs) phs
              (replicate dest_size 0) made (omega (arith, here)) image.segments order
              (length-replicate dest_size 0) some_ in
          let to_ = loaded.entry_to start image.entry_in in
          let from_ = first-entry (first_vaddr phs) start phs order image.entry_in in
          let same_entry : start ≡ entry = ground (arith, r) in
          let same_out : made ≡ out = ground (arith, r) in
          (
            ap length (sym same_out) ∙ loaded.size,
            omega (arith, from_, here, same_entry),
            omega (arith, to_, same_entry),
          )
    ]
  ]
]
