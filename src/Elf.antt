-- ===== src/Elf.antt =====
-- kernel/elf.c: the headers of an ELF file, and the image that its segments make. The file is the list
-- of its bytes, as many as `len`.
pub mod Parse
pub mod Load
mod Tests
use vampire_os.Prelude.{
  ℕ, zero, suc, ◌+◌, ◌-◌, ◌*◌, ◌%◌, ◌^◌, List, [], ◌∷◌, ◌++◌, Option, none, some, Bool, true, false,
  not, ◌&&◌, ◌||◌, length, get_or, take, drop, replicate, ltb, leb, ◌==◌, if◌then◌else◌,
}
use vampire_os.Prelude.Bytes.{u8}

abbrev pub load_max : ℕ
load_max = 8

-- The n bytes of a field, the low one first.
unfoldable pub le : ℕ → List ℕ → ℕ → ℕ
le zero raw i = 0
le (suc n) raw i = u8 (get_or raw i 0) + 256 * le n raw (i + 1)

-- `struct elf64_phdr`, as far as it is read.
pub record Phdr : Type 0 where
  pub kind : ℕ
  pub offset : ℕ
  pub vaddr : ℕ
  pub filesz : ℕ
  pub memsz : ℕ

abbrev pub phdr_at : List ℕ → ℕ → Phdr
phdr_at raw at_ = record {
  kind = le 4 raw at_;
  offset = le 8 raw (at_ + 8);
  vaddr = le 8 raw (at_ + 16);
  filesz = le 8 raw (at_ + 32);
  memsz = le 8 raw (at_ + 40);
}

-- The fields of `struct elf64_ehdr` that are read.
pub record Ehdr : Type 0 where
  pub ident : List ℕ
  pub type : ℕ
  pub machine : ℕ
  pub entry : ℕ
  pub phoff : ℕ
  pub ehsize : ℕ
  pub phentsize : ℕ
  pub phnum : ℕ

abbrev pub ehdr_of : List ℕ → Ehdr
ehdr_of raw = record {
  ident = take 16 raw;
  type = le 2 raw 16;
  machine = le 2 raw 18;
  entry = le 8 raw 24;
  phoff = le 8 raw 32;
  ehsize = le 2 raw 52;
  phentsize = le 2 raw 54;
  phnum = le 2 raw 56;
}

abbrev pub ident_is : Ehdr → ℕ → ℕ → Bool
ident_is eh i b = u8 (get_or eh.ident i 0) == b

-- The tests of the file's header: false is -1.
unfoldable pub header_ok : ℕ → Ehdr → Bool
header_ok len eh =
    ident_is eh 0 0x7f
    && ident_is eh 1 69
    && ident_is eh 2 76
    && ident_is eh 3 70
    && ident_is eh 4 2
    && ident_is eh 5 1
    && ident_is eh 6 1
    && (eh.type == 2)
    && (eh.machine == 62)
    && (eh.ehsize == 64)
    && (eh.phentsize == 56)
    && not (eh.phnum == 0)
    && leb eh.phoff len
    && leb eh.phnum 8
    && leb ((eh.phoff + eh.phnum * 56) % 2 ^ 64) len

-- The end of a segment in memory, as a 64-bit sum.
abbrev pub end_of : Phdr → ℕ
end_of p = (p.vaddr + p.memsz) % 2 ^ 64

-- The tests of a segment to be loaded.
unfoldable pub is_bad : ℕ → Phdr → Bool
is_bad len p =
    ltb p.memsz p.filesz
    || ltb len p.offset
    || ltb (len - p.offset) p.filesz
    || ltb (end_of p) p.vaddr

-- The loop over the program headers, by those that are left; `phs` has the n found so far.
unfoldable pub collect : List ℕ → ℕ → ℕ → ℕ → List Phdr → Option (List Phdr)
collect raw phoff zero i phs = some phs
collect raw phoff (suc left) i phs =
    let p = phdr_at raw (phoff + i * 56) in
    let skip = collect raw phoff left (i + 1) phs in
    let more = collect raw phoff left (i + 1) (phs ++ (p ∷ [])) in
    if not (p.kind == 1) || (p.memsz == 0)
    then skip
    else if leb load_max (length phs) || is_bad (length raw) p
    then none
    else more

-- The key moves towards the front of what is sorted, whose last one comes first here.
unfoldable pub place : Phdr → List Phdr → List Phdr
place key [] = key ∷ []
place key (p ∷ before) =
    let rest = place key before in if ltb key.vaddr p.vaddr then p ∷ rest else key ∷ p ∷ before

-- The list in front of another, backwards.
unfoldable pub back_onto : List Phdr → List Phdr → List Phdr
back_onto [] phs = phs
back_onto (p ∷ before) phs = back_onto before (p ∷ phs)

-- The insertion sort by `vaddr`.
unfoldable pub sort_onto : List Phdr → List Phdr → List Phdr
sort_onto before [] = back_onto before []
sort_onto before (key ∷ phs) = sort_onto (place key before) phs

-- Each segment starts at the end of the one in front or behind it.
unfoldable pub apart : List Phdr → Bool
apart [] = true
apart (p ∷ []) = true
apart (p ∷ q ∷ phs) = let rest = apart (q ∷ phs) in if ltb q.vaddr (end_of p) then false else rest

unfoldable pub hit : ℕ → List Phdr → Bool
hit entry [] = false
hit entry (p ∷ phs) =
    let rest = hit entry phs in (leb p.vaddr entry && ltb entry (end_of p)) || rest

-- What `elf_parse` gives of a file: the entry and the segments; none is -1.
unfoldable pub elf_parse : List ℕ → Option (ℕ × List Phdr)
elf_parse raw =
    let eh = ehdr_of raw in
    let header = not (ltb (length raw) 64) && header_ok (length raw) eh in
    elim (if header then collect raw eh.phoff eh.phnum 0 [] else none) [
      | none ↦ none
      | some found ↦
          let phs = sort_onto [] found in
          if not (length found == 0) && apart phs && hit eh.entry phs
          then some (eh.entry, phs)
          else none
    ]

abbrev pub first_vaddr : List Phdr → ℕ
first_vaddr [] = 0
first_vaddr (p ∷ phs) = p.vaddr

unfoldable pub elf_image_base : List ℕ → Option ℕ
elf_image_base raw = elim (elf_parse raw) [ none ↦ none | some (_, phs) ↦ some (first_vaddr phs) ]

-- The bytes of a segment: those of the file, then zeros, both counted in 32 bits.
abbrev pub segment : List ℕ → Phdr → List ℕ
segment raw p =
    take (p.filesz % 2 ^ 32) (drop p.offset raw)
    ++ replicate (p.memsz % 2 ^ 32 - p.filesz % 2 ^ 32) 0

-- The loop of `elf_load` over the segments; none is -1, with the bytes of those in front written.
unfoldable pub load_all : List ℕ → ℕ → ℕ → List Phdr → List ℕ → Option (List ℕ)
load_all raw dest_size vaddr [] out = some out
load_all raw dest_size vaddr (p ∷ phs) out =
    let rel = (p.vaddr + 2 ^ 64 - vaddr) % 2 ^ 64 in
    let bytes = segment raw p in
    let next = take rel out ++ bytes ++ drop (rel + length bytes) out in
    let rest = load_all raw dest_size vaddr phs next in
    if ltb dest_size rel || ltb (dest_size - rel) p.memsz then none else rest

-- The image and the entry.
unfoldable pub elf_load : List ℕ → ℕ → ℕ → Option (List ℕ × ℕ)
elf_load raw dest_size vaddr = elim (elf_parse raw) [
  | none ↦ none
  | some (entry, phs) ↦
      if not (first_vaddr phs == vaddr)
      then none
      else elim (load_all raw dest_size vaddr phs (replicate dest_size 0)) [
        | none ↦ none
        | some out ↦ some (out, entry)
      ]
]
