-- ===== src/Elf/Tests.antt =====
-- Tests of the model of kernel/elf.c at a file of one segment.
use vampire_os.Prelude.{ℕ, ◌≡◌, ◌≤◌, ◌<◌, ◌+◌, refl, List, [], ◌∷◌, ◌++◌, some, length, replicate}
use vampire_os.Elf.{
  Phdr, header_ok, le, collect, is_bad, apart, sort_onto, back_onto, place, hit, elf_parse,
  load_all, elf_load,
}
use vampire_os.Elf.Parse.{IsImage, elf_parse-IsImage}
use vampire_os.Elf.Load.{elf_load-fits}

-- Two bytes of code at 0x400000, behind the headers, and two more bytes of zeros.
abbrev program : List ℕ
program =
    (0x7f ∷ 69 ∷ 76 ∷ 70 ∷ 2 ∷ 1 ∷ 1 ∷ [])
    ++ replicate 9 0
    ++ (2 ∷ 0 ∷ 62 ∷ 0 ∷ 1 ∷ 0 ∷ 0 ∷ 0 ∷ [])
    ++ (0 ∷ 0 ∷ 0x40 ∷ 0 ∷ 0 ∷ 0 ∷ 0 ∷ 0 ∷ [])
    ++ (64 ∷ [])
    ++ replicate 19 0
    ++ (64 ∷ 0 ∷ 56 ∷ 0 ∷ 1 ∷ 0 ∷ [])
    ++ replicate 6 0
    ++ (1 ∷ 0 ∷ 0 ∷ 0 ∷ 5 ∷ 0 ∷ 0 ∷ 0 ∷ 120 ∷ [])
    ++ replicate 7 0
    ++ (0 ∷ 0 ∷ 0x40 ∷ [])
    ++ replicate 13 0
    ++ (2 ∷ [])
    ++ replicate 7 0
    ++ (4 ∷ [])
    ++ replicate 15 0
    ++ (0xeb ∷ 0xfe ∷ [])

abbrev code : Phdr
code = record { kind = 1; offset = 120; vaddr = 0x400000; filesz = 2; memsz = 4 }

parsed : elf_parse program ≡ some (0x400000, code ∷ [])
unfolding elf_parse header_ok le collect is_bad apart sort_onto back_onto place hit
parsed = refl

abbrev image : List ℕ
image = 0xeb ∷ 0xfe ∷ 0 ∷ 0 ∷ 0 ∷ 0 ∷ []

loaded : elf_load program 6 0x400000 ≡ some (image, 0x400000)
unfolding elf_load load_all elf_parse header_ok le collect is_bad apart sort_onto back_onto place
    hit
loaded = refl

elf_parse-IsImage_example : IsImage (length program) 0x400000 (code ∷ [])
elf_parse-IsImage_example = elf_parse-IsImage program 0x400000 (code ∷ []) parsed

elf_load-fits_example : (length image ≡ 6) × (0x400000 ≤ 0x400000) × (0x400000 < 0x400000 + 6)
elf_load-fits_example = elf_load-fits program 6 0x400000 image 0x400000 loaded
