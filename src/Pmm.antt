-- ===== src/Pmm.antt =====
-- kernel/pmm.c: the allocator of 4 KiB frames, on a bitmap at the end of the kernel image. The bitmap
-- is taken as its bits: bit `frame & 7` of byte `frame >> 3` is the one at index `frame`, set where the
-- frame is in use.
pub mod Count
pub mod Init
pub mod Alloc
pub mod Span
mod Tests
use vampire_os.Prelude.{
  ℕ, zero, suc, ◌+◌, ◌-◌, ◌*◌, ◌/◌, ◌%◌, ◌^◌, Bool, true, false, not, ◌&&◌, ◌||◌, Option, none,
  some, List, [], ◌∷◌,
}
use vampire_os.Prelude.{get_or, set, take, replicate, length, ◌==◌, ltb, leb, if◌then◌else◌}
use vampire_os.Prelude.Search.{first_from}
use vampire_os.Prelude.Loop.{for_each}

abbrev pub page_size : ℕ
page_size = 0x1000

abbrev pub identity_end : ℕ
identity_end = 0x200000

abbrev pub e820_max : ℕ
e820_max = 32

-- `KERNEL_PHYS + KERNEL_SIZE`
abbrev pub kernel_end : ℕ
kernel_end = 0x100000 + 304 * 512

-- `align_up` and `align_down` to a page, the sum modulo 2 ^ 64.
abbrev pub page_up : ℕ → ℕ
page_up v = (v + (page_size - 1)) % 2 ^ 64 / page_size * page_size

abbrev pub page_down : ℕ → ℕ
page_down v = v / page_size * page_size

-- `struct e820_entry`, with `type == E820_TYPE_USABLE` as a flag.
pub record Entry : Type 0 where
  pub base : ℕ
  pub span : ℕ
  pub usable : Bool

-- The statics of the file and the bitmap.
pub record Pmm : Type 0 where
  pub bitmap_phys : ℕ
  pub frame_count : ℕ
  pub free_count : ℕ
  pub reserved_end : ℕ
  pub bits : List Bool

abbrev pub used_at : Pmm → ℕ → Bool
used_at s frame = get_or s.bits frame true

unfoldable pub mark_used : ℕ → Pmm → Pmm
mark_used frame s =
    if leb s.frame_count frame || (s.bitmap_phys == 0)
    then s
    else if used_at s frame
    then s
    else record s {
      bits = set s.bits frame true;
      free_count = (s.free_count + (2 ^ 64 - 1)) % 2 ^ 64;
    }

unfoldable pub mark_free : ℕ → Pmm → Pmm
mark_free frame s =
    if leb s.frame_count frame || (s.bitmap_phys == 0)
    then s
    else if used_at s frame
    then record s { bits = set s.bits frame false; free_count = (s.free_count + 1) % 2 ^ 64 }
    else s

-- `pmm_mark_region_free`: the whole pages inside, by their frame numbers.
unfoldable pub mark_region_free : (base span : ℕ) → Pmm → Pmm
mark_region_free base span s =
    let stop = (base + span) % 2 ^ 64 in
    let from = page_up base / page_size in
    if (span == 0) || ltb stop base
    then s
    else for_each (page_down stop / page_size - from) from mark_free s

-- The end of the entry, where it counts: `pmm_init`'s first loop.
abbrev pub usable_end : Entry → ℕ
usable_end e =
    let stop = (e.base + e.span) % 2 ^ 64 in
    if not e.usable || (e.span == 0) || ltb stop e.base then 0 else stop

unfoldable pub max_phys : List Entry → ℕ → ℕ
max_phys [] top = top
max_phys (e ∷ es) top = max_phys es (if ltb top (usable_end e) then usable_end e else top)

unfoldable pub free_regions : List Entry → Pmm → Pmm
free_regions [] s = s
free_regions (e ∷ es) s = free_regions es (if e.usable then mark_region_free e.base e.span s else s)

-- Where the bitmap stands, and how many frames it has room for.
abbrev pub bitmap_at : ℕ
bitmap_at = page_up kernel_end

abbrev pub room_frames : ℕ
room_frames = (identity_end - bitmap_at) * 8

abbrev pub no_memory : Pmm
no_memory = record { bitmap_phys = 0; frame_count = 0; free_count = 0; reserved_end = 0; bits = [] }

-- The bitmap of `n` frames with every bit set.
abbrev pub all_used : ℕ → Pmm
all_used n = record {
  bitmap_phys = bitmap_at;
  frame_count = n;
  free_count = 0;
  reserved_end = 0;
  bits = replicate ((n + 7) / 8 * 8) true;
}

-- `pmm_init`, with the entries of a map of the right entry size; a map that is missing has none. The two tests of the bitmap's room against `IDENTITY_END` are kept.
unfoldable pub pmm_init : List Entry → Pmm
pmm_init entries =
    let es = take e820_max entries in
    let frames = max_phys es 0 / page_size in
    let n = (if ltb room_frames frames then room_frames else frames) in
    let bytes = (n + 7) / 8 in
    let stop = page_up (bitmap_at + bytes) in
    if leb identity_end bitmap_at || (n == 0) || ltb identity_end (bitmap_at + bytes)
    then no_memory
    else for_each (stop / page_size) 0 mark_used
        (record (free_regions es (all_used n)) { reserved_end = stop })

unfoldable pub alloc_frame : ℕ → Pmm → ℕ × Pmm
alloc_frame start s =
    if s.bitmap_phys == 0
    then (0, s)
    else elim (first_from (s.frame_count - start) start (λ f. not (used_at s f))) [
      | none ↦ (0, s)
      | some f ↦ (f * page_size % 2 ^ 64, mark_used f s)
    ]

unfoldable pub pmm_alloc : Pmm → ℕ × Pmm
unfolding alloc_frame
pmm_alloc s = alloc_frame 0 s

unfoldable pub pmm_alloc_above : ℕ → Pmm → ℕ × Pmm
unfolding alloc_frame
pmm_alloc_above min_phys s = alloc_frame (page_up min_phys / page_size) s

-- The inner loop of `pmm_alloc_span` ends without a break.
unfoldable pub run_free : (pages frame : ℕ) → Pmm → Bool
run_free pages frame s = elim (first_from pages frame (used_at s)) [ none ↦ true | some _ ↦ false ]

unfoldable pub pmm_alloc_span : ℕ → Pmm → ℕ × Pmm
unfolding run_free
pmm_alloc_span pages s =
    let start = page_up identity_end / page_size in
    if (s.bitmap_phys == 0) || (pages == 0) || ltb s.frame_count pages
    then (0, s)
    else if leb s.frame_count start
    then (0, s)
    else elim (first_from (s.frame_count - pages + 1 - start) start (λ f. run_free pages f s)) [
      | none ↦ (0, s)
      | some f ↦ (f * page_size % 2 ^ 64, for_each pages f mark_used s)
    ]

unfoldable pub pmm_free : ℕ → Pmm → Pmm
pmm_free phys s =
    if ltb phys s.reserved_end || not (phys % page_size == 0)
    then s
    else mark_free (phys / page_size) s

-- `pmm_free_count`
abbrev pub pmm_free_count : Pmm → ℕ
pmm_free_count s = s.free_count
