-- ===== src/Heap.antt =====
-- kernel/heap.c: the kernel's allocator, a row of blocks in one or two frames. A header is 16 bytes at a
-- multiple of 16 from the base, and the memory is taken as what each such place reads as a header: where
-- no header was written, that is whatever the memory holds.
pub mod Tiles
pub mod Steps
pub mod Take
pub mod Alloc
pub mod Release
mod Tests
use vampire_os.Prelude.{
  ℕ, zero, suc, ◌+◌, ◌-◌, ◌*◌, ◌/◌, ◌%◌, ◌^◌, Bool, true, false, not, ◌&&◌, ◌||◌, Option, none,
  some, List, [],
}
use vampire_os.Prelude.{get_or, set, ◌==◌, ltb, leb, if◌then◌else◌}
use vampire_os.Pmm.{Pmm, pmm_alloc_above, pmm_free, page_size}

-- `struct block`, with `magic == HEAP_MAGIC` as a flag.
pub record Block : Type 0 where
  pub magic : Bool
  pub free : Bool
  pub size : ℕ

abbrev pub no_block : Block
no_block = record { magic = false; free = false; size = 0 }

-- `heap_base`, `heap_end` and the memory between them.
pub record Heap : Type 0 where
  pub base : ℕ
  pub stop : ℕ
  pub heads : List Block

abbrev pub head_at : Heap → ℕ → Block
head_at h b = get_or h.heads ((b - h.base) / 16) no_block

abbrev pub set_head : ℕ → Block → Heap → Heap
set_head b v h = record h { heads = set h.heads ((b - h.base) / 16) v }

-- `next_block`, its pointer sums modulo 2 ^ 64.
unfoldable pub next_block : ℕ → Heap → Option ℕ
next_block b h =
    let p = (b + 16 + (head_at h b).size) % 2 ^ 64 in
    if ltb p ((b + 16) % 2 ^ 64) || ltb h.stop ((p + 16) % 2 ^ 64) then none else some p

abbrev pub heap_min_phys : ℕ
heap_min_phys = 0x200000

abbrev pub no_heap : Heap
no_heap = record { base = 0; stop = 0; heads = [] }

-- `pages[1]`: the second frame is kept where it follows the first. The number of frames is returned.
unfoldable pub second_page : ℕ → Pmm → ℕ × Pmm
second_page first s =
    let (page, s') = pmm_alloc_above heap_min_phys s in
    if page == 0
    then (1, s')
    else if not (page == (first + page_size) % 2 ^ 64)
    then (1, pmm_free page s')
    else (2, s')

-- `kheap_init`; `virt` is `phys_to_virt`, and `mem` what the memory at an address holds.
unfoldable pub kheap_init : (ℕ → ℕ) → (ℕ → List Block) → Pmm → Heap × Pmm
unfolding second_page
kheap_init virt mem s =
    let (page, s1) = pmm_alloc_above heap_min_phys s in
    let (n, s2) = second_page page s1 in
    let base = virt page in
    let h : Heap = record { base = base; stop = base + n * page_size; heads = mem base } in
    let first : Block = record { magic = true; free = true; size = n * page_size - 16 } in
    if page == 0 then (no_heap, s1) else (set_head base first h, s2)

-- What the walk of `kmalloc` ends in. `lost` is for the model alone: the given number of steps is
-- used up.
pub data Walk : Type 0 where
  hit : ℕ → Walk
  corrupt full lost : Walk

unfoldable pub walk : (steps need b : ℕ) → Heap → Walk
walk zero need b h = lost
walk (suc n) need b h =
    let head = head_at h b in
    if not head.magic
    then corrupt
    else if head.free && leb need head.size
    then hit b
    else elim (next_block b h) [ none ↦ full | some p ↦ walk n need p h ]

-- The block taken, and split where what is left over has room for a header and 16 bytes.
unfoldable pub take_block : (need b : ℕ) → Heap → Heap
take_block need b h =
    let head = head_at h b in
    let left = head.size - need in
    let rest : Block = record { magic = true; free = true; size = left - 16 } in
    if leb 32 left
    then set_head b (record head { free = false; size = need }) (set_head (b + 16 + need) rest h)
    else set_head b (record head { free = false }) h

-- `align_up(size, HEAP_ALIGN)`
abbrev pub need_of : ℕ → ℕ
need_of size = (size + 15) % 2 ^ 64 / 16 * 16

-- `kmalloc`; a block is at least its header, which bounds the steps.
unfoldable pub kmalloc : ℕ → Heap → ℕ × Heap
unfolding take_block
kmalloc size h =
    if (h.base == 0) || (size == 0)
    then (0, h)
    else elim (walk ((h.stop - h.base) / 16 + 1) (need_of size) h.base h) [
      | hit b ↦ (b + 16, take_block (need_of size) b h)
      | corrupt ↦ (0, h)
      | full ↦ (0, h)
      | lost ↦ (0, h)
    ]

-- The block freed, and joined with the next where that is free.
unfoldable pub release : ℕ → Heap → Heap
release b h =
    let head : Block = record (head_at h b) { free = true } in
    let h' = set_head b head h in
    elim (next_block b h') [
      | none ↦ h'
      | some n ↦
          let next = head_at h' n in
          if next.magic && next.free
          then set_head b (record head { size = (head.size + 16 + next.size) % 2 ^ 64 }) h'
          else h'
    ]

-- `kfree`, for a pointer at a multiple of 16 from the base.
unfoldable pub kfree : ℕ → Heap → Heap
unfolding release
kfree ptr h =
    if (ptr == 0) || (h.base == 0)
    then h
    else if ltb ptr (h.base + 16) || leb h.stop ptr
    then h
    else let head = head_at h (ptr - 16) in
      if not head.magic || head.free then h else release (ptr - 16) h
