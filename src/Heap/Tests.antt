-- ===== src/Heap/Tests.antt =====
-- Tests of the model of kernel/heap.c, on a heap of 64 bytes.
use vampire_os.Prelude.{ℕ, ◌+◌, ◌≤◌, ◌≡◌, ◌⊎◌, refl, inl, inr, true, false, [], ◌∷◌, arith}
use vampire_os.Heap.{Heap, no_block, head_at, kmalloc, kfree}
use vampire_os.Heap.Tiles.{IsHead, Tiled}
use vampire_os.Heap.Release.{InRow, kfree-IsHeap}
use vampire_os.Heap.Alloc.{IsHeap, kmalloc-IsHeap}

abbrev small_heap : Heap
small_heap = record {
  base = 0x1000;
  stop = 0x1040;
  heads = (record { magic = true; free = true; size = 48 }) ∷ no_block ∷ no_block ∷ no_block ∷ [];
}

small_heap-IsHeap : IsHeap small_heap
unfolding Tiled
small_heap-IsHeap = record {
  laid = record { room = omega arith; cells = refl };
  blocks = 1;
  row = (
    record { marked = refl; even = refl; above = omega arith; placed = refl; inside = omega arith },
    inl refl,
  );
}

kmalloc-IsHeap_example :
    IsHeap (kmalloc 8 small_heap).1
    × (((kmalloc 8 small_heap).0 ≡ 0)
        ⊎ ((b : ℕ) × ((kmalloc 8 small_heap).0 ≡ b + 16)
            × IsHead (kmalloc 8 small_heap).1 b
            × ((head_at (kmalloc 8 small_heap).1 b).free ≡ false)
            × (8 ≤ (head_at (kmalloc 8 small_heap).1 b).size)))
kmalloc-IsHeap_example = kmalloc-IsHeap 8 small_heap small_heap-IsHeap (omega arith)

-- A block in use before a free one.
abbrev two_blocks : Heap
two_blocks = record {
  base = 0x1000;
  stop = 0x1040;
  heads =
      (record { magic = true; free = false; size = 16 })
      ∷ no_block
      ∷ (record { magic = true; free = true; size = 16 })
      ∷ no_block
      ∷ [];
}

two_blocks-Tiled : Tiled two_blocks 2 0x1000
unfolding Tiled
two_blocks-Tiled = (
  record { marked = refl; even = refl; above = omega arith; placed = refl; inside = omega arith },
  inr (
    omega arith,
    (
      record {
        marked = refl;
        even = refl;
        above = omega arith;
        placed = refl;
        inside = omega arith;
      },
      inl refl,
    ),
  ),
)

abbrev two_blocks_sound : IsHeap two_blocks
two_blocks_sound = record {
  laid = record { room = omega arith; cells = refl };
  blocks = 2;
  row = two_blocks-Tiled;
}

first_block : InRow two_blocks two_blocks_sound.blocks two_blocks.base 0x1000
unfolding InRow
first_block = inl refl

kfree-IsHeap_example :
    IsHeap (kfree (0x1000 + 16) two_blocks)
    × ((head_at (kfree (0x1000 + 16) two_blocks) 0x1000).free ≡ true)
kfree-IsHeap_example =
    kfree-IsHeap two_blocks two_blocks_sound 0x1000 refl first_block refl (omega arith)
