-- ===== src/Fs/Safe/Table.antt =====
-- kernel/fs.c: the changes of the table leave it its sectors.
use vampire_os.Prelude.{
  ℕ, zero, suc, ◌+◌, ◌≡◌, refl, ◌∙◌, List, [], ◌∷◌, ◌++◌, ◌-◌, true, length, get_or, arith,
}
use vampire_os.Fs.{fat12_eof, chain_max}
use vampire_os.Fs.Fat.{
  Fat, fat12_ent, fat12_set, alloc_down, fat_alloc, free_hops, fat_free_chain, gather, last_of,
  ResizeState, link_new, grow, shrink, cut_at, fat_resize,
}

pub fatsz-fat12_set : (t : Fat) (cl val : ℕ) → (fat12_set t cl val).fatsz ≡ t.fatsz
unfolding fat12_set
fatsz-fat12_set t cl val = ground arith

pub fatsz-alloc_down : (top : ℕ) (t : Fat) → (alloc_down top t).1.fatsz ≡ t.fatsz
unfolding alloc_down
fatsz-alloc_down zero t = refl
fatsz-alloc_down (suc top) t =
    ground (arith, fatsz-alloc_down top t, fatsz-fat12_set t (suc top) 0xff8)

fatsz-free_hops : (n cl : ℕ) (t : Fat) → (free_hops n cl t).fatsz ≡ t.fatsz
unfolding free_hops
fatsz-free_hops zero cl t = refl
fatsz-free_hops (suc n) cl t =
    ground (arith, fatsz-free_hops n (fat12_ent t cl) (fat12_set t cl 0), fatsz-fat12_set t cl 0)

pub fatsz-fat_free_chain : (cl : ℕ) (t : Fat) → (fat_free_chain cl t).fatsz ≡ t.fatsz
unfolding fat_free_chain
fatsz-fat_free_chain cl t = fatsz-free_hops chain_max cl t

fatsz-link_new : (cls : List ℕ) (start n : ℕ) (t : Fat) → (link_new cls start n t).1.fatsz ≡ t.fatsz
fatsz-link_new [] start n t = refl
fatsz-link_new (c ∷ cs) start n t = fatsz-fat12_set t (last_of (c ∷ cs)) n

fatsz-grow : (missing : ℕ) (r : ResizeState) → (grow missing r).table.fatsz ≡ r.table.fatsz
unfolding grow fat_alloc
fatsz-grow zero r = refl
fatsz-grow (suc missing) r =
    let (n, t) = fat_alloc r.table in
    let (start, linked) = link_new r.cls r.start n t in
    let next : ResizeState = record {
      ok = true;
      cls = r.cls ++ (n ∷ []);
      start = start;
      table = linked;
    } in
    ground (
      arith,
      fatsz-grow missing next,
      fatsz-link_new r.cls r.start (fat_alloc r.table).0 (fat_alloc r.table).1,
      fatsz-alloc_down (r.table.clusters + 1) r.table,
    )

fatsz-shrink : (extra need : ℕ) (cls : List ℕ) (t : Fat) → (shrink extra need cls t).fatsz ≡ t.fatsz
unfolding shrink
fatsz-shrink zero need cls t = refl
fatsz-shrink (suc extra) need cls t =
    fatsz-shrink extra need cls (fat12_set t (get_or cls (need + extra) 0) 0)
    ∙ fatsz-fat12_set t (get_or cls (need + extra) 0) 0

fatsz-cut_at : (need : ℕ) (r : ResizeState) → (cut_at need r).table.fatsz ≡ r.table.fatsz
unfolding cut_at
fatsz-cut_at need r = ground (
  arith,
  fatsz-fat12_set (shrink (length r.cls - need) need r.cls r.table) (get_or r.cls (need - 1) 0)
      fat12_eof,
  fatsz-shrink (length r.cls - need) need r.cls r.table,
)

pub fatsz-fat_resize : (start need : ℕ) (t : Fat) → (fat_resize start need t).table.fatsz ≡ t.fatsz
unfolding fat_resize
fatsz-fat_resize start need t =
    let cls = gather chain_max start t in
    let r : ResizeState = record { ok = true; cls = cls; start = start; table = t } in
    ground (arith, fatsz-cut_at need (grow (need - length cls) r), fatsz-grow (need - length cls) r)
