-- ===== src/Fs/Disk/Partition.antt =====
-- kernel/bio.c under kernel/fs.c: the sectors of the partition, where the first device has sectors.
use vampire_os.Prelude.{
  ℕ, ◌+◌, ◌%◌, ◌^◌, ◌<◌, ◌≤◌, ◌≡◌, refl, sym, ap, ◌∙◌, List, ◌∷◌, Option, Bool, false, arith,
}
use vampire_os.Bio.{Bdev, Bio, past_end, bread, bwrite}
use vampire_os.Fs.Disk.{disk_of, disk_at, IsSectors}

module _ {ℓ} {M : Type ℓ} (b : Bio M) (d : Bdev M) (ds : List (Bdev M)) (e : b.table ≡ d ∷ ds)
    (size : ℕ) (small : d.sectors < 2 ^ 32) (some_ : 0 < size)
    (fits : b.part_lba + size ≤ d.sectors) where
  inside : (lba : ℕ) → lba < size → past_end lba 1 b ≡ false
  unfolding past_end
  inside lba h = rw (e, past_end) (ground (arith, h, small, some_, fits))

  wraps_not : (lba : ℕ) → lba < size → (lba + b.part_lba) % 2 ^ 32 ≡ lba + b.part_lba
  wraps_not lba h = omega (arith, h, small, fits)

  bread-inside : (lba : ℕ) (m : M) → lba < size → bread lba 1 b m ≡ d.read (lba + b.part_lba) 1 m
  unfolding bread
  bread-inside lba m h = rw (e, bread, inside lba h, wraps_not lba h) refl

  bwrite-inside :
      (lba : ℕ) (src : List ℕ) (m : M)
      → lba < size
      → bwrite lba 1 src b m ≡ d.write (lba + b.part_lba) 1 src m
  unfolding bwrite
  bwrite-inside lba src m h = rw (e, bwrite, inside lba h, wraps_not lba h) refl

  -- The laws of the device are those of the partition's sectors.
  pub disk_of-IsSectors : IsSectors (disk_at d) d.sectors → IsSectors (disk_of b) size
  disk_of-IsSectors w = record {
    sector = λ m x. w.sector m (x + b.part_lba);
    reads = λ lba m h.
        ap (λ (r : Option (List ℕ) × M). r.0) (bread-inside lba m h)
        ∙ w.reads (lba + b.part_lba) m (omega (arith, h, fits));
    read_keeps = λ lba x m h hx.
        ap (λ (r : Option (List ℕ) × M). w.sector r.1 (x + b.part_lba)) (bread-inside lba m h)
        ∙ w.read_keeps (lba + b.part_lba) (x + b.part_lba) m (omega (arith, h, fits))
            (omega (arith, hx, fits));
    writes = λ lba src m h full ok.
        let step = bwrite-inside lba src m h in
        ap (λ (r : Bool × M). w.sector r.1 (lba + b.part_lba)) step
        ∙ w.writes (lba + b.part_lba) src m (omega (arith, h, fits)) full
            (sym (ap (λ (r : Bool × M). r.0) step) ∙ ok);
    write_keeps = λ lba x src m h hx ne.
        ap (λ (r : Bool × M). w.sector r.1 (x + b.part_lba)) (bwrite-inside lba src m h)
        ∙ w.write_keeps (lba + b.part_lba) (x + b.part_lba) src m (omega (arith, h, fits))
            (omega (arith, hx, fits)) (λ same. ne (omega (arith, same)));
  }
