-- ===== src/Bio/Range.antt =====
-- kernel/bio.c: a range that the test lets through lies on the device and behind the partition's start.
use vampire_os.Prelude.{
  ℕ, ◌+◌, ◌%◌, ◌^◌, ◌<◌, ◌≤◌, ◌≡◌, ◌⊎◌, inl, inr, refl, List, ◌∷◌, none, false, ◌||◌, arith,
}
use vampire_os.Prelude.{◌==◌, Bool-cases}
use vampire_os.Bio.{Bdev, Bio, beyond, past_end, bread, bwrite}

module _ {ℓ} {M : Type ℓ} (b : Bio M) (d : Bdev M) (ds : List (Bdev M)) (e : b.table ≡ d ∷ ds) where
  -- A size of 0 stands for a device that does not tell it.
  pub record InRange (lba sectors : ℕ) : Type 0 where
    pub some_sector : 1 ≤ sectors
    pub no_wrap : (lba + b.part_lba) % 2 ^ 32 ≡ lba + b.part_lba
    pub on_device : lba + b.part_lba + sectors ≤ d.sectors

  past_end-InRange :
      (lba sectors : ℕ)
      → lba < 2 ^ 32
      → b.part_lba < 2 ^ 32
      → d.sectors < 2 ^ 32
      → 0 < d.sectors
      → past_end lba sectors b ≡ false
      → InRange lba sectors
  unfolding past_end
  past_end-InRange lba sectors l p s pos ok =
      let h : ((sectors == 0) || beyond d.sectors b.part_lba lba sectors) ≡ false =
        rw (e, past_end) at ok in
      record {
        some_sector = ground (arith, h);
        no_wrap = ground (arith, h, l, p, pos);
        on_device = ground (arith, h, l, p, pos);
      }

  -- With a first device whose size is known, and 32-bit numbers, `bread` either fails and leaves
  -- the machine as it was, or reads at least one sector in a range whose start in the partition
  -- does not wrap and whose end lies on the device, and returns what the driver returns.
  pub bread-range :
      (lba sectors : ℕ) (m : M)
      → lba < 2 ^ 32
      → b.part_lba < 2 ^ 32
      → d.sectors < 2 ^ 32
      → 0 < d.sectors
      → (bread lba sectors b m ≡ (none, m))
        ⊎ (InRange lba sectors × (bread lba sectors b m ≡ d.read (lba + b.part_lba) sectors m))
  unfolding bread
  bread-range lba sectors m l p s pos = elim (Bool-cases (past_end lba sectors b)) [
    | inl out ↦ inl (rw (e, bread, out) refl)
    | inr in_ ↦
        let r = past_end-InRange lba sectors l p s pos in_ in
        inr (r, rw (e, bread, in_, r.no_wrap) refl)
  ]

  pub bwrite-range :
      (lba sectors : ℕ) (src : List ℕ) (m : M)
      → lba < 2 ^ 32
      → b.part_lba < 2 ^ 32
      → d.sectors < 2 ^ 32
      → 0 < d.sectors
      → (bwrite lba sectors src b m ≡ (false, m))
        ⊎ (InRange lba sectors
            × (bwrite lba sectors src b m ≡ d.write (lba + b.part_lba) sectors src m))
  unfolding bwrite
  bwrite-range lba sectors src m l p s pos = elim (Bool-cases (past_end lba sectors b)) [
    | inl out ↦ inl (rw (e, bwrite, out) refl)
    | inr in_ ↦
        let r = past_end-InRange lba sectors l p s pos in_ in
        inr (r, rw (e, bwrite, in_, r.no_wrap) refl)
  ]
