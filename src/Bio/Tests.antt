-- ===== src/Bio/Tests.antt =====
-- Tests of the model of kernel/bio.c at one device.
use vampire_os.Prelude.{ℕ, ◌+◌, ◌≡◌, ◌⊎◌, refl, true, [], ◌∷◌, some, none, arith}
use vampire_os.Bio.{Bdev, Bio, bread}
use vampire_os.Bio.Range.{InRange, bread-range}

-- A device "hd" of 100 sectors, whose state counts the sectors of its calls.
abbrev hd : Bdev ℕ
hd = record {
  name = 104 ∷ 100 ∷ [];
  read = λ lba n m. (some (lba ∷ []), m + n);
  write = λ lba n src m. (true, m + n);
  flush = none;
  sectors = 100;
}

abbrev devices : Bio ℕ
devices = record { table = hd ∷ []; part_lba = 63 }

bread-range_example :
    (bread 30 8 devices 5 ≡ (none, 5))
    ⊎ (InRange devices hd [] refl 30 8 × (bread 30 8 devices 5 ≡ (some (93 ∷ []), 13)))
bread-range_example =
    bread-range devices hd [] refl 30 8 5 (omega arith) (omega arith) (omega arith) (omega arith)
