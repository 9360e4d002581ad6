-- ===== src/Fs/Disk.antt =====
-- kernel/fs.h's view of the disk: the three calls of kernel/bio.c that fs.c makes.
pub mod Partition
use vampire_os.Prelude.{ℕ, ◌<◌, ◌≡◌, ◌≢◌, List, Option, none, some, Bool, true, false, length}
use vampire_os.Bio
use vampire_os.Bio.{Bdev, Bio}
use vampire_os.Fs.{sec}

pub record Disk {ℓ} (M : Type ℓ) : Type ℓ where
  pub bread : ℕ → ℕ → M → Option (List ℕ) × M
  pub bwrite : ℕ → ℕ → List ℕ → M → Bool × M
  pub bflush : M → Bool × M

-- The disk that the registered devices are.
abbrev pub disk_of {ℓ} : {M : Type ℓ} → Bio M → Disk M
disk_of b = record {
  bread = λ lba n m. Bio.bread lba n b m;
  bwrite = λ lba n src m. Bio.bwrite lba n src b m;
  bflush = λ m. Bio.bflush b m;
}

-- A driver's device as such a disk.
abbrev pub disk_at {ℓ} : {M : Type ℓ} → Bdev M → Disk M
disk_at d = record {
  bread = d.read;
  bwrite = d.write;
  bflush = λ m. elim d.flush [ none ↦ (false, m) | some f ↦ f m ];
}

-- A disk whose first `size` sectors can be read: a read gives what is there, and a write that does not
-- fail puts it there and nowhere else among them.
pub record IsSectors {ℓ} {M : Type ℓ} (d : Disk M) (size : ℕ) : Type ℓ where
  pub sector : M → ℕ → List ℕ
  pub reads : (lba : ℕ) (m : M) → lba < size → (d.bread lba 1 m).0 ≡ some (sector m lba)
  pub read_keeps :
      (lba x : ℕ) (m : M) → lba < size → x < size → sector (d.bread lba 1 m).1 x ≡ sector m x
  pub writes :
      (lba : ℕ) (src : List ℕ) (m : M)
      → lba < size
      → length src ≡ sec
      → (d.bwrite lba 1 src m).0 ≡ true
      → sector (d.bwrite lba 1 src m).1 lba ≡ src
  pub write_keeps :
      (lba x : ℕ) (src : List ℕ) (m : M)
      → lba < size
      → x < size
      → lba ≢ x
      → sector (d.bwrite lba 1 src m).1 x ≡ sector m x
