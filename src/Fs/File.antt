-- ===== src/Fs/File.antt =====
-- kernel/fs.c: the bytes of a file along its chain of clusters.
pub mod RoundTrip
use vampire_os.Prelude.{
  ℕ, zero, suc, ◌+◌, ◌-◌, List, [], ◌∷◌, ◌++◌, Option, none, some, Bool, true, false, not, min,
  length, take, drop, overlay, replicate, ltb, if◌then◌else◌,
}
use vampire_os.Fs.{sec, chain_max}
use vampire_os.Fs.Fat.{Fat, fat12_ent, is_link}
use vampire_os.Fs.Disk.{Disk}

-- The sector of a cluster.
abbrev pub lba_of : ℕ → ℕ → ℕ
lba_of first_data cl = first_data + (cl - 2)

-- `g_sec` as the loop fills it: the bytes, then zeros.
unfoldable pub sector_of : List ℕ → List ℕ
sector_of src = overlay (replicate sec 0) (take sec src)

-- `g_fat` and `g_sec` are set.
module _ {ℓ} {M : Type ℓ} (d : Disk M) (t : Fat) (first_data : ℕ) where
  -- The loop of `store_chain` over the bytes that are left, by the hops that are left.
  unfoldable pub store_hops : ℕ → ℕ → List ℕ → M → Bool × M
  store_hops hops cl [] m = (true, m)
  store_hops zero cl (x ∷ src) m = (false, m)
  store_hops (suc hops) cl (x ∷ src) m =
      let (ok, m') = d.bwrite (lba_of first_data cl) 1 (sector_of (x ∷ src)) m in
      let rest = store_hops hops (fat12_ent t cl) (drop sec (x ∷ src)) m' in
      if is_link cl then (if ok then rest else (false, m')) else (false, m)

  unfoldable pub store_chain : ℕ → List ℕ → M → Bool × M
  store_chain = store_hops chain_max

  -- The loop of `load_file`: whether it returned 0, and the bytes that it has copied to `dst`.
  unfoldable pub load_hops : ℕ → ℕ → ℕ → M → Bool × List ℕ × M
  load_hops hops cl zero m = (true, [], m)
  load_hops zero cl (suc left) m = (false, [], m)
  load_hops (suc hops) cl (suc left) m =
      let (got, m') = d.bread (lba_of first_data cl) 1 m in
      let n = min (suc left) sec in
      let rest = load_hops hops (fat12_ent t cl) (suc left - n) m' in
      if is_link cl
      then elim got [ none ↦ (false, [], m') | some bs ↦ (rest.0, take n bs ++ rest.1, rest.2) ]
      else (false, [], m)

  unfoldable pub load_file : ℕ → ℕ → M → Bool × List ℕ × M
  load_file = load_hops chain_max
