-- ===== src/Fs/File/RoundTrip.antt =====
-- kernel/fs.c: what store_chain has written, load_file reads.
use vampire_os.Prelude.{
  ℕ, zero, suc, ◌-◌, ◌<◌, ◌≤◌, ◌≡◌, ◌≢◌, refl, sym, subst, ap, ◌∙◌, List, [], ◌∷◌, inl, inr, Bool,
  true, false, min, length, take, drop, overlay, replicate, length-overlay, length-replicate,
  length-drop, take-append_drop, take_of_ge, arith,
}
use vampire_os.Prelude.{◌==◌, Bool-cases, ==_iff}
use vampire_os.Fs.{sec, chain_max}
use vampire_os.Fs.Fat.{Fat, fat12_ent, is_link}
use vampire_os.Fs.Fat.Chain.{mem, IsChain, mem-head, apart}
use vampire_os.Fs.Disk.{Disk, IsSectors}
use vampire_os.Fs.File.{lba_of, sector_of, store_hops, store_chain, load_hops, load_file}

take-overlay :
    (zs bs : List ℕ) (n : ℕ)
    → n ≤ length bs
    → length bs ≤ length zs
    → take n (overlay zs bs) ≡ take n bs
take-overlay zs bs zero h k = refl
take-overlay [] [] (suc n) h k = refl
take-overlay [] (b ∷ bs) (suc n) h k = absurd (omega arith)
take-overlay (z ∷ zs) [] (suc n) h k = absurd (omega arith)
take-overlay (z ∷ zs) (b ∷ bs) (suc n) h k =
    ap (λ r. b ∷ r) (take-overlay zs bs n (omega arith) (omega arith))

length-take : (n : ℕ) (xs : List ℕ) → length (take n xs) ≡ min n (length xs)
length-take zero xs = omega arith
length-take (suc n) [] = omega arith
length-take (suc n) (x ∷ xs) = omega (arith, length-take n xs)

take-overlay_zeros :
    (k : ℕ) (src : List ℕ)
    → take (min (length src) k) (overlay (replicate k 0) (take k src)) ≡ take k src
take-overlay_zeros k src =
    take-overlay (replicate k 0) (take k src) (min (length src) k)
      (omega (arith, length-take k src))
      (omega (arith, length-take k src, length-replicate {A = ℕ} k 0))
    ∙ take_of_ge (min (length src) k) (take k src) (omega (arith, length-take k src))

-- A sector's bytes, as many as the file has of it.
take-sector_of : (src : List ℕ) → take (min (length src) sec) (sector_of src) ≡ take sec src
unfolding sector_of
take-sector_of src = take-overlay_zeros sec src

length-sector_of : (src : List ℕ) → length (sector_of src) ≡ sec
unfolding sector_of
length-sector_of src =
    length-overlay (replicate sec 0) (take sec src) ∙ length-replicate {A = ℕ} sec 0

mem-link :
    (t : Fat) (cl : ℕ) (cs : List ℕ) (z : ℕ) → IsChain t cl cs → mem z cs ≡ true → is_link z ≡ true
unfolding IsChain mem
mem-link t cl [] z h e = absurd (ground (arith, e))
mem-link t cl (c ∷ cs) z h e = elim (Bool-cases (z == cl)) [
  | inl same ↦ rw ((==_iff z cl).0 same) h.1
  | inr ne ↦ mem-link t (fat12_ent t cl) cs z h.2 (ground (arith, e, ne, h.0))
]

far_sector :
    (first_data z cl : ℕ)
    → is_link z ≡ true
    → is_link cl ≡ true
    → (z == cl) ≡ false
    → lba_of first_data z ≢ lba_of first_data cl
far_sector first_data z cl p q ne same = ground (arith, p, q, ne, same)

module _ {ℓ} {M : Type ℓ} (d : Disk M) (size : ℕ) (w : IsSectors d size) (t : Fat)
    (first_data : ℕ) where
  -- The chain's sectors are sectors of the disk.
  abbrev InDisk : List ℕ → Type 0
  InDisk cs = (c : ℕ) → mem c cs ≡ true → lba_of first_data c < size

  InDisk-head : (cl c : ℕ) (cs : List ℕ) → c ≡ cl → InDisk (c ∷ cs) → lba_of first_data cl < size
  unfolding mem
  InDisk-head cl c cs e i = i cl (ground (arith, e))

  InDisk-tail : (c : ℕ) (cs : List ℕ) → InDisk (c ∷ cs) → InDisk cs
  unfolding mem
  InDisk-tail c cs i z e = i z (ground (arith, e))

  -- The sectors of the chain hold the bytes.
  unfoldable Holds : M → ℕ → List ℕ → List ℕ → Type 0
  Holds m cl cs [] = Unit
  Holds m cl [] (x ∷ src) = ⊥
  Holds m cl (c ∷ cs) (x ∷ src) =
      (is_link cl ≡ true)
      × (w.sector m (lba_of first_data cl) ≡ sector_of (x ∷ src))
      × Holds m (fat12_ent t cl) cs (drop sec (x ∷ src))

  -- Writes elsewhere leave them.
  Holds-frame :
      (m m' : M) (cl : ℕ) (cs src : List ℕ)
      → IsChain t cl cs
      → ((c : ℕ)
          → mem c cs ≡ true
          → w.sector m' (lba_of first_data c) ≡ w.sector m (lba_of first_data c))
      → Holds m cl cs src
      → Holds m' cl cs src
  unfolding Holds IsChain mem
  Holds-frame m m' cl cs [] h f k = tt
  Holds-frame m m' cl [] (x ∷ src) h f k = k
  Holds-frame m m' cl (c ∷ cs) (x ∷ src) h f k = (
    k.0,
    f cl (ground (arith, h.0)) ∙ k.1,
    Holds-frame m m' (fat12_ent t cl) cs (drop sec (x ∷ src)) h.2 (λ y e. f y (ground (arith))) k.2,
  )

  -- The writes go to the chain's sectors only.
  store_hops-keeps :
      (hops cl : ℕ) (cs src : List ℕ) (m : M) (x : ℕ)
      → IsChain t cl cs
      → InDisk cs
      → x < size
      → ((c : ℕ) → mem c cs ≡ true → lba_of first_data c ≢ x)
      → w.sector (store_hops d t first_data hops cl src m).1 x ≡ w.sector m x
  unfolding store_hops IsChain mem
  store_hops-keeps hops cl cs [] m x h i ix ne = refl
  store_hops-keeps zero cl cs (y ∷ src) m x h i ix ne = refl
  store_hops-keeps (suc hops) cl [] (y ∷ src) m x h i ix ne = rw (h) refl
  store_hops-keeps (suc hops) cl (c ∷ cs) (y ∷ src) m x h i ix ne =
      let l = lba_of first_data cl in
      let r = d.bwrite l 1 (sector_of (y ∷ src)) m in
      let one : w.sector r.1 x ≡ w.sector m x =
        w.write_keeps l x (sector_of (y ∷ src)) m (InDisk-head cl c cs h.0 i) ix
          (ne cl (ground (arith, h.0))) in
      elim (Bool-cases r.0) [
        | inr bad ↦ rw (h.1, bad) one
        | inl good ↦
            rw (h.1, good, store_hops)
              (store_hops-keeps hops (fat12_ent t cl) cs (drop sec (y ∷ src)) r.1 x h.2
                  (InDisk-tail c cs i) ix (λ z e. ne z (ground arith))
                ∙ one)
      ]

  store_hops-Holds :
      (hops cl : ℕ) (cs src : List ℕ) (m : M)
      → IsChain t cl cs
      → InDisk cs
      → (store_hops d t first_data hops cl src m).0 ≡ true
      → Holds (store_hops d t first_data hops cl src m).1 cl cs src
  unfolding store_hops IsChain Holds
  store_hops-Holds hops cl cs [] m h i ok = tt
  store_hops-Holds zero cl cs (y ∷ src) m h i ok = absurd (ground (arith, ok))
  store_hops-Holds (suc hops) cl [] (y ∷ src) m h i ok = absurd (ground (arith, rw (h) at ok))
  store_hops-Holds (suc hops) cl (c ∷ cs) (y ∷ src) m h i ok =
      let l = lba_of first_data cl in
      let r = d.bwrite l 1 (sector_of (y ∷ src)) m in
      elim (Bool-cases r.0) [
        | inr bad ↦ absurd (ground (arith, rw (h.1, bad) at ok))
        | inl good ↦
            let next = drop sec (y ∷ src) in
            let on_ : (store_hops d t first_data hops (fat12_ent t cl) next r.1).0 ≡ true =
              rw (h.1, good, store_hops) at ok in
            let rest_in = InDisk-tail c cs i in
            let elsewhere : (z : ℕ) → mem z cs ≡ true → lba_of first_data z ≢ l = λ z e same.
              far_sector first_data z cl (mem-link t (fat12_ent t cl) cs z h.2 e) h.1
                (apart z cl cs e (mem-head t cl c cs h)) same in
            let step : store_hops d t first_data (suc hops) cl (y ∷ src) m
                ≡ store_hops d t first_data hops (fat12_ent t cl) next r.1 =
              rw (h.1, good, store_hops) refl in
            subst (λ (z : Bool × M). Holds z.1 cl (c ∷ cs) (y ∷ src)) (sym step)
              (
                h.1,
                store_hops-keeps hops (fat12_ent t cl) cs next r.1 l h.2 rest_in
                      (InDisk-head cl c cs h.0 i) elsewhere
                    ∙ w.writes l (sector_of (y ∷ src)) m (InDisk-head cl c cs h.0 i)
                        (length-sector_of (y ∷ src)) good,
                store_hops-Holds hops (fat12_ent t cl) cs next r.1 h.2 rest_in on_,
              )
      ]

  -- Reads leave them.
  Holds-same :
      (m m' : M) (cl : ℕ) (cs src : List ℕ)
      → IsChain t cl cs
      → InDisk cs
      → ((x : ℕ) → x < size → w.sector m' x ≡ w.sector m x)
      → Holds m cl cs src
      → Holds m' cl cs src
  unfolding Holds IsChain mem
  Holds-same m m' cl cs [] h i f k = tt
  Holds-same m m' cl [] (x ∷ src) h i f k = k
  Holds-same m m' cl (c ∷ cs) (x ∷ src) h i f k = (
    k.0,
    f (lba_of first_data cl) (InDisk-head cl c cs h.0 i) ∙ k.1,
    Holds-same m m' (fat12_ent t cl) cs (drop sec (x ∷ src)) h.2 (InDisk-tail c cs i) f k.2,
  )

  load_hops-Holds :
      (hops cl : ℕ) (cs src : List ℕ) (m : M)
      → IsChain t cl cs
      → InDisk cs
      → Holds m cl cs src
      → length cs ≤ hops
      → ((load_hops d t first_data hops cl (length src) m).0 ≡ true)
        × ((load_hops d t first_data hops cl (length src) m).1 ≡ src)
  unfolding load_hops Holds IsChain mem
  load_hops-Holds hops cl cs [] m c i h k = (refl, refl)
  load_hops-Holds hops cl [] (y ∷ src) m c i h k = absurd h
  load_hops-Holds zero cl (c ∷ cs) (y ∷ src) m ch i h k = absurd (omega arith)
  load_hops-Holds (suc hops) cl (c ∷ cs) (y ∷ src) m ch i h k =
      let l = lba_of first_data cl in
      let all = y ∷ src in
      let in_ : l < size = InDisk-head cl c cs ch.0 i in
      let rest_in = InDisk-tail c cs i in
      let left : suc (length src) - min (suc (length src)) sec ≡ length (drop sec all) =
        omega (arith, length-drop sec all) in
      let m' = (d.bread l 1 m).1 in
      let kept : Holds m' (fat12_ent t cl) cs (drop sec all) =
        Holds-same m m' (fat12_ent t cl) cs (drop sec all) ch.2 rest_in
          (λ x ix. w.read_keeps l x m in_ ix) h.2 in
      let (ok, bytes) =
        load_hops-Holds hops (fat12_ent t cl) cs (drop sec all) m' ch.2 rest_in kept
          (omega arith) in
      (
        rw (h.0, w.reads l m in_, h.1, take-sector_of all, left, load_hops, ok) refl,
        rw (h.0, w.reads l m in_, h.1, take-sector_of all, left, load_hops, bytes)
            (take-append_drop sec all),
      )

-- On a disk of `size` sectors, where a read inside the disk does not fail and gives what was
-- written last, and with a chain of at most 8 clusters whose sectors are on that disk, `load_file`
-- succeeds after a `store_chain` that has not failed, and gives the bytes that were stored.
pub load_file-store_chain {ℓ} :
    {M : Type ℓ} (d : Disk M) (size : ℕ) (w : IsSectors d size) (t : Fat) (first_data start : ℕ)
    (cs src : List ℕ) (m : M)
    → IsChain t start cs
    → length cs ≤ chain_max
    → ((c : ℕ) → mem c cs ≡ true → lba_of first_data c < size)
    → (store_chain d t first_data start src m).0 ≡ true
    → ((load_file d t first_data start (length src) (store_chain d t first_data start src m).1).0
        ≡ true)
      × ((load_file d t first_data start (length src) (store_chain d t first_data start src m).1).1
          ≡ src)
unfolding store_chain load_file
load_file-store_chain d size w t first_data start cs src m h short in_ ok =
    load_hops-Holds d size w t first_data chain_max start cs src _ h in_
      (store_hops-Holds d size w t first_data chain_max start cs src m h in_ ok) short
