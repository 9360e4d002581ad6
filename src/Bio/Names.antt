-- ===== src/Bio/Names.antt =====
-- kernel/bio.c: the list of the devices' names fits the buffer.
use vampire_os.Prelude.{
  ℕ, zero, suc, ◌+◌, ◌<◌, ◌≡◌, inl, inr, List, [], ◌∷◌, ◌++◌, some, length, length-append, arith,
}
use vampire_os.Prelude.{ltb, leb, Bool-cases}
use vampire_os.Bio.{Bdev, Bio, put_name, list_names, bdev_list}

length-put_name : (max : ℕ) (dst s : List ℕ) → length dst < max → length (put_name max dst s) < max
unfolding put_name
length-put_name max dst [] h = h
length-put_name max dst (c ∷ s) h =
    ground (arith, h, length-append dst (c ∷ []), length-put_name max (dst ++ (c ∷ [])) s)

module _ {ℓ} {M : Type ℓ} where
  length-list_names :
      (max : ℕ) (ds : List (Bdev M)) (dst : List ℕ)
      → length dst < max
      → length (list_names max ds dst) < max
  unfolding list_names
  length-list_names max [] dst h = h
  length-list_names max (d ∷ ds) dst h = elim (Bool-cases (ltb 0 (length dst))) [
    | inr empty ↦
        rw (empty, list_names) (length-list_names max ds _ (length-put_name max dst d.name h))
    | inl full ↦ elim (Bool-cases (leb max (length dst + 1))) [
      | inl stop ↦ rw (full, stop) h
      | inr on_ ↦
          let k : length (dst ++ (32 ∷ [])) < max =
            ground (arith, on_, length-append dst (32 ∷ [])) in
          rw (full, on_, list_names)
            (length-list_names max ds _ (length-put_name max (dst ++ (32 ∷ [])) d.name k))
    ]
  ]

  -- There is room for the NUL behind the names.
  pub bdev_list-fits :
      (max : ℕ) (b : Bio M) (s : List ℕ) → bdev_list max b ≡ some s → length s < max
  unfolding bdev_list
  bdev_list-fits zero b s h = absurd (ground (arith, h))
  bdev_list-fits (suc room) b s h =
      let e : list_names (suc room) b.table [] ≡ s = ground (arith, h) in
      rw (← e) (length-list_names (suc room) b.table [] (omega arith))
