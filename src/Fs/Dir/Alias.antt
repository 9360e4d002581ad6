-- ===== src/Fs/Dir/Alias.antt =====
-- kernel/fs.c: the alias that make_alias finds is no other entry's name.
use native.Mathlib.Decide.{ℕ_discrete}
use vampire_os.Prelude.{
  ℕ, zero, suc, ◌+◌, ◌/◌, ◌%◌, ◌≢◌, refl, sym, ◌∙◌, not, ◌||◌, [], ◌∷◌, drop, bit_and, ◌<◌, ◌≤◌,
  ◌≡◌, inl, inr, List, some, Bool, true, false, length, arith,
}
use vampire_os.Prelude.{◌==◌, if◌then◌else◌, Bool-cases}
use vampire_os.Prelude.Bytes.{passes, passes_each}
use vampire_os.Fs.{byte}
use vampire_os.Fs.Dir.{
  dir_ents, entry, is_skipped, same_bytes, used_from, alias_used, numbered, first_unused,
  make_alias, alias_parts,
}

-- The entry has the short name, byte for byte: it is not wiped (0xe5), not part of a long name (the
-- attributes 0x0f) and not the volume's label (the attribute of weight 8).
pub record Names (dir : List ℕ) (n83 : List ℕ) (i : ℕ) : Type 0 where
  pub in_use : byte (entry dir i) 0 ≢ 0xe5
  pub short : byte (entry dir i) 11 ≢ 0x0f
  pub no_label : byte (entry dir i) 11 / 8 % 2 ≡ 0
  pub same : (k : ℕ) → k < 11 → byte (entry dir i) k ≡ byte n83 k

label_table : passes (λ x. not (x / 8 % 2 == 0) || (bit_and x 0x08 == 0)) 256 ≡ true
unfolding passes
label_table = refl

Names-is_skipped :
    (dir n83 : List ℕ) (i : ℕ)
    → byte (entry dir i) 11 < 256
    → Names dir n83 i
    → is_skipped (entry dir i) ≡ false
Names-is_skipped dir n83 i small n =
    let row : (not (byte (entry dir i) 11 / 8 % 2 == 0)
          || (bit_and (byte (entry dir i) 11) 0x08 == 0))
        ≡ true =
      passes_each _ 256 label_table (byte (entry dir i) 11) small in
    ground (arith, row, n.in_use, n.short, n.no_label)

byte-drop_one : (a : List ℕ) (k : ℕ) → byte (drop 1 a) k ≡ byte a (k + 1)
byte-drop_one [] k = ground arith
byte-drop_one (x ∷ a) k = let e : k + 1 ≡ suc k = omega arith in rw (e) refl

-- Equal bytes pass the loop.
same_bytes-all :
    (n : ℕ) (a b : List ℕ) → ((k : ℕ) → k < n → byte a k ≡ byte b k) → same_bytes n a b ≡ true
unfolding same_bytes
same_bytes-all zero a b h = refl
same_bytes-all (suc n) a b h =
    let rest : same_bytes n (drop 1 a) (drop 1 b) ≡ true =
      same_bytes-all n (drop 1 a) (drop 1 b)
        (λ k lt. byte-drop_one a k ∙ h (k + 1) (omega (arith, lt)) ∙ sym (byte-drop_one b k)) in
    ground (arith, rest, h 0 (omega arith))

passes_on :
    (skip hit rest : Bool)
    → (if skip then rest else if hit then true else rest) ≡ false
    → rest ≡ false
passes_on skip hit rest h = ground (arith, h)

used_from-unused :
    (left i : ℕ) (n83 dir : List ℕ) (j : ℕ)
    → used_from left i n83 dir ≡ false
    → i ≤ j
    → j < i + left
    → ((k : ℕ) → i ≤ k → k ≤ j → (byte (entry dir k) 0 == 0) ≡ false)
    → is_skipped (entry dir j) ≡ false
    → same_bytes 11 (entry dir j) n83 ≡ true
    → ⊥
unfolding used_from
used_from-unused zero i n83 dir j h p q live shown equal = omega arith
used_from-unused (suc left) i n83 dir j h p q live shown equal =
    let lives : (byte (entry dir i) 0 == 0) ≡ false = live i (omega arith) p in
    elim (ℕ_discrete i j) [
      | yes e ↦
          let skip : is_skipped (entry dir i) ≡ false = rw (e) shown in
          let hit : same_bytes 11 (entry dir i) n83 ≡ true = rw (e) equal in
          let bad : true ≡ false = rw (lives, skip, hit, used_from) at h in ground (arith, bad)
      | no ne ↦
          let rest : used_from left (i + 1) n83 dir ≡ false =
            passes_on (is_skipped (entry dir i)) (same_bytes 11 (entry dir i) n83) _
              (rw (lives, used_from) at h) in
          used_from-unused left (i + 1) n83 dir j rest (omega arith) (omega arith)
            (λ k a b. live k (omega arith) b) shown equal
    ]

first_unused-unused :
    (left gen : ℕ) (base ext : List ℕ) (dir_bytes : ℕ) (dir out : List ℕ)
    → first_unused left gen base ext dir_bytes dir ≡ some out
    → alias_used out dir_bytes dir ≡ false
unfolding first_unused
first_unused-unused zero gen base ext dir_bytes dir out h = absurd (ground (arith, h))
first_unused-unused (suc left) gen base ext dir_bytes dir out h =
    elim (Bool-cases (alias_used (numbered base ext gen) dir_bytes dir)) [
      | inl used ↦
          first_unused-unused left (gen + 1) base ext dir_bytes dir out
            (rw (used, first_unused) at h)
      | inr free_ ↦
          let e : numbered base ext gen ≡ out = ground (arith, rw (free_, first_unused) at h) in
          rw (← e) free_
    ]

-- A short name that `make_alias` returns is not the name of any entry in front of the end of the
-- directory (the first entry whose first byte is 0) that is a file or a directory: one whose first
-- byte is not 0xe5 and whose attributes, a byte, are neither those of a long name nor have the bit
-- of the label.
pub make_alias-unused :
    (name : List ℕ) (dir_bytes : ℕ) (dir out : List ℕ) (j : ℕ)
    → make_alias name dir_bytes dir ≡ some out
    → j < dir_ents dir_bytes
    → ((k : ℕ) → k ≤ j → (byte (entry dir k) 0 == 0) ≡ false)
    → byte (entry dir j) 11 < 256
    → ¬ Names dir out j
unfolding make_alias alias_used
make_alias-unused name dir_bytes dir out j h p live small n =
    elim (Bool-cases (length (alias_parts name).0 == 0)) [
      | inl none_ ↦ ground (arith, rw (none_, make_alias) at h)
      | inr some_ ↦
          let unused : alias_used out dir_bytes dir ≡ false =
            first_unused-unused 9 1 (alias_parts name).0 (alias_parts name).1 dir_bytes dir out
              (rw (some_, make_alias) at h) in
          used_from-unused (dir_ents dir_bytes) 0 out dir j (unused) (omega arith) (omega arith)
            (λ k a b. live k b) (Names-is_skipped dir out j small n)
            (same_bytes-all 11 (entry dir j) out n.same)
    ]
