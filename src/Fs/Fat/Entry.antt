-- ===== src/Fs/Fat/Entry.antt =====
-- kernel/fs.c: what a write of an entry leaves in the table, at each cluster.
use vampire_os.Prelude.{
  ℕ, ◌+◌, ◌*◌, ◌/◌, ◌%◌, ◌^◌, ◌<◌, ◌≤◌, List, ◌≡◌, ◌≢◌, inl, inr, refl, sym, ◌∙◌, bit_and, bit_or,
  set, length, arith, length-set, get_or-set_self, get_or-set_ne,
}
use vampire_os.Prelude.{ltb, leb, ◌==◌, if◌then◌else◌, ◌&&◌, false, Bool-cases, lt-or-le}
use vampire_os.Prelude.Bytes.{u8, bit_or_shifted, high_nibble, bit_or-nibbles}
use vampire_os.Fs.{fat12_eof, byte}
use vampire_os.Fs.Fat.{Fat, fat_bytes, entry_at, fat12_ent, put_odd, put_even, fat12_set}

-- Bytes, and as many as the sectors of the table hold.
pub record IsFat (t : Fat) : Type 0 where
  pub each : (i : ℕ) → byte t.bytes i < 256
  pub room : fat_bytes t ≤ length t.bytes

-- The entry as arithmetic.
abbrev pub entry_of : ℕ → List ℕ → ℕ
entry_of cl b =
    let off = entry_at cl in
    if cl % 2 == 1
    then byte b off / 16 + byte b (off + 1) * 16
    else byte b off + byte b (off + 1) % 16 * 256

pub fat12_ent-inside :
    (t : Fat) (cl : ℕ)
    → IsFat t
    → entry_at cl + 1 < fat_bytes t
    → fat12_ent t cl ≡ entry_of cl t.bytes
unfolding fat12_ent
fat12_ent-inside t cl w h =
    let lo = byte t.bytes (entry_at cl) in
    let hi = byte t.bytes (entry_at cl + 1) in
    let e : bit_or lo (hi * 2 ^ 8) ≡ lo + hi * 2 ^ 8 = bit_or_shifted 8 lo hi (w.each _) in
    ground (arith, e, w.each (entry_at cl), w.each (entry_at cl + 1))

pub fat12_ent-outside : (t : Fat) (c : ℕ) → fat_bytes t ≤ entry_at c + 1 → fat12_ent t c ≡ fat12_eof
unfolding fat12_ent
fat12_ent-outside t c h = ground arith

-- What two neighbouring writes leave.
record Wrote (b : List ℕ) (off first second : ℕ) (b' : List ℕ) : Type 0 where
  at_first : byte b' off ≡ first
  at_second : byte b' (off + 1) ≡ second
  at_other : (j : ℕ) → j ≢ off → j ≢ off + 1 → byte b' j ≡ byte b j

set_two-Wrote :
    (b : List ℕ) (off x y : ℕ)
    → off + 1 < length b
    → Wrote b off x y (set (set b off x) (off + 1) y)
set_two-Wrote b off x y h =
    let first = set b off x in
    let same : length first ≡ length b = length-set b off x in
    let apart : off + 1 ≢ off = λ e. omega arith in
    record {
      at_first =
          get_or-set_ne first (off + 1) off y 0 apart ∙ get_or-set_self b off x 0 (omega arith);
      at_second = get_or-set_self first (off + 1) y 0 (omega arith);
      at_other = λ j p q.
          get_or-set_ne first (off + 1) j y 0 (λ e. q (sym e))
          ∙ get_or-set_ne b off j x 0 (λ e. p (sym e));
    }

module _ (b : List ℕ) (off v : ℕ) (each : (i : ℕ) → byte b i < 256) (h : off + 1 < length b) where
  put_odd-Wrote : Wrote b off (byte b off % 16 + v % 16 * 16) (v / 16 % 256) (put_odd b off v)
  unfolding put_odd
  put_odd-Wrote =
      let e : bit_or (byte b off % 0x10) (v % 0x10 * 2 ^ 4) ≡ byte b off % 16 + v % 16 * 16 =
        bit_or_shifted 4 (byte b off % 0x10) (v % 0x10) (omega arith) in
      let w =
        set_two-Wrote b off (u8 (bit_or (byte b off % 0x10) (v % 0x10 * 2 ^ 4))) (u8 (v / 2 ^ 4))
          h in
      record {
        at_first = omega (arith, w.at_first, e);
        at_second = omega (arith, w.at_second);
        at_other = w.at_other;
      }

  put_even-Wrote :
      v < 0x1000 → Wrote b off (v % 256) (byte b (off + 1) / 16 * 16 + v / 256) (put_even b off v)
  unfolding put_even
  put_even-Wrote small =
      let hi = byte b (off + 1) in
      let kept : byte (set b off (u8 v)) (off + 1) ≡ hi =
        get_or-set_ne b off (off + 1) (u8 v) 0 (λ e. omega arith) in
      let e : bit_or (bit_and hi 0xf0) (v / 2 ^ 8) ≡ hi / 16 * 16 + v / 2 ^ 8 =
        rw (high_nibble hi (each (off + 1)))
          (bit_or-nibbles (hi / 16) (v / 2 ^ 8) (omega (arith, each (off + 1))) (omega arith)) in
      let w =
        set_two-Wrote b off (u8 v)
          (u8 (bit_or (bit_and (byte (set b off (u8 v)) (off + 1)) 0xf0) (v / 2 ^ 8))) h in
      record {
        at_first = w.at_first;
        at_second = w.at_second ∙ rw (kept, e) (omega (arith, each (off + 1)));
        at_other = w.at_other;
      }

module _ (b : List ℕ) (cl v : ℕ) (each : (i : ℕ) → byte b i < 256) (small : v < 0x1000) where
  entry_of-odd :
      (b' : List ℕ) (c : ℕ)
      → cl % 2 ≡ 1
      → Wrote b (entry_at cl) (byte b (entry_at cl) % 16 + v % 16 * 16) (v / 16 % 256) b'
      → entry_of c b' ≡ (if c == cl then v else entry_of c b)
  entry_of-odd b' c odd w =
      let off : ℕ = entry_at cl in
      grind (arith, w.at_first, w.at_second, w.at_other (entry_at c), w.at_other (entry_at c + 1))

  entry_of-even :
      (b' : List ℕ) (c : ℕ)
      → cl % 2 ≢ 1
      → Wrote b (entry_at cl) (v % 256) (byte b (entry_at cl + 1) / 16 * 16 + v / 256) b'
      → entry_of c b' ≡ (if c == cl then v else entry_of c b)
  entry_of-even b' c even w =
      grind (arith, w.at_first, w.at_second, w.at_other (entry_at c), w.at_other (entry_at c + 1))

  Wrote-bytes :
      (b' : List ℕ) (off x y : ℕ)
      → Wrote b off x y b'
      → x < 256
      → y < 256
      → (i : ℕ) → byte b' i < 256
  Wrote-bytes b' off x y w p q i = grind (arith, w.at_first, w.at_second, w.at_other i, each i)

length-put_odd : (b : List ℕ) (off v : ℕ) → length (put_odd b off v) ≡ length b
unfolding put_odd
length-put_odd b off v = length-set _ _ _ ∙ length-set _ _ _

length-put_even : (b : List ℕ) (off v : ℕ) → length (put_even b off v) ≡ length b
unfolding put_even
length-put_even b off v = length-set _ _ _ ∙ length-set _ _ _

-- A write inside the table, as a change of its bytes.
record Stored (t : Fat) (cl v : ℕ) (b : List ℕ) : Type 0 where
  each : (i : ℕ) → byte b i < 256
  size : length b ≡ length t.bytes
  reads : (c : ℕ) → entry_of c b ≡ (if c == cl then v else entry_of c t.bytes)

fat12_set_inside :
    (t : Fat) (cl val : ℕ)
    → IsFat t
    → entry_at cl + 1 < fat_bytes t
    → (b : List ℕ) × (fat12_set t cl val ≡ record t { bytes = b }) × Stored t cl (val % 0x1000) b
unfolding fat12_set
fat12_set_inside t cl val w h =
    let b = t.bytes in
    let off = entry_at cl in
    let v = val % 0x1000 in
    let fits : off + 1 < length b = omega (arith, w.room) in
    let inside : leb (fat_bytes t) (off + 1) ≡ false = ground arith in
    elim (Bool-cases (cl % 2 == 1)) [
      | inl odd ↦
          let p = put_odd-Wrote b off v w.each fits in
          (
            put_odd b off v,
            rw (inside, odd) refl,
            record {
              each =
                  Wrote-bytes b cl v w.each (omega arith) _ off _ _ p (omega arith) (omega arith);
              size = length-put_odd b off v;
              reads = λ c. entry_of-odd b cl v w.each (omega arith) _ c (ground arith) p;
            },
          )
      | inr even ↦
          let p = put_even-Wrote b off v w.each fits (omega arith) in
          (
            put_even b off v,
            rw (inside, even) refl,
            record {
              each =
                  Wrote-bytes b cl v w.each (omega arith) _ off _ _ p (omega arith)
                    (omega (arith, w.each (off + 1)));
              size = length-put_even b off v;
              reads = λ c. entry_of-even b cl v w.each (omega arith) _ c (ground arith) p;
            },
          )
    ]

fat12_set_outside : (t : Fat) (cl val : ℕ) → fat_bytes t ≤ entry_at cl + 1 → fat12_set t cl val ≡ t
unfolding fat12_set
fat12_set_outside t cl val h = ground arith

-- What the table stays: its size and its bytes.
pub fat12_set-IsFat : (t : Fat) (cl val : ℕ) → IsFat t → IsFat (fat12_set t cl val)
fat12_set-IsFat t cl val w = elim (lt-or-le (entry_at cl + 1) (fat_bytes t)) [
  | inl inside ↦
      let (b, e, s) = fat12_set_inside t cl val w inside in
      rw (e) (record { each = s.each; room = omega (arith, s.size, w.room) })
  | inr outside ↦ rw (fat12_set_outside t cl val outside) w
]

-- In an allocation table of bytes, after `fat12_set` of a cluster whose entry is inside the table,
-- `fat12_ent` of that cluster gives the low twelve bits of the value; every other entry, the two
-- that share a byte with it included, is as it was, and so are all entries where that one is
-- outside.
pub fat12_ent-fat12_set :
    (t : Fat) (cl val c : ℕ)
    → IsFat t
    → fat12_ent (fat12_set t cl val) c
      ≡ (if (c == cl) && ltb (entry_at cl + 1) (fat_bytes t) then val % 0x1000 else fat12_ent t c)
fat12_ent-fat12_set t cl val c w = elim (lt-or-le (entry_at cl + 1) (fat_bytes t)) [
  | inl inside ↦
      let (b, e, s) = fat12_set_inside t cl val w inside in
      let w' : IsFat (record t { bytes = b }) = record {
        each = s.each;
        room = omega (arith, s.size, w.room);
      } in
      rw (e) (elim (lt-or-le (entry_at c + 1) (fat_bytes t)) [
        | inl in_ ↦
            rw
              (
                fat12_ent-inside (record t { bytes = b }) c w' in_,
                fat12_ent-inside t c w in_,
                s.reads c,
              )
              (ground arith)
        | inr out ↦
            rw (fat12_ent-outside (record t { bytes = b }) c out, fat12_ent-outside t c out)
              (ground arith)
      ])
  | inr outside ↦ rw (fat12_set_outside t cl val outside) (ground arith)
]

pub fat_bytes-fat12_set : (t : Fat) (cl val : ℕ) → fat_bytes (fat12_set t cl val) ≡ fat_bytes t
unfolding fat12_set
fat_bytes-fat12_set t cl val = ground arith

pub clusters-fat12_set : (t : Fat) (cl val : ℕ) → (fat12_set t cl val).clusters ≡ t.clusters
unfolding fat12_set
clusters-fat12_set t cl val = ground arith
