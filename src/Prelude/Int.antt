-- ===== src/Prelude/Int.antt =====
-- The C type `int`, where the kernel uses a negative value as a mark: an index, or -1 and -2.
use vampire_os.Prelude.{ℕ, ◌-◌, ◌^◌, ◌<◌, ◌≡◌, Bool, true, false, Option, none, some, arith}
use vampire_os.Prelude.{ltb, ◌==◌, if◌then◌else◌}

-- `negsuc n` is -(n + 1).
pub data ℤ : Type 0 where
  pos : ℕ → ℤ
  negsuc : ℕ → ℤ

abbrev pub minus_one : ℤ
minus_one = negsuc 0

abbrev pub minus_two : ℤ
minus_two = negsuc 1

abbrev pub is_neg : ℤ → Bool
is_neg (pos _) = false
is_neg (negsuc _) = true

-- `(int)` of an unsigned: the top bit is the sign.
abbrev pub to_int : ℕ → ℤ
to_int w = if ltb w (2 ^ 31) then pos w else negsuc (2 ^ 32 - w - 1)

infix 50 ◌==ℤ◌
abbrev pub ◌==ℤ◌ : ℤ → ℤ → Bool
pos a ==ℤ pos b = a == b
pos a ==ℤ negsuc b = false
negsuc a ==ℤ pos b = false
negsuc a ==ℤ negsuc b = a == b

-- The guard `i < 0 || i >= n`: the index, where it passes.
abbrev pub index? : ℤ → ℕ → Option ℕ
index? (pos i) n = if ltb i n then some i else none
index? (negsuc _) n = none

pub index?-some : (i : ℤ) (n j : ℕ) → index? i n ≡ some j → j < n
index?-some i n j h = ground arith

pub eq_of_index? : (i : ℤ) (n j : ℕ) → index? i n ≡ some j → i ≡ pos j
eq_of_index? i n j h = ground arith

pub index?-pos : (i n : ℕ) → i < n → index? (pos i) n ≡ some i
index?-pos i n h = ground arith
