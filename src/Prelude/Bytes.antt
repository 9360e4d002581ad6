-- ===== src/Prelude/Bytes.antt =====
-- Bytes and the bit operations that pack them: `|` of parts that share no bit is their sum.
use Prim.Native.Nat.{digits, bit_or-bitwise}
use native.Mathlib.Nat.{mul_assoc, pow-succ'}
use vampire_os.Prelude.{
  ℕ, zero, suc, ◌+◌, ◌*◌, ◌/◌, ◌%◌, ◌^◌, ◌≤◌, ◌<◌, max, bit_and, bit_or, ◌≡◌, refl, ap, sym, ◌∙◌,
  Bool, true, ◌&&◌, arith,
}
use vampire_os.Prelude.{◌==◌, ==_iff}

-- `(uint8_t)v`
abbrev pub u8 : ℕ → ℕ
u8 v = v % 256

-- The definition that `bit_or` stands for, by the digits that are left.
or_digits : ℕ → ℕ → ℕ → ℕ
or_digits left x y = digits (λ rest. rest) max left x y

-- As many digits as the number itself are enough.
or_digits_enough :
    (left : ℕ) (x y : ℕ) (more : ℕ) → x ≤ left → x ≤ more → or_digits left x y ≡ or_digits more x y
unfolding or_digits
or_digits_enough zero zero y zero le le' = refl
or_digits_enough zero zero y (suc more) le le' = refl
or_digits_enough (suc left) zero y zero le le' = refl
or_digits_enough (suc left) zero y (suc more) le le' = refl
or_digits_enough zero (suc x) y more le le' = absurd (omega (arith, le))
or_digits_enough (suc left) (suc x) y zero le le' = absurd (omega (arith, le'))
or_digits_enough (suc left) (suc x) y (suc more) le le' =
    let tail : or_digits left (suc x / 2) (y / 2) ≡ or_digits more (suc x / 2) (y / 2) =
      or_digits_enough left (suc x / 2) (y / 2) more (omega (arith, le)) (omega (arith, le')) in
    omega (arith, tail)

zero-bit_or : (y : ℕ) → bit_or 0 y ≡ y
zero-bit_or y = bit_or-bitwise 0 y

-- The lowest digit is split off.
bit_or_halves : (x y : ℕ) → bit_or x y ≡ max (x % 2) (y % 2) + bit_or (x / 2) (y / 2) * 2
unfolding or_digits
bit_or_halves zero y = omega (arith, zero-bit_or y, zero-bit_or (y / 2))
bit_or_halves (suc x) y =
    let tail : or_digits x (suc x / 2) (y / 2) ≡ or_digits (suc x / 2) (suc x / 2) (y / 2) =
      or_digits_enough x (suc x / 2) (y / 2) (suc x / 2) (omega arith) (omega arith) in
    omega (arith, tail, bit_or-bitwise (suc x) y, bit_or-bitwise (suc x / 2) (y / 2))

-- The low part of k bits and what is shifted above it.
pub bit_or_shifted : (k a b : ℕ) → a < 2 ^ k → bit_or a (b * 2 ^ k) ≡ a + b * 2 ^ k
bit_or_shifted zero zero b h = omega (arith, zero-bit_or (b * 2 ^ 0))
bit_or_shifted zero (suc a) b h = absurd (omega arith)
bit_or_shifted (suc k) a b h =
    let p : ℕ = b * 2 ^ k in
    let w : 2 ^ suc k ≡ 2 ^ k * 2 = omega (arith, pow-succ' 2 k) in
    let e : b * 2 ^ suc k ≡ p * 2 = ap (λ m. b * m) w ∙ sym (mul_assoc b (2 ^ k) 2) in
    let small : a / 2 < 2 ^ k = omega (arith, w) in
    let half : (p * 2) / 2 ≡ p = omega arith in
    let r : bit_or (a / 2) p ≡ a / 2 + p = bit_or_shifted k (a / 2) b small in
    let s : bit_or a (p * 2) ≡ max (a % 2) (p * 2 % 2) + bit_or (a / 2) (p * 2 / 2) * 2 =
      bit_or_halves a (p * 2) in
    rw (e) (omega (arith, r, rw (half) at s))

-- A test of the numbers below a bound, which evaluation decides.
unfoldable pub passes : (ℕ → Bool) → ℕ → Bool
passes test zero = true
passes test (suc bound) = passes test bound && test bound

pub passes_each :
    (test : ℕ → Bool) (bound : ℕ) → passes test bound ≡ true → (x : ℕ) → x < bound → test x ≡ true
unfolding passes
passes_each test zero all x lt = absurd (omega (arith, lt))
passes_each test (suc bound) all x lt =
    ground (arith, passes_each test bound (ground (arith, all)) x)

high_table : passes (λ x. bit_and x 0xf0 == x / 16 * 16) 256 ≡ true
unfolding passes
high_table = refl

pub high_nibble : (x : ℕ) → x < 256 → bit_and x 0xf0 ≡ x / 16 * 16
high_nibble x h = (==_iff _ _).0 (passes_each _ 256 high_table x h)

nibbles_table : passes (λ n. bit_or (n / 16 * 16) (n % 16) == n) 256 ≡ true
unfolding passes
nibbles_table = refl

-- Two nibbles, the high one first.
pub bit_or-nibbles : (x y : ℕ) → x < 16 → y < 16 → bit_or (x * 16) y ≡ x * 16 + y
bit_or-nibbles x y p q =
    let n : ℕ = x * 16 + y in
    let hi : n / 16 * 16 ≡ x * 16 = omega arith in
    let lo : n % 16 ≡ y = omega arith in
    let r : bit_or (n / 16 * 16) (n % 16) ≡ n =
      (==_iff _ _).0 (passes_each _ 256 nibbles_table n (omega arith)) in
    rw (hi, lo) at r
