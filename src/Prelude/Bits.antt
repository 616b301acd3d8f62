-- ===== src/Prelude/Bits.antt =====
-- Exclusive or on native numbers: its step equation and range, and checks of a table by evaluation.
use c_mesh_api.Prelude.{if◌then◌else◌, false}
use Prim.Native.Nat.{
  ℕ, zero, suc, ◌+◌, ◌*◌, ◌/◌, ◌%◌, ◌^◌, ◌≤◌, ◌<◌, bit_xor, digits, differ, bit_xor-bitwise,
}
use mathlib.Core.Path.{◌≡◌, refl}
use mathlib.Core.Bool.{Bool, true}
use native.Mathlib.Nat.{pow-suc, one-le-pow}
use native.Mathlib.Omega.{arith}

-- The recursion on digits that `bit_xor` stands for, with its count of digits last.
abbrev xor_upto : ℕ → ℕ → ℕ → ℕ
xor_upto x y count = digits (λ rest. rest) differ count x y

-- Any count that is no smaller than the first number gives the same.
xor_upto-suc : (x y k l : ℕ) → suc x ≤ suc k → suc x ≤ suc l → xor_upto x y k ≡ xor_upto x y l
xor_upto-suc zero y zero zero h h' = refl
xor_upto-suc zero y zero (suc l) h h' = refl
xor_upto-suc zero y (suc k) zero h h' = refl
xor_upto-suc zero y (suc k) (suc l) h h' = refl
xor_upto-suc (suc x) y k zero h h' = absurd (omega arith)
xor_upto-suc (suc x) y zero (suc l) h h' = absurd (omega arith)
xor_upto-suc (suc x) y (suc k) (suc l) h h' =
    let halves = xor_upto-suc (suc x / 2) (y / 2) k l (omega arith) (omega arith) in
    omega (arith, halves)

zero-bit_xor : (b : ℕ) → bit_xor 0 b ≡ b
zero-bit_xor b = bit_xor-bitwise 0 b

differ-zero : (a : ℕ) → differ a 0 ≡ a
differ-zero zero = refl
differ-zero (suc a) = refl

-- The lowest digit of the exclusive or, and the rest.
pub bit_xor_step : (a b : ℕ) → bit_xor a b ≡ bit_xor (a / 2) (b / 2) * 2 + differ (a % 2) (b % 2)
bit_xor_step zero b = omega (arith, zero-bit_xor (b / 2), zero-bit_xor b)
bit_xor_step (suc a) b =
    let whole = bit_xor-bitwise (suc a) b in
    let half = bit_xor-bitwise (suc a / 2) (b / 2) in
    omega (
      arith,
      whole,
      half,
      xor_upto-suc (suc a / 2) (b / 2) a (suc a / 2) (omega arith) (omega arith),
    )

differ-lt : (a b : ℕ) → a < 2 → b < 2 → differ a b < 2
differ-lt zero b p q = q
differ-lt (suc zero) zero p q = omega arith
differ-lt (suc zero) (suc zero) p q = omega arith
differ-lt (suc zero) (suc (suc b)) p q = absurd (omega arith)
differ-lt (suc (suc a)) b p q = absurd (omega arith)

-- The exclusive or of two `k`-bit numbers has `k` bits.
pub bit_xor-lt : (k a b : ℕ) → a < 2 ^ k → b < 2 ^ k → bit_xor a b < 2 ^ k
bit_xor-lt zero zero b p q = omega (arith, zero-bit_xor b)
bit_xor-lt zero (suc a) b p q = absurd (omega arith)
bit_xor-lt (suc k) a b p q = omega (
  arith,
  pow-suc 2 k,
  bit_xor_step a b,
  differ-lt (a % 2) (b % 2) (omega arith) (omega arith),
  bit_xor-lt k (a / 2) (b / 2) (omega arith) (omega arith),
)

-- A test that every number below a bound passes.
unfoldable pub passes_below : (ℕ → Bool) → ℕ → Bool
passes_below test zero = true
passes_below test (suc bound) = if test bound then passes_below test bound else false

pub passes_below_at :
    (test : ℕ → Bool) (bound n : ℕ) → n < bound → passes_below test bound ≡ true → test n ≡ true
unfolding passes_below
passes_below_at test zero n below passed = absurd (omega arith)
passes_below_at test (suc bound) n below passed = ground (arith, passes_below_at test bound n)

differ_comm : (a b : ℕ) → differ a b ≡ differ b a
differ_comm zero zero = refl
differ_comm zero (suc b) = refl
differ_comm (suc a) zero = refl
differ_comm (suc a) (suc b) = differ_comm a b

bit_xor_comm_fuel : (n a b : ℕ) → a ≤ n → b ≤ n → bit_xor a b ≡ bit_xor b a
bit_xor_comm_fuel zero zero zero p q = refl
bit_xor_comm_fuel zero zero (suc b) p q = absurd (omega arith)
bit_xor_comm_fuel zero (suc a) b p q = absurd (omega arith)
bit_xor_comm_fuel (suc n) a b p q = omega (
  arith,
  bit_xor_step a b,
  bit_xor_step b a,
  differ_comm (a % 2) (b % 2),
  bit_xor_comm_fuel n (a / 2) (b / 2) (omega arith) (omega arith),
)

pub bit_xor_comm : (a b : ℕ) → bit_xor a b ≡ bit_xor b a
bit_xor_comm a b = bit_xor_comm_fuel (a + b) a b (omega arith) (omega arith)

double-mod : (p x d : ℕ) → 0 < p → d < 2 → (x * 2 + d) % (2 * p) ≡ x % p * 2 + d
double-mod p x d h k = grind arith

-- Truncation to `k` bits goes through the exclusive or.
pub bit_xor-mod : (k a b : ℕ) → bit_xor a b % 2 ^ k ≡ bit_xor (a % 2 ^ k) (b % 2 ^ k)
bit_xor-mod zero a b = ground arith
bit_xor-mod (suc k) a b = ground (
  arith,
  pow-suc 2 k,
  one-le-pow k 2,
  bit_xor_step a b,
  bit_xor_step (a % 2 ^ suc k) (b % 2 ^ suc k),
  differ-lt (a % 2) (b % 2),
  double-mod (2 ^ k) (bit_xor (a / 2) (b / 2)) (differ (a % 2) (b % 2)),
  double-mod (2 ^ k) (a / 2) (a % 2),
  double-mod (2 ^ k) (b / 2) (b % 2),
  bit_xor-mod k (a / 2) (b / 2),
)

bit_xor-double : (a b : ℕ) → bit_xor a (b * 2) ≡ bit_xor (a / 2) b * 2 + a % 2
bit_xor-double a b = ground (arith, bit_xor_step a (b * 2), differ-zero (a % 2))

-- A number shifted up by a byte leaves the low byte alone.
pub bit_xor_high : (a b : ℕ) → bit_xor a (b * 2 ^ 8) ≡ bit_xor (a / 2 ^ 8) b * 2 ^ 8 + a % 2 ^ 8
bit_xor_high a b = ground (
  arith,
  bit_xor-double a (b * 128),
  bit_xor-double (a / 2) (b * 64),
  bit_xor-double (a / 4) (b * 32),
  bit_xor-double (a / 8) (b * 16),
  bit_xor-double (a / 16) (b * 8),
  bit_xor-double (a / 32) (b * 4),
  bit_xor-double (a / 64) (b * 2),
  bit_xor-double (a / 128) b,
)
