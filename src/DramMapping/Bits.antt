-- ===== src/DramMapping/Bits.antt =====
-- The bit operations of dram_mapping.c on words of `k` bits, the lowest bit first.
use cgroup_research.Prelude.{
  ℕ, Bool, zero, suc, ◌+◌, ◌*◌, ◌/◌, ◌%◌, ◌^◌, ◌<◌, ◌≡◌, refl, ◌&&◌, ◌||◌, ◌==◌, if◌then◌else◌,
  arith,
}

-- a & b
unfoldable pub and_bits : ℕ → ℕ → ℕ → ℕ
and_bits zero a b = 0
and_bits (suc k) a b = (if a % 2 == 1 && b % 2 == 1 then 1 else 0) + 2 * and_bits k (a / 2) (b / 2)

-- a | b
unfoldable pub or_bits : ℕ → ℕ → ℕ → ℕ
or_bits zero a b = 0
or_bits (suc k) a b = (if a % 2 == 1 || b % 2 == 1 then 1 else 0) + 2 * or_bits k (a / 2) (b / 2)

-- a ^ b
unfoldable pub xor_bits : ℕ → ℕ → ℕ → ℕ
xor_bits zero a b = 0
xor_bits (suc k) a b = (if a % 2 == b % 2 then 0 else 1) + 2 * xor_bits k (a / 2) (b / 2)

-- The number of bits that are 1, modulo 2.
unfoldable pub parity_bits : ℕ → ℕ → ℕ
parity_bits zero a = 0
parity_bits (suc k) a = (a % 2 + parity_bits k (a / 2)) % 2

pub parity_bits-lt : (k a : ℕ) → parity_bits k a < 2
unfolding parity_bits
parity_bits-lt zero a = omega arith
parity_bits-lt (suc k) a = omega arith

-- The lowest bit and the rest of a word.
half_lem : (h y : ℕ) → h < 2 → (h + 2 * y) / 2 ≡ y
half_lem h y l = omega arith

low_lem : (h y : ℕ) → h < 2 → (h + 2 * y) % 2 ≡ h
low_lem h y l = omega arith

parity_bits-step : (k h y : ℕ) → h < 2 → parity_bits (suc k) (h + 2 * y) ≡ (h + parity_bits k y) % 2
unfolding parity_bits
parity_bits-step k h y l = rw (half_lem h y l, low_lem h y l) refl

and_bits-step :
    (k h y b : ℕ)
    → h < 2
    → and_bits (suc k) (h + 2 * y) b
      ≡ (if h == 1 && b % 2 == 1 then 1 else 0) + 2 * and_bits k y (b / 2)
unfolding and_bits
and_bits-step k h y b l = rw (half_lem h y l, low_lem h y l) refl

and_bits_lem :
    (k a b : ℕ)
    → and_bits (suc k) a b
      ≡ (if a % 2 == 1 && b % 2 == 1 then 1 else 0) + 2 * and_bits k (a / 2) (b / 2)
unfolding and_bits
and_bits_lem k a b = refl

-- Parity turns the difference of two words, seen through a mask, into the difference of parities.
pub parity_bits-xor_bits :
    (k a b m : ℕ)
    → parity_bits k (and_bits k (xor_bits k a b) m)
      ≡ (parity_bits k (and_bits k a m) + parity_bits k (and_bits k b m)) % 2
unfolding xor_bits
parity_bits-xor_bits zero a b m = unfold parity_bits in refl
parity_bits-xor_bits (suc k) a b m =
    let x = xor_bits k (a / 2) (b / 2) in
    let u = and_bits k (a / 2) (m / 2) in
    let v = and_bits k (b / 2) (m / 2) in
    let ih = parity_bits-xor_bits k (a / 2) (b / 2) (m / 2) in
    let odd : Bool = m % 2 == 1 in
    let d : ℕ = if a % 2 == b % 2 then 0 else 1 in
    let low : ℕ = if d == 1 && odd then 1 else 0 in
    let left : ℕ = if a % 2 == 1 && odd then 1 else 0 in
    let right : ℕ = if b % 2 == 1 && odd then 1 else 0 in
    rw
      (
        and_bits-step k d x m (ground arith),
        parity_bits-step k low (and_bits k x (m / 2)) (ground arith),
        ih,
      )
      (ground (
        arith,
        and_bits_lem k a m,
        and_bits_lem k b m,
        parity_bits-step k left u (ground arith),
        parity_bits-step k right v (ground arith),
      ))

-- 2 ^ (i + 1)
pow_suc : (i : ℕ) → 2 ^ suc i ≡ 2 * 2 ^ i
pow_suc i = omega arith

pub pow-positive : (i : ℕ) → 0 < 2 ^ i
pow-positive zero = omega arith
pow-positive (suc i) = omega (arith, pow-positive i)

pub pow_lt : (i k : ℕ) → i < k → 2 ^ i < 2 ^ k
pow_lt zero zero h = elim h [ ]
pow_lt (suc i) zero h = elim h [ ]
pow_lt zero (suc k) h = omega (arith, pow-positive k)
pow_lt (suc i) (suc k) h = omega (arith, pow_lt i k)

shift_half : (b p : ℕ) → b < 2 → b * (2 * p) / 2 ≡ b * p
shift_half zero p l = omega arith
shift_half (suc zero) p l = omega arith
shift_half (suc (suc b)) p l = omega arith

shift_even : (b p : ℕ) → b < 2 → (b * (2 * p)) % 2 ≡ 0
shift_even zero p l = omega arith
shift_even (suc zero) p l = omega arith
shift_even (suc (suc b)) p l = omega arith

shift_double : (b p : ℕ) → b < 2 → b * (2 * p) ≡ 2 * (b * p)
shift_double zero p l = omega arith
shift_double (suc zero) p l = omega arith
shift_double (suc (suc b)) p l = omega arith

or_bits-zero : (k a b : ℕ) → a ≡ 0 → b ≡ 0 → or_bits k a b ≡ 0
unfolding or_bits
or_bits-zero zero a b h l = refl
or_bits-zero (suc k) a b h l =
    ground (arith, or_bits-zero k (a / 2) (b / 2) (omega arith) (omega arith))

-- Setting a bit above all the bits that are there adds it.
pub or_bits-above :
    (k i a b : ℕ) → i < k → a < 2 ^ i → b < 2 → or_bits k a (b * 2 ^ i) ≡ a + b * 2 ^ i
unfolding or_bits
or_bits-above zero i a b h l m = elim h [ ]
or_bits-above (suc k) zero a b h l m =
    rw (or_bits-zero k (a / 2) (b * 1 / 2) (omega arith) (omega arith)) (ground arith)
or_bits-above (suc k) (suc i) a b h l m =
    let p = 2 ^ i in
    let half : b * 2 ^ suc i / 2 ≡ b * p = rw (pow_suc i) (shift_half b p m) in
    let even : (b * 2 ^ suc i) % 2 ≡ 0 = rw (pow_suc i) (shift_even b p m) in
    let ih = or_bits-above k i (a / 2) b (omega arith) (omega (arith, l)) m in
    let double : b * 2 ^ suc i ≡ 2 * (b * p) = rw (pow_suc i) (shift_double b p m) in
    rw (half, even, ih, double) (ground arith)
