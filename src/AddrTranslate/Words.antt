-- ===== src/AddrTranslate/Words.antt =====
-- The bit operations of addr_translate.c as arithmetic.
use cgroup_research.Prelude.{
  ℕ, zero, suc, ◌+◌, ◌*◌, ◌-◌, ◌/◌, ◌%◌, ◌^◌, ◌≤◌, ◌<◌, ◌≡◌, refl, sym, ◌∙◌, true, not, ◌&&◌, ◌||◌,
  ◌==◌, if◌then◌else◌, arith,
}
use native.Mathlib.Nat.{
  div-div-eq-div-mul, mod-eq-sub-mul-div, div-add-mod, one-le-pow, pow-suc, mul_assoc, mul_comm,
}
use cgroup_research.Prelude.Word.{word}
use cgroup_research.DramMapping.Bits.{and_bits, or_bits}
use cgroup_research.AddrTranslate.Pagemap.{
  Bytes, decode_u64_le, shift_left, has_bit, or_64, pagemap_pfn_mask,
}

and_bits-zero : (k a : ℕ) → and_bits k a 0 ≡ 0
unfolding and_bits
and_bits-zero zero a = refl
and_bits-zero (suc k) a = let h = and_bits-zero k (a / 2) in ground arith

div-double : (a x : ℕ) → a / (x * 2) ≡ a / 2 / x
div-double a x = rw (mul_comm x 2) (sym (div-div-eq-div-mul a 2 x))

double_lem : (x : ℕ) → (x * 2 % 2 ≡ 0) × (x * 2 / 2 ≡ x)
double_lem x = (omega arith, omega arith)

-- One bit of a word.
and_bits-bit : (k j a : ℕ) → j < k → (and_bits k a (2 ^ j) == 0) ≡ (a / 2 ^ j % 2 == 0)
unfolding and_bits
and_bits-bit zero j a h = elim h [ ]
and_bits-bit (suc k) zero a h = let z = and_bits-zero k (a / 2) in ground arith
and_bits-bit (suc k) (suc j) a h =
    let ih = and_bits-bit k j (a / 2) (omega arith) in
    let (even, half) = double_lem (2 ^ j) in
    rw (pow-suc 2 j, even, half, div-double a (2 ^ j), ← ih) (ground arith)

remainder_lem : (a p r m : ℕ) → p + r ≡ a / 2 → m ≡ a - 2 * p → m ≡ a % 2 + 2 * r
remainder_lem a p r m h k = omega arith

mod-double : (a x : ℕ) → a % (x * 2) ≡ a % 2 + 2 * (a / 2 % x)
mod-double a x =
    let product : x * 2 * (a / 2 / x) ≡ 2 * (x * (a / 2 / x)) =
      rw (mul_comm x 2) (mul_assoc 2 x (a / 2 / x)) in
    let left : a % (x * 2) ≡ a - 2 * (x * (a / 2 / x)) =
      mod-eq-sub-mul-div a (x * 2) ∙ rw (div-double a x, product) refl in
    remainder_lem a (x * (a / 2 / x)) (a / 2 % x) (a % (x * 2)) (div-add-mod (a / 2) x) left

odd_lem : (x : ℕ) → 1 ≤ x → ((x * 2 - 1) % 2 ≡ 1) × ((x * 2 - 1) / 2 ≡ x - 1)
odd_lem x h = (omega arith, omega arith)

low_bit : (a y : ℕ) → (if a % 2 == 1 && true then 1 else 0) + 2 * y ≡ a % 2 + 2 * y
low_bit a y = ground arith

-- The low bits of a word.
and_bits-low : (k j a : ℕ) → j ≤ k → and_bits k a (2 ^ j - 1) ≡ a % 2 ^ j
unfolding and_bits
and_bits-low k zero a h = and_bits-zero k a ∙ omega arith
and_bits-low zero (suc j) a h = elim h [ ]
and_bits-low (suc k) (suc j) a h =
    let (odd, half) = odd_lem (2 ^ j) (one-le-pow j 2 (omega arith)) in
    let ih = and_bits-low k j (a / 2) (omega arith) in
    rw (pow-suc 2 j, odd, half, ih, mod-double a (2 ^ j)) (low_bit a (a / 2 % 2 ^ j))

or_bits-zero : (k b : ℕ) → b < 2 ^ k → or_bits k 0 b ≡ b
unfolding or_bits
or_bits-zero zero b h = omega arith
or_bits-zero (suc k) b h =
    let room : b < 2 ^ k * 2 = rw (pow-suc 2 k) at h in
    let ih = or_bits-zero k (b / 2) (omega arith) in rw ih (ground arith)

high_bit :
    (a y : ℕ) → (if a % 2 == 1 || (y * 2 % 2 == 1) then 1 else 0) + 2 * (a / 2 + y) ≡ a + y * 2
high_bit a y = ground arith

or_bits-disjoint :
    (k j a b : ℕ) → j ≤ k → a < 2 ^ j → b * 2 ^ j < 2 ^ k → or_bits k a (b * 2 ^ j) ≡ a + b * 2 ^ j
unfolding or_bits
or_bits-disjoint k zero a b h l m =
    let none_there : a ≡ 0 = omega arith in rw none_there (or_bits-zero k (b * 1) m ∙ omega arith)
or_bits-disjoint zero (suc j) a b h l m = elim h [ ]
or_bits-disjoint (suc k) (suc j) a b h l m =
    let y = b * 2 ^ j in
    let shape : b * 2 ^ suc j ≡ y * 2 = rw (pow-suc 2 j) (sym (mul_assoc b (2 ^ j) 2)) in
    let room : a < 2 ^ j * 2 = rw (pow-suc 2 j) at l in
    let fits : y * 2 < 2 ^ k * 2 = rw (shape, pow-suc 2 k) at m in
    let (even, half) = double_lem y in
    let ih = or_bits-disjoint k j (a / 2) b (omega arith) (omega arith) (omega arith) in
    rw (shape, half, ih) (high_bit a y)

-- The number that eight bytes hold, the lowest first.
abbrev pub value : Bytes → ℕ
value b =
    b.b0
    + b.b1 * 2 ^ 8
    + b.b2 * 2 ^ 16
    + b.b3 * 2 ^ 24
    + b.b4 * 2 ^ 32
    + b.b5 * 2 ^ 40
    + b.b6 * 2 ^ 48
    + b.b7 * 2 ^ 56

pub record AreBytes (b : Bytes) : Type 0 where
  pub lt0 : b.b0 < 256
  pub lt1 : b.b1 < 256
  pub lt2 : b.b2 < 256
  pub lt3 : b.b3 < 256
  pub lt4 : b.b4 < 256
  pub lt5 : b.b5 < 256
  pub lt6 : b.b6 < 256
  pub lt7 : b.b7 < 256

or-byte :
    (i a b : ℕ) → i ≤ 64 → a < 2 ^ i → b * 2 ^ i < word → or_64 a (shift_left b i) ≡ a + b * 2 ^ i
or-byte i a b h l m =
    let whole : shift_left b i ≡ b * 2 ^ i = omega arith in
    rw whole (or_bits-disjoint 64 i a b h l m)

pub decode_u64_le-value : (b : Bytes) → AreBytes b → decode_u64_le b ≡ value b
unfolding decode_u64_le
decode_u64_le-value b k =
    let s1 =
      or-byte 8 (b.b0) b.b1 (omega arith) (omega (arith, k.lt0, k.lt1)) (omega (arith, k.lt1)) in
    let s2 =
      or-byte 16 (b.b0 + b.b1 * 2 ^ 8) b.b2 (omega arith) (omega (arith, k.lt0, k.lt1, k.lt2))
        (omega (arith, k.lt2)) in
    let s3 =
      or-byte 24 (b.b0 + b.b1 * 2 ^ 8 + b.b2 * 2 ^ 16) b.b3 (omega arith)
        (omega (arith, k.lt0, k.lt1, k.lt2, k.lt3)) (omega (arith, k.lt3)) in
    let s4 =
      or-byte 32 (b.b0 + b.b1 * 2 ^ 8 + b.b2 * 2 ^ 16 + b.b3 * 2 ^ 24) b.b4 (omega arith)
        (omega (arith, k.lt0, k.lt1, k.lt2, k.lt3, k.lt4)) (omega (arith, k.lt4)) in
    let s5 =
      or-byte 40 (b.b0 + b.b1 * 2 ^ 8 + b.b2 * 2 ^ 16 + b.b3 * 2 ^ 24 + b.b4 * 2 ^ 32) b.b5
        (omega arith) (omega (arith, k.lt0, k.lt1, k.lt2, k.lt3, k.lt4, k.lt5))
        (omega (arith, k.lt5)) in
    let s6 =
      or-byte 48
        (b.b0 + b.b1 * 2 ^ 8 + b.b2 * 2 ^ 16 + b.b3 * 2 ^ 24 + b.b4 * 2 ^ 32 + b.b5 * 2 ^ 40) b.b6
        (omega arith) (omega (arith, k.lt0, k.lt1, k.lt2, k.lt3, k.lt4, k.lt5, k.lt6))
        (omega (arith, k.lt6)) in
    let s7 =
      or-byte 56
        (b.b0
          + b.b1 * 2 ^ 8
          + b.b2 * 2 ^ 16
          + b.b3 * 2 ^ 24
          + b.b4 * 2 ^ 32
          + b.b5 * 2 ^ 40
          + b.b6 * 2 ^ 48)
        b.b7 (omega arith) (omega (arith, k.lt0, k.lt1, k.lt2, k.lt3, k.lt4, k.lt5, k.lt6, k.lt7))
        (omega (arith, k.lt7)) in
    rw (s1, s2, s3, s4, s5, s6, s7) refl

pub value-lt : (b : Bytes) → AreBytes b → value b < word
value-lt b k = omega (arith, k.lt0, k.lt1, k.lt2, k.lt3, k.lt4, k.lt5, k.lt6, k.lt7)

pub has_bit_lem : (i entry : ℕ) → i < 64 → has_bit i entry ≡ not (entry / 2 ^ i % 2 == 0)
has_bit_lem i entry h = rw (and_bits-bit 64 i entry h) refl

pub pfn_lem : (entry : ℕ) → and_bits 64 entry pagemap_pfn_mask ≡ entry % 2 ^ 55
pfn_lem entry = and_bits-low 64 55 entry (omega arith)

-- The i-th byte of a number.
abbrev pub byte : ℕ → ℕ → ℕ
byte i n = n / 2 ^ (8 * i) % 256

-- The eight bytes of a number, the lowest first, as the kernel writes them.
abbrev pub bytes_of : ℕ → Bytes
bytes_of n = record {
  b0 = byte 0 n;
  b1 = byte 1 n;
  b2 = byte 2 n;
  b3 = byte 3 n;
  b4 = byte 4 n;
  b5 = byte 5 n;
  b6 = byte 6 n;
  b7 = byte 7 n;
}

-- A 64-bit number written as eight bytes, the lowest first, is decoded back to itself.
pub decode_u64_le-bytes_of : (n : ℕ) → n < word → decode_u64_le (bytes_of n) ≡ n
decode_u64_le-bytes_of n h =
    let small : AreBytes (bytes_of n) = record {
      lt0 = omega arith;
      lt1 = omega arith;
      lt2 = omega arith;
      lt3 = omega arith;
      lt4 = omega arith;
      lt5 = omega arith;
      lt6 = omega arith;
      lt7 = omega arith;
    } in
    decode_u64_le-value (bytes_of n) small ∙ omega arith
