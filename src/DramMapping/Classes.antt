-- ===== src/DramMapping/Classes.antt =====
-- Bank classes: `dram_mapping_same_bank_class` against `dram_mapping_bank_class`.
use cgroup_research.Prelude.{
  ℕ, suc, ◌+◌, ◌*◌, ◌%◌, ◌^◌, ◌≤◌, ◌<◌, ◌≡◌, refl, ◌↔◌, Bool, true, not, ap₂, false, some, List, [],
  ◌∷◌, length, ◌==◌, if◌then◌else◌, arith,
}
use cgroup_research.Prelude.Word.{word}
use cgroup_research.DramMapping.Bits.{
  and_bits, or_bits, xor_bits, parity_bits-lt, parity_bits-xor_bits, pow_lt, or_bits-above,
}
use cgroup_research.DramMapping.Mapping.{
  max_masks, MappingRc, DramMapping, parity64, is_ready, class_from, bank_class_fast, bank_class,
  no_mask_differs, same_bank_class,
}

parity64-lt : (n : ℕ) → parity64 n < 2
unfolding parity64
parity64-lt n = parity_bits-lt 64 n

parity64-xor_bits :
    (pa pb m : ℕ)
    → parity64 (and_bits 64 (xor_bits 64 pa pb) m)
      ≡ (parity64 (and_bits 64 pa m) + parity64 (and_bits 64 pb m)) % 2
unfolding parity64
parity64-xor_bits pa pb m = parity_bits-xor_bits 64 pa pb m

bit_fits : (b p k : ℕ) → b < 2 → p < k → b * p < k
bit_fits ℕ.zero p k l h = omega arith
bit_fits (suc ℕ.zero) p k l h = omega arith
bit_fits (suc (suc b)) p k l h = omega arith

-- A turn of the loop adds the bit of its mask.
added :
    (acc i b : ℕ)
    → i < 64
    → acc < 2 ^ i
    → b < 2
    → or_bits 64 acc ((b * 2 ^ i) % word) ≡ acc + b * 2 ^ i
added acc i b h l m =
    let fits : b * 2 ^ i < word = bit_fits b (2 ^ i) word m (pow_lt i 64 h) in
    let kept : (b * 2 ^ i) % word ≡ b * 2 ^ i = omega arith in
    rw kept (or_bits-above 64 i acc b h l m)

added-lt : (acc p b : ℕ) → acc < p → b < 2 → acc + b * p < 2 * p
added-lt acc p ℕ.zero h l = omega arith
added-lt acc p (suc ℕ.zero) h l = omega arith
added-lt acc p (suc (suc b)) h l = omega arith

-- The sum tells its two parts.
added-injective :
    (x y p b c : ℕ) → x < p → y < p → b < 2 → c < 2 → x + b * p ≡ y + c * p → (x ≡ y) × (b ≡ c)
added-injective x y p ℕ.zero ℕ.zero h k l m e = ground arith
added-injective x y p ℕ.zero (suc ℕ.zero) h k l m e = ground arith
added-injective x y p (suc ℕ.zero) ℕ.zero h k l m e = ground arith
added-injective x y p (suc ℕ.zero) (suc ℕ.zero) h k l m e = ground arith
added-injective x y p (suc (suc b)) c h k l m e = ground arith
added-injective x y p b (suc (suc c)) h k l m e = ground arith

pow_next : (i : ℕ) → 2 ^ suc i ≡ 2 * 2 ^ i
pow_next i = omega arith

class_from-lt :
    (pa acc i : ℕ) (ms : List ℕ)
    → i + length ms ≤ 64
    → acc < 2 ^ i
    → class_from pa acc i ms < 2 ^ (i + length ms)
unfolding class_from
class_from-lt pa acc i [] h l = let e : i + length {A = ℕ} [] ≡ i = omega arith in rw e l
class_from-lt pa acc i (m ∷ ms) h l =
    let b = parity64 (and_bits 64 pa m) in
    let small = parity64-lt (and_bits 64 pa m) in
    let next : acc + b * 2 ^ i < 2 ^ suc i = rw (pow_next i) (added-lt acc (2 ^ i) b l small) in
    let ih = class_from-lt pa (acc + b * 2 ^ i) (suc i) ms (omega arith) next in
    let e : i + length (m ∷ ms) ≡ suc i + length ms = omega arith in
    rw (added acc i b (omega arith) l small, e) ih

undecided :
    (b c : ℕ) (rest : Bool)
    → b < 2
    → c < 2
    → (if not ((b + c) % 2 == 0) then false else rest) ≡ true
    → (rest ≡ true) × (b ≡ c)
undecided b c rest h k e = ground arith

-- Two runs of the loop end alike exactly when they started alike and no mask tells the addresses
-- apart.
class_from_iff :
    (pa pb x y i : ℕ) (ms : List ℕ)
    → i + length ms ≤ 64
    → x < 2 ^ i
    → y < 2 ^ i
    → (class_from pa x i ms ≡ class_from pb y i ms)
      ↔ ((x ≡ y) × (no_mask_differs (xor_bits 64 pa pb) ms ≡ true))
unfolding class_from no_mask_differs
class_from_iff pa pb x y i [] h l k = ground arith
class_from_iff pa pb x y i (m ∷ ms) h l k =
    let b = parity64 (and_bits 64 pa m) in
    let c = parity64 (and_bits 64 pb m) in
    let small = parity64-lt (and_bits 64 pa m) in
    let small' = parity64-lt (and_bits 64 pb m) in
    let next : x + b * 2 ^ i < 2 ^ suc i = rw (pow_next i) (added-lt x (2 ^ i) b l small) in
    let next' : y + c * 2 ^ i < 2 ^ suc i = rw (pow_next i) (added-lt y (2 ^ i) c k small') in
    let (to, back) =
      class_from_iff pa pb (x + b * 2 ^ i) (y + c * 2 ^ i) (suc i) ms (omega arith) next next' in
    rw
      (
        added x i b (omega arith) l small,
        added y i c (omega arith) k small',
        parity64-xor_bits pa pb m,
      )
      (
        λ e.
            let (sums, rest) = to e in
            let (starts, bits) = added-injective x y (2 ^ i) b c l k small small' sums in
            (starts, ground arith),
        λ h.
            let (rest, bits) =
              undecided b c (no_mask_differs (xor_bits 64 pa pb) ms) small small' h.1 in
            back (ap₂ (λ u v. u + v * 2 ^ i) h.0 bits, rest),
      )

-- `dram_mapping_same_bank_class` decides whether `dram_mapping_bank_class` gives two addresses the
-- same class: for a mapping that is ready both succeed, and the answer is true exactly when the
-- classes are equal.
pub same_bank_class_iff :
    (mapping : DramMapping) (pa1 pa2 : ℕ) (out : Bool) (out1 out2 : ℕ)
    → is_ready mapping ≡ true
    → length mapping.masks ≤ max_masks
    → let (rc, same) = same_bank_class (some mapping) pa1 pa2 out in
      let (rc1, class1) = bank_class (some mapping) pa1 out1 in
      let (rc2, class2) = bank_class (some mapping) pa2 out2 in
      (rc ≡ MappingRc.ok)
      × (rc1 ≡ MappingRc.ok)
      × (rc2 ≡ MappingRc.ok)
      × ((same ≡ true) ↔ (class1 ≡ class2))
unfolding same_bank_class bank_class bank_class_fast
same_bank_class_iff mapping pa1 pa2 out out1 out2 r b =
    let (to, back) =
      class_from_iff pa1 pa2 0 0 0 mapping.masks (omega arith) (omega arith) (omega arith) in
    rw r (refl, refl, refl, (λ h. back (refl, h), λ h. (to h).1))

-- The class of an address is a number of as many bits as the mapping has masks.
pub bank_class-lt :
    (mapping : DramMapping) (pa out : ℕ)
    → is_ready mapping ≡ true
    → length mapping.masks ≤ max_masks
    → let (rc, class) = bank_class (some mapping) pa out in
      (rc ≡ MappingRc.ok) × (class < 2 ^ length mapping.masks)
unfolding bank_class bank_class_fast
bank_class-lt mapping pa out r b =
    let bound = class_from-lt pa 0 0 mapping.masks (omega arith) (omega arith) in
    let all : 0 + length mapping.masks ≡ length mapping.masks = omega arith in
    rw r (refl, rw all at bound)
