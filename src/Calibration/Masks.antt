-- ===== src/Calibration/Masks.antt =====
-- calibration.c: numbers, and the array of the masks.
use cgroup_research.Prelude.{
  ℕ, zero, suc, ◌≡◌, arith, ◌+◌, ◌-◌, ◌*◌, ◌%◌, Bool, true, false, not, ◌&&◌, ◌||◌, Option, none,
  some, List, [], ◌∷◌, ◌++◌, length, ltb, leb, ◌==◌, if◌then◌else◌,
}
use cgroup_research.Prelude.Word.{Text, word}
use cgroup_research.BankProfile.Sampling.{char_at}
use cgroup_research.Activity.Stat.{is_space, from}
use cgroup_research.Calibration.Json.{Cursor, find_key_value, c_string}

-- `enum calibration_rc`
pub data CalibrationRc : Type 0 where
  ok invalid_arg fork_failed wait_failed timeout worker_exit io json rejected : CalibrationRc
  too_many_masks : CalibrationRc

-- CALIBRATION_MAX_BANK_MASKS
abbrev pub max_bank_masks : ℕ
max_bank_masks = 32

-- The value of a digit or a letter; 99 is no digit of any base.
abbrev pub digit_value : ℕ → ℕ
digit_value c =
    if leb 48 c && leb c 57
    then c - 48
    else if leb 97 c && leb c 122
    then c - 87
    else if leb 65 c && leb c 90
    then c - 55
    else 99

-- The digits in front of a text, after those that have the value `v`.
unfoldable pub read_in_base : ℕ → ℕ → Text → ℕ × Text
read_in_base base v [] = (v, [])
read_in_base base v (c ∷ s) =
    let more = read_in_base base (v * base + digit_value c) s in
    if ltb (digit_value c) base then more else (v, c ∷ s)

-- The value, negated modulo 2^64 behind a minus; `none` where errno is set.
abbrev pub word_of : Bool → ℕ × Text → Option (ℕ × Text)
word_of negative (v, rest) =
    if leb word v then none else some (if negative then (word - v) % word else v, rest)

-- After the sign, in a base that is not 0: `none` where there is no digit.
unfoldable pub read_word : Bool → ℕ → Text → Option (ℕ × Text)
unfolding read_in_base
read_word negative base [] = none
read_word negative base (c ∷ s) =
    if ltb (digit_value c) base then word_of negative (read_in_base base 0 (c ∷ s)) else none

-- 48 is '0', 120 is 'x' and 88 is 'X'. A prefix counts where a digit follows it.
abbrev pub is_hex_prefix : Text → Bool
is_hex_prefix s =
    char_at s 0 == 48
    && (char_at s 1 == 120 || char_at s 1 == 88)
    && ltb (digit_value (char_at s 2)) 16

-- After the sign: base 0 stands for the base that the prefix says.
unfoldable pub read_based : Bool → ℕ → Text → Option (ℕ × Text)
unfolding read_word
read_based negative base s =
    if not (base == 0)
    then read_word negative base s
    else if is_hex_prefix s
    then read_word negative 16 (from 2 s)
    else if char_at s 0 == 48
    then read_word negative 8 s
    else read_word negative 10 s

-- `strtoull`: the number and the text behind it; `none` where nothing is converted or errno is set.
-- 45 is '-' and 43 is '+'.
unfoldable pub strtoull : ℕ → Text → Option (ℕ × Text)
unfolding read_based
strtoull base [] = none
strtoull base (c ∷ s) =
    let rest = strtoull base s in
    if is_space c
    then rest
    else if c == 45
    then read_based true base s
    else if c == 43
    then read_based false base s
    else read_based false base (c ∷ s)

-- `endptr > range.end`, where `used` bytes come before endptr.
abbrev pub in_range : {A : Type 0} → Cursor → ℕ → A → Option A
in_range p used value = if ltb p.left used then none else some value

abbrev pub u64_of : Cursor → Option (ℕ × Text) → Option ℕ
u64_of p none = none
u64_of p (some (value, rest)) = in_range p (length p.text - length rest) value

abbrev pub u64_at : Option Cursor → Option ℕ
u64_at none = none
u64_at (some p) = u64_of p (strtoull 10 p.text)

unfoldable pub extract_u64 : Cursor → Text → Option ℕ
unfolding find_key_value strtoull
extract_u64 range key = u64_at (find_key_value range key)

abbrev pub double_of : {W : Type 0} → Cursor → Option (W × ℕ) → Option W
double_of p none = none
double_of p (some (value, used)) = in_range p used value

abbrev pub double_at : {W : Type 0} → (Text → Option (W × ℕ)) → Option Cursor → Option W
double_at strtod none = none
double_at strtod (some p) = double_of p (strtod p.text)

-- `strtod` gives the value and how many bytes it used, or none where it converts nothing or sets errno.
unfoldable pub extract_double : {W : Type 0} → (Text → Option (W × ℕ)) → Cursor → Text → Option W
unfolding find_key_value
extract_double strtod range key = double_at strtod (find_key_value range key)

abbrev pub whole_mask : Option (ℕ × Text) → Option ℕ
whole_mask none = none
whole_mask (some (mask, [])) = if mask == 0 then none else some mask
whole_mask (some (mask, c ∷ rest)) = none

-- The mask that a string says; `none` is CALIBRATION_ERR_JSON.
unfoldable pub mask_of : Text → Option ℕ
unfolding strtoull c_string
mask_of text = whole_mask (strtoull 0 (c_string text))

-- The end of a string: its mask, if there is room for it.
unfoldable pub add_mask : List ℕ → Text → CalibrationRc × List ℕ
unfolding mask_of
add_mask masks text =
    if leb max_bank_masks (length masks)
    then (CalibrationRc.too_many_masks, masks)
    else elim (mask_of text) [
      | none ↦ (CalibrationRc.json, masks)
      | some mask ↦ (CalibrationRc.ok, masks ++ (mask ∷ []))
    ]

abbrev pub is_success : CalibrationRc → Bool
is_success CalibrationRc.ok = true
is_success _ = false

pub is_success-ok : (rc : CalibrationRc) → is_success rc ≡ true → rc ≡ CalibrationRc.ok
is_success-ok rc h = ground arith

pub not_success : (rc : CalibrationRc) → is_success rc ≡ false → rc ≡ CalibrationRc.ok → ⊥
not_success rc h e = cc (rw e at h)

-- The two loops in one scan: between the strings, or in one whose bytes so far are `text`. 44 is ','.
unfoldable pub scan_masks : Option Text → ℕ → Text → List ℕ → CalibrationRc × List ℕ
unfolding add_mask
scan_masks none zero s masks =
    (if length masks == 0 then CalibrationRc.rejected else CalibrationRc.ok, masks)
scan_masks (some text) zero s masks = (CalibrationRc.json, masks)
scan_masks state (suc left) [] masks = (CalibrationRc.json, masks)
scan_masks none (suc left) (c ∷ s) masks =
    let further = scan_masks none left s masks in
    let opened = scan_masks (some []) left s masks in
    if is_space c || c == 44
    then further
    else if c == 34
    then opened
    else (CalibrationRc.json, masks)
scan_masks (some text) (suc left) (c ∷ s) masks =
    let (rc, masks') = add_mask masks text in
    let closed = scan_masks none left s masks' in
    let longer = scan_masks (some (text ++ (c ∷ []))) left s masks in
    if c == 34
    then (if is_success rc then closed else (rc, masks'))
    else if leb 63 (length text)
    then (CalibrationRc.json, masks)
    else longer

-- From behind the bracket that opens the array up to the one that closes it.
unfoldable pub parse_bank_masks : Cursor → CalibrationRc × List ℕ
unfolding scan_masks
parse_bank_masks array = scan_masks none (array.left - 2) (from 1 array.text) []
